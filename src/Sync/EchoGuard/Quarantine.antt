-- ===== src/Sync/EchoGuard/Quarantine.antt =====
-- The rate limit of backend/sync/echo-guard.ts: what trips it, what keeps it, what it remembers.
use text.Mathlib.TextPositions.{eq_refl}
use cnc_network_bridge.Base.{
  ℕ, ◌++◌, ◌≤◌, ◌≡◌, refl, String, true, false, ◌&&◌, ◌||◌, none, List, [], ◌∷◌, length, All, has,
  get, put, remove, get-put, get-remove, put-IsMap, remove-IsMap, IsMap, is_some, string_eq, str_eq,
  arith, or_else, leb, not, ap, length-append,
}
use cnc_network_bridge.Sync.EchoGuard.{
  EchoGuard, EchoGuardOptions, QuarantineEvent, create, record_sync, release, evict_oldest, expect,
  should_drop, prune_expired, recent, clear,
}
use cnc_network_bridge.Sync.EchoGuard.History.{
  Event, expects, observes, syncs, releases, prunes, clears, step, run,
}

-- Every event but a release of the path and a clearing of the guard.
abbrev pub Keeps : String → ℕ × Event → Type 0
Keeps p (now, releases q) = str_eq q p ≡ false
Keeps p (now, clears) = ⊥
Keeps p (now, _) = Unit

-- The entry that a tripping sync makes.
abbrev quarantine_of : String → ℕ → EchoGuard → QuarantineEvent
quarantine_of q now g = record {
  path = q;
  syncs_in_window = length (recent g now (or_else (get q g.sync_times) []) ++ now ∷ []);
  window_ms = g.window_ms;
  at = now;
}

record_sync-has :
    (p q : String) (now : ℕ) (g : EchoGuard)
    → has p g.quarantined ≡ true
    → has p (record_sync q now g).guard.quarantined ≡ true
unfolding record_sync
record_sync-has p q now g h = ground (arith, get-put q p (quarantine_of q now g) g.quarantined)

record_sync-IsMap :
    (q : String) (now : ℕ) (g : EchoGuard)
    → IsMap g.quarantined
    → IsMap (record_sync q now g).guard.quarantined
unfolding record_sync
record_sync-IsMap q now g m = ground (arith, put-IsMap q (quarantine_of q now g) g.quarantined m)

-- The quarantined paths are those of a map, and this one is among them.
record IsHeld (p : String) (g : EchoGuard) : Type 0 where
  map : IsMap g.quarantined
  held : has p g.quarantined ≡ true

step-IsHeld :
    (p : String) (now : ℕ) (e : Event) (g : EchoGuard)
    → Keeps p (now, e)
    → IsHeld p g
    → IsHeld p (step now e g)
unfolding step expect should_drop prune_expired release
step-IsHeld p now (expects w) g k h = record { map = h.map; held = h.held }
step-IsHeld p now (observes e) g k h = ground (arith, h.map, h.held)
step-IsHeld p now (syncs q) g k h = record {
  map = record_sync-IsMap q now g h.map;
  held = record_sync-has p q now g h.held;
}
step-IsHeld p now (releases q) g k h = record {
  map = remove-IsMap q g.quarantined h.map;
  held = rw (get-remove q p g.quarantined h.map, k) h.held;
}
step-IsHeld p now clears g k h = absurd k
step-IsHeld p now prunes g k h = record { map = h.map; held = h.held }

run-IsHeld :
    (p : String) (es : List (ℕ × Event)) (g : EchoGuard)
    → All (Keeps p) es
    → IsHeld p g
    → IsHeld p (run es g)
unfolding run
run-IsHeld p [] g k h = h
run-IsHeld p ((now, e) ∷ es) g (k, ks) h = run-IsHeld p es _ ks (step-IsHeld p now e g k h)

record_sync_held :
    (p : String) (now : ℕ) (g : EchoGuard)
    → has p g.quarantined ≡ true
    → record_sync p now g ≡ record { guard = g; tripped = true; alert = none }
unfolding record_sync
record_sync_held p now g h = rw h

record_sync_trips :
    (p : String) (now : ℕ) (g : EchoGuard)
    → (record_sync p now g).tripped ≡ true
    → has p (record_sync p now g).guard.quarantined ≡ true
unfolding record_sync
record_sync_trips p now g h =
    ground (arith, get-put p p (quarantine_of p now g) g.quarantined, eq_refl p)

-- Once a sync has tripped the limit, every later sync of the path is refused too, with no further
-- alert and nothing recorded, whatever else happens, until the path is released or the guard is cleared.
pub quarantine_stays :
    (p : String) (at now : ℕ) (es : List (ℕ × Event)) (g : EchoGuard)
    → IsMap g.quarantined
    → (record_sync p at g).tripped ≡ true
    → All (Keeps p) es
    → let g' = run es (record_sync p at g).guard in
      record_sync p now g' ≡ record { guard = g'; tripped = true; alert = none }
quarantine_stays p at now es g m t k =
    let start : IsHeld p (record_sync p at g).guard = record {
      map = record_sync-IsMap p at g m;
      held = record_sync_trips p at g t;
    } in
    record_sync_held p now _ (run-IsHeld p es _ k start).held

length-evict_oldest-le :
    (most : ℕ) (d : List (String × List ℕ)) → length (evict_oldest most d) ≤ most
unfolding evict_oldest
length-evict_oldest-le most [] = omega arith
length-evict_oldest-le most (e ∷ d) = ground (arith, length-evict_oldest-le most d)

length-remove-le : (k : String) (d : List (String × List ℕ)) → length (remove k d) ≤ length d
unfolding remove
length-remove-le k [] = omega arith
length-remove-le k ((j, w) ∷ d) = ground (arith, length-remove-le k d)

step-tracked :
    (now : ℕ) (e : Event) (g : EchoGuard)
    → length g.sync_times ≤ g.max_tracked_paths
    → (length (step now e g).sync_times ≤ g.max_tracked_paths)
      × ((step now e g).options ≡ g.options)
unfolding step expect should_drop prune_expired release record_sync clear
step-tracked now (expects w) g h = (h, refl)
step-tracked now (observes e) g h = ground arith
step-tracked now (syncs q) g h = ground (
  arith,
  length-evict_oldest-le g.max_tracked_paths
      (put q (recent g now (or_else (get q g.sync_times) []) ++ now ∷ []) (remove q g.sync_times)),
)
step-tracked now (releases q) g h = (omega (arith, length-remove-le q g.sync_times), refl)
step-tracked now prunes g h = (h, refl)
step-tracked now clears g h = (omega arith, refl)

run-tracked_from :
    (es : List (ℕ × Event)) (g : EchoGuard)
    → length g.sync_times ≤ g.max_tracked_paths
    → length (run es g).sync_times ≤ g.max_tracked_paths
unfolding run
run-tracked_from [] g h = h
run-tracked_from ((now, e) ∷ es) g h =
    let (le, same) = step-tracked now e g h in
    let cap = ap (λ (o : EchoGuardOptions). o.max_tracked_paths) same in
    omega (arith, run-tracked_from es (step now e g) (omega arith))

-- Whatever happens, no more than `maxTrackedPaths` paths have their syncs remembered.
pub run-tracked :
    (o : EchoGuardOptions) (es : List (ℕ × Event))
    → length (run es (create o)).sync_times ≤ o.max_tracked_paths
unfolding create
run-tracked o es = run-tracked_from es (create o) (omega arith)

-- A sync is refused exactly if the path is quarantined or this is more syncs than the limit within the
-- window among those remembered; and it raises the alert exactly if it is the one that trips.
pub record_sync_iff :
    (p : String) (now : ℕ) (g : EchoGuard)
    → let within = length (recent g now (or_else (get p g.sync_times) [])) in
      ((record_sync p now g).tripped ≡ (has p g.quarantined || leb g.max_syncs_per_window within))
      × (is_some (record_sync p now g).alert
          ≡ (not (has p g.quarantined) && leb g.max_syncs_per_window within))
unfolding record_sync
record_sync_iff p now g =
    ground (arith, length-append (recent g now (or_else (get p g.sync_times) [])) (now ∷ []))
