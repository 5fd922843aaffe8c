-- ===== src/Sync/EchoGuard/Expectations.antt =====
-- `shouldDrop` of backend/sync/echo-guard.ts against the history of the declared writes.
use cnc_network_bridge.Base.{
  ℕ, ◌+◌, ◌≤◌, ◌≡◌, refl, ap, ◌∙◌, String, Bool, ◌&&◌, ◌||◌, Option, none, some, List, [], ◌∷◌, ltb,
  or_else, and_then, any_of, any_of-append, filter_by, or_else-unless_empty, IsMap, get, get-put,
  put-IsMap, get-update_all, update_all-IsMap, string_eq, str_eq, eq_iff, arith, inl, inr,
  Bool-cases,
}
use cnc_network_bridge.Sync.EchoGuard.History.{
  Event, expects, observes, syncs, releases, prunes, clears, step, run, declared,
}
use cnc_network_bridge.Sync.EchoGuard.{
  EchoGuard, EchoGuardOptions, ExpectedWrite, ObservedEvent, Expectation, create, expect, is_live,
  live_or_gone, prune_expired, fits, should_drop, record_sync, release, clear,
}

-- The times do not fall from `last` on, and end at `end` at the latest.
abbrev pub InOrder : ℕ → ℕ → List (ℕ × Event) → Type 0
InOrder last end [] = last ≤ end
InOrder last end ((now, e) ∷ es) = (last ≤ now) × InOrder now end es

-- An event is an echo of a write to its path, of its size and near its time, that was declared less
-- than a lifetime ago.
abbrev pub is_echo : EchoGuardOptions → ObservedEvent → ℕ → ℕ × ExpectedWrite → Bool
is_echo o e now (at, w) =
    str_eq w.path e.path
    && (ltb now (at + o.ttl_ms) && fits o.mtime_tolerance_ms e w.size w.mtime_ms)

abbrev live_fit : EchoGuardOptions → ObservedEvent → ℕ → Expectation → Bool
live_fit o e now c = ltb now c.expires_at && fits o.mtime_tolerance_ms e c.size c.mtime_ms

abbrev entries : EchoGuard → String → List Expectation
entries g path = or_else (get path g.expectations) []

any_of-filter_live :
    (o : EchoGuardOptions) (e : ObservedEvent) (n m : ℕ) (cs : List Expectation)
    → n ≤ m
    → any_of (live_fit o e m) (filter_by (is_live n) cs) ≡ any_of (live_fit o e m) cs
any_of-filter_live o e n m [] h = refl
any_of-filter_live o e n m (c ∷ cs) h = ground (arith, any_of-filter_live o e n m cs h)

any_of_live :
    (o : EchoGuardOptions) (e : ObservedEvent) (n : ℕ) (cs : List Expectation)
    → any_of
        (λ (c : Expectation). fits o.mtime_tolerance_ms e c.size c.mtime_ms)
        (filter_by (is_live n) cs)
      ≡ any_of (live_fit o e n) cs
any_of_live o e n [] = refl
any_of_live o e n (c ∷ cs) = ground (arith, any_of_live o e n cs)

entries-prune :
    (now : ℕ) (g : EchoGuard) (path : String)
    → IsMap g.expectations
    → entries (prune_expired now g) path ≡ filter_by (is_live now) (entries g path)
unfolding prune_expired
entries-prune now g path m =
    rw (get-update_all (live_or_gone now) path g.expectations m)
      (gone_or_live (get path g.expectations))
  where
    gone_or_live :
        (x : Option (List Expectation))
        → or_else (and_then x (live_or_gone now)) [] ≡ filter_by (is_live now) (or_else x [])
    gone_or_live none = refl
    gone_or_live (some cs) = or_else-unless_empty (filter_by (is_live now) cs)

entries-expect :
    (o : EchoGuardOptions) (w : ExpectedWrite) (now : ℕ) (g : EchoGuard) (e : ObservedEvent) (n : ℕ)
    → g.options ≡ o
    → any_of (live_fit o e n) (entries (expect w now g) e.path)
      ≡ any_of (live_fit o e n) (entries g e.path) || is_echo o e n (now, w)
unfolding expect
entries-expect o w now g e n same = elim (Bool-cases (str_eq w.path e.path)) [
  | inl here ↦
      let p = (eq_iff w.path e.path).0 here in
      rw (get-put w.path e.path _ g.expectations, here)
        (rw (p, any_of-append) (ground (arith, ap (λ (x : EchoGuardOptions). x.ttl_ms) same)))
  | inr there ↦ rw (get-put w.path e.path _ g.expectations, there) (ground arith)
]

-- From `last` on, the entries answer every question as the log does.
record Agrees (o : EchoGuardOptions) (last : ℕ) (g : EchoGuard) (log : List (ℕ × ExpectedWrite))
    : Type 0 where
  options : g.options ≡ o
  map : IsMap g.expectations
  answers :
      (e : ObservedEvent) (n : ℕ)
      → last ≤ n
      → any_of (live_fit o e n) (entries g e.path) ≡ any_of (is_echo o e n) log

module _ (o : EchoGuardOptions) (last now : ℕ) (le : last ≤ now) where
  prune-Agrees :
      (g : EchoGuard) (log : List (ℕ × ExpectedWrite))
      → Agrees o last g log
      → Agrees o now (prune_expired now g) log
  unfolding prune_expired
  prune-Agrees g log a = record {
    options = a.options;
    map = update_all-IsMap (live_or_gone now) g.expectations a.map;
    answers = λ e n h.
        rw (entries-prune now g e.path a.map)
          (any_of-filter_live o e now n (entries g e.path) h ∙ a.answers e n (omega arith));
  }

  same-Agrees :
      (g g' : EchoGuard) (log : List (ℕ × ExpectedWrite))
      → g'.options ≡ g.options
      → g'.expectations ≡ g.expectations
      → Agrees o last g log
      → Agrees o now g' log
  same-Agrees g g' log p q a = record {
    options = p ∙ a.options;
    map = rw q a.map;
    answers = λ e n h. rw q (a.answers e n (omega arith));
  }

  expect-Agrees :
      (w : ExpectedWrite) (g : EchoGuard) (log : List (ℕ × ExpectedWrite))
      → Agrees o last g log
      → Agrees o now (expect w now g) ((now, w) ∷ log)
  unfolding expect
  expect-Agrees w g log a = record {
    options = a.options;
    map = put-IsMap w.path _ g.expectations a.map;
    answers = λ e n h.
        ground (arith, entries-expect o w now g e n a.options, a.answers e n (omega arith));
  }

  drop-Agrees :
      (e : ObservedEvent) (g : EchoGuard) (log : List (ℕ × ExpectedWrite))
      → Agrees o last g log
      → Agrees o now (should_drop e now g).0 log
  unfolding should_drop
  drop-Agrees e g log a =
      let b = prune-Agrees g log a in
      record {
        options = ground arith;
        map = ground arith;
        answers = λ f n h. ground (arith, b.answers f n h);
      }

  clear-Agrees :
      (g : EchoGuard) (log : List (ℕ × ExpectedWrite))
      → Agrees o last g log
      → Agrees o now (clear g) []
  unfolding clear get
  clear-Agrees g log a = record { options = a.options; map = tt; answers = λ e n h. refl }

  record_sync-same :
      (p : String) (g : EchoGuard)
      → ((record_sync p now g).guard.options ≡ g.options)
        × ((record_sync p now g).guard.expectations ≡ g.expectations)
  unfolding record_sync
  record_sync-same p g = ground arith

step-Agrees :
    (o : EchoGuardOptions) (last now : ℕ) (ev : Event) (es : List (ℕ × Event)) (g : EchoGuard)
    (log : List (ℕ × ExpectedWrite))
    → last ≤ now
    → Agrees o last g log
    → (log' : List (ℕ × ExpectedWrite)) × Agrees o now (step now ev g) log'
      × (declared ((now, ev) ∷ es) log ≡ declared es log')
unfolding step declared release
step-Agrees o last now (expects w) es g log le a =
    ((now, w) ∷ log, expect-Agrees o last now le w g log a, refl)
step-Agrees o last now (observes e) es g log le a = (log, drop-Agrees o last now le e g log a, refl)
step-Agrees o last now (syncs p) es g log le a =
    let (same, kept) = record_sync-same o last now le p g in
    (log, same-Agrees o last now le g _ log same kept a, refl)
step-Agrees o last now (releases p) es g log le a =
    (log, same-Agrees o last now le g _ log refl refl a, refl)
step-Agrees o last now clears es g log le a = ([], clear-Agrees o last now le g log a, refl)
step-Agrees o last now prunes es g log le a = (log, prune-Agrees o last now le g log a, refl)

should_drop-Agrees :
    (o : EchoGuardOptions) (last now : ℕ) (e : ObservedEvent) (g : EchoGuard)
    (log : List (ℕ × ExpectedWrite))
    → last ≤ now
    → Agrees o last g log
    → (should_drop e now g).1 ≡ any_of (is_echo o e now) log
unfolding should_drop
should_drop-Agrees o last now e g log le a =
    let kept = entries-prune now g e.path a.map in
    let live = any_of_live o e now (entries g e.path) in
    let says = a.answers e now le in
    rw kept (
      rw (ap (λ (x : EchoGuardOptions). x.mtime_tolerance_ms) a.options, live, says) (ground arith))

run-Agrees :
    (o : EchoGuardOptions) (last now : ℕ) (es : List (ℕ × Event)) (e : ObservedEvent)
    (g : EchoGuard) (log : List (ℕ × ExpectedWrite))
    → InOrder last now es
    → Agrees o last g log
    → (should_drop e now (run es g)).1 ≡ any_of (is_echo o e now) (declared es log)
unfolding run declared
run-Agrees o last now [] e g log le a = should_drop-Agrees o last now e g log le a
run-Agrees o last now ((at, ev) ∷ es) e g log (le, h) a =
    let (log', b, same) = step-Agrees o last at ev es g log le a in
    rw same (run-Agrees o at now es e (step at ev g) log' h b)

-- After any events in the order of time on a new guard, an event is dropped exactly if it is the echo
-- of one of the writes declared since the guard was last cleared: on its path, of its size, near its
-- time, and declared less than the lifetime ago. No match uses a declaration up, and no operation but
-- a clearing loses one.
pub should_drop_iff :
    (o : EchoGuardOptions) (es : List (ℕ × Event)) (now : ℕ) (e : ObservedEvent)
    → InOrder 0 now es
    → (should_drop e now (run es (create o))).1 ≡ any_of (is_echo o e now) (declared es [])
unfolding create get
should_drop_iff o es now e h =
    run-Agrees o 0 now es e (create o) [] h
      (record { options = refl; map = tt; answers = λ f n le. refl })
