-- ===== src/Security/RateLimit/Retry.antt =====
-- The `Retry-After` of backend/security/rate-limit.ts: who waits that long is let in.
use text.Mathlib.TextPositions.{eq_refl}
use cnc_network_bridge.Base.{
  ℕ, ◌+◌, ◌*◌, ◌≤◌, ◌<◌, ◌≡◌, ◌⊎◌, ◌-◌, ◌∙◌, String, true, false, none, some, List, [], ◌∷◌, lt→ltb,
  if◌then◌else◌, or_else, length, length-append, length-filter_by-le, IsMap, get, get-put,
  put-IsMap, string_eq, arith, inl, inr, Bool-cases, str_eq,
}
use cnc_network_bridge.Security.RateLimit.{
  LimiterOptions, Hits, Caller, is_live, live, check, rate_limit, default_key, first_or,
}
use cnc_network_bridge.Security.RateLimit.Window.{
  Event, checks, prunes, Watch, watch_event, watch_all, empty_watch, stored, stored-prune,
  prune-IsMap, check_hits, times_after,
}

-- No key holds more times than the limit.
record IsBounded (o : LimiterOptions) (h : Hits) : Type 0 where
  map : IsMap h
  within : (k : String) → length (stored k h) ≤ o.limit

length-times_after :
    (o : LimiterOptions) (k : String) (now : ℕ) (h : Hits)
    → length (stored k h) ≤ o.limit
    → length (times_after o k now h) ≤ o.limit
length-times_after o k now h b = ground (
  arith,
  check_hits o k now h,
  length-append (live o now (stored k h)) (now ∷ []),
  length-filter_by-le (is_live o now) (stored k h),
)

check-IsBounded :
    (o : LimiterOptions) (k : String) (now : ℕ) (h : Hits)
    → IsBounded o h
    → IsBounded o (check o k now h).hits
check-IsBounded o k now h b = rw ((check_hits o k now h).0) (record {
  map = put-IsMap k _ h b.map;
  within = λ j. rw (get-put k j (times_after o k now h) h) (by_key j (Bool-cases (str_eq k j)));
})
  where
    by_key :
        (j : String)
        → (str_eq k j ≡ true) ⊎ (str_eq k j ≡ false)
        → length (or_else (if str_eq k j then some (times_after o k now h) else get j h) [])
          ≤ o.limit
    by_key j (inl same) = rw same (length-times_after o k now h (b.within k))
    by_key j (inr other) = rw other (b.within j)

event-IsBounded :
    (o : LimiterOptions) (key : String) (now : ℕ) (e : Event) (w : Watch)
    → IsBounded o w.hits
    → IsBounded o (watch_event o key now e w).hits
unfolding watch_event
event-IsBounded o key now (checks k) w b = check-IsBounded o k now w.hits b
event-IsBounded o key now prunes w b = record {
  map = prune-IsMap o now w.hits b.map;
  within = λ k.
      rw (stored-prune o now k w.hits b.map)
        (omega (arith, length-filter_by-le (is_live o now) (stored k w.hits), b.within k));
}

all-IsBounded :
    (o : LimiterOptions) (key : String) (es : List (ℕ × Event)) (w : Watch)
    → IsBounded o w.hits
    → IsBounded o (watch_all o key es w).hits
unfolding watch_all
all-IsBounded o key [] w b = b
all-IsBounded o key ((now, e) ∷ es) w b = all-IsBounded o key es _ (event-IsBounded o key now e w b)

empty-IsBounded : (o : LimiterOptions) → IsBounded o []
unfolding get
empty-IsBounded o = record { map = tt; within = λ k. omega arith }

-- Once the oldest time has left the window there is room.
room_later :
    (o : LimiterOptions) (now later : ℕ) (ts : List ℕ)
    → 0 < o.limit
    → length ts ≤ o.limit
    → o.limit ≤ length ts
    → now + (first_or now ts + o.window_ms - now) ≤ later
    → length (live o later ts) < o.limit
room_later o now later [] p b f h = absurd (omega arith)
room_later o now later (t ∷ ts) p b f h = ground (arith, length-filter_by-le (is_live o later) ts)

check_denied :
    (o : LimiterOptions) (k : String) (now : ℕ) (h : Hits)
    → (check o k now h).allowed ≡ false
    → let ts = live o now (stored k h) in
      (o.limit ≤ length ts)
      × ((check o k now h).state.reset_in_ms ≡ first_or now ts + o.window_ms - now)
unfolding check
check_denied o k now h e = ground arith

stored_denied :
    (o : LimiterOptions) (k : String) (now : ℕ) (h : Hits)
    → (check o k now h).allowed ≡ false
    → stored k (check o k now h).hits ≡ live o now (stored k h)
stored_denied o k now h e =
    rw ((check_hits o k now h).0, get-put k k (times_after o k now h) h, eq_refl k, e)

refused_check :
    (o : LimiterOptions) (k : String) (now later : ℕ) (h : Hits)
    → 0 < o.limit
    → IsBounded o h
    → (check o k now h).allowed ≡ false
    → now + (check o k now h).state.reset_in_ms ≤ later
    → (check o k later (check o k now h).hits).allowed ≡ true
refused_check o k now later h p b denied wait =
    let ts = live o now (stored k h) in
    let (hit, allowed) = check_hits o k now h in
    let (full, reset) = check_denied o k now h denied in
    let left = stored_denied o k now h denied in
    (check_hits o k later (check o k now h).hits).1
    ∙ rw left (
        lt→ltb _ _ (
          room_later o now later ts p
            (omega (arith, length-filter_by-le (is_live o now) (stored k h), b.within k)) full
            (rw reset at wait)))

-- From any state that requests and sweeps lead to, with a positive limit: a caller that is refused
-- with `Retry-After: s` is let in by its next request once s seconds have passed.
pub rate_limit_retry :
    (o : LimiterOptions) (es : List (ℕ × Event)) (caller : Caller) (now s later : ℕ)
    → 0 < o.limit
    → let h = (watch_all o (default_key caller) es empty_watch).hits in
      (rate_limit o caller now h).1.refused ≡ some s
      → now + s * 1000 ≤ later
      → (rate_limit o caller later (rate_limit o caller now h).0).1.refused ≡ none
unfolding rate_limit
rate_limit_retry o es caller now s later p refused wait =
    let k = default_key caller in
    let h = (watch_all o k es empty_watch).hits in
    let b = all-IsBounded o k es empty_watch (empty-IsBounded o) in
    ground (arith, refused_check o k now later h p b)
