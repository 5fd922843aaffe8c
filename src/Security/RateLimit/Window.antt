-- ===== src/Security/RateLimit/Window.antt =====
-- The bound that backend/security/rate-limit.ts promises, over every interval of a window's length.
use text.Mathlib.TextPositions.{eq_refl}
use cnc_network_bridge.Base.{
  ℕ, suc, ◌+◌, ◌≤◌, ◌<◌, ◌≡◌, refl, sym, subst, or_else-unless_empty, ltb→lt, ◌∙◌, String, Bool,
  true, false, ◌&&◌, Option, none, some, List, [], ◌∷◌, ◌++◌, ltb, leb, if◌then◌else◌, or_else,
  and_then, length, get, put, IsMap, get-put, get-update_all, put-IsMap, update_all-IsMap,
  string_eq, arith, inl, inr, Bool-cases, str_eq, eq_iff,
}
use cnc_network_bridge.Security.RateLimit.{
  LimiterOptions, Hits, is_live, live, live_or_gone, check, prune,
}

-- How many times of a log satisfy a test.
abbrev pub count_by : (ℕ → Bool) → List ℕ → ℕ
count_by p [] = 0
count_by p (t ∷ ts) = if p t then suc (count_by p ts) else count_by p ts

abbrev pub in_interval : ℕ → ℕ → ℕ → Bool
in_interval start len t = leb start t && ltb t (start + len)

-- A log, newest first, in which each hit found fewer than the limit in the window that it ended.
abbrev Spaced : LimiterOptions → List ℕ → Type 0
Spaced o [] = Unit
Spaced o (t ∷ ts) = (count_by (is_live o t) ts < o.limit) × Spaced o ts

count-live-le :
    (o : LimiterOptions) (start t : ℕ) (ts : List ℕ)
    → in_interval start o.window_ms t ≡ true
    → count_by (in_interval start o.window_ms) ts ≤ count_by (is_live o t) ts
count-live-le o start t [] h = omega arith
count-live-le o start t (s ∷ ts) h = ground (arith, count-live-le o start t ts h)

Spaced-bound :
    (o : LimiterOptions) (start : ℕ) (ts : List ℕ)
    → Spaced o ts
    → count_by (in_interval start o.window_ms) ts ≤ o.limit
Spaced-bound o start [] h = omega arith
Spaced-bound o start (t ∷ ts) (b, h) = elim (Bool-cases (in_interval start o.window_ms t)) [
  | inl inside ↦ rw inside (omega (arith, count-live-le o start t ts inside))
  | inr outside ↦ rw outside (Spaced-bound o start ts h)
]

abbrev pub stored : String → Hits → List ℕ
stored key hits = or_else (get key hits) []

length-live-live :
    (o : LimiterOptions) (n m : ℕ) (ts : List ℕ)
    → n ≤ m
    → length (live o m (live o n ts)) ≡ length (live o m ts)
length-live-live o n m [] h = refl
length-live-live o n m (t ∷ ts) h = ground (arith, length-live-live o n m ts h)

length-live-push :
    (o : LimiterOptions) (m t : ℕ) (ts : List ℕ)
    → length (live o m (ts ++ t ∷ []))
      ≡ (if is_live o m t then suc (length (live o m ts)) else length (live o m ts))
length-live-push o m t [] = ground arith
length-live-push o m t (s ∷ ts) = ground (arith, length-live-push o m t ts)

pub prune-IsMap : (o : LimiterOptions) (now : ℕ) (h : Hits) → IsMap h → IsMap (prune o now h).0
unfolding prune
prune-IsMap o now h m = update_all-IsMap (live_or_gone o now) h m

pub stored-prune :
    (o : LimiterOptions) (now : ℕ) (k : String) (h : Hits)
    → IsMap h
    → stored k (prune o now h).0 ≡ live o now (stored k h)
unfolding prune
stored-prune o now k h m = rw (get-update_all (live_or_gone o now) k h m) (gone_or_live (get k h))
  where
    gone_or_live :
        (x : Option (List ℕ))
        → or_else (and_then x (live_or_gone o now)) [] ≡ live o now (or_else x [])
    gone_or_live none = refl
    gone_or_live (some ts) = or_else-unless_empty (live o now ts)

-- What the limiter does in time: a request of a caller, or a sweep.
pub data Event : Type 0 where
  checks : String → Event
  prunes : Event

pub record Watch : Type 0 where
  pub hits : Hits
  -- The times at which the watched key was allowed, newest first.
  pub log : List ℕ

module _ (o : LimiterOptions) (key : String) where
  -- One event at its time, with the log of the watched key.
  unfoldable pub watch_event : ℕ → Event → Watch → Watch
  watch_event now prunes w = record w { hits = (prune o now w.hits).0 }
  watch_event now (checks k) w =
      let c = check o k now w.hits in
      record { hits = c.hits; log = if str_eq k key && c.allowed then now ∷ w.log else w.log }

  unfoldable pub watch_all : List (ℕ × Event) → Watch → Watch
  watch_all [] w = w
  watch_all ((now, e) ∷ es) w = watch_all es (watch_event now e w)

-- The times do not fall.
abbrev pub InOrder : ℕ → List (ℕ × Event) → Type 0
InOrder last [] = Unit
InOrder last ((now, e) ∷ es) = (last ≤ now) × InOrder now es

-- The times that a check leaves under its key.
abbrev pub times_after : LimiterOptions → String → ℕ → Hits → List ℕ
times_after o k now h =
    if (check o k now h).allowed
    then live o now (stored k h) ++ now ∷ []
    else live o now (stored k h)

pub check_hits :
    (o : LimiterOptions) (k : String) (now : ℕ) (h : Hits)
    → ((check o k now h).hits ≡ put k (times_after o k now h) h)
      × ((check o k now h).allowed ≡ ltb (length (live o now (stored k h))) o.limit)
unfolding check
check_hits o k now h = ground arith

-- What holds after the events up to `last`: the stored times and the log count alike from then on.
record Agrees (o : LimiterOptions) (key : String) (last : ℕ) (w : Watch) : Type 0 where
  map : IsMap w.hits
  spaced : Spaced o w.log
  counts : (m : ℕ) → last ≤ m → length (live o m (stored key w.hits)) ≡ count_by (is_live o m) w.log

module _ (o : LimiterOptions) (key : String) where
  prune-Agrees :
      (last now : ℕ) (w : Watch)
      → last ≤ now
      → Agrees o key last w
      → Agrees o key now (watch_event o key now prunes w)
  unfolding watch_event prune
  prune-Agrees last now w le a = record {
    map = prune-IsMap o now w.hits a.map;
    spaced = a.spaced;
    counts = λ m h.
        rw (stored-prune o now key w.hits a.map)
          (length-live-live o now m (stored key w.hits) h ∙ a.counts m (omega arith));
  }

  other-Agrees :
      (last now : ℕ) (k : String) (w : Watch)
      → last ≤ now
      → str_eq k key ≡ false
      → Agrees o key last w
      → Agrees o key now (watch_event o key now (checks k) w)
  unfolding watch_event
  other-Agrees last now k w le ne a =
      let (hit, same) = check_hits o k now w.hits in
      rw (ne, hit)
        (record {
          map = put-IsMap k _ w.hits a.map;
          spaced = a.spaced;
          counts = λ m h.
              rw (get-put k key (times_after o k now w.hits) w.hits, ne) (a.counts m (omega arith));
        })

  -- The watched key itself, allowed or not.
  same-Agrees :
      (last now : ℕ) (w : Watch)
      → last ≤ now
      → Agrees o key last w
      → Agrees o key now (watch_event o key now (checks key) w)
  unfolding watch_event
  same-Agrees last now w le a =
      let (hit, same) = check_hits o key now w.hits in
      elim (Bool-cases (check o key now w.hits).allowed) [
        | inl yes' ↦
            rw (eq_refl key, hit, yes')
              (record {
                map = put-IsMap key _ w.hits a.map;
                spaced = (
                  omega (
                    arith,
                    a.counts now le,
                    ltb→lt (length (live o now (stored key w.hits))) o.limit (sym same ∙ yes'),
                  ),
                  a.spaced,
                );
                counts = λ m h. rw (
                  get-put key key (live o now (stored key w.hits) ++ now ∷ []) w.hits,
                  eq_refl key,
                  length-live-push o m now (live o now (stored key w.hits)),
                  length-live-live o now m (stored key w.hits) h,
                  a.counts m (omega arith),
                );
              })
        | inr denied ↦
            rw (eq_refl key, hit, denied)
              (record {
                map = put-IsMap key _ w.hits a.map;
                spaced = a.spaced;
                counts = λ m h.
                    rw (get-put key key (live o now (stored key w.hits)) w.hits, eq_refl key)
                      (length-live-live o now m (stored key w.hits) h ∙ a.counts m (omega arith));
              })
      ]

  event-Agrees :
      (last now : ℕ) (e : Event) (w : Watch)
      → last ≤ now
      → Agrees o key last w
      → Agrees o key now (watch_event o key now e w)
  event-Agrees last now prunes w le a = prune-Agrees last now w le a
  event-Agrees last now (checks k) w le a = elim (Bool-cases (str_eq k key)) [
    | inl same ↦
        subst (λ x. Agrees o key now (watch_event o key now (checks x) w))
          (sym ((eq_iff k key).0 same)) (same-Agrees last now w le a)
    | inr other ↦ other-Agrees last now k w le other a
  ]

  all-Spaced :
      (last : ℕ) (es : List (ℕ × Event)) (w : Watch)
      → InOrder last es
      → Agrees o key last w
      → Spaced o (watch_all o key es w).log
  unfolding watch_all
  all-Spaced last [] w h a = a.spaced
  all-Spaced last ((now, e) ∷ es) w (le, h) a =
      all-Spaced now es (watch_event o key now e w) h (event-Agrees last now e w le a)

abbrev pub empty_watch : Watch
empty_watch = record { hits = []; log = [] }

empty-Agrees : (o : LimiterOptions) (key : String) → Agrees o key 0 empty_watch
unfolding get
empty-Agrees o key = record { map = tt; spaced = tt; counts = λ m h. refl }

-- Over any requests of any callers and any sweeps, in the order of time and from an empty table, a
-- caller is allowed at most `limit` requests in every interval of the window's length, wherever it
-- starts.
pub check_bound :
    (o : LimiterOptions) (key : String) (es : List (ℕ × Event)) (start : ℕ)
    → InOrder 0 es
    → count_by (in_interval start o.window_ms) (watch_all o key es empty_watch).log ≤ o.limit
check_bound o key es start h =
    Spaced-bound o start _ (all-Spaced o key 0 es empty_watch h (empty-Agrees o key))
