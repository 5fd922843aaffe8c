-- ===== src/Sync/TransferQueue/Pump.antt =====
-- What the loop of the queue of backend/sync/throttle.ts does with its places and its tasks.
use cnc_network_bridge.Base.{
  ℕ, zero, suc, ◌+◌, ◌-◌, ◌≤◌, max, ◌≡◌, refl, Bool, true, false, ◌&&◌, none, some, List, [], ◌∷◌,
  ◌++◌, ap, ◌∙◌, sym, subst, if◌then◌else◌, length, arith, ◌⊎◌, inl, inr, Bool-cases, length-append,
  ltb, not,
}
use cnc_network_bridge.Sync.TransferQueue.{
  Waiting, Queue, take_next, start, pump_rounds, pump, set_concurrency, add, round, settle,
}
use cnc_network_bridge.Sync.TransferQueue.Choice.{take_next_best}

abbrev pub is_empty : List Waiting → Bool
is_empty [] = true
is_empty (x ∷ xs) = false

-- How many tasks the queue has met the end of, runs, or keeps waiting.
abbrev pub accounted : Queue → ℕ
accounted q = length q.waiting + q.active + q.completed + q.failed

-- The list is the rest with the entry put in somewhere.
abbrev pub IsSplit : Waiting → List Waiting → List Waiting → Type 0
IsSplit e rest ws =
    (before : List Waiting) × (later : List Waiting) × ((ws ≡ before ++ e ∷ later)
      × (rest ≡ before ++ later))

take_next-length :
    (aging now : ℕ) (x : Waiting) (xs : List Waiting)
    → (e : Waiting) × (rest : List Waiting) × ((take_next aging now (x ∷ xs) ≡ some (e, rest))
        × ((length rest ≡ length xs) × IsSplit e rest (x ∷ xs)))
take_next-length aging now x xs =
    let (e, before, later, ((same, taken), _)) = take_next_best aging now x xs in
    let parts = length-append before later in
    let whole = length-append before (e ∷ later) in
    let sizes : suc (length xs) ≡ length (before ++ e ∷ later) = ap length same in
    (
      e,
      before ++ later,
      (taken, (omega (arith, parts, whole, sizes), (before, later, (same, refl)))),
    )

List-cases {ℓ} : {A : Type ℓ} (xs : List A) → (xs ≡ []) ⊎ ((x : A) × (ys : List A) × (xs ≡ x ∷ ys))
List-cases [] = inl refl
List-cases (x ∷ xs) = inr (x, xs, refl)

-- What holds of the queue that a run of the loop from `q` leaves.
abbrev pub IsPumped : Queue → Queue → Type 0
IsPumped q p =
    (((ltb p.active p.limit && not (is_empty p.waiting)) ≡ false)
      × (p.active ≤ max q.active q.limit))
    × (((accounted p ≡ accounted q) × (q.active ≤ p.active))
        × ((p.limit ≡ q.limit) × (p.sequence ≡ q.sequence)))

start-IsPumped :
    (e : Waiting) (rest : List Waiting) (q p : Queue)
    → ltb q.active q.limit ≡ true
    → length q.waiting ≡ suc (length rest)
    → IsPumped (start e rest q) p
    → IsPumped q p
start-IsPumped e rest q p free sizes ((full, most), ((all, grown), (limit, sequence))) =
    ((full, ground arith), ((omega arith, omega arith), (limit, sequence)))

take_next-none : (aging now : ℕ) (xs : List Waiting) → xs ≡ [] → take_next aging now xs ≡ none
unfolding take_next
take_next-none aging now xs h = rw h refl

unfoldable pub Ends : ℕ → Queue → Type 0
Ends now q = (round now q ≡ none) × ((ltb q.active q.limit && not (is_empty q.waiting)) ≡ false)

unfoldable pub Goes : ℕ → Queue → Type 0
Goes now q =
    (e : Waiting) × (rest : List Waiting) × ((round now q ≡ some (start e rest q))
      × ((ltb q.active q.limit ≡ true)
          × ((length q.waiting ≡ suc (length rest)) × IsSplit e rest q.waiting)))

pub round-cases : (now : ℕ) (q : Queue) → Ends now q ⊎ Goes now q
unfolding round Ends Goes
round-cases now q = elim (Bool-cases (ltb q.active q.limit)) [
  | inr full ↦ inl (rw full refl, rw full refl)
  | inl free ↦ elim (List-cases q.waiting) [
    | inl none_waits ↦ inl (
      rw (free, take_next-none q.aging_bytes_per_second now q.waiting none_waits) refl,
      rw (free, ap is_empty none_waits) refl,
    )
    | inr (x, xs, some_wait) ↦
        let (e, rest, (taken, (sizes, split))) =
          take_next-length q.aging_bytes_per_second now x xs in
        let taken' : take_next q.aging_bytes_per_second now q.waiting ≡ some (e, rest) =
          ap (take_next q.aging_bytes_per_second now) some_wait ∙ taken in
        inr (
          e,
          rest,
          (
            rw (free, taken') refl,
            (
              free,
              (
                omega (arith, sizes, ap length some_wait),
                subst (IsSplit e rest) (sym some_wait) split,
              ),
            ),
          ),
        )
  ]
]

pub pump_rounds-IsPumped :
    (n now : ℕ) (q : Queue) → q.limit ≤ q.active + n → IsPumped q (pump_rounds n now q)
unfolding pump_rounds Ends Goes
pump_rounds-IsPumped zero now q h =
    ((ground arith, omega arith), ((refl, omega arith), (refl, refl)))
pump_rounds-IsPumped (suc n) now q h = elim (round-cases now q) [
  | inl (ended, full) ↦
      rw (ended, pump_rounds) ((full, omega arith), ((refl, omega arith), (refl, refl)))
  | inr (e, rest, (went, (free, (sizes, split)))) ↦
      rw (went, pump_rounds)
        (start-IsPumped e rest q (pump_rounds n now (start e rest q)) free sizes
          (pump_rounds-IsPumped n now (start e rest q) (ground arith)))
]

-- After a run of the loop, either no place is free or nothing waits; not more run than the limit allows
-- or ran before, and no task is lost.
pub pump-IsPumped : (now : ℕ) (q : Queue) → IsPumped q (pump now q)
unfolding pump
pump-IsPumped now q = pump_rounds-IsPumped (q.limit - q.active) now q (omega arith)

-- What happens to a queue: work is added, a task that runs ends, or the limit is set.
pub data Event : Type 0 where
  added : ℕ → Event
  ended : Bool → Event
  limited : ℕ → Event

-- A task can end only while one runs.
unfoldable pub step : Event → ℕ → Queue → Queue
step (added size) now q = add size now q
step (ended well) now q = if ltb 0 q.active then settle well now q else q
step (limited value) now q = set_concurrency value now q

unfoldable pub run : List (Event × ℕ) → Queue → Queue
run [] q = q
run ((e, now) ∷ es) q = run es (step e now q)

-- Every task is accounted for, and no place is free while one waits.
abbrev pub IsKept : Queue → Type 0
IsKept q = (accounted q ≡ q.sequence) × ((ltb q.active q.limit && not (is_empty q.waiting)) ≡ false)

pump-IsKept : (now : ℕ) (q : Queue) → accounted q ≡ q.sequence → IsKept (pump now q)
pump-IsKept now q h =
    let ((full, most), ((all, grown), (limit, sequence))) = pump-IsPumped now q in
    (omega arith, full)

step-IsKept : (e : Event) (now : ℕ) (q : Queue) → IsKept q → IsKept (step e now q)
unfolding step add settle set_concurrency
step-IsKept (added size) now q (all, full) =
    pump-IsKept now _ (omega (arith, length-append q.waiting _))
step-IsKept (ended true) now q (all, full) = elim (Bool-cases (ltb 0 q.active)) [
  | inl runs ↦ rw runs (pump-IsKept now _ (ground arith))
  | inr idle ↦ rw idle (all, full)
]
step-IsKept (ended false) now q (all, full) = elim (Bool-cases (ltb 0 q.active)) [
  | inl runs ↦ rw runs (pump-IsKept now _ (ground arith))
  | inr idle ↦ rw idle (all, full)
]
step-IsKept (limited value) now q (all, full) = pump-IsKept now _ all

pub run-IsKept : (es : List (Event × ℕ)) (q : Queue) → IsKept q → IsKept (run es q)
unfolding run
run-IsKept [] q h = h
run-IsKept ((e, now) ∷ es) q h = run-IsKept es (step e now q) (step-IsKept e now q h)
