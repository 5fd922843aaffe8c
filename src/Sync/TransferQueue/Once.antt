-- ===== src/Sync/TransferQueue/Once.antt =====
-- Each task of the queue of backend/sync/throttle.ts waits or was started, once.
use cnc_network_bridge.Base.{
  ℕ, zero, suc, ◌+◌, ◌-◌, ◌≡◌, refl, ap, ◌∙◌, Bool, true, false, ◌&&◌, not, Option, List, [], ◌∷◌,
  ◌++◌, if◌then◌else◌, length, ltb, ◌==◌, arith, inl, inr, Bool-cases,
}
use cnc_network_bridge.Sync.TransferQueue.{
  Waiting, Queue, start, pump_rounds, pump, set_concurrency, add, settle, create,
}
use cnc_network_bridge.Sync.TransferQueue.Pump.{
  Event, added, ended, limited, step, run, IsSplit, Ends, Goes, round-cases, run-IsKept, is_empty,
}

-- How often the task with a number is in a list.
unfoldable times : ℕ → List Waiting → ℕ
times n [] = 0
times n (w ∷ ws) = (if w.sequence == n then 1 else 0) + times n ws

times-append : (n : ℕ) (xs ys : List Waiting) → times n (xs ++ ys) ≡ times n xs + times n ys
unfolding times
times-append n [] ys = omega arith
times-append n (x ∷ xs) ys = let rest = times-append n xs ys in rw rest (omega arith)

-- What no start of a task changes, the loop does not change.
module _ (P : Queue → Type 0)
    (kept : (e : Waiting) (rest : List Waiting) (q : Queue)
      → IsSplit e rest q.waiting
      → P q
      → P (start e rest q)) where
  pump_rounds-keeps : (n now : ℕ) (q : Queue) → P q → P (pump_rounds n now q)
  unfolding pump_rounds Ends Goes
  pump_rounds-keeps zero now q h = h
  pump_rounds-keeps (suc n) now q h = elim (round-cases now q) [
    | inl (over, full) ↦ rw (over, pump_rounds) h
    | inr (e, rest, (went, (free, (sizes, split)))) ↦
        rw (went, pump_rounds) (pump_rounds-keeps n now (start e rest q) (kept e rest q split h))
  ]

  pump-keeps : (now : ℕ) (q : Queue) → P q → P (pump now q)
  unfolding pump
  pump-keeps now q h = pump_rounds-keeps (q.limit - q.active) now q h

-- Every task that was added is among those that wait or were started, once; those that run are those that
-- were started and have not ended.
pub record IsOnce (added_so_far well ill : ℕ) (q : Queue) : Type 0 where
  once : (n : ℕ) → times n q.waiting + times n q.started ≡ (if ltb n added_so_far then 1 else 0)
  numbers : q.sequence ≡ added_so_far
  running : length q.started ≡ q.active + (well + ill)
  completed : q.completed ≡ well
  failed : q.failed ≡ ill

start-IsOnce :
    (a c f : ℕ) (e : Waiting) (rest : List Waiting) (q : Queue)
    → IsSplit e rest q.waiting
    → IsOnce a c f q
    → IsOnce a c f (start e rest q)
unfolding times
start-IsOnce a c f e rest q (before, later, (all, others)) h = record {
  once = λ n.
      let whole = ap (times n) all ∙ times-append n before (e ∷ later) in
      let parts = ap (times n) others ∙ times-append n before later in
      omega (arith, whole, parts, h.once n);
  numbers = h.numbers;
  running = omega (arith, h.running);
  completed = h.completed;
  failed = h.failed;
}

add-IsOnce : (a c f size now : ℕ) (q : Queue) → IsOnce a c f q → IsOnce (suc a) c f (add size now q)
unfolding add times
add-IsOnce a c f size now q h =
    let entry : Waiting = record { size = size; enqueued_at = now; sequence = q.sequence } in
    pump-keeps (IsOnce (suc a) c f) (start-IsOnce (suc a) c f) now _ (record {
      once = λ n.
          let whole = times-append n q.waiting (entry ∷ []) in
          ground (arith, whole, h.once n, h.numbers);
      numbers = ap suc h.numbers;
      running = h.running;
      completed = h.completed;
      failed = h.failed;
    })

settle-IsOnce :
    (a c f now : ℕ) (q : Queue)
    → ltb 0 q.active ≡ true
    → IsOnce a c f q
    → IsOnce a (suc c) f (settle true now q) × IsOnce a c (suc f) (settle false now q)
unfolding settle
settle-IsOnce a c f now q runs h = (
  pump-keeps (IsOnce a (suc c) f) (start-IsOnce a (suc c) f) now _ (record {
    once = h.once;
    numbers = h.numbers;
    running = ground (arith, h.running);
    completed = ap suc h.completed;
    failed = h.failed;
  }),
  pump-keeps (IsOnce a c (suc f)) (start-IsOnce a c (suc f)) now _ (record {
    once = h.once;
    numbers = h.numbers;
    running = ground (arith, h.running);
    completed = h.completed;
    failed = ap suc h.failed;
  }),
)

limit-IsOnce :
    (a c f value now : ℕ) (q : Queue) → IsOnce a c f q → IsOnce a c f (set_concurrency value now q)
unfolding set_concurrency
limit-IsOnce a c f value now q h = pump-keeps (IsOnce a c f) (start-IsOnce a c f) now _ (record {
  once = h.once;
  numbers = h.numbers;
  running = h.running;
  completed = h.completed;
  failed = h.failed;
})

-- How many tasks were added, ended well and failed, of what happens to a queue: an end counts while a task runs.
unfoldable pub additions : List (Event × ℕ) → ℕ
additions [] = 0
additions ((added size, now) ∷ es) = suc (additions es)
additions ((_, now) ∷ es) = additions es

abbrev ends_as : Bool → Event → Bool
ends_as well (ended true) = well
ends_as well (ended false) = not well
ends_as well _ = false

unfoldable pub endings : Bool → List (Event × ℕ) → Queue → ℕ
endings well [] q = 0
endings well ((e, now) ∷ es) q =
    (if ends_as well e && ltb 0 q.active then 1 else 0) + endings well es (step e now q)

IsOnce-sum : (a b c d f g : ℕ) (q : Queue) → a ≡ b → c ≡ d → f ≡ g → IsOnce a c f q → IsOnce b d g q
IsOnce-sum a b c d f g q p r s h = rw (← p, ← r, ← s) h

run-IsOnce :
    (es : List (Event × ℕ)) (a c f : ℕ) (q : Queue)
    → IsOnce a c f q
    → IsOnce (a + additions es) (c + endings true es q) (f + endings false es q) (run es q)
unfolding run additions endings step
run-IsOnce [] a c f q h = IsOnce-sum a _ c _ f _ q (omega arith) (omega arith) (omega arith) h
run-IsOnce ((added size, now) ∷ es) a c f q h =
    IsOnce-sum _ _ _ _ _ _ _ (omega arith) (omega arith) (omega arith)
      (run-IsOnce es (suc a) c f (add size now q) (add-IsOnce a c f size now q h))
run-IsOnce ((limited value, now) ∷ es) a c f q h =
    IsOnce-sum _ _ _ _ _ _ _ (omega arith) (omega arith) (omega arith)
      (run-IsOnce es a c f (set_concurrency value now q) (limit-IsOnce a c f value now q h))
run-IsOnce ((ended true, now) ∷ es) a c f q h = elim (Bool-cases (ltb 0 q.active)) [
  | inl runs ↦ rw runs (
      IsOnce-sum _ _ _ _ _ _ _ (omega arith) (omega arith) (omega arith)
        (run-IsOnce es a (suc c) f (settle true now q) (settle-IsOnce a c f now q runs h).0))
  | inr idle ↦
      rw idle (
        IsOnce-sum _ _ _ _ _ _ _ (omega arith) (omega arith) (omega arith)
          (run-IsOnce es a c f q h))
]
run-IsOnce ((ended false, now) ∷ es) a c f q h = elim (Bool-cases (ltb 0 q.active)) [
  | inl runs ↦ rw runs (
      IsOnce-sum _ _ _ _ _ _ _ (omega arith) (omega arith) (omega arith)
        (run-IsOnce es a c (suc f) (settle false now q) (settle-IsOnce a c f now q runs h).1))
  | inr idle ↦
      rw idle (
        IsOnce-sum _ _ _ _ _ _ _ (omega arith) (omega arith) (omega arith)
          (run-IsOnce es a c f q h))
]

-- Whatever happens to a new queue, each of the tasks that were added waits or was started, once; as many run
-- as were started and have not ended; the counters of those that ended well and that failed say how many
-- did; and no place is free while a task waits.
pub run-create_keeps :
    (concurrency aging : Option ℕ) (es : List (Event × ℕ))
    → let first = create concurrency aging in
      let q = run es first in
      IsOnce (additions es) (endings true es first) (endings false es first) q
      × ((ltb q.active q.limit && not (is_empty q.waiting)) ≡ false)
unfolding create times
run-create_keeps concurrency aging es = (
  IsOnce-sum _ _ _ _ _ _ _ (omega arith) (omega arith) (omega arith) (
      run-IsOnce es 0 0 0 (create concurrency aging) (record {
        once = λ n. ground arith;
        numbers = refl;
        running = refl;
        completed = refl;
        failed = refl;
      })),
  (run-IsKept es (create concurrency aging) (refl, ground arith)).1,
)
