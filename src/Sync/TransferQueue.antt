-- ===== src/Sync/TransferQueue.antt =====
-- backend/sync/throttle.ts: the transfer queue. A time is in milliseconds, sizes in bytes, both whole. The
-- promise of a task is what its end (`settle`) resolves, so a task is its size, its time and its number;
-- the task's function is called when it starts, and is taken not to call the queue before it first waits.
-- The clock is read once for each call.
pub mod Choice
pub mod Pump
pub mod Once
pub mod Patience
mod Tests
use cnc_network_bridge.Base.{
  ℕ, zero, suc, ◌+◌, ◌-◌, ◌*◌, max, Bool, true, false, ◌&&◌, Option, none, some, List, [], ◌∷◌,
  ◌++◌, ltb, or_else, if◌then◌else◌, length,
}

pub record Waiting : Type 0 where
  pub size : ℕ
  pub enqueued_at : ℕ
  pub sequence : ℕ

pub record Queue : Type 0 where
  pub waiting : List Waiting
  pub limit : ℕ
  pub active : ℕ
  pub sequence : ℕ
  pub completed : ℕ
  pub failed : ℕ
  pub aging_bytes_per_second : ℕ
  -- The tasks whose function was called, newest first.
  pub started : List Waiting

-- `bandwidthLimitBytesPerSecond !== null && … > 0 ? 1 : base`
abbrev pub concurrency_for : Option ℕ → ℕ → ℕ
concurrency_for none base = base
concurrency_for (some limit) base = if ltb 0 limit then 1 else base

pub create : Option ℕ → Option ℕ → Queue
create concurrency aging = record {
  waiting = [];
  limit = max 1 (or_else concurrency 4);
  active = 0;
  sequence = 0;
  completed = 0;
  failed = 0;
  aging_bytes_per_second = or_else aging 1048576;
  started = [];
}

-- `effectiveSize(a) < effectiveSize(b)`. Both are multiplied by 1000, which is what the milliseconds are
-- divided by, and the credits stand on the other side, so that no number is below 0.
abbrev pub beats : ℕ → ℕ → Waiting → Waiting → Bool
beats aging now a b =
    ltb (a.size * 1000 + (now - b.enqueued_at) * aging)
      (b.size * 1000 + (now - a.enqueued_at) * aging)

-- The loop of `takeNext` from an index on, with the best entry so far and its index.
unfoldable pub best_index : ℕ → ℕ → Waiting → ℕ → ℕ → List Waiting → ℕ
best_index aging now best best_i i [] = best_i
best_index aging now best best_i i (c ∷ cs) =
    let better = beats aging now c best in
    best_index aging now (if better then c else best) (if better then i else best_i) (suc i) cs

-- `splice(index, 1)[0]`, with what stays.
unfoldable pub splice : ℕ → List Waiting → Option (Waiting × List Waiting)
splice i [] = none
splice zero (x ∷ xs) = some (x, xs)
splice (suc i) (x ∷ xs) = elim (splice i xs) [ none ↦ none | some (y, ys) ↦ some (y, x ∷ ys) ]

unfoldable pub take_next : ℕ → ℕ → List Waiting → Option (Waiting × List Waiting)
take_next aging now [] = none
take_next aging now (x ∷ xs) = splice (best_index aging now x 0 1 xs) (x ∷ xs)

-- One round of the loop of `pump` that finds an entry.
abbrev pub start : Waiting → List Waiting → Queue → Queue
start e rest q = record q { waiting = rest; active = suc q.active; started = e ∷ q.started }

abbrev pub start_next : Option (Waiting × List Waiting) → Queue → Option Queue
start_next none q = none
start_next (some (e, rest)) q = some (start e rest q)

-- The queue after one round of the loop of `pump`, or nothing where the loop ends.
unfoldable pub round : ℕ → Queue → Option Queue
round now q =
    if ltb q.active q.limit
    then start_next (take_next q.aging_bytes_per_second now q.waiting) q
    else none

-- The loop of `pump`, in at most so many rounds.
unfoldable pub pump_rounds : ℕ → ℕ → Queue → Queue
pump_rounds zero now q = q
pump_rounds (suc n) now q = elim (round now q) [ none ↦ q | some q' ↦ pump_rounds n now q' ]

-- Each round takes one of the free places.
unfoldable pub pump : ℕ → Queue → Queue
pump now q = pump_rounds (q.limit - q.active) now q

unfoldable pub set_concurrency : ℕ → ℕ → Queue → Queue
set_concurrency value now q = pump now (record q { limit = max 1 value })

unfoldable pub add : ℕ → ℕ → Queue → Queue
add size now q =
    let entry : Waiting = record { size = size; enqueued_at = now; sequence = q.sequence } in
    pump now (record q { waiting = q.waiting ++ entry ∷ []; sequence = suc q.sequence })

-- The end of a task that runs, with what it came to.
unfoldable pub settle : Bool → ℕ → Queue → Queue
settle well now q =
    let counted =
      if well
      then record q { completed = suc q.completed }
      else record q { failed = suc q.failed } in
    pump now (record counted { active = q.active - 1 })
