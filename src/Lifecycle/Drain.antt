-- ===== src/Lifecycle/Drain.antt =====
-- backend/lifecycle/drain.ts: the registry of operations in flight. A handle is the number of its
-- operation; its own flag `finished` is kept with the registry. A drain that waits has a number too, and
-- what it resolves to is listed with the answers; the labels that remain are read as it
-- resolves: nothing else is taken to run between that and the read. The
-- time that it took is left out, and so are the log lines.
pub mod Events
pub mod Answers
pub mod Flight
mod Tests
use cnc_network_bridge.Base.{
  ℕ, suc, ◌+◌, String, Bool, true, false, not, Option, none, some, List, [], ◌∷◌, ◌++◌, map, ◌==◌,
  if◌then◌else◌, any_of, filter_by,
}

pub record Operation : Type 0 where
  pub id : ℕ
  pub label : String
  pub started_at : ℕ

pub record DrainResult : Type 0 where
  pub drained : Bool
  pub remaining : List String

pub record DrainRegistry : Type 0 where
  pub operations : List Operation
  pub waiters : List ℕ
  -- The drains whose timer is set.
  pub timers : List ℕ
  pub next_id : ℕ
  pub closing : Bool
  -- The operations whose handle is finished.
  pub finished : List ℕ
  pub next_waiter : ℕ
  -- What the drains resolved to, newest first.
  pub answers : List (ℕ × DrainResult)

unfoldable pub create : DrainRegistry
create = record {
  operations = [];
  waiters = [];
  timers = [];
  next_id = 1;
  closing = false;
  finished = [];
  next_waiter = 0;
  answers = [];
}

abbrev pub labels : DrainRegistry → List String
labels r = map (λ (o : Operation). o.label) r.operations

abbrev pub opened : String → ℕ → DrainRegistry → Operation
opened label now r = record { id = r.next_id; label = label; started_at = now }

-- The registry with the handle's number, or nothing where `RegistryClosedError` is thrown.
unfoldable pub begin : String → ℕ → DrainRegistry → Option (DrainRegistry × ℕ)
begin label now r =
    if r.closing
    then none
    else some (
      record r { operations = r.operations ++ opened label now r ∷ []; next_id = suc r.next_id },
      r.next_id,
    )

-- `handle.cancelled`
pub is_cancelled : DrainRegistry → Bool
is_cancelled r = r.closing

abbrev pub is_empty : List Operation → Bool
is_empty [] = true
is_empty (o ∷ os) = false

-- Every waiter is told, and each reads what remains.
unfoldable pub resolve_all : List String → List ℕ → List (ℕ × DrainResult) → List (ℕ × DrainResult)
resolve_all remaining [] answers = answers
resolve_all remaining (w ∷ ws) answers =
    resolve_all remaining ws ((w, record { drained = true; remaining = remaining }) ∷ answers)

-- Each waiter clears its timer.
unfoldable pub clear_timers : List ℕ → List ℕ → List ℕ
clear_timers ws timers = filter_by (λ t. not (any_of (λ w. w == t) ws)) timers

unfoldable pub notify : DrainRegistry → DrainRegistry
unfolding resolve_all clear_timers
notify r =
    if is_empty r.operations
    then record r {
      waiters = [];
      timers = clear_timers r.waiters r.timers;
      answers = resolve_all (labels r) r.waiters r.answers;
    }
    else r

-- The flag of the handle is set, and the operation leaves the registry.
abbrev pub take_out : ℕ → DrainRegistry → DrainRegistry
take_out id r = record r {
  finished = id ∷ r.finished;
  operations = filter_by (λ (o : Operation). not (o.id == id)) r.operations;
}

-- `handle.done()`
unfoldable pub done : ℕ → DrainRegistry → DrainRegistry
unfolding notify
done id r = if any_of (λ f. f == id) r.finished then r else notify (take_out id r)

-- The call of `drain`, up to where it resolves or waits.
unfoldable pub drain : DrainRegistry → DrainRegistry
drain r =
    let answered = record r {
      closing = true;
      next_waiter = suc r.next_waiter;
      answers = (r.next_waiter, record { drained = true; remaining = [] }) ∷ r.answers;
    } in
    let waiting = record r {
      closing = true;
      next_waiter = suc r.next_waiter;
      waiters = r.waiters ++ r.next_waiter ∷ [];
      timers = r.timers ++ r.next_waiter ∷ [];
    } in
    if is_empty r.operations then answered else waiting

-- The timer of a drain goes off, unless it was cleared. `reset` clears none, so that it goes off also for a
-- drain that is no longer among the waiters.
unfoldable pub time_out : ℕ → DrainRegistry → DrainRegistry
time_out w r =
    if any_of (λ v. v == w) r.timers
    then record r {
      timers = filter_by (λ v. not (v == w)) r.timers;
      waiters = filter_by (λ v. not (v == w)) r.waiters;
      answers = (w, record { drained = false; remaining = labels r }) ∷ r.answers;
    }
    else r

unfoldable pub reset : DrainRegistry → DrainRegistry
reset r = record r { closing = false; operations = []; waiters = [] }
