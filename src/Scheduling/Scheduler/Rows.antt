-- ===== src/Scheduling/Scheduler/Rows.antt =====
-- The statements of backend/scheduling/scheduler.ts on the table `schedules`, whose rows stand in the order
-- of their ids.
use cnc_network_bridge.Base.{
  ℕ, zero, suc, ◌+◌, String, Bool, true, false, ◌&&◌, Option, none, some, List, [], ◌∷◌, ltb, ◌==◌,
  if◌then◌else◌, max, or_else,
}
use cnc_network_bridge.Scheduling.Jobs.{ScheduleKind}
use cnc_network_bridge.Scheduling.Scheduler.Types.{Schedule, ScheduleResult, ScheduleChanges}

unfoldable pub find_row : ℕ → List Schedule → Option Schedule
find_row id [] = none
find_row id (r ∷ rs) = let rest = find_row id rs in if r.id == id then some r else rest

abbrev pub greatest : List Schedule → ℕ
greatest [] = 0
greatest (r ∷ rs) = max r.id (greatest rs)

-- An `UPDATE` of the row of an id.
unfoldable pub update_row : ℕ → (Schedule → Schedule) → List Schedule → List Schedule
update_row id f [] = []
update_row id f (r ∷ rs) = (if r.id == id then f r else r) ∷ update_row id f rs

abbrev pub set_next : Option ℕ → Schedule → Schedule
set_next next r = record r { next_run_at = next }

abbrev pub error_of : ScheduleResult → Option String → Option String
error_of ScheduleResult.error detail = detail
error_of _ detail = none

abbrev pub set_result : ℕ → ScheduleResult → Option String → Schedule → Schedule
set_result now result detail r = record r {
  last_run_at = some now;
  last_result = some result;
  last_error = error_of result detail;
}

-- The `UPDATE` of `update`, from the row that it read before.
abbrev pub apply_changes : ScheduleChanges → Schedule → String → ℕ → Schedule → Schedule
apply_changes changes existing cron next r = record r {
  name = or_else changes.name existing.name;
  cron = cron;
  target = or_else changes.target existing.target;
  enabled = or_else changes.enabled existing.enabled;
  next_run_at = some next;
}

-- `CATCHUP_KINDS.has`
abbrev pub catches_up : ScheduleKind → Bool
catches_up ScheduleKind.prune = true
catches_up ScheduleKind.scan = true
catches_up ScheduleKind.backup = true
catches_up _ = false

abbrev pub is_due : Option ℕ → ℕ → ℕ → Bool
is_due none grace now = false
is_due (some next) grace now = ltb (next + grace) now

-- `runMissed`: the schedules that it runs, one after the other.
unfoldable pub missed_ids : ℕ → ℕ → List Schedule → List ℕ
missed_ids grace now [] = []
missed_ids grace now (r ∷ rs) =
    let rest = missed_ids grace now rs in
    if r.enabled && is_due r.next_run_at grace now && catches_up r.kind then r.id ∷ rest else rest

-- `LIMIT`
abbrev pub take : ℕ → List Schedule → List Schedule
take zero rs = []
take (suc n) [] = []
take (suc n) (r ∷ rs) = r ∷ take n rs
