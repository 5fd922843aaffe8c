-- ===== src/Scheduling/Tests.antt =====
-- Runs of the scheduler, and its theorems at inputs where their hypotheses hold.
use cnc_network_bridge.Base.{
  remove, has, arith, ◌&&◌, ℕ, String, ◌≡◌, refl, Bool, true, false, Option, none, some, List, [],
  ◌∷◌, ◌++◌, ◌+◌, get, put, nat_eq,
}
use cnc_network_bridge.Scheduling.Jobs.{ScheduleKind, has_handler}
use cnc_network_bridge.Scheduling.Scheduler.Types.{
  Schedule, Scheduler, Event, creates, deletes, starts, ticks, threw, create_scheduler,
  CreateScheduleRequest, ScheduleResult,
}
use cnc_network_bridge.Scheduling.Scheduler.Rows.{find_row, update_row, missed_ids}
use cnc_network_bridge.Scheduling.Scheduler.{
  run, tick, step, start, program_all, program, unprogram, refresh_next_run, execute, settle,
  record_result,
}
use cnc_network_bridge.Scheduling.Scheduler.Keeps.{is_on}
use cnc_network_bridge.Scheduling.Scheduler.Timers.{run_mirrors}
use cnc_network_bridge.Scheduling.Scheduler.Overlap.{run_overlaps, started_by_cron}

-- Every hour.
abbrev next_run : String → ℕ → Option ℕ
next_run expression now = some (now + 3600)

abbrev nightly : Schedule
nightly = record {
  id = 1;
  name = "prune";
  kind = ScheduleKind.prune;
  cron = "0 * * * *";
  target = none;
  enabled = true;
  last_run_at = none;
  next_run_at = some 100;
  last_result = none;
  last_error = none;
}

-- A timer waits for a promise.
abbrev stays_busy : Bool → Bool
stays_busy promise = promise

abbrev began : Scheduler
began =
    run next_run stays_busy (starts 1000 ∷ [])
      (create_scheduler (nightly ∷ []) (ScheduleKind.prune ∷ []) 300)

programmed : get 1 began.crons ≡ some (record { expression = "0 * * * *"; busy = false })
unfolding run step start program_all program unprogram refresh_next_run update_row missed_ids get
    put remove
programmed = refl

abbrev hourly : Schedule
hourly = record nightly { next_run_at = some 4600 }

began_row : find_row 1 began.rows ≡ some hourly
unfolding run step start program_all program unprogram refresh_next_run update_row missed_ids
    find_row
began_row = refl

began_handler : has_handler ScheduleKind.prune began.handlers ≡ true
unfolding run step start program_all program unprogram refresh_next_run has_handler
began_handler = refl

-- The run that was missed is made once.
caught_up : began.missed ≡ 1 ∷ []
unfolding run step start program_all program unprogram refresh_next_run update_row missed_ids
caught_up = refl

-- A job that fails leaves its message, and the time of the next run.
failed_row :
    find_row 1
      (settle next_run stays_busy 0
        (threw "disk full")
        4700
        (tick next_run stays_busy 1 4600 began)).rows
    ≡ some (record hourly {
      last_run_at = some 4700;
      next_run_at = some 8300;
      last_result = some ScheduleResult.error;
      last_error = some "disk full";
    })
unfolding run step start program_all program unprogram refresh_next_run update_row missed_ids
    find_row tick execute settle record_result has_handler get put remove
failed_row = refl

run_overlaps_example :
    (tick next_run stays_busy 1 9000 (tick next_run stays_busy 1 4600 began)).in_flight
    ≡ began.in_flight ++ started_by_cron hourly 4600 ∷ started_by_cron hourly 9000 ∷ []
run_overlaps_example =
    run_overlaps next_run stays_busy refl (nightly ∷ []) (ScheduleKind.prune ∷ []) 300
      (starts 1000 ∷ []) 1 4600 9000 (record { expression = "0 * * * *"; busy = false }) hourly
      programmed began_row began_handler

abbrev weekly : CreateScheduleRequest
weekly = record {
  name = "scan";
  kind = ScheduleKind.scan;
  cron = "0 3 * * 0";
  target = none;
  enabled = true;
}

-- One schedule is added while the scheduler runs, and the first one is deleted.
abbrev changed : List Event
changed = starts 1000 ∷ creates weekly 1100 ∷ ticks 1 4600 ∷ deletes 1 ∷ []

run_mirrors_example :
    has 2 (run next_run stays_busy changed (create_scheduler (nightly ∷ []) [] 300)).crons ≡ (
      (run next_run stays_busy changed (create_scheduler (nightly ∷ []) [] 300)).started
      && is_on 2 (run next_run stays_busy changed (create_scheduler (nightly ∷ []) [] 300)).rows)
run_mirrors_example = run_mirrors next_run stays_busy (nightly ∷ []) [] 300 changed 2 (omega arith)
