-- ===== src/Scheduling/Scheduler/Types.antt =====
-- The state of backend/scheduling/scheduler.ts, what its calls take and give, and the events of a run.
use cnc_network_bridge.Base.{ℕ, String, Bool, false, Option, List, [], Dict}
use cnc_network_bridge.Scheduling.Jobs.{ScheduleKind, ScheduleTarget, JobContext, JobOutcome}

pub data ScheduleResult : Type 0 where
  ok error skipped : ScheduleResult

pub record Schedule : Type 0 where
  pub id : ℕ
  pub name : String
  pub kind : ScheduleKind
  pub cron : String
  pub target : Option ScheduleTarget
  pub enabled : Bool
  pub last_run_at : Option ℕ
  pub next_run_at : Option ℕ
  pub last_result : Option ScheduleResult
  pub last_error : Option String

pub record CreateScheduleRequest : Type 0 where
  pub name : String
  pub kind : ScheduleKind
  pub cron : String
  pub target : Option ScheduleTarget
  pub enabled : Bool

pub record ScheduleChanges : Type 0 where
  pub name : Option String
  pub cron : Option String
  pub enabled : Option Bool
  pub target : Option (Option ScheduleTarget)

-- A timer of croner: it is busy while what its function returned is not settled.
pub record Timer : Type 0 where
  pub expression : String
  pub busy : Bool

pub record Scheduler : Type 0 where
  pub rows : List Schedule
  pub handlers : List ScheduleKind
  pub crons : Dict ℕ Timer
  pub in_flight : List JobContext
  -- The schedules that are still to be caught up on.
  pub missed : List ℕ
  pub started : Bool
  pub aborted : Bool
  pub catchup_grace_s : ℕ

pub data ScheduleError : Type 0 where
  invalid_cron : String → ScheduleError
  schedule_not_found : ℕ → ScheduleError

pub data Answer : Type 0 where
  done : Answer
  refused : ScheduleError → Answer

-- How a job ends.
pub data Ending : Type 0 where
  returned : Option JobOutcome → Ending
  threw : String → Ending

pub data Event : Type 0 where
  creates : CreateScheduleRequest → ℕ → Event
  updates : ℕ → ScheduleChanges → ℕ → Event
  deletes : ℕ → Event
  starts : ℕ → Event
  catches : ℕ → Event
  stops : Event
  ticks : ℕ → ℕ → Event
  -- The route that runs a schedule by hand.
  runs : ℕ → ℕ → Event
  settles : ℕ → Ending → ℕ → Event

abbrev pub create_scheduler : List Schedule → List ScheduleKind → ℕ → Scheduler
create_scheduler rows handlers grace = record {
  rows = rows;
  handlers = handlers;
  crons = [];
  in_flight = [];
  missed = [];
  started = false;
  aborted = false;
  catchup_grace_s = grace;
}
