-- ===== src/Scheduling/Jobs.antt =====
-- backend/scheduling/jobs.ts, and what shared/schemas/schedule.ts says of a schedule.
use cnc_network_bridge.Base.{ℕ, String, Bool, true, false, Option, List, [], ◌∷◌, if◌then◌else◌}

pub data ScheduleKind : Type 0 where
  lock unlock update os_update restart prune scan backup : ScheduleKind

pub record ScheduleTarget : Type 0 where
  pub share_id : Option ℕ
  pub path_glob : Option String
  pub duration_minutes : Option ℕ

pub data Trigger : Type 0 where
  cron manual catchup : Trigger

pub record JobContext : Type 0 where
  pub trigger : Trigger
  pub schedule_id : ℕ
  pub schedule_name : String
  pub target : Option ScheduleTarget
  pub fired_at : ℕ

pub record JobOutcome : Type 0 where
  pub detail : Option String
  pub skipped : Bool

abbrev pub same_kind : ScheduleKind → ScheduleKind → Bool
same_kind ScheduleKind.lock ScheduleKind.lock = true
same_kind ScheduleKind.unlock ScheduleKind.unlock = true
same_kind ScheduleKind.update ScheduleKind.update = true
same_kind ScheduleKind.os_update ScheduleKind.os_update = true
same_kind ScheduleKind.restart ScheduleKind.restart = true
same_kind ScheduleKind.prune ScheduleKind.prune = true
same_kind ScheduleKind.scan ScheduleKind.scan = true
same_kind ScheduleKind.backup ScheduleKind.backup = true
same_kind _ _ = false

abbrev pub kind_name : ScheduleKind → String
kind_name ScheduleKind.lock = "lock"
kind_name ScheduleKind.unlock = "unlock"
kind_name ScheduleKind.update = "update"
kind_name ScheduleKind.os_update = "os-update"
kind_name ScheduleKind.restart = "restart"
kind_name ScheduleKind.prune = "prune"
kind_name ScheduleKind.scan = "scan"
kind_name ScheduleKind.backup = "backup"

-- `JobRegistry`, as the kinds that have a handler: `has`.
unfoldable pub has_handler : ScheduleKind → List ScheduleKind → Bool
has_handler k [] = false
has_handler k (j ∷ js) = if same_kind j k then true else has_handler k js
