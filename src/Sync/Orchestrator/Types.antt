-- ===== src/Sync/Orchestrator/Types.antt =====
-- The state of backend/sync/orchestrator.ts. The store of records is its `get`: `paths` lists what it
-- has.
use cnc_network_bridge.Base.{ℕ, String, Bool, Option, List, if◌then◌else◌, str_eq}
use cnc_network_bridge.Sync.Diff.Types.{
  Side, FileState, DiffConfig, DiffInput, VersionCapture, VerdictAction,
}
use cnc_network_bridge.Sync.EchoGuard.{EchoGuard}

pub record FileRecord : Type 0 where
  pub base : Side
  pub state : FileState
  pub retry_count : ℕ
  pub next_retry_at : Option ℕ
  pub last_error : Option String

pub data ShareStatus : Type 0 where
  idle scanning syncing paused error offline : ShareStatus

pub data BreakerState : Type 0 where
  closed opened half_open : BreakerState

pub record OrchestratorOptions : Type 0 where
  pub diff_defaults : DiffConfig
  pub breaker_threshold : ℕ
  pub breaker_cooldown_ms : ℕ
  pub retry_delays_ms : List ℕ

-- Where the task of a path stands: not queued or over, queued, or waiting for a port, with the record
-- that it read when it started and what it decided.
pub data Phase : Type 0 where
  over queued : Phase
  statting : Option FileRecord → Phase
  capturing : Option FileRecord → DiffInput → Phase
  writing : Option FileRecord → DiffInput → Phase

pub record SyncOutcome : Type 0 where
  pub rel_path : String
  pub action : VerdictAction
  pub applied : Bool
  pub error : Option String

-- The calls of the ports that change something, as they are made, with the input of the decision that they
-- carry out, and the answer of the capture port.
pub data PortCall : Type 0 where
  asked_capture : VersionCapture → PortCall
  captured : VersionCapture → PortCall
  pushed pulled deleted_local deleted_remote : DiffInput → PortCall

-- Where the running cycle waits: for the server's answer, for the list of paths, or for its tasks.
pub data Stage : Type 0 where
  resting probing : Stage
  listing : Bool → Stage
  working : Bool → ℕ → List String → Stage

pub record Orchestrator : Type 0 where
  pub options : OrchestratorOptions
  pub status : ShareStatus
  pub is_paused : Bool
  pub consecutive_failures : ℕ
  pub breaker : BreakerState
  pub breaker_opened_at : ℕ
  pub probe_used : Bool
  pub guard : EchoGuard
  pub store : String → Option FileRecord
  pub stage : Stage
  pub phase : String → Phase
  -- What the tasks of the running cycle came to; `none` is a path that was not due.
  pub outcome : String → Option SyncOutcome
  -- The calls of the ports, newest first.
  pub calls : List (String × PortCall)

abbrev pub update {ℓ} : {A : Type ℓ} → (String → A) → String → A → String → A
update f p a q = if str_eq q p then a else f q
