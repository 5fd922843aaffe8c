-- ===== src/Sync/Orchestrator/Reconcile.antt =====
-- `reconcile` of backend/sync/orchestrator.ts, from one await to the next, and what it commits.
use cnc_network_bridge.Base.{
  ℕ, zero, suc, ◌+◌, ◌-◌, String, Bool, true, false, ◌&&◌, ◌||◌, Option, none, some, List, [], ◌∷◌,
  ◌++◌, ltb, if◌then◌else◌, or_else,
}
use cnc_network_bridge.Sync.Diff.Types.{
  Side, FileState, DiffInput, Verdict, VersionCapture, VerdictAction,
}
use cnc_network_bridge.Sync.Diff.{decide}
use cnc_network_bridge.Sync.EchoGuard.{EchoGuard, expect, record_sync, is_quarantined}
use cnc_network_bridge.Sync.Orchestrator.Types.{
  FileRecord, Orchestrator, over, statting, capturing, writing, SyncOutcome, PortCall,
  asked_capture, captured, pushed, pulled, deleted_local, deleted_remote, update,
}
use cnc_network_bridge.Sync.Orchestrator.Breaker.{is_open, is_half_open, on_success, on_failure}

-- What the optional ports say of a path, where they are given.
pub record Flags : Type 0 where
  pub is_locked : Option Bool
  pub is_excluded : Option Bool
  pub has_case_collision : Option Bool

abbrev pub base_of : Option FileRecord → Side
base_of none = none
base_of (some r) = r.base

abbrev pub retries_of : Option FileRecord → ℕ
retries_of none = 0
retries_of (some r) = r.retry_count

abbrev pub is_due : ℕ → Option FileRecord → Bool
is_due now none = true
is_due now (some r) = elim r.next_retry_at [
  | none ↦ true
  | some at ↦ if ltb now at then false else true
]

-- The task ends with an outcome, or with null.
abbrev pub ends : String → Option SyncOutcome → Orchestrator → Orchestrator
ends path result o = record o {
  phase = update o.phase path over;
  outcome = update o.outcome path result;
}

abbrev pub call_port : String → PortCall → Orchestrator → Orchestrator
call_port path call o = record o { calls = (path, call) ∷ o.calls }

-- `this.retryDelaysMs[Math.min(retryCount - 1, …length - 1)] ?? 0`
abbrev pub delay_at : List ℕ → ℕ → ℕ
delay_at [] i = 0
delay_at (d ∷ []) i = d
delay_at (d ∷ ds) zero = d
delay_at (d ∷ ds) (suc i) = delay_at ds i

unfoldable pub record_failure :
    String → Option FileRecord → String → VerdictAction → ℕ → Orchestrator → Orchestrator
unfolding on_failure
record_failure path rec message action now o =
    let retries = retries_of rec + 1 in
    let failed : FileRecord = record {
      base = base_of rec;
      state = FileState.error;
      retry_count = retries;
      next_retry_at = some (now + delay_at o.options.retry_delays_ms (retries - 1));
      last_error = some message;
    } in
    ends path
      (some (record { rel_path = path; action = action; applied = false; error = some message }))
      (on_failure now (record o { store = update o.store path (some failed) }))

unfoldable pub commit_inert : String → Verdict → Option FileRecord → Orchestrator → Orchestrator
commit_inert path v rec o =
    let kept : FileRecord = record {
      base = base_of rec;
      state = v.next_state;
      retry_count = retries_of rec;
      next_retry_at = none;
      last_error = none;
    } in
    record o { store = update o.store path (some kept) }

abbrev pub is_deletion : VerdictAction → Bool
is_deletion VerdictAction.delete_local = true
is_deletion VerdictAction.delete_remote = true
is_deletion _ = false

-- `local ?? remote`
abbrev pub either : Side → Side → Side
either none r = r
either (some l) r = some l

abbrev pub survivor : VerdictAction → Side → Side → Side
survivor VerdictAction.pull local remote = remote
survivor VerdictAction.push local remote = local
survivor _ local remote = either local remote

abbrev pub agreed : Side → FileRecord
agreed base = record {
  base = base;
  state = FileState.synced;
  retry_count = 0;
  next_retry_at = none;
  last_error = none;
}

abbrev pub committed : VerdictAction → Side → Side → Option FileRecord
committed action local remote =
    if is_deletion action then none else some (agreed (survivor action local remote))

unfoldable pub commit_success : String → VerdictAction → Side → Side → Orchestrator → Orchestrator
commit_success path action local remote o = record o {
  store = update o.store path (committed action local remote);
}

abbrev pub is_inert : VerdictAction → Bool
is_inert VerdictAction.noop = true
is_inert VerdictAction.exclude = true
is_inert VerdictAction.skip = true
is_inert VerdictAction.error = true
is_inert VerdictAction.defer = true
is_inert _ = false

abbrev pub is_converge : VerdictAction → Bool
is_converge VerdictAction.converge = true
is_converge _ = false

abbrev pub expected_side : VerdictAction → Side → Side → Side
expected_side VerdictAction.push local remote = local
expected_side VerdictAction.pull local remote = remote
expected_side _ local remote = none

unfoldable pub expect_side : String → ℕ → Side → EchoGuard → EchoGuard
expect_side path now none g = g
expect_side path now (some s) g =
    expect (record { path = path; size = s.size; mtime_ms = s.mtime }) now g

-- The calls of the switch of `apply`. CONVERGE makes none; the actions that make it throw are inert and do
-- not reach it.
abbrev pub transfers : VerdictAction → String → DiffInput → List (String × PortCall)
transfers VerdictAction.push path i = (path, pushed i) ∷ []
transfers VerdictAction.pull path i = (path, pulled i) ∷ []
transfers VerdictAction.delete_local path i = (path, deleted_local i) ∷ []
transfers VerdictAction.delete_remote path i = (path, deleted_remote i) ∷ []
transfers _ path i = []

-- `reconcile` up to where it waits for both sides.
unfoldable pub start : String → ℕ → ℕ → Orchestrator → Orchestrator
start path cycle_now now o =
    let probed = if is_half_open o.breaker then record o { probe_used = true } else o in
    let rec = o.store path in
    let begun = record probed { phase = update o.phase path (statting rec) } in
    if is_open o.breaker
    then ends path none o
    else if is_half_open o.breaker && o.probe_used
    then ends path none o
    else if is_due cycle_now rec
    then (if is_quarantined path o.guard then ends path none probed else begun)
    else ends path none probed

abbrev pub input_of :
    String → Bool → Flags → Side → Side → Option FileRecord → Orchestrator → DiffInput
input_of path online flags local remote rec o =
    let defaults = o.options.diff_defaults in
    record {
      local = local;
      remote = remote;
      base = base_of rec;
      config = record defaults {
        rel_path = path;
        server_offline = defaults.server_offline || (if online then false else true);
        locked = or_else flags.is_locked defaults.locked;
        excluded = or_else flags.is_excluded defaults.excluded;
        case_collision = or_else flags.has_case_collision defaults.case_collision;
      };
    }

module _ (upper_case : String → String) where
  -- The end of a task whose effect is done.
  unfoldable pub succeed : String → DiffInput → ℕ → Orchestrator → Orchestrator
  unfolding commit_success on_success
  succeed path i now o =
      let action = (decide upper_case i).action in
      let synced = record o { guard = (record_sync path now o.guard).guard } in
      ends path (some (record { rel_path = path; action = action; applied = true; error = none }))
        (on_success (commit_success path action i.local i.remote synced))

  -- The switch of `apply`: what the write will look like, then the call.
  unfoldable pub write : String → Option FileRecord → DiffInput → ℕ → Orchestrator → Orchestrator
  unfolding succeed
  write path rec i now o =
      let action = (decide upper_case i).action in
      let told = record o {
        guard = expect_side path now (expected_side action i.local i.remote) o.guard;
        phase = update o.phase path (writing rec i);
        calls = transfers action path i ++ o.calls;
      } in
      if is_converge action then succeed path i now o else told

  -- The rest of `apply`, with the capture that the verdict asks for.
  unfoldable pub apply :
      String
      → Option FileRecord
      → DiffInput
      → ℕ
      → Option VersionCapture
      → Orchestrator
      → Orchestrator
  unfolding write
  apply path rec i now none o = write path rec i now o
  apply path rec i now (some c) o =
      call_port path (asked_capture c) (record o { phase = update o.phase path (capturing rec i) })

  -- Both sides are known.
  unfoldable pub statted : String → Option FileRecord → DiffInput → ℕ → Orchestrator → Orchestrator
  unfolding apply commit_inert
  statted path rec i now o =
      let v = decide upper_case i in
      if is_inert v.action
      then ends path
          (some (record { rel_path = path; action = v.action; applied = false; error = none }))
          (commit_inert path v rec o)
      else apply path rec i now v.capture_version o

  -- The capture is done.
  unfoldable pub after_capture :
      String
      → Option FileRecord
      → DiffInput
      → ℕ
      → Option VersionCapture
      → Orchestrator
      → Orchestrator
  unfolding write
  after_capture path rec i now none o = write path rec i now o
  after_capture path rec i now (some c) o = write path rec i now (call_port path (captured c) o)
