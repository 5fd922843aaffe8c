-- ===== src/Sync/Orchestrator/Tests.antt =====
-- Runs of the orchestrator, and its theorems at inputs where their hypotheses hold.
use cnc_network_bridge.Base.{
  if◌then◌else◌, str_eq, String, ◌≡◌, refl, true, false, Option, none, some, List, [], ◌∷◌, length,
  get, put, remove, update_all,
}
use cnc_network_bridge.Sync.Diff.Types.{FileSide, FileState, VerdictAction, last_write_wins}
use cnc_network_bridge.Sync.EchoGuard.{create, default_options, is_quarantined, expect}
use cnc_network_bridge.Sync.Diff.{decide}
use cnc_network_bridge.Sync.Diff.Compare.{same_content, needs_capture}
use cnc_network_bridge.Sync.Diff.Resolve.{choose}
use cnc_network_bridge.Sync.Orchestrator.Types.{
  FileRecord, ShareStatus, closed, opened, half_open, OrchestratorOptions, over, statting,
  SyncOutcome, Orchestrator, resting, working,
}
use cnc_network_bridge.Sync.Orchestrator.Breaker.{try_enter_breaker, is_half_open}
use cnc_network_bridge.Sync.Orchestrator.Reconcile.{
  Flags, base_of, start, statted, apply, after_capture, write, expect_side,
}
use cnc_network_bridge.Sync.Orchestrator.Cycle.{
  Event, CycleResult, cycle_starts, server_answers, lists, task_starts, stats, stat_fails, captures,
  writes, cycle_ends, step, run, begin_cycle, queue_all,
}
use cnc_network_bridge.Sync.Orchestrator.Trace.{AllCaptured, run-AllCaptured}
use cnc_network_bridge.Sync.Orchestrator.Commit.{transferred, run-commits}
use cnc_network_bridge.Sync.Orchestrator.Moves.{base_after}
use cnc_network_bridge.Sync.Orchestrator.Probe.{probe_stays_spent}
use cnc_network_bridge.Sync.Orchestrator.Failures.{IsFailed, in_stat, step-IsFailed}

abbrev keep_case : String → String
keep_case s = s

abbrev older : FileSide
older = record { size = 10; mtime = 5000; hash = some "a" }

abbrev newer : FileSide
newer = record { size = 12; mtime = 9000; hash = some "b" }

abbrev options : OrchestratorOptions
options = record {
  diff_defaults = record {
    conflict_mode = last_write_wins;
    mtime_tolerance_ms = 2000;
    protect_deletes = false;
    max_file_size_bytes = 1000;
    excluded = false;
    locked = false;
    server_offline = false;
    read_only = false;
    case_collision = false;
    rel_path = "";
  };
  breaker_threshold = 10;
  breaker_cooldown_ms = 300000;
  retry_delays_ms = 2000 ∷ 10000 ∷ 60000 ∷ [];
}

-- `a` is in sync at the older content, and `b` has failed and waits.
abbrev records : String → Option FileRecord
records p =
    if str_eq p "a"
    then some (record {
      base = some older;
      state = FileState.synced;
      retry_count = 0;
      next_retry_at = none;
      last_error = none;
    })
    else if str_eq p "b"
    then some (record {
      base = some older;
      state = FileState.error;
      retry_count = 1;
      next_retry_at = some 9000;
      last_error = some "busy";
    })
    else none

abbrev fresh : Orchestrator
fresh = record {
  options = options;
  status = ShareStatus.idle;
  is_paused = false;
  consecutive_failures = 0;
  breaker = closed;
  breaker_opened_at = 0;
  probe_used = false;
  guard = create default_options;
  store = records;
  stage = resting;
  phase = λ p. over;
  outcome = λ p. none;
  calls = [];
}

abbrev no_flags : Flags
no_flags = record { is_locked = none; is_excluded = none; has_case_collision = none }

-- A cycle in which the server has a newer `a`, up to the pull.
abbrev pulling : List Event
pulling =
    cycle_starts 100
    ∷ server_answers true
    ∷ lists ("a" ∷ "b" ∷ []) 110
    ∷ task_starts "a" 110
    ∷ task_starts "b" 110
    ∷ stats "a" (some older) (some newer) no_flags 120
    ∷ captures "a" 130
    ∷ []

pulls : length (run keep_case pulling fresh).calls ≡ 3
unfolding create same_content needs_capture choose run step begin_cycle try_enter_breaker queue_all
    start statted apply after_capture write decide is_quarantined get expect_side expect put remove
    update_all
pulls = refl

run-AllCaptured_example : AllCaptured keep_case (run keep_case pulling fresh).calls
run-AllCaptured_example = run-AllCaptured keep_case pulling fresh tt

run-commits_example :
    let before = run keep_case pulling fresh in
    base_of ((step keep_case (writes "a" 140) before).store "a")
    ≡ base_after keep_case
        (transferred keep_case (writes "a" 140) "a" before)
        (base_of (before.store "a"))
run-commits_example =
    run-commits keep_case pulling (writes "a" 140) "a" fresh
      (tt, (tt, (tt, (tt, (tt, (tt, (tt, tt))))))) tt (λ p. refl)

abbrev trying : Orchestrator
trying = record fresh { breaker = half_open; stage = working true 110 ("b" ∷ "a" ∷ []) }

probe_stays_spent_example :
    let after =
      run keep_case
        (task_starts "a" 120 ∷ cycle_ends ∷ cycle_starts 90000 ∷ [])
        (start "b" 110 120 trying) in
    (is_half_open after.breaker ≡ true) × (after.calls ≡ []) × (after.store ≡ records)
unfolding create is_quarantined get
probe_stays_spent_example =
    probe_stays_spent keep_case "b" 110 120 trying
      (task_starts "a" 120 ∷ cycle_ends ∷ cycle_starts 90000 ∷ []) refl refl (λ q. refl) refl
      (tt, (tt, (tt, tt)))

abbrev outcome : String → SyncOutcome
outcome p = record { rel_path = p; action = VerdictAction.pull; applied = true; error = none }

abbrev broken : Orchestrator
broken = record fresh { breaker = opened; outcome = λ p. some (outcome p) }

abbrev summary : CycleResult
summary = record {
  server_online = true;
  scanned = 1;
  applied = 1;
  failed = 0;
  deferred = 0;
  skipped = 0;
  outcomes = outcome "a" ∷ [];
  halted_by_breaker = true;
}

abbrev asking : Orchestrator
asking = record fresh {
  phase = λ p. statting (records p);
  stage = working true 110 ("a" ∷ "b" ∷ []);
}

step-IsFailed_example :
    IsFailed "b" 200 (records "b") asking (step keep_case (stat_fails "b" "gone" 200) asking)
step-IsFailed_example =
    step-IsFailed keep_case "b" 200 (records "b") (stat_fails "b" "gone" 200) asking in_stat
