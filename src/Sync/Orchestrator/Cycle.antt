-- ===== src/Sync/Orchestrator/Cycle.antt =====
-- `runCycle` of backend/sync/orchestrator.ts, its tasks in any order, and the calls from outside.
use cnc_network_bridge.Base.{
  ℕ, String, Bool, true, false, ◌&&◌, not, Option, none, some, List, [], ◌∷◌, length, if◌then◌else◌,
  is_some, filter_by,
}
use cnc_network_bridge.Sync.Diff.Types.{Side, VerdictAction}
use cnc_network_bridge.Sync.Diff.{decide}
use cnc_network_bridge.Sync.EchoGuard.{clear}
use cnc_network_bridge.Sync.Orchestrator.Types.{
  ShareStatus, closed, Orchestrator, Stage, resting, probing, listing, working, Phase, over, queued,
  statting, capturing, writing, SyncOutcome, update,
}
use cnc_network_bridge.Sync.Orchestrator.Breaker.{is_open, try_enter_breaker}
use cnc_network_bridge.Sync.Orchestrator.Reconcile.{
  Flags, start, statted, after_capture, succeed, record_failure, input_of,
}

pub record CycleResult : Type 0 where
  pub server_online : Bool
  pub scanned : ℕ
  pub applied : ℕ
  pub failed : ℕ
  pub deferred : ℕ
  pub skipped : ℕ
  pub outcomes : List SyncOutcome
  pub halted_by_breaker : Bool

-- How `summarise` counts an outcome.
pub data Kind : Type 0 where
  is_failed is_applied is_deferred is_skipped : Kind

abbrev pub is_defer : VerdictAction → Bool
is_defer VerdictAction.defer = true
is_defer _ = false

abbrev pub kind_of : SyncOutcome → Kind
kind_of x =
    if is_some x.error
    then is_failed
    else if x.applied
    then is_applied
    else if is_defer x.action
    then is_deferred
    else is_skipped

abbrev pub counts_failed : SyncOutcome → Bool
counts_failed x = elim (kind_of x) [ is_failed ↦ true | _ ↦ false ]

abbrev pub counts_applied : SyncOutcome → Bool
counts_applied x = elim (kind_of x) [ is_applied ↦ true | _ ↦ false ]

abbrev pub counts_deferred : SyncOutcome → Bool
counts_deferred x = elim (kind_of x) [ is_deferred ↦ true | _ ↦ false ]

abbrev pub counts_skipped : SyncOutcome → Bool
counts_skipped x = elim (kind_of x) [ is_skipped ↦ true | _ ↦ false ]

unfoldable pub summarise : List SyncOutcome → Bool → Bool → CycleResult
summarise outcomes halted online = record {
  server_online = online;
  scanned = length outcomes;
  applied = length (filter_by counts_applied outcomes);
  failed = length (filter_by counts_failed outcomes);
  deferred = length (filter_by counts_deferred outcomes);
  skipped = length (filter_by counts_skipped outcomes);
  outcomes = outcomes;
  halted_by_breaker = halted;
}

abbrev pub is_resting : Stage → Bool
is_resting resting = true
is_resting _ = false

-- What a call of `runCycle` comes to at once: it throws, it returns, or it goes on.
pub data Begun : Type 0 where
  threw : Begun
  returned : CycleResult → Begun
  went_on : Begun

unfoldable pub begin_cycle : ℕ → Orchestrator → Orchestrator × Begun
unfolding try_enter_breaker summarise
begin_cycle now o =
    let (entered, may) = try_enter_breaker now o in
    if not (is_resting o.stage)
    then (o, threw)
    else if o.is_paused
    then (record o { status = ShareStatus.paused }, returned (summarise [] false false))
    else if may
    then (record entered { status = ShareStatus.scanning; stage = probing }, went_on)
    else (record o { status = ShareStatus.error }, returned (summarise [] true false))

abbrev pub server_answered : Bool → Stage → Orchestrator → Orchestrator
server_answered online probing o = record o {
  status = if online then o.status else ShareStatus.offline;
  stage = listing online;
}
server_answered online _ o = o

-- `isServerOnline` throws, and with it the cycle.
abbrev pub server_failed : Stage → Orchestrator → Orchestrator
server_failed probing o = record o { stage = resting }
server_failed _ o = o

abbrev pub list_failed : Stage → Orchestrator → Orchestrator
list_failed (listing online) o = record o { status = ShareStatus.error; stage = resting }
list_failed _ o = o

unfoldable pub queue_all : List String → (String → Phase) → String → Phase
queue_all [] f = f
queue_all (p ∷ ps) f = queue_all ps (update f p queued)

abbrev pub listed : List String → ℕ → Stage → Orchestrator → Orchestrator
listed paths now (listing online) o = record o {
  status = if online then ShareStatus.syncing else o.status;
  stage = working online now paths;
  phase = queue_all paths (λ p. over);
  outcome = λ p. none;
}
listed paths now _ o = o

abbrev pub is_over : Phase → Bool
is_over over = true
is_over _ = false

unfoldable pub all_over : List String → (String → Phase) → Bool
all_over [] f = true
all_over (p ∷ ps) f = is_over (f p) && all_over ps f

-- The loop over what the tasks came to, which an open breaker leaves after its first round.
unfoldable pub collect : Bool → List String → (String → Option SyncOutcome) → List SyncOutcome
collect halted [] f = []
collect halted (p ∷ ps) f =
    let rest = collect halted ps f in
    let kept = if halted then [] else rest in elim (f p) [ none ↦ kept | some x ↦ x ∷ kept ]

unfoldable pub result_of : Stage → Orchestrator → Option CycleResult
unfolding collect summarise
result_of (working online now paths) o =
    some (summarise (collect (is_open o.breaker) paths o.outcome) (is_open o.breaker) online)
result_of _ o = none

-- The end of the cycle, once every task is over.
unfoldable pub end_cycle : Stage → Orchestrator → Orchestrator
unfolding all_over
end_cycle (working online now paths) o =
    let status = if online then ShareStatus.idle else ShareStatus.offline in
    let tidy = if not o.is_paused && not (is_open o.breaker) then status else o.status in
    if all_over paths o.phase then record o { status = tidy; stage = resting } else o
end_cycle _ o = o

abbrev pub start_task : String → ℕ → Stage → Phase → Orchestrator → Orchestrator
start_task path now (working online at paths) queued o = start path at now o
start_task path now _ _ o = o

abbrev pub online_of : Stage → Bool
online_of (working online now paths) = online
online_of _ = false

abbrev pub stat_failed : String → String → ℕ → Phase → Orchestrator → Orchestrator
stat_failed path message now (statting rec) o =
    record_failure path rec message VerdictAction.error now o
stat_failed path message now _ o = o

unfoldable pub full_resync : Orchestrator → Orchestrator
full_resync o = record o {
  store = λ p. none;
  guard = clear o.guard;
  consecutive_failures = 0;
  breaker = closed;
}

-- What happens to an orchestrator: calls, and the answers of the ports.
pub data Event : Type 0 where
  cycle_starts : ℕ → Event
  server_answers : Bool → Event
  server_fails : Event
  list_fails : Event
  lists : List String → ℕ → Event
  task_starts : String → ℕ → Event
  stats : String → Side → Side → Flags → ℕ → Event
  stat_fails : String → String → ℕ → Event
  captures : String → ℕ → Event
  capture_fails : String → String → ℕ → Event
  writes : String → ℕ → Event
  write_fails : String → String → ℕ → Event
  cycle_ends : Event
  pauses resumes resyncs : Event

module _ (upper_case : String → String) where
  abbrev pub stats_known : String → Side → Side → Flags → ℕ → Phase → Orchestrator → Orchestrator
  stats_known path local remote flags now (statting rec) o =
      statted upper_case path rec (input_of path (online_of o.stage) flags local remote rec o) now o
  stats_known path local remote flags now _ o = o

  abbrev pub capture_done : String → ℕ → Phase → Orchestrator → Orchestrator
  capture_done path now (capturing rec i) o =
      after_capture upper_case path rec i now (decide upper_case i).capture_version o
  capture_done path now _ o = o

  abbrev pub capture_failed : String → String → ℕ → Phase → Orchestrator → Orchestrator
  capture_failed path message now (capturing rec i) o =
      record_failure path rec message (decide upper_case i).action now o
  capture_failed path message now _ o = o

  abbrev pub write_done : String → ℕ → Phase → Orchestrator → Orchestrator
  write_done path now (writing rec i) o = succeed upper_case path i now o
  write_done path now _ o = o

  abbrev pub write_failed : String → String → ℕ → Phase → Orchestrator → Orchestrator
  write_failed path message now (writing rec i) o =
      record_failure path rec message (decide upper_case i).action now o
  write_failed path message now _ o = o

  unfoldable pub step : Event → Orchestrator → Orchestrator
  step (cycle_starts now) o = (begin_cycle now o).0
  step (server_answers online) o = server_answered online o.stage o
  step server_fails o = server_failed o.stage o
  step list_fails o = list_failed o.stage o
  step (lists paths now) o = listed paths now o.stage o
  step (task_starts path now) o = start_task path now o.stage (o.phase path) o
  step (stats path local remote flags now) o =
      stats_known path local remote flags now (o.phase path) o
  step (stat_fails path message now) o = stat_failed path message now (o.phase path) o
  step (captures path now) o = capture_done path now (o.phase path) o
  step (capture_fails path message now) o = capture_failed path message now (o.phase path) o
  step (writes path now) o = write_done path now (o.phase path) o
  step (write_fails path message now) o = write_failed path message now (o.phase path) o
  step cycle_ends o = end_cycle o.stage o
  step pauses o = record o { is_paused = true; status = ShareStatus.paused }
  step resumes o = record o { is_paused = false; status = ShareStatus.idle }
  step resyncs o = full_resync o

  unfoldable pub run : List Event → Orchestrator → Orchestrator
  run [] o = o
  run (e ∷ es) o = run es (step e o)
