-- ===== src/Sync/Orchestrator/Trace.antt =====
-- What stands before a call that destroys content, in backend/sync/orchestrator.ts with the verdicts of
-- backend/sync/diff-engine.ts.
use mathlib.Core.Option
use cnc_network_bridge.Base.{
  ℕ, String, ◌≡◌, refl, Bool, true, Option, none, some, List, [], ◌∷◌, ◌++◌, if◌then◌else◌, is_some,
  str_eq, arith, eq_iff, inl, inr, Bool-cases, Option-cases, ◌∙◌, ap,
}
use cnc_network_bridge.Sync.Diff.Types.{
  Side, DiffInput, Place, Verdict, VersionCapture, VerdictAction,
}
use cnc_network_bridge.Sync.Diff.{decide}
use cnc_network_bridge.Sync.Diff.Compare.{destroys_data}
use cnc_network_bridge.Sync.Diff.Capture.{written_side, captured_side, decide_captures}
use cnc_network_bridge.Sync.Orchestrator.Types.{
  FileRecord, Orchestrator, Phase, over, queued, statting, capturing, writing, PortCall, captured,
  pushed, pulled, deleted_local, deleted_remote, asked_capture, Stage, working, listing, probing,
  resting,
}
use cnc_network_bridge.Sync.Orchestrator.Breaker.{try_enter_breaker, on_success, on_failure}
use cnc_network_bridge.Sync.Orchestrator.Reconcile.{
  Flags, start, statted, apply, write, after_capture, succeed, record_failure, commit_inert,
  commit_success, is_inert, is_converge, call_port, transfers,
}
use cnc_network_bridge.Sync.Orchestrator.Cycle.{
  Event, begin_cycle, full_resync, end_cycle, step, run, cycle_starts, server_answers, server_fails,
  list_fails, lists, task_starts, stats, stat_fails, captures, capture_fails, writes, write_fails,
  cycle_ends, pauses, resumes, resyncs, write_done, write_failed, start_task, stat_failed,
  capture_failed, stats_known, capture_done, server_answered, server_failed, list_failed, listed,
}

-- The side whose capture is the latest thing that was done for a path.
abbrev pub captured_by : PortCall → Option Place
captured_by (captured c) = some c.side
captured_by _ = none

unfoldable pub last_capture : String → List (String × PortCall) → Option Place
last_capture path [] = none
last_capture path ((p, c) ∷ calls) =
    if str_eq p path then captured_by c else last_capture path calls

destroys_writes :
    (i : DiffInput) (v : Verdict)
    → destroys_data i v ≡ true
    → is_some (written_side v.action) ≡ true
unfolding destroys_data
destroys_writes i v h = ground arith

abbrev no_flags : Flags
no_flags = record { is_locked = none; is_excluded = none; has_case_collision = none }

module _ (upper_case : String → String) where
  -- If content is destroyed, the capture of the side that an action writes was the last thing done.
  abbrev pub Suffices : String → VerdictAction → DiffInput → List (String × PortCall) → Type 0
  Suffices path a i calls =
      (if destroys_data i (decide upper_case i) then last_capture path calls else written_side a)
      ≡ written_side a

  -- A call is the one that its verdict names, and has the capture that it needs before it.
  abbrev pub IsCaptured : String → PortCall → List (String × PortCall) → Type 0
  IsCaptured path (pushed i) calls =
      ((decide upper_case i).action ≡ VerdictAction.push) × Suffices path VerdictAction.push i calls
  IsCaptured path (pulled i) calls =
      ((decide upper_case i).action ≡ VerdictAction.pull) × Suffices path VerdictAction.pull i calls
  IsCaptured path (deleted_local i) calls =
      ((decide upper_case i).action ≡ VerdictAction.delete_local)
      × Suffices path VerdictAction.delete_local i calls
  IsCaptured path (deleted_remote i) calls =
      ((decide upper_case i).action ≡ VerdictAction.delete_remote)
      × Suffices path VerdictAction.delete_remote i calls
  IsCaptured path (asked_capture c) calls = Unit
  IsCaptured path (captured c) calls = Unit

  abbrev pub AllCaptured : List (String × PortCall) → Type 0
  AllCaptured [] = Unit
  AllCaptured ((path, c) ∷ calls) = IsCaptured path c calls × AllCaptured calls

  -- The verdict's capture, if the call before was that capture, is what the write needs.
  capture-Suffices :
      (path : String) (i : DiffInput) (calls : List (String × PortCall))
      → captured_side (decide upper_case i) ≡ last_capture path calls
      → Suffices path (decide upper_case i).action i calls
  capture-Suffices path i calls same = ground (arith, decide_captures upper_case i)

  none-Suffices :
      (path : String) (i : DiffInput) (calls : List (String × PortCall))
      → (decide upper_case i).capture_version ≡ none
      → Suffices path (decide upper_case i).action i calls
  none-Suffices path i calls nothing =
      let no_side : captured_side (decide upper_case i) ≡ none =
        ap (λ c. Option.map (λ (c : VersionCapture). c.side) c) nothing in
      ground (arith, decide_captures upper_case i, no_side, destroys_writes i (decide upper_case i))

  abbrev Good : Orchestrator → Type 0
  Good o = AllCaptured o.calls

  transfers-Good :
      (path : String) (i : DiffInput) (calls : List (String × PortCall)) (a : VerdictAction)
      → (decide upper_case i).action ≡ a
      → Suffices path a i calls
      → AllCaptured calls
      → AllCaptured (transfers a path i ++ calls)
  transfers-Good path i calls VerdictAction.push e s h = ((e, s), h)
  transfers-Good path i calls VerdictAction.pull e s h = ((e, s), h)
  transfers-Good path i calls VerdictAction.delete_local e s h = ((e, s), h)
  transfers-Good path i calls VerdictAction.delete_remote e s h = ((e, s), h)
  transfers-Good path i calls VerdictAction.converge e s h = h
  transfers-Good path i calls VerdictAction.noop e s h = h
  transfers-Good path i calls VerdictAction.exclude e s h = h
  transfers-Good path i calls VerdictAction.skip e s h = h
  transfers-Good path i calls VerdictAction.error e s h = h
  transfers-Good path i calls VerdictAction.defer e s h = h

  write-Good :
      (path : String) (rec : Option FileRecord) (i : DiffInput) (now : ℕ) (o : Orchestrator)
      → Suffices path (decide upper_case i).action i o.calls
      → Good o
      → Good (write upper_case path rec i now o)
  unfolding write succeed commit_success on_success
  write-Good path rec i now o first h =
      elim (Bool-cases (is_converge (decide upper_case i).action)) [
        | inl same ↦ rw same h
        | inr differs ↦
            rw differs (transfers-Good path i o.calls (decide upper_case i).action refl first h)
      ]

  statted-Good :
      (path : String) (rec : Option FileRecord) (i : DiffInput) (now : ℕ) (o : Orchestrator)
      → Good o
      → Good (statted upper_case path rec i now o)
  unfolding statted apply commit_inert
  statted-Good path rec i now o h = elim (Bool-cases (is_inert (decide upper_case i).action)) [
    | inl inert ↦ rw inert h
    | inr active ↦ elim (Option-cases (decide upper_case i).capture_version) [
      | inl nothing ↦
          rw (active, nothing)
            (write-Good path rec i now o (none-Suffices path i o.calls nothing) h)
      | inr (c, asked) ↦ rw (active, asked) (tt, h)
    ]
  ]

  capture-Good :
      (path : String) (rec : Option FileRecord) (i : DiffInput) (now : ℕ) (o : Orchestrator)
      → Good o
      → Good (after_capture upper_case path rec i now (decide upper_case i).capture_version o)
  unfolding after_capture last_capture
  capture-Good path rec i now o h = elim (Option-cases (decide upper_case i).capture_version) [
    | inl nothing ↦
        rw nothing (write-Good path rec i now o (none-Suffices path i o.calls nothing) h)
    | inr (c, asked) ↦
        let side : captured_side (decide upper_case i) ≡ some c.side =
          ap (λ x. Option.map (λ (x : VersionCapture). x.side) x) asked in
        rw asked (
          write-Good path rec i now (call_port path (captured c) o)
            (capture-Suffices path i ((path, captured c) ∷ o.calls)
              (side ∙ ground (arith, eq_iff path path)))
            (tt, h))
  ]

  failure_good :
      (path : String) (rec : Option FileRecord) (m : String) (a : VerdictAction) (now : ℕ)
      (o : Orchestrator)
      → (record_failure path rec m a now o).calls ≡ o.calls
  unfolding record_failure on_failure
  failure_good path rec m a now o = ground arith

  start_good :
      (path : String) (at now : ℕ) (o : Orchestrator) → (start path at now o).calls ≡ o.calls
  unfolding start
  start_good path at now o = ground arith

  begin_same : (now : ℕ) (o : Orchestrator) → (begin_cycle now o).0.calls ≡ o.calls
  unfolding begin_cycle try_enter_breaker
  begin_same now o = ground arith

  stage_same :
      (online : Bool) (paths : List String) (now : ℕ) (t : Stage) (o : Orchestrator)
      → ((server_answered online t o).calls ≡ o.calls)
        × ((server_failed t o).calls ≡ o.calls)
        × ((list_failed t o).calls ≡ o.calls)
        × ((listed paths now t o).calls ≡ o.calls)
        × ((end_cycle t o).calls ≡ o.calls)
  unfolding end_cycle
  stage_same online paths now resting o = (refl, refl, refl, refl, refl)
  stage_same online paths now probing o = (refl, refl, refl, refl, refl)
  stage_same online paths now (listing b) o = (refl, refl, refl, refl, refl)
  stage_same online paths now (working b at ps) o = (refl, refl, refl, refl, ground arith)

  task_start_same :
      (path : String) (now : ℕ) (t : Stage) (f : Phase) (o : Orchestrator)
      → (start_task path now t f o).calls ≡ o.calls
  task_start_same path now (working b at ps) queued o = start_good path at now o
  task_start_same path now (working b at ps) over o = refl
  task_start_same path now (working b at ps) (statting r) o = refl
  task_start_same path now (working b at ps) (capturing r i) o = refl
  task_start_same path now (working b at ps) (writing r i) o = refl
  task_start_same path now resting f o = refl
  task_start_same path now probing f o = refl
  task_start_same path now (listing b) f o = refl

  -- Each answer of a port, whatever the phase of its task.
  module _ (path m : String) (local remote : Side) (flags : Flags) (now : ℕ) (o : Orchestrator)
      (h : Good o) where
    answers-Good :
        (f : Phase)
        → Good (stats_known upper_case path local remote flags now f o)
          × Good (stat_failed path m now f o)
          × Good (capture_done upper_case path now f o)
          × Good (capture_failed upper_case path m now f o)
          × Good (write_done upper_case path now f o)
          × Good (write_failed upper_case path m now f o)
    unfolding succeed commit_success on_success
    answers-Good over = (h, h, h, h, h, h)
    answers-Good queued = (h, h, h, h, h, h)
    answers-Good (statting r) =
        (statted-Good path r _ now o h, rw (failure_good path r m _ now o) h, h, h, h, h)
    answers-Good (capturing r i) =
        (h, h, capture-Good path r i now o h, rw (failure_good path r m _ now o) h, h, h)
    answers-Good (writing r i) = (h, h, h, h, h, rw (failure_good path r m _ now o) h)

  step-Good : (e : Event) (o : Orchestrator) → Good o → Good (step upper_case e o)
  unfolding step full_resync
  step-Good (cycle_starts now) o h = rw (begin_same now o) h
  step-Good (server_answers b) o h = rw (stage_same b [] 0 o.stage o).0 h
  step-Good server_fails o h = rw (stage_same true [] 0 o.stage o).1 h
  step-Good list_fails o h = rw (stage_same true [] 0 o.stage o).2 h
  step-Good (lists ps now) o h = rw (stage_same true ps now o.stage o).3 h
  step-Good cycle_ends o h = rw (stage_same true [] 0 o.stage o).4 h
  step-Good (task_starts p now) o h = rw (task_start_same p now o.stage (o.phase p) o) h
  step-Good (stats p l r f now) o h = (answers-Good p p l r f now o h (o.phase p)).0
  step-Good (stat_fails p m now) o h = (answers-Good p m none none no_flags now o h (o.phase p)).1
  step-Good (captures p now) o h = (answers-Good p p none none no_flags now o h (o.phase p)).2
  step-Good (capture_fails p m now) o h =
      (answers-Good p m none none no_flags now o h (o.phase p)).3
  step-Good (writes p now) o h = (answers-Good p p none none no_flags now o h (o.phase p)).4
  step-Good (write_fails p m now) o h = (answers-Good p m none none no_flags now o h (o.phase p)).5
  step-Good pauses o h = h
  step-Good resumes o h = h
  step-Good resyncs o h = h

  -- Whatever the ports answer and in whatever order the tasks run, every push, pull and deletion is the one
  -- that its verdict names; and if the verdict destroys content on the side that the call writes, the call
  -- comes right after the capture port has answered for that side, as far as calls for the same path go,
  -- if that was so of the calls before.
  pub run-AllCaptured :
      (es : List Event) (o : Orchestrator)
      → AllCaptured o.calls
      → AllCaptured (run upper_case es o).calls
  unfolding run
  run-AllCaptured [] o h = h
  run-AllCaptured (e ∷ es) o h = run-AllCaptured es (step upper_case e o) (step-Good e o h)
