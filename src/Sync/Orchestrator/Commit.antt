-- ===== src/Sync/Orchestrator/Commit.antt =====
-- When backend/sync/orchestrator.ts commits the base of a path.
use cnc_network_bridge.Base.{
  ℕ, String, ◌≡◌, refl, Bool, true, Option, none, some, List, [], ◌∷◌, All, if◌then◌else◌, str_eq,
  arith, eq_iff, inl, inr, Bool-cases, sym, ap, subst,
}
use cnc_network_bridge.Sync.Diff.Types.{Side, DiffInput}
use cnc_network_bridge.Sync.Orchestrator.Types.{
  FileRecord, Orchestrator, Phase, over, queued, statting, capturing, writing, Stage, working,
  listing, probing, resting, update,
}
use cnc_network_bridge.Sync.Orchestrator.Breaker.{try_enter_breaker}
use cnc_network_bridge.Sync.Orchestrator.Reconcile.{Flags, input_of, base_of}
use cnc_network_bridge.Sync.Orchestrator.Cycle.{
  Event, begin_cycle, end_cycle, step, run, cycle_starts, server_answers, server_fails, list_fails,
  lists, task_starts, stats, stat_fails, captures, capture_fails, writes, write_fails, cycle_ends,
  pauses, resumes, resyncs, write_done, write_failed, start_task, stat_failed, capture_failed,
  stats_known, capture_done, server_answered, server_failed, list_failed, listed, queue_all,
  online_of,
}
use cnc_network_bridge.Sync.Orchestrator.Moves.{
  HasRead, base_after, Moves, now_done, failure_moves, success_moves, statted_moves, capture_moves,
  start_moves, stays,
}

abbrev no_flags : Flags
no_flags = record { is_locked = none; is_excluded = none; has_case_collision = none }

abbrev pub IsNoResync : Event → Type 0
IsNoResync resyncs = ⊥
IsNoResync _ = Unit

module _ (upper_case : String → String) where
  -- The transfer that a step completes, if it does.
  abbrev written_by : Phase → Option DiffInput
  written_by (writing r i) = some i
  written_by _ = none

  abbrev captured_by : Phase → Option DiffInput
  captured_by (capturing r i) = now_done upper_case i
  captured_by _ = none

  abbrev statted_by : (Option FileRecord → DiffInput) → Phase → Option DiffInput
  statted_by input (statting r) = now_done upper_case (input r)
  statted_by input _ = none

  -- What a step completes for a path: a write that is answered, or a verdict that needs no write.
  abbrev pub transferred : Event → String → Orchestrator → Option DiffInput
  transferred (writes p now) q o = if str_eq q p then written_by (o.phase p) else none
  transferred (captures p now) q o = if str_eq q p then captured_by (o.phase p) else none
  transferred (stats p l r flags now) q o =
      if str_eq q p
      then statted_by (λ rec. input_of p (online_of o.stage) flags l r rec o) (o.phase p)
      else none
  transferred _ q o = none

  AllRead : Orchestrator → Type 0
  AllRead o = (q : String) → HasRead (o.phase q) (o.store q)

  -- What a step does to every path.
  IsCommitted : Event → Orchestrator → Orchestrator → Type 0
  IsCommitted e o o' =
      AllRead o'
      × ((q : String)
          → base_of (o'.store q) ≡ base_after upper_case (transferred e q o) (base_of (o.store q)))

  moves_commit :
      (e : Event) (path : String) (t : Option DiffInput) (o o' : Orchestrator)
      → AllRead o
      → ((q : String) → transferred e q o ≡ (if str_eq q path then t else none))
      → Moves upper_case path t o o'
      → IsCommitted e o o'
  unfolding AllRead IsCommitted
  moves_commit e path t o o' read is_t m = (
    λ q. elim (Bool-cases (str_eq q path)) [
      | inl here ↦
          subst (λ p. HasRead (o'.phase p) (o'.store p)) (sym ((eq_iff q path).0 here)) m.has_read
      | inr there ↦ rw (m.phase_else q there, m.store_else q there) (read q)
    ],
    λ q. elim (Bool-cases (str_eq q path)) [
      | inl here ↦
          rw (is_t q, here)
            (subst (λ p. base_of (o'.store p) ≡ base_after upper_case t (base_of (o.store p)))
              (sym ((eq_iff q path).0 here)) m.base)
      | inr there ↦ rw (is_t q, there) (ap base_of (m.store_else q there))
    ],
  )

  -- Each answer of a port, whatever the phase of its task.
  module _ (path m : String) (l r : Side) (flags : Flags) (now : ℕ) (o : Orchestrator)
      (here : HasRead (o.phase path) (o.store path)) where
    abbrev idle : Moves upper_case path none o o
    idle = stays upper_case path o here

    answers_move :
        (f : Phase)
        → HasRead f (o.store path)
        → Moves upper_case path
            (statted_by (λ rec. input_of path (online_of o.stage) flags l r rec o) f)
            o
            (stats_known upper_case path l r flags now f o)
          × Moves upper_case path none o (stat_failed path m now f o)
          × Moves upper_case path (captured_by f) o (capture_done upper_case path now f o)
          × Moves upper_case path none o (capture_failed upper_case path m now f o)
          × Moves upper_case path (written_by f) o (write_done upper_case path now f o)
          × Moves upper_case path none o (write_failed upper_case path m now f o)
    answers_move over h = (idle, idle, idle, idle, idle, idle)
    answers_move queued h = (idle, idle, idle, idle, idle, idle)
    answers_move (statting rec) h = (
      statted_moves upper_case path rec _ now o h,
      failure_moves upper_case path rec m _ now o h,
      idle,
      idle,
      idle,
      idle,
    )
    answers_move (capturing rec i) h = (
      idle,
      idle,
      capture_moves upper_case path rec i now _ o h,
      failure_moves upper_case path rec m _ now o h,
      idle,
      idle,
    )
    answers_move (writing rec i) h = (
      idle,
      idle,
      idle,
      idle,
      success_moves upper_case path i now o,
      failure_moves upper_case path rec m _ now o h,
    )

  task_start_moves :
      (path : String) (now : ℕ) (t : Stage) (f : Phase) (o : Orchestrator)
      → HasRead (o.phase path) (o.store path)
      → Moves upper_case path none o (start_task path now t f o)
  task_start_moves path now (working b at ps) queued o h = start_moves upper_case path at now o
  task_start_moves path now (working b at ps) over o h = stays upper_case path o h
  task_start_moves path now (working b at ps) (statting r) o h = stays upper_case path o h
  task_start_moves path now (working b at ps) (capturing r i) o h = stays upper_case path o h
  task_start_moves path now (working b at ps) (writing r i) o h = stays upper_case path o h
  task_start_moves path now resting f o h = stays upper_case path o h
  task_start_moves path now probing f o h = stays upper_case path o h
  task_start_moves path now (listing b) f o h = stays upper_case path o h

  begin_steady :
      (now : ℕ) (o : Orchestrator)
      → ((begin_cycle now o).0.store ≡ o.store) × ((begin_cycle now o).0.phase ≡ o.phase)
  unfolding begin_cycle try_enter_breaker
  begin_steady now o = ground arith

  end_steady :
      (t : Stage) (o : Orchestrator)
      → ((end_cycle t o).store ≡ o.store) × ((end_cycle t o).phase ≡ o.phase)
  unfolding end_cycle
  end_steady (working b at ps) o = ground arith
  end_steady resting o = (refl, refl)
  end_steady probing o = (refl, refl)
  end_steady (listing b) o = (refl, refl)

  queue_reads :
      (ps : List String) (f : String → Phase) (s : String → Option FileRecord)
      → ((q : String) → HasRead (f q) (s q))
      → (q : String) → HasRead (queue_all ps f q) (s q)
  unfolding queue_all
  queue_reads [] f s h q = h q
  queue_reads (p ∷ ps) f s h q =
      queue_reads ps (update f p queued) s
        (λ k. elim (Bool-cases (str_eq k p)) [ inl e ↦ rw e tt | inr e ↦ rw e (h k) ]) q

  -- A step that leaves the records and the tasks alone.
  steady :
      (e : Event) (o o' : Orchestrator)
      → AllRead o
      → ((q : String) → transferred e q o ≡ none)
      → (o'.store ≡ o.store) × (o'.phase ≡ o.phase)
      → IsCommitted e o o'
  unfolding AllRead IsCommitted
  steady e o o' read nothing (same_store, same_phase) = (
    λ q. rw (same_store, same_phase) (read q),
    λ q. rw (nothing q) (ap (λ f. base_of (f q)) same_store),
  )

  listed_commit :
      (ps : List String) (now : ℕ) (t : Stage) (o : Orchestrator)
      → AllRead o
      → IsCommitted (lists ps now) o (listed ps now t o)
  unfolding AllRead IsCommitted
  listed_commit ps now (listing b) o read =
      (queue_reads ps (λ p. over) o.store (λ q. tt), λ q. refl)
  listed_commit ps now resting o read = (read, λ q. refl)
  listed_commit ps now probing o read = (read, λ q. refl)
  listed_commit ps now (working b at qs) o read = (read, λ q. refl)

  server_commit :
      (b : Bool) (t : Stage) (o : Orchestrator)
      → AllRead o
      → IsCommitted (server_answers b) o (server_answered b t o)
        × IsCommitted server_fails o (server_failed t o)
        × IsCommitted list_fails o (list_failed t o)
  unfolding AllRead IsCommitted
  server_commit b resting o h = ((h, λ q. refl), (h, λ q. refl), (h, λ q. refl))
  server_commit b probing o h = ((h, λ q. refl), (h, λ q. refl), (h, λ q. refl))
  server_commit b (listing c) o h = ((h, λ q. refl), (h, λ q. refl), (h, λ q. refl))
  server_commit b (working c at qs) o h = ((h, λ q. refl), (h, λ q. refl), (h, λ q. refl))

  step_commits :
      (e : Event) (o : Orchestrator)
      → IsNoResync e
      → AllRead o
      → IsCommitted e o (step upper_case e o)
  unfolding step AllRead
  step_commits (cycle_starts now) o n h = steady _ o _ h (λ q. refl) (begin_steady now o)
  step_commits (server_answers b) o n h = (server_commit b o.stage o h).0
  step_commits server_fails o n h = (server_commit true o.stage o h).1
  step_commits list_fails o n h = (server_commit true o.stage o h).2
  step_commits (lists ps now) o n h = listed_commit ps now o.stage o h
  step_commits cycle_ends o n h = steady _ o _ h (λ q. refl) (end_steady o.stage o)
  step_commits pauses o n h = steady _ o _ h (λ q. refl) (refl, refl)
  step_commits resumes o n h = steady _ o _ h (λ q. refl) (refl, refl)
  step_commits resyncs o n h = absurd n
  step_commits (task_starts p now) o n h =
      moves_commit (task_starts p now) p none o _ h (λ q. ground arith)
        (task_start_moves p now o.stage (o.phase p) o (h p))
  step_commits (stats p l r flags now) o n h =
      moves_commit (stats p l r flags now) p _ o _ h (λ q. refl)
        (answers_move p p l r flags now o (h p) (o.phase p) (h p)).0
  step_commits (stat_fails p m now) o n h =
      moves_commit (stat_fails p m now) p none o _ h (λ q. ground arith)
        (answers_move p m none none no_flags now o (h p) (o.phase p) (h p)).1
  step_commits (captures p now) o n h =
      moves_commit (captures p now) p _ o _ h (λ q. refl)
        (answers_move p p none none no_flags now o (h p) (o.phase p) (h p)).2
  step_commits (capture_fails p m now) o n h =
      moves_commit (capture_fails p m now) p none o _ h (λ q. ground arith)
        (answers_move p m none none no_flags now o (h p) (o.phase p) (h p)).3
  step_commits (writes p now) o n h =
      moves_commit (writes p now) p _ o _ h (λ q. refl)
        (answers_move p p none none no_flags now o (h p) (o.phase p) (h p)).4
  step_commits (write_fails p m now) o n h =
      moves_commit (write_fails p m now) p none o _ h (λ q. ground arith)
        (answers_move p m none none no_flags now o (h p) (o.phase p) (h p)).5

  run_reads :
      (es : List Event) (o : Orchestrator)
      → All IsNoResync es
      → AllRead o
      → AllRead (run upper_case es o)
  unfolding run IsCommitted
  run_reads [] o n h = h
  run_reads (e ∷ es) o (k, n) h = run_reads es (step upper_case e o) n (step_commits e o k h).0

  -- From a state with no cycle running, after any events but a full resync, the next such event changes
  -- the base of a path only if it ends a transfer of that path, or finds that its sides converge; and
  -- then the base becomes the local side after a push, the remote side after a pull, nothing after a deletion,
  -- and the local file, or the server's if there is none, where the sides converge. A failure, a verdict that
  -- waits, the start of a transfer, and whatever is about another path leave it.
  pub run-commits :
      (es : List Event) (e : Event) (q : String) (o : Orchestrator)
      → All IsNoResync es
      → IsNoResync e
      → ((p : String) → o.phase p ≡ over)
      → let before = run upper_case es o in
        base_of ((step upper_case e before).store q)
        ≡ base_after upper_case (transferred e q before) (base_of (before.store q))
  unfolding IsCommitted AllRead
  run-commits es e q o none_resync no_resync rest =
      (step_commits e (run upper_case es o) no_resync
          (run_reads es o none_resync (λ p. rw (rest p) tt))).1
        q
