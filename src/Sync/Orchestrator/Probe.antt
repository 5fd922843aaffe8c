-- ===== src/Sync/Orchestrator/Probe.antt =====
-- What becomes of a half-open breaker in backend/sync/orchestrator.ts whose probe decides nothing.
use cnc_network_bridge.Base.{
  ℕ, String, ◌≡◌, refl, Bool, true, false, ◌&&◌, not, none, List, [], ◌∷◌, All, str_eq, arith, inl,
  inr, Bool-cases, ◌∙◌, ap,
}
use cnc_network_bridge.Sync.Diff.Types.{Side}
use cnc_network_bridge.Sync.EchoGuard.{is_quarantined}
use cnc_network_bridge.Sync.Orchestrator.Types.{
  Orchestrator, Phase, over, queued, statting, capturing, writing, Stage, working, listing, probing,
  resting, update,
}
use cnc_network_bridge.Sync.Orchestrator.Breaker.{is_half_open, is_open, try_enter_breaker}
use cnc_network_bridge.Sync.Orchestrator.Reconcile.{Flags, start, ends, is_due}
use cnc_network_bridge.Sync.Orchestrator.Cycle.{
  Event, begin_cycle, end_cycle, step, run, cycle_starts, server_answers, server_fails, list_fails,
  lists, task_starts, stats, stat_fails, captures, capture_fails, writes, write_fails, cycle_ends,
  pauses, resumes, resyncs, write_done, write_failed, start_task, stat_failed, capture_failed,
  stats_known, capture_done, server_answered, server_failed, list_failed, listed, queue_all,
}
use cnc_network_bridge.Sync.Orchestrator.Commit.{IsNoResync}

abbrev pub is_idle : Phase → Bool
is_idle over = true
is_idle queued = true
is_idle _ = false

-- The breaker is half-open, its one attempt is spent, and no task waits for a port.
pub record IsStuck (o : Orchestrator) : Type 0 where
  pub half : is_half_open o.breaker ≡ true
  pub spent : o.probe_used ≡ true
  pub idle : (p : String) → is_idle (o.phase p) ≡ true

-- Stuck, with nothing done since.
record StaysStuck (o o' : Orchestrator) : Type 0 where
  stuck : IsStuck o'
  calls : o'.calls ≡ o.calls
  store : o'.store ≡ o.store

abbrev silent : Flags
silent = record { is_locked = none; is_excluded = none; has_case_collision = none }

module _ (upper_case : String → String) where
  start_spent :
      (p : String) (at now : ℕ) (o : Orchestrator) → IsStuck o → start p at now o ≡ ends p none o
  unfolding start
  start_spent p at now o s =
      let shut : is_open o.breaker ≡ false = ground (arith, s.half) in simp (shut, s.half, s.spent)

  start_stuck :
      (p : String) (at now : ℕ) (o : Orchestrator) → IsStuck o → StaysStuck o (start p at now o)
  start_stuck p at now o s = rw (start_spent p at now o s) (record {
    stuck = record {
      half = s.half;
      spent = s.spent;
      idle = λ q. elim (Bool-cases (str_eq q p)) [
        | inl here ↦ rw here refl
        | inr there ↦ rw there (s.idle q)
      ];
    };
    calls = refl;
    store = refl;
  })

  same : (o : Orchestrator) → IsStuck o → StaysStuck o o
  same o s = record { stuck = s; calls = refl; store = refl }

  -- A step that leaves what matters here alone.
  unmoved :
      (o o' : Orchestrator)
      → IsStuck o
      → o'.breaker ≡ o.breaker
      → o'.probe_used ≡ o.probe_used
      → o'.phase ≡ o.phase
      → o'.calls ≡ o.calls
      → o'.store ≡ o.store
      → StaysStuck o o'
  unmoved o o' s b u f c t = record {
    stuck = record {
      half = ap is_half_open b ∙ s.half;
      spent = u ∙ s.spent;
      idle = λ q. ap (λ g. is_idle (g q)) f ∙ s.idle q;
    };
    calls = c;
    store = t;
  }

  task_start_stuck :
      (p : String) (now : ℕ) (t : Stage) (f : Phase) (o : Orchestrator)
      → IsStuck o
      → StaysStuck o (start_task p now t f o)
  task_start_stuck p now (working b at ps) queued o s = start_stuck p at now o s
  task_start_stuck p now (working b at ps) over o s = same o s
  task_start_stuck p now (working b at ps) (statting r) o s = same o s
  task_start_stuck p now (working b at ps) (capturing r i) o s = same o s
  task_start_stuck p now (working b at ps) (writing r i) o s = same o s
  task_start_stuck p now resting f o s = same o s
  task_start_stuck p now probing f o s = same o s
  task_start_stuck p now (listing b) f o s = same o s

  -- No task waits for an answer.
  answers_stuck :
      (p m : String) (l r : Side) (flags : Flags) (now : ℕ) (o : Orchestrator) (f : Phase)
      → is_idle f ≡ true
      → (stats_known upper_case p l r flags now f o ≡ o)
        × (stat_failed p m now f o ≡ o)
        × (capture_done upper_case p now f o ≡ o)
        × (capture_failed upper_case p m now f o ≡ o)
        × (write_done upper_case p now f o ≡ o)
        × (write_failed upper_case p m now f o ≡ o)
  answers_stuck p m l r flags now o over h = (refl, refl, refl, refl, refl, refl)
  answers_stuck p m l r flags now o queued h = (refl, refl, refl, refl, refl, refl)
  answers_stuck p m l r flags now o (statting rec) h = absurd (cc)
  answers_stuck p m l r flags now o (capturing rec i) h = absurd (cc)
  answers_stuck p m l r flags now o (writing rec i) h = absurd (cc)

  queue_idle :
      (ps : List String) (f : String → Phase)
      → ((q : String) → is_idle (f q) ≡ true)
      → (q : String) → is_idle (queue_all ps f q) ≡ true
  unfolding queue_all
  queue_idle [] f h q = h q
  queue_idle (p ∷ ps) f h q =
      queue_idle ps (update f p queued)
        (λ k. elim (Bool-cases (str_eq k p)) [ inl e ↦ rw e refl | inr e ↦ rw e (h k) ]) q

  begin_stuck : (now : ℕ) (o : Orchestrator) → IsStuck o → StaysStuck o (begin_cycle now o).0
  unfolding begin_cycle try_enter_breaker
  begin_stuck now o s =
      unmoved o _ s (ground (arith, s.half)) (ground (arith, s.half)) (ground (arith, s.half))
        (ground (arith, s.half)) (ground (arith, s.half))

  stage_stuck :
      (b : Bool) (t : Stage) (o : Orchestrator)
      → IsStuck o
      → StaysStuck o (server_answered b t o)
        × StaysStuck o (server_failed t o)
        × StaysStuck o (list_failed t o)
        × StaysStuck o (end_cycle t o)
  unfolding end_cycle
  stage_stuck b resting o s = (same o s, same o s, same o s, same o s)
  stage_stuck b probing o s = (
    unmoved o _ s refl refl refl refl refl,
    unmoved o _ s refl refl refl refl refl,
    same o s,
    same o s,
  )
  stage_stuck b (listing c) o s =
      (same o s, same o s, unmoved o _ s refl refl refl refl refl, same o s)
  stage_stuck b (working c at ps) o s = (
    same o s,
    same o s,
    same o s,
    unmoved o _ s (ground arith) (ground arith) (ground arith) (ground arith) (ground arith),
  )

  listed_stuck :
      (ps : List String) (now : ℕ) (t : Stage) (o : Orchestrator)
      → IsStuck o
      → StaysStuck o (listed ps now t o)
  listed_stuck ps now (listing b) o s = record {
    stuck = record { half = s.half; spent = s.spent; idle = queue_idle ps (λ p. over) (λ p. refl) };
    calls = refl;
    store = refl;
  }
  listed_stuck ps now resting o s = same o s
  listed_stuck ps now probing o s = same o s
  listed_stuck ps now (working b at qs) o s = same o s

  stays : (o o' : Orchestrator) → IsStuck o → o' ≡ o → StaysStuck o o'
  stays o o' s e = rw e (same o s)

  step_stuck :
      (e : Event) (o : Orchestrator) → IsNoResync e → IsStuck o → StaysStuck o (step upper_case e o)
  unfolding step
  step_stuck (cycle_starts now) o n s = begin_stuck now o s
  step_stuck (server_answers b) o n s = (stage_stuck b o.stage o s).0
  step_stuck server_fails o n s = (stage_stuck true o.stage o s).1
  step_stuck list_fails o n s = (stage_stuck true o.stage o s).2
  step_stuck (lists ps now) o n s = listed_stuck ps now o.stage o s
  step_stuck (task_starts p now) o n s = task_start_stuck p now o.stage (o.phase p) o s
  step_stuck (stats p l r flags now) o n s =
      stays o _ s (answers_stuck p p l r flags now o (o.phase p) (s.idle p)).0
  step_stuck (stat_fails p m now) o n s =
      stays o _ s (answers_stuck p m none none silent now o (o.phase p) (s.idle p)).1
  step_stuck cycle_ends o n s = (stage_stuck true o.stage o s).3
  step_stuck pauses o n s = unmoved o _ s refl refl refl refl refl
  step_stuck resumes o n s = unmoved o _ s refl refl refl refl refl
  step_stuck resyncs o n s = absurd n
  step_stuck (captures p now) o n s =
      stays o _ s (answers_stuck p p none none silent now o (o.phase p) (s.idle p)).2
  step_stuck (capture_fails p m now) o n s =
      stays o _ s (answers_stuck p m none none silent now o (o.phase p) (s.idle p)).3
  step_stuck (writes p now) o n s =
      stays o _ s (answers_stuck p p none none silent now o (o.phase p) (s.idle p)).4
  step_stuck (write_fails p m now) o n s =
      stays o _ s (answers_stuck p m none none silent now o (o.phase p) (s.idle p)).5

  run_stuck :
      (es : List Event) (o : Orchestrator)
      → All IsNoResync es
      → IsStuck o
      → StaysStuck o (run upper_case es o)
  unfolding run
  run_stuck [] o n s = same o s
  run_stuck (e ∷ es) o (k, n) s =
      let one = step_stuck e o k s in
      let rest = run_stuck es (step upper_case e o) n one.stuck in
      record { stuck = rest.stuck; calls = rest.calls ∙ one.calls; store = rest.store ∙ one.store }

  -- The first path that a half-open breaker lets in, and that is not due or is quarantined.
  start_spends :
      (p : String) (at now : ℕ) (o : Orchestrator)
      → is_half_open o.breaker ≡ true
      → o.probe_used ≡ false
      → ((q : String) → is_idle (o.phase q) ≡ true)
      → is_due at (o.store p) && not (is_quarantined p o.guard) ≡ false
      → StaysStuck o (start p at now o)
  unfolding start
  start_spends p at now o h u idle d =
      let shut : is_open o.breaker ≡ false = ground (arith, h) in
      let there : StaysStuck o (ends p none (record o { probe_used = true })) = record {
        stuck = record {
          half = h;
          spent = refl;
          idle = λ q. elim (Bool-cases (str_eq q p)) [
            | inl here ↦ rw here refl
            | inr away ↦ rw away (idle q)
          ];
        };
        calls = refl;
        store = refl;
      } in
      let e : start p at now o ≡ ends p none (record o { probe_used = true }) =
        elim (Bool-cases (is_due at (o.store p))) [
          | inl due ↦
              let held : is_quarantined p o.guard ≡ true = ground (arith, d, due) in
              simp (shut, h, u, due, held)
          | inr late ↦ simp (shut, h, u, late)
        ] in
      rw e there

-- Take a half-open breaker whose one attempt is still to be had, with no task waiting for a port, and let a
-- queued path be started whose retry time is not reached or that is quarantined. Then, whatever happens
-- short of a full resync, the breaker stays half-open, no port is asked for a change, and no record
-- is touched.
pub probe_stays_spent :
    (upper_case : String → String) (p : String) (at now : ℕ) (o : Orchestrator) (es : List Event)
    → is_half_open o.breaker ≡ true
    → o.probe_used ≡ false
    → ((q : String) → is_idle (o.phase q) ≡ true)
    → is_due at (o.store p) && not (is_quarantined p o.guard) ≡ false
    → All IsNoResync es
    → let after = run upper_case es (start p at now o) in
      (is_half_open after.breaker ≡ true) × (after.calls ≡ o.calls) × (after.store ≡ o.store)
probe_stays_spent upper_case p at now o es h u idle d n =
    let one = start_spends upper_case p at now o h u idle d in
    let rest = run_stuck upper_case es (start p at now o) n one.stuck in
    (rest.stuck.half, rest.calls ∙ one.calls, rest.store ∙ one.store)
