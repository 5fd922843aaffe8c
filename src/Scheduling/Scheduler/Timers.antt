-- ===== src/Scheduling/Scheduler/Timers.antt =====
-- Which schedules have a timer after any calls of backend/scheduling/scheduler.ts.
use cnc_network_bridge.Base.{
  ℕ, ◌+◌, ◌≤◌, ◌≡◌, refl, ap, ◌∙◌, String, Bool, true, false, ◌&&◌, ◌||◌, Option, List, [], ◌∷◌,
  if◌then◌else◌, if_branches, length, get, put, remove, has, nat_eq, IsMap, get-put, get-remove,
  put-IsMap, remove-IsMap, arith,
}
use cnc_network_bridge.Scheduling.Jobs.{ScheduleKind, Trigger}
use cnc_network_bridge.Scheduling.Scheduler.Types.{
  Schedule, Scheduler, Timer, Event, creates, updates, deletes, starts, catches, stops, ticks, runs,
  settles, create_scheduler,
}
use cnc_network_bridge.Scheduling.Scheduler.Rows.{find_row, take}
use cnc_network_bridge.Scheduling.Scheduler.{
  unprogram, program, program_all, create, update, delete, tick, start, stop, step, run,
}
use cnc_network_bridge.Scheduling.Scheduler.Keeps.{
  is_on, refresh_next_run-Same, execute-Same, settle-Same, catch_up-Same,
}
use cnc_network_bridge.Scheduling.Scheduler.Count.{created, created-cons, step-count}
use cnc_network_bridge.Scheduling.Scheduler.Mirrors.{
  Mirrors, Same-Mirrors, create_at-Mirrors, update_found-Mirrors, delete_found-Mirrors,
  tick_timer-Mirrors, take_all,
}

new_timers :
    (rows : List Schedule) (handlers : List ScheduleKind) (grace j : ℕ)
    → has j (create_scheduler rows handlers grace).crons ≡ false
unfolding get
new_timers rows handlers grace j = refl

begun_timer :
    (now listed before on row on' row' : Bool)
    → now ≡ listed || before
    → before ≡ on && row
    → on ≡ false
    → listed ≡ row
    → on' ≡ true
    → row' ≡ row
    → now ≡ on' && row'
begun_timer now listed before on row on' row' a b c d e f = ground arith

module _ (next_run : String → ℕ → Option ℕ) (stays_busy : Bool → Bool) where
  -- What a loop over schedules leaves, and the timers that it sets.
  record Programmed (rs : List Schedule) (s t : Scheduler) : Type 0 where
    keys : IsMap t.crons
    started : t.started ≡ s.started
    rows : (j : ℕ) → is_on j t.rows ≡ is_on j s.rows
    timers : (j : ℕ) → has j t.crons ≡ (is_on j rs || has j s.crons)

  program-Programmed :
      (r : Schedule) (now : ℕ) (s : Scheduler)
      → s.started ≡ true
      → r.enabled ≡ true
      → IsMap s.crons
      → Programmed (r ∷ []) s (program next_run stays_busy r now s)
  unfolding program unprogram
  program-Programmed r now s on enabled keys =
      let bare = remove r.id s.crons in
      let timer : Timer = record { expression = r.cron; busy = false } in
      let set : Scheduler = record s { crons = put r.id timer bare } in
      let same = refresh_next_run-Same next_run stays_busy r.id r.cron now set in
      if_branches (Programmed (r ∷ []) s) (s.started && r.enabled) _ (unprogram r.id s)
        (λ _. record {
          keys = rw (same.crons) (put-IsMap r.id timer bare (remove-IsMap r.id s.crons keys));
          started = same.started;
          rows = same.rows;
          timers = λ j.
              ap (has j) (same.crons)
              ∙ ground (arith, get-put r.id j timer bare, get-remove r.id j s.crons keys, enabled);
        })
        (λ off. absurd (ground (arith, on, enabled, off)))

  program_all-Programmed :
      (rs : List Schedule) (now : ℕ) (s : Scheduler)
      → s.started ≡ true
      → IsMap s.crons
      → Programmed rs s (program_all next_run stays_busy rs now s)
  unfolding program_all
  program_all-Programmed [] now s on keys = record {
    keys = keys;
    started = refl;
    rows = λ j. refl;
    timers = λ j. refl;
  }
  program_all-Programmed (r ∷ rs) now s on keys =
      let first =
        if_branches (Programmed (r ∷ []) s) r.enabled (program next_run stays_busy r now s) s
          (λ enabled. program-Programmed r now s on enabled keys)
          (λ off. record {
            keys = keys;
            started = refl;
            rows = λ j. refl;
            timers = λ j. ground (arith, off);
          }) in
      let rest =
        program_all-Programmed rs now (if r.enabled then program next_run stays_busy r now s else s)
          (first.started ∙ on) first.keys in
      record {
        keys = rest.keys;
        started = rest.started ∙ first.started;
        rows = λ j. rest.rows j ∙ first.rows j;
        timers = λ j. ground (arith, rest.timers j, first.timers j);
      }

  start-Mirrors :
      (now : ℕ) (s : Scheduler)
      → length s.rows ≤ 1000
      → Mirrors s
      → Mirrors (start next_run stays_busy now s)
  unfolding start
  start-Mirrors now s few m =
      let begun : Scheduler = record s { started = true } in
      let all = program_all-Programmed (take 1000 s.rows) now begun refl m.keys in
      let listed : (j : ℕ) → is_on j (take 1000 s.rows) ≡ is_on j s.rows =
        λ j. ap (is_on j) (take_all 1000 s.rows few) in
      if_branches Mirrors s.started s _ (λ _. m)
        (λ off. record {
          keys = all.keys;
          timers = λ j.
              begun_timer _ _ _ _ _ _ _ (all.timers j) (m.timers j) off (listed j) all.started
                (all.rows j);
        })

  stop-Mirrors : (s : Scheduler) → Mirrors s → Mirrors (stop s)
  unfolding stop get
  stop-Mirrors s m =
      if_branches Mirrors s.started _ s (λ _. record { keys = tt; timers = λ j. refl }) (λ _. m)

  step-Mirrors :
      (x : Event) (s : Scheduler)
      → length s.rows ≤ 1000
      → Mirrors s
      → Mirrors (step next_run stays_busy x s)
  unfolding step create update delete tick
  step-Mirrors (creates input now) s few m =
      create_at-Mirrors next_run stays_busy (next_run input.cron now) input now s m
  step-Mirrors (updates id changes now) s few m =
      update_found-Mirrors next_run stays_busy (find_row id s.rows) id changes now s refl m
  step-Mirrors (deletes id) s few m = delete_found-Mirrors (find_row id s.rows) id s m
  step-Mirrors (starts now) s few m = start-Mirrors now s few m
  step-Mirrors (catches now) s few m = Same-Mirrors (catch_up-Same next_run stays_busy now s) m
  step-Mirrors stops s few m = stop-Mirrors s m
  step-Mirrors (ticks id now) s few m =
      tick_timer-Mirrors next_run stays_busy (get id s.crons) id now s refl m
  step-Mirrors (runs id now) s few m =
      Same-Mirrors (execute-Same next_run stays_busy id Trigger.manual now s) m
  step-Mirrors (settles n ending now) s few m =
      Same-Mirrors (settle-Same next_run stays_busy n ending now s) m

  run-Mirrors :
      (xs : List Event) (s : Scheduler)
      → length s.rows + created xs ≤ 1000
      → Mirrors s
      → Mirrors (run next_run stays_busy xs s)
  unfolding run
  run-Mirrors [] s few m = m
  run-Mirrors (x ∷ xs) s few m =
      let fewer : length (step next_run stays_busy x s).rows + created xs ≤ 1000 =
        omega (arith, step-count next_run stays_busy x s, created-cons x xs) in
      run-Mirrors xs (step next_run stays_busy x s) fewer (step-Mirrors x s (omega arith) m)

  -- After any calls of a new scheduler and any firings and ends of its jobs, where the schedules at the
  -- start and those created are at most a thousand, a schedule has a timer exactly if the scheduler runs and
  -- the table has the schedule as enabled.
  pub run_mirrors :
      (rows : List Schedule) (handlers : List ScheduleKind) (grace : ℕ) (xs : List Event) (id : ℕ)
      → length rows + created xs ≤ 1000
      → let s = run next_run stays_busy xs (create_scheduler rows handlers grace) in
        has id s.crons ≡ (s.started && is_on id s.rows)
  run_mirrors rows handlers grace xs id few =
      let new = create_scheduler rows handlers grace in
      let begins : Mirrors new = record { keys = tt; timers = new_timers rows handlers grace } in
      (run-Mirrors xs new few begins).timers id
