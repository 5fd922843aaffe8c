-- ===== src/Scheduling/Scheduler/Count.antt =====
-- How many rows the table of backend/scheduling/scheduler.ts has.
use cnc_network_bridge.Base.{
  ℕ, suc, ◌+◌, ◌≤◌, ◌≡◌, refl, ◌∙◌, String, Bool, true, not, ◌&&◌, Option, none, some, List, [],
  ◌∷◌, ◌==◌, if◌then◌else◌, if_branches, or_else, length, length-append, length-filter_by-le, get,
  nat_eq, arith,
}
use cnc_network_bridge.Scheduling.Jobs.{Trigger}
use cnc_network_bridge.Scheduling.Scheduler.Types.{
  Schedule, Scheduler, Timer, CreateScheduleRequest, ScheduleChanges, Event, creates, updates,
  deletes, starts, catches, stops, ticks, runs, settles,
}
use cnc_network_bridge.Scheduling.Scheduler.Rows.{find_row, take}
use cnc_network_bridge.Scheduling.Scheduler.{
  refresh_next_run, unprogram, program, program_all, create, create_at, update, update_at,
  update_found, delete, delete_found, tick, tick_timer, start, stop, step,
}
use cnc_network_bridge.Scheduling.Scheduler.Keeps.{
  length-update_row, record_result-Same, execute-Same, settle-Same, catch_up-Same,
}

-- How many schedules the calls create at most.
abbrev pub created : List Event → ℕ
created [] = 0
created (creates input now ∷ xs) = suc (created xs)
created (x ∷ xs) = created xs

pub created-cons : (x : Event) (xs : List Event) → created (x ∷ xs) ≡ created (x ∷ []) + created xs
created-cons (creates input now) xs = omega arith
created-cons x xs = omega arith

delete_found-count :
    (r : Option Schedule) (id : ℕ) (s : Scheduler)
    → length (delete_found r id s).0.rows ≤ length s.rows
unfolding unprogram
delete_found-count none id s = omega arith
delete_found-count (some r) id s = length-filter_by-le (λ (x : Schedule). not (x.id == id)) s.rows

module _ (next_run : String → ℕ → Option ℕ) (stays_busy : Bool → Bool) where
  program-count :
      (r : Schedule) (now : ℕ) (s : Scheduler)
      → length (program next_run stays_busy r now s).rows ≡ length s.rows
  unfolding program unprogram refresh_next_run
  program-count r now s =
      if_branches (λ (t : Scheduler). length t.rows ≡ length s.rows) (s.started && r.enabled) _
        (unprogram r.id s) (λ _. length-update_row r.id _ s.rows) (λ _. refl)

  program_all-count :
      (rs : List Schedule) (now : ℕ) (s : Scheduler)
      → length (program_all next_run stays_busy rs now s).rows ≡ length s.rows
  unfolding program_all
  program_all-count [] now s = refl
  program_all-count (r ∷ rs) now s =
      program_all-count rs now (if r.enabled then program next_run stays_busy r now s else s)
      ∙ if_branches (λ (t : Scheduler). length t.rows ≡ length s.rows) r.enabled _ s
          (λ _. program-count r now s) (λ _. refl)

  create_at-count :
      (next : Option ℕ) (input : CreateScheduleRequest) (now : ℕ) (s : Scheduler)
      → length (create_at next_run stays_busy next input now s).0.rows ≤ suc (length s.rows)
  create_at-count none input now s = omega arith
  create_at-count (some n) input now s =
      rw (program-count _ now _) (rw (length-append s.rows _) (omega arith))

  update_found-count :
      (r : Option Schedule) (id : ℕ) (changes : ScheduleChanges) (now : ℕ) (s : Scheduler)
      → length (update_found next_run stays_busy r id changes now s).0.rows ≡ length s.rows
  update_found-count none id changes now s = refl
  update_found-count (some r) id changes now s =
      let at : (next : Option ℕ)
          → length
              (update_at next_run stays_busy next (or_else changes.cron r.cron) r changes now
                s).0.rows
            ≡ length s.rows =
        elim [ none ↦ refl | some n ↦ program-count _ now _ ∙ length-update_row r.id _ s.rows ] in
      at (next_run (or_else changes.cron r.cron) now)

  tick_timer-count :
      (t : Option Timer) (id now : ℕ) (s : Scheduler)
      → length (tick_timer next_run stays_busy t id now s).rows ≡ length s.rows
  tick_timer-count none id now s = refl
  tick_timer-count (some t) id now s =
      if_branches (λ (u : Scheduler). length u.rows ≡ length s.rows) t.busy _ _
        (λ _. (record_result-Same next_run stays_busy id _ _ now s).count)
        (λ _. (execute-Same next_run stays_busy id Trigger.cron now _).count)

  pub step-count :
      (x : Event) (s : Scheduler)
      → length (step next_run stays_busy x s).rows ≤ length s.rows + created (x ∷ [])
  unfolding step create update delete start stop tick unprogram
  step-count (creates input now) s =
      omega (arith, create_at-count (next_run input.cron now) input now s)
  step-count (updates id changes now) s =
      omega (arith, update_found-count (find_row id s.rows) id changes now s)
  step-count (deletes id) s = omega (arith, delete_found-count (find_row id s.rows) id s)
  step-count (starts now) s =
      if_branches (λ (t : Scheduler). length t.rows ≤ length s.rows + 0) s.started s _
        (λ _. omega arith)
        (λ _. omega (arith, program_all-count (take 1000 s.rows) now (record s { started = true })))
  step-count (catches now) s = omega (arith, (catch_up-Same next_run stays_busy now s).count)
  step-count stops s =
      if_branches (λ (t : Scheduler). length t.rows ≤ length s.rows + 0) s.started _ s
        (λ _. omega arith) (λ _. omega arith)
  step-count (ticks id now) s = omega (arith, tick_timer-count (get id s.crons) id now s)
  step-count (runs id now) s =
      omega (arith, (execute-Same next_run stays_busy id Trigger.manual now s).count)
  step-count (settles n ending now) s =
      omega (arith, (settle-Same next_run stays_busy n ending now s).count)
