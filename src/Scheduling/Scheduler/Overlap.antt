-- ===== src/Scheduling/Scheduler/Overlap.antt =====
-- The guard against overlapping runs of backend/scheduling/scheduler.ts.
use mathlib.Core.List.{append_assoc}
use mathlib.Core.Option.{some_inj}
use cnc_network_bridge.Base.{
  ℕ, ◌≡◌, refl, sym, ap, ◌∙◌, Bool, true, false, ◌&&◌, Option, none, some, List, [], ◌∷◌, ◌++◌,
  ◌==◌, if◌then◌else◌, Dict, get, put, remove, nat_eq, All, Bool-cases, inl, inr, String, subst,
  or_else, get-put, beq_refl, if_branches,
}
use cnc_network_bridge.Scheduling.Jobs.{ScheduleKind, Trigger, JobContext, has_handler}
use cnc_network_bridge.Scheduling.Scheduler.Types.{
  Schedule, Scheduler, Timer, Event, creates, updates, deletes, starts, catches, stops, ticks, runs,
  settles, create_scheduler, CreateScheduleRequest, ScheduleChanges,
}
use cnc_network_bridge.Scheduling.Scheduler.Rows.{find_row, take}
use cnc_network_bridge.Scheduling.Scheduler.{
  unprogram, program, program_all, create, create_at, update, update_at, update_found, delete,
  delete_found, execute, execute_found, tick, tick_timer, start, stop, step, run, returns_promise,
}
use cnc_network_bridge.Scheduling.Scheduler.Keeps.{
  Same, refresh_next_run-Same, record_result-Same, execute-Same, settle-Same, catch_up-Same,
}

-- Every timer could fire.
abbrev AllIdle : Dict ℕ Timer → Type 0
AllIdle crons = All (λ (e : ℕ × Timer). e.1.busy ≡ false) crons

remove-AllIdle : (id : ℕ) (d : Dict ℕ Timer) → AllIdle d → AllIdle (remove id d)
unfolding remove
remove-AllIdle id [] h = tt
remove-AllIdle id ((j, t) ∷ d) (p, h) =
    let rest = remove-AllIdle id d h in
    elim (Bool-cases (j == id)) [ inl e ↦ rw e h | inr e ↦ rw e (p, rest) ]

put-AllIdle :
    (id : ℕ) (t : Timer) (d : Dict ℕ Timer) → t.busy ≡ false → AllIdle d → AllIdle (put id t d)
unfolding put
put-AllIdle id t [] b h = (b, tt)
put-AllIdle id t ((j, u) ∷ d) b (p, h) =
    let rest = put-AllIdle id t d b h in
    elim (Bool-cases (j == id)) [ inl e ↦ rw e (b, h) | inr e ↦ rw e (p, rest) ]

get-AllIdle :
    (id : ℕ) (t : Timer) (d : Dict ℕ Timer) → get id d ≡ some t → AllIdle d → t.busy ≡ false
unfolding get
get-AllIdle id t [] e h = absurd (cc)
get-AllIdle id t ((j, u) ∷ d) e (p, h) = elim (Bool-cases (j == id)) [
  | inl here ↦
      let same : some u ≡ some t = sym (rw here refl) ∙ e in
      subst (λ (x : Timer). x.busy ≡ false) (some_inj.0 same) p
  | inr other ↦ get-AllIdle id t d (sym (rw other refl) ∙ e) h
]

Same-AllIdle : {s t : Scheduler} → Same s t → AllIdle s.crons → AllIdle t.crons
Same-AllIdle e h = subst AllIdle (sym e.crons) h

-- The job of a schedule that a timer starts.
abbrev pub started_by_cron : Schedule → ℕ → JobContext
started_by_cron r now = record {
  trigger = Trigger.cron;
  schedule_id = r.id;
  schedule_name = r.name;
  target = r.target;
  fired_at = now;
}

-- A timer stays busy only for a promise, as croner's documentation says of its option `protect`.
module _ (next_run : String → ℕ → Option ℕ) (stays_busy : Bool → Bool)
    (awaits : stays_busy false ≡ false) where
  program-AllIdle :
      (r : Schedule) (now : ℕ) (s : Scheduler)
      → AllIdle s.crons
      → AllIdle (program next_run stays_busy r now s).crons
  unfolding program unprogram
  program-AllIdle r now s h =
      let bare = remove-AllIdle r.id s.crons h in
      let timer : Timer = record { expression = r.cron; busy = false } in
      let set : Scheduler = record s { crons = put r.id timer (remove r.id s.crons) } in
      if_branches (λ (t : Scheduler). AllIdle t.crons) (s.started && r.enabled) _ (unprogram r.id s)
        (λ _.
          Same-AllIdle (refresh_next_run-Same next_run stays_busy r.id r.cron now set)
            (put-AllIdle r.id timer (remove r.id s.crons) refl bare))
        (λ _. bare)

  create_at-AllIdle :
      (next : Option ℕ) (input : CreateScheduleRequest) (now : ℕ) (s : Scheduler)
      → AllIdle s.crons
      → AllIdle (create_at next_run stays_busy next input now s).0.crons
  create_at-AllIdle none input now s h = h
  create_at-AllIdle (some n) input now s h = program-AllIdle _ now _ h

  update_at-AllIdle :
      (next : Option ℕ) (cron : String) (r : Schedule) (changes : ScheduleChanges) (now : ℕ)
      (s : Scheduler)
      → AllIdle s.crons
      → AllIdle (update_at next_run stays_busy next cron r changes now s).0.crons
  update_at-AllIdle none cron r changes now s h = h
  update_at-AllIdle (some n) cron r changes now s h = program-AllIdle _ now _ h

  update_found-AllIdle :
      (r : Option Schedule) (id : ℕ) (changes : ScheduleChanges) (now : ℕ) (s : Scheduler)
      → AllIdle s.crons
      → AllIdle (update_found next_run stays_busy r id changes now s).0.crons
  update_found-AllIdle none id changes now s h = h
  update_found-AllIdle (some r) id changes now s h =
      update_at-AllIdle (next_run (or_else changes.cron r.cron) now) _ r changes now s h

  delete_found-AllIdle :
      (r : Option Schedule) (id : ℕ) (s : Scheduler)
      → AllIdle s.crons
      → AllIdle (delete_found r id s).0.crons
  unfolding unprogram
  delete_found-AllIdle none id s h = h
  delete_found-AllIdle (some r) id s h = remove-AllIdle id s.crons h

  tick_timer-AllIdle :
      (t : Option Timer) (id now : ℕ) (s : Scheduler)
      → AllIdle s.crons
      → AllIdle (tick_timer next_run stays_busy t id now s).crons
  tick_timer-AllIdle none id now s h = h
  tick_timer-AllIdle (some t) id now s h =
      let set : Scheduler = record s {
        crons = put id (record t { busy = stays_busy returns_promise }) s.crons;
      } in
      if_branches (λ (u : Scheduler). AllIdle u.crons) t.busy _ _
        (λ _. Same-AllIdle (record_result-Same next_run stays_busy id _ _ now s) h)
        (λ _.
          Same-AllIdle (execute-Same next_run stays_busy id Trigger.cron now set)
            (put-AllIdle id (record t { busy = stays_busy returns_promise }) s.crons awaits h))

  program_all-AllIdle :
      (rs : List Schedule) (now : ℕ) (s : Scheduler)
      → AllIdle s.crons
      → AllIdle (program_all next_run stays_busy rs now s).crons
  unfolding program_all
  program_all-AllIdle [] now s h = h
  program_all-AllIdle (r ∷ rs) now s h =
      program_all-AllIdle rs now (if r.enabled then program next_run stays_busy r now s else s) (
        if_branches (λ (t : Scheduler). AllIdle t.crons) r.enabled _ s
          (λ _. program-AllIdle r now s h) (λ _. h))

  start-AllIdle :
      (now : ℕ) (s : Scheduler) → AllIdle s.crons → AllIdle (start next_run stays_busy now s).crons
  unfolding start
  start-AllIdle now s h =
      if_branches (λ (t : Scheduler). AllIdle t.crons) s.started s _ (λ _. h)
        (λ _. program_all-AllIdle (take 1000 s.rows) now (record s { started = true }) h)

  stop-AllIdle : (s : Scheduler) → AllIdle s.crons → AllIdle (stop s).crons
  unfolding stop
  stop-AllIdle s h =
      if_branches (λ (t : Scheduler). AllIdle t.crons) s.started _ s (λ _. tt) (λ _. h)

  step-AllIdle :
      (x : Event) (s : Scheduler) → AllIdle s.crons → AllIdle (step next_run stays_busy x s).crons
  unfolding step create update delete tick
  step-AllIdle (creates input now) s h = create_at-AllIdle (next_run input.cron now) input now s h
  step-AllIdle (updates id changes now) s h =
      update_found-AllIdle (find_row id s.rows) id changes now s h
  step-AllIdle (deletes id) s h = delete_found-AllIdle (find_row id s.rows) id s h
  step-AllIdle (starts now) s h = start-AllIdle now s h
  step-AllIdle (catches now) s h = Same-AllIdle (catch_up-Same next_run stays_busy now s) h
  step-AllIdle stops s h = stop-AllIdle s h
  step-AllIdle (ticks id now) s h = tick_timer-AllIdle (get id s.crons) id now s h
  step-AllIdle (runs id now) s h =
      Same-AllIdle (execute-Same next_run stays_busy id Trigger.manual now s) h
  step-AllIdle (settles n ending now) s h =
      Same-AllIdle (settle-Same next_run stays_busy n ending now s) h

  run-AllIdle :
      (xs : List Event) (s : Scheduler)
      → AllIdle s.crons
      → AllIdle (run next_run stays_busy xs s).crons
  unfolding run
  run-AllIdle [] s h = h
  run-AllIdle (x ∷ xs) s h = run-AllIdle xs (step next_run stays_busy x s) (step-AllIdle x s h)

  tick_runs :
      (id now : ℕ) (t : Timer) (r : Schedule) (s : Scheduler)
      → get id s.crons ≡ some t
      → t.busy ≡ false
      → find_row id s.rows ≡ some r
      → has_handler r.kind s.handlers ≡ true
      → tick next_run stays_busy id now s ≡ record s {
        crons = put id (record t { busy = stays_busy returns_promise }) s.crons;
        in_flight = s.in_flight ++ started_by_cron r now ∷ [];
      }
  unfolding tick execute
  tick_runs id now t r s e idle f on =
      let s' : Scheduler = record s {
        crons = put id (record t { busy = stays_busy returns_promise }) s.crons;
      } in
      let fires : tick_timer next_run stays_busy (some t) id now s
          ≡ execute next_run stays_busy id Trigger.cron now s' =
        rw idle refl in
      let found : execute_found next_run stays_busy (some r) Trigger.cron now s'
          ≡ record s' { in_flight = s.in_flight ++ started_by_cron r now ∷ [] } =
        rw on refl in
      ap (λ x. tick_timer next_run stays_busy x id now s) e
      ∙ (fires ∙ (ap (λ x. execute_found next_run stays_busy x Trigger.cron now s') f ∙ found))

  -- Take a timer not to stay busy once its function has returned something else than a promise. Whatever
  -- the history, a timer that fires twice, for a schedule that is there and whose kind has a handler, starts
  -- two jobs of its schedule, and the first need not have ended.
  pub run_overlaps :
      (rows : List Schedule) (handlers : List ScheduleKind) (grace : ℕ) (xs : List Event)
      (id n m : ℕ) (t : Timer) (r : Schedule)
      → let s = run next_run stays_busy xs (create_scheduler rows handlers grace) in
        get id s.crons ≡ some t
        → find_row id s.rows ≡ some r
        → has_handler r.kind s.handlers ≡ true
        → (tick next_run stays_busy id m (tick next_run stays_busy id n s)).in_flight
          ≡ s.in_flight ++ started_by_cron r n ∷ started_by_cron r m ∷ []
  run_overlaps rows handlers grace xs id n m t r e f on =
      let s = run next_run stays_busy xs (create_scheduler rows handlers grace) in
      let idle =
        get-AllIdle id t s.crons e (run-AllIdle xs (create_scheduler rows handlers grace) tt) in
      let s' : Scheduler = record s {
        crons = put id (record t { busy = stays_busy returns_promise }) s.crons;
        in_flight = s.in_flight ++ started_by_cron r n ∷ [];
      } in
      let again : get id s'.crons ≡ some (record t { busy = stays_busy returns_promise }) =
        get-put id id (record t { busy = stays_busy returns_promise }) s.crons
        ∙ rw (beq_refl id) refl in
      ap (λ (x : Scheduler). x.in_flight)
        (ap (tick next_run stays_busy id m) (tick_runs id n t r s e idle f on)
          ∙ tick_runs id m (record t { busy = stays_busy returns_promise }) r s' again awaits f on)
      ∙ append_assoc s.in_flight (started_by_cron r n ∷ []) (started_by_cron r m ∷ [])
