-- ===== src/Scheduling/Scheduler/Keeps.antt =====
-- What the runs of jobs in backend/scheduling/scheduler.ts leave alone: the timers, and which schedules are
-- enabled.
use cnc_network_bridge.Base.{
  ℕ, ◌≡◌, refl, ◌∙◌, String, Bool, ◌&&◌, Option, none, some, List, [], ◌∷◌, ◌==◌, Bool-cases, inl,
  inr, any_of, length, get, nat_eq, ap, arith,
}
use cnc_network_bridge.Scheduling.Jobs.{Trigger, JobContext, has_handler}
use cnc_network_bridge.Scheduling.Scheduler.Types.{
  Schedule, Scheduler, Timer, ScheduleResult, Ending,
}
use cnc_network_bridge.Scheduling.Scheduler.Rows.{find_row, update_row}
use cnc_network_bridge.Scheduling.Scheduler.{
  refresh_next_run, record_result, refresh_timer, execute, execute_found, settle, settle_run,
  run_at, without_run, catch_up, catch_up_from,
}

-- Whether an enabled row has the id.
abbrev pub is_on : ℕ → List Schedule → Bool
is_on id rs = any_of (λ (r : Schedule). (r.id == id) && r.enabled) rs

pub length-update_row :
    (id : ℕ) (f : Schedule → Schedule) (rs : List Schedule)
    → length (update_row id f rs) ≡ length rs
unfolding update_row
length-update_row id f [] = refl
length-update_row id f (r ∷ rs) = omega (arith, length-update_row id f rs)

is_on-update_row :
    (id j : ℕ) (f : Schedule → Schedule) (rs : List Schedule)
    → ((r : Schedule) → (f r).id ≡ r.id)
    → ((r : Schedule) → (f r).enabled ≡ r.enabled)
    → is_on j (update_row id f rs) ≡ is_on j rs
unfolding update_row
is_on-update_row id j f [] same_id same_enabled = refl
is_on-update_row id j f (r ∷ rs) same_id same_enabled =
    let rest = is_on-update_row id j f rs same_id same_enabled in
    ground (arith, rest, same_id r, same_enabled r)

-- The timers, and which schedules are enabled, are the same.
pub record Same (s t : Scheduler) : Type 0 where
  pub crons : t.crons ≡ s.crons
  pub started : t.started ≡ s.started
  pub rows : (j : ℕ) → is_on j t.rows ≡ is_on j s.rows
  pub count : length t.rows ≡ length s.rows

-- What changes neither the timers nor the rows.
Same-unchanged :
    {s t : Scheduler} → t.crons ≡ s.crons → t.started ≡ s.started → t.rows ≡ s.rows → Same s t
Same-unchanged c b r = record {
  crons = c;
  started = b;
  rows = λ j. ap (is_on j) r;
  count = ap length r;
}

Same-trans : (s t u : Scheduler) → Same s t → Same t u → Same s u
Same-trans s t u a b = record {
  crons = b.crons ∙ a.crons;
  started = b.started ∙ a.started;
  rows = λ j. b.rows j ∙ a.rows j;
  count = b.count ∙ a.count;
}

pub update_row-Same :
    (id : ℕ) (f : Schedule → Schedule) (s : Scheduler)
    → ((r : Schedule) → (f r).id ≡ r.id)
    → ((r : Schedule) → (f r).enabled ≡ r.enabled)
    → Same s (record s { rows = update_row id f s.rows })
update_row-Same id f s same_id same_enabled = record {
  crons = refl;
  started = refl;
  rows = λ j. is_on-update_row id j f s.rows same_id same_enabled;
  count = length-update_row id f s.rows;
}

module _ (next_run : String → ℕ → Option ℕ) (stays_busy : Bool → Bool) where
  pub refresh_next_run-Same :
      (id : ℕ) (expression : String) (now : ℕ) (s : Scheduler)
      → Same s (refresh_next_run next_run stays_busy id expression now s)
  unfolding refresh_next_run
  refresh_next_run-Same id expression now s = update_row-Same id _ s (λ r. refl) (λ r. refl)

  refresh_timer-Same :
      (t : Option Timer) (id now : ℕ) (s : Scheduler)
      → Same s (refresh_timer next_run stays_busy t id now s)
  refresh_timer-Same none id now s = Same-unchanged refl refl refl
  refresh_timer-Same (some t) id now s = refresh_next_run-Same id t.expression now s

  pub record_result-Same :
      (id : ℕ) (r : ScheduleResult) (detail : Option String) (now : ℕ) (s : Scheduler)
      → Same s (record_result next_run stays_busy id r detail now s)
  unfolding record_result
  record_result-Same id r detail now s =
      Same-trans s _ _ (update_row-Same id _ s (λ r. refl) (λ r. refl))
        (refresh_timer-Same (get id s.crons) id now _)

  execute_found-Same :
      (r : Option Schedule) (trigger : Trigger) (now : ℕ) (s : Scheduler)
      → Same s (execute_found next_run stays_busy r trigger now s)
  execute_found-Same none trigger now s = Same-unchanged refl refl refl
  execute_found-Same (some r) trigger now s = elim (Bool-cases (has_handler r.kind s.handlers)) [
    | inl on ↦ rw on (Same-unchanged refl refl refl)
    | inr off ↦ rw off (record_result-Same r.id ScheduleResult.skipped _ now s)
  ]

  pub execute-Same :
      (id : ℕ) (trigger : Trigger) (now : ℕ) (s : Scheduler)
      → Same s (execute next_run stays_busy id trigger now s)
  unfolding execute
  execute-Same id trigger now s = execute_found-Same (find_row id s.rows) trigger now s

  settle_run-Same :
      (c : Option JobContext) (n : ℕ) (ending : Ending) (now : ℕ) (s : Scheduler)
      → Same s (settle_run next_run stays_busy c n ending now s)
  settle_run-Same none n ending now s = Same-unchanged refl refl refl
  settle_run-Same (some c) n ending now s =
      let without : Scheduler = record s { in_flight = without_run n s.in_flight } in
      Same-trans s without _ (Same-unchanged refl refl refl)
        (record_result-Same c.schedule_id _ _ now without)

  pub settle-Same :
      (n : ℕ) (ending : Ending) (now : ℕ) (s : Scheduler)
      → Same s (settle next_run stays_busy n ending now s)
  unfolding settle
  settle-Same n ending now s = settle_run-Same (run_at n s.in_flight) n ending now s

  catch_up_from-Same :
      (ids : List ℕ) (now : ℕ) (s : Scheduler)
      → Same s (catch_up_from next_run stays_busy ids now s)
  catch_up_from-Same [] now s = Same-unchanged refl refl refl
  catch_up_from-Same (id ∷ ids) now s =
      let next : Scheduler = record s { missed = ids } in
      Same-trans s next _ (Same-unchanged refl refl refl) (execute-Same id Trigger.catchup now next)

  pub catch_up-Same : (now : ℕ) (s : Scheduler) → Same s (catch_up next_run stays_busy now s)
  unfolding catch_up
  catch_up-Same now s = catch_up_from-Same s.missed now s
