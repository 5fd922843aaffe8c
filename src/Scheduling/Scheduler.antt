-- ===== src/Scheduling/Scheduler.antt =====
-- backend/scheduling/scheduler.ts. What croner does is a parameter: the next time of an expression after a
-- time, or none where the expression is of no use, and whether a timer stays busy once its function has
-- returned, by whether that was a promise. A job runs between its start and its end, and what it ends with is
-- given. The database holds no expression that croner cannot read. The log, the audit log and the JSON form
-- of a target are left out.
pub mod Types
pub mod Rows
pub mod Keeps
pub mod Mirrors
pub mod Count
pub mod Timers
pub mod Overlap
use cnc_network_bridge.Base.{
  ℕ, zero, suc, ◌+◌, String, Bool, true, false, not, ◌&&◌, Option, none, some, List, [], ◌∷◌, ◌++◌,
  ◌==◌, if◌then◌else◌, filter_by, get, put, remove, nat_eq, or_else, ◌<>◌,
}
use cnc_network_bridge.Scheduling.Jobs.{Trigger, JobContext, has_handler, kind_name}
use Types.{
  Schedule, ScheduleResult, CreateScheduleRequest, ScheduleChanges, Timer, Scheduler, Answer, done,
  refused, invalid_cron, schedule_not_found, Ending, returned, threw, Event, creates, updates,
  deletes, starts, catches, stops, ticks, runs, settles,
}
use Rows.{find_row, greatest, update_row, set_next, set_result, apply_changes, missed_ids, take}

unfoldable pub unprogram : ℕ → Scheduler → Scheduler
unprogram id s = record s { crons = remove id s.crons }

-- Whether the function that a timer calls returns a promise: `() => { void this.execute(…) }` does not.
abbrev returns_promise : Bool
returns_promise = false

abbrev without_run : ℕ → List JobContext → List JobContext
without_run n [] = []
without_run zero (c ∷ cs) = cs
without_run (suc n) (c ∷ cs) = c ∷ without_run n cs

abbrev run_at : ℕ → List JobContext → Option JobContext
run_at n [] = none
run_at zero (c ∷ cs) = some c
run_at (suc n) (c ∷ cs) = run_at n cs

abbrev no_handler : Schedule → Option String
no_handler r = some ("no handler registered for \"" <> kind_name r.kind <> "\"")

abbrev result_of : Ending → ScheduleResult
result_of (returned none) = ScheduleResult.ok
result_of (returned (some o)) = if o.skipped then ScheduleResult.skipped else ScheduleResult.ok
result_of (threw message) = ScheduleResult.error

abbrev detail_of : Ending → Option String
detail_of (returned none) = none
detail_of (returned (some o)) = o.detail
detail_of (threw message) = some message

abbrev overlap_detail : Option String
overlap_detail = some "previous run still in progress"

-- `stop`, as far as its wait for the jobs in flight.
unfoldable pub stop : Scheduler → Scheduler
stop s = if s.started then record s { started = false; crons = []; aborted = true } else s

abbrev delete_found : Option Schedule → ℕ → Scheduler → Scheduler × Answer
delete_found none id s = (s, refused (schedule_not_found id))
delete_found (some r) id s =
    let bare = unprogram id s in
    (record bare { rows = filter_by (λ (x : Schedule). not (x.id == id)) bare.rows }, done)

unfoldable pub delete : ℕ → Scheduler → Scheduler × Answer
unfolding find_row unprogram
delete id s = delete_found (find_row id s.rows) id s

module _ (next_run : String → ℕ → Option ℕ) (stays_busy : Bool → Bool) where
  -- `refreshNextRun`
  unfoldable pub refresh_next_run : ℕ → String → ℕ → Scheduler → Scheduler
  unfolding update_row
  refresh_next_run id expression now s = record s {
    rows = update_row id (set_next (next_run expression now)) s.rows;
  }

  unfoldable pub program : Schedule → ℕ → Scheduler → Scheduler
  unfolding unprogram refresh_next_run
  program r now s =
      let bare = unprogram r.id s in
      if s.started && r.enabled
      then refresh_next_run r.id r.cron now (record bare {
        crons = put r.id (record { expression = r.cron; busy = false }) bare.crons;
      })
      else bare

  abbrev create_at : Option ℕ → CreateScheduleRequest → ℕ → Scheduler → Scheduler × Answer
  create_at none input now s = (s, refused (invalid_cron input.cron))
  create_at (some next) input now s =
      let r : Schedule = record {
        id = suc (greatest s.rows);
        name = input.name;
        kind = input.kind;
        cron = input.cron;
        target = input.target;
        enabled = input.enabled;
        last_run_at = none;
        next_run_at = some next;
        last_result = none;
        last_error = none;
      } in
      (program r now (record s { rows = s.rows ++ r ∷ [] }), done)

  unfoldable pub create : CreateScheduleRequest → ℕ → Scheduler → Scheduler × Answer
  unfolding program
  create input now s = create_at (next_run input.cron now) input now s

  abbrev update_at :
      Option ℕ → String → Schedule → ScheduleChanges → ℕ → Scheduler → Scheduler × Answer
  update_at none cron r changes now s = (s, refused (invalid_cron cron))
  update_at (some next) cron r changes now s =
      let write = apply_changes changes r cron next in
      (program (write r) now (record s { rows = update_row r.id write s.rows }), done)

  abbrev update_found : Option Schedule → ℕ → ScheduleChanges → ℕ → Scheduler → Scheduler × Answer
  update_found none id changes now s = (s, refused (schedule_not_found id))
  update_found (some r) id changes now s =
      let cron = or_else changes.cron r.cron in update_at (next_run cron now) cron r changes now s

  unfoldable pub update : ℕ → ScheduleChanges → ℕ → Scheduler → Scheduler × Answer
  unfolding find_row update_row program
  update id changes now s = update_found (find_row id s.rows) id changes now s

  abbrev refresh_timer : Option Timer → ℕ → ℕ → Scheduler → Scheduler
  refresh_timer none id now s = s
  refresh_timer (some t) id now s = refresh_next_run id t.expression now s

  unfoldable pub record_result : ℕ → ScheduleResult → Option String → ℕ → Scheduler → Scheduler
  unfolding refresh_next_run update_row
  record_result id result detail now s =
      refresh_timer (get id s.crons) id now
        (record s { rows = update_row id (set_result now result detail) s.rows })

  abbrev execute_found : Option Schedule → Trigger → ℕ → Scheduler → Scheduler
  execute_found none trigger now s = s
  execute_found (some r) trigger now s =
      if has_handler r.kind s.handlers
      then record s {
        in_flight =
            s.in_flight
            ++ record {
              trigger = trigger;
              schedule_id = r.id;
              schedule_name = r.name;
              target = r.target;
              fired_at = now;
            }
              ∷ [];
      }
      else record_result r.id ScheduleResult.skipped (no_handler r) now s

  -- `execute`, as far as the call of the handler.
  unfoldable pub execute : ℕ → Trigger → ℕ → Scheduler → Scheduler
  unfolding find_row record_result
  execute id trigger now s = execute_found (find_row id s.rows) trigger now s

  abbrev settle_run : Option JobContext → ℕ → Ending → ℕ → Scheduler → Scheduler
  settle_run none n ending now s = s
  settle_run (some c) n ending now s =
      record_result c.schedule_id (result_of ending) (detail_of ending) now
        (record s { in_flight = without_run n s.in_flight })

  -- The rest of `execute`, once the handler of a job in flight has ended.
  unfoldable pub settle : ℕ → Ending → ℕ → Scheduler → Scheduler
  unfolding record_result
  settle n ending now s = settle_run (run_at n s.in_flight) n ending now s

  abbrev tick_timer : Option Timer → ℕ → ℕ → Scheduler → Scheduler
  tick_timer none id now s = s
  tick_timer (some t) id now s =
      if t.busy
      then record_result id ScheduleResult.skipped overlap_detail now s
      else execute id Trigger.cron now
          (record s { crons = put id (record t { busy = stays_busy returns_promise }) s.crons })

  -- A timer fires: croner calls `protect` in place of the function of a timer that is busy.
  unfoldable pub tick : ℕ → ℕ → Scheduler → Scheduler
  unfolding execute record_result
  tick id now s = tick_timer (get id s.crons) id now s

  unfoldable pub program_all : List Schedule → ℕ → Scheduler → Scheduler
  unfolding program
  program_all [] now s = s
  program_all (r ∷ rs) now s = program_all rs now (if r.enabled then program r now s else s)

  -- `start`, as far as the first schedule to catch up on. The missed ones are those of the rows as they
  -- were before the timers were set.
  unfoldable pub start : ℕ → Scheduler → Scheduler
  unfolding program_all missed_ids
  start now s =
      let items = take 1000 s.rows in
      if s.started then s else record (program_all items now (record s { started = true })) {
        missed = s.missed ++ missed_ids s.catchup_grace_s now items;
      }

  abbrev catch_up_from : List ℕ → ℕ → Scheduler → Scheduler
  catch_up_from [] now s = s
  catch_up_from (id ∷ ids) now s = execute id Trigger.catchup now (record s { missed = ids })

  -- The next round of the loop of `runMissed`. That it waits for the job of the round before is left open.
  unfoldable pub catch_up : ℕ → Scheduler → Scheduler
  unfolding execute
  catch_up now s = catch_up_from s.missed now s

  unfoldable pub step : Event → Scheduler → Scheduler
  unfolding create update delete start catch_up stop tick execute settle
  step (creates input now) s = (create input now s).0
  step (updates id changes now) s = (update id changes now s).0
  step (deletes id) s = (delete id s).0
  step (starts now) s = start now s
  step (catches now) s = catch_up now s
  step stops s = stop s
  step (ticks id now) s = tick id now s
  step (runs id now) s = execute id Trigger.manual now s
  step (settles n ending now) s = settle n ending now s

  unfoldable pub run : List Event → Scheduler → Scheduler
  unfolding step
  run [] s = s
  run (x ∷ xs) s = run xs (step x s)
