-- ===== src/Scheduling/Scheduler/Mirrors.antt =====
-- The timers of backend/scheduling/scheduler.ts against the rows of the table.
use cnc_network_bridge.Base.{
  ℕ, zero, suc, ◌≤◌, ◌≡◌, refl, sym, ◌∙◌, String, Bool, true, false, not, ◌&&◌, ◌||◌, Option, none,
  some, List, [], ◌∷◌, ◌++◌, ◌==◌, if◌then◌else◌, Bool-cases, inl, inr, any_of, any_of-append,
  filter_by, length, get, put, remove, has, nat_eq, IsMap, get-put, get-remove, put-IsMap,
  remove-IsMap, beq_refl, ap, arith, or_else, ==_iff,
}
use cnc_network_bridge.Scheduling.Jobs.{Trigger}
use cnc_network_bridge.Scheduling.Scheduler.Types.{
  Schedule, Scheduler, Timer, CreateScheduleRequest, ScheduleChanges,
}
use cnc_network_bridge.Scheduling.Scheduler.Rows.{
  find_row, greatest, update_row, apply_changes, take,
}
use cnc_network_bridge.Scheduling.Scheduler.{
  unprogram, program, create_at, update_at, update_found, delete_found, tick_timer, returns_promise,
}
use cnc_network_bridge.Scheduling.Scheduler.Keeps.{
  Same, is_on, refresh_next_run-Same, record_result-Same, execute-Same,
}

-- While the scheduler runs, a timer stands for each schedule that is enabled, and for no other.
pub record Mirrors (s : Scheduler) : Type 0 where
  pub keys : IsMap s.crons
  pub timers : (j : ℕ) → has j s.crons ≡ (s.started && is_on j s.rows)

pub Same-Mirrors : {s t : Scheduler} → Same s t → Mirrors s → Mirrors t
Same-Mirrors {s} {t} e m = record {
  keys = rw (e.crons) (m.keys);
  timers = λ j. rw (e.crons, e.started, e.rows j) (m.timers j);
}

abbrev has_row : ℕ → List Schedule → Bool
has_row id rs = any_of (λ (r : Schedule). r.id == id) rs

find_row-has_row :
    (id : ℕ) (r : Schedule) (rs : List Schedule)
    → find_row id rs ≡ some r
    → (has_row id rs ≡ true) × (r.id ≡ id)
unfolding find_row
find_row-has_row id r [] found = absurd (cc)
find_row-has_row id r (x ∷ xs) found = ground (arith, find_row-has_row id r xs)

-- An `UPDATE` that sets `enabled`.
is_on-update_row_set :
    (id j : ℕ) (f : Schedule → Schedule) (b : Bool) (rs : List Schedule)
    → ((x : Schedule) → (f x).id ≡ x.id)
    → ((x : Schedule) → (f x).enabled ≡ b)
    → is_on j (update_row id f rs) ≡ (if id == j then b && has_row id rs else is_on j rs)
unfolding update_row
is_on-update_row_set id j f b [] same_id enabled = ground arith
is_on-update_row_set id j f b (x ∷ xs) same_id enabled =
    ground (arith, is_on-update_row_set id j f b xs same_id enabled, same_id x, enabled x)

is_on-greatest : (j : ℕ) (rs : List Schedule) → greatest rs ≤ j → is_on (suc j) rs ≡ false
is_on-greatest j [] h = refl
is_on-greatest j (r ∷ rs) h = ground (arith, is_on-greatest j rs)

is_on_appended :
    (j : ℕ) (r : Schedule) (rs : List Schedule)
    → is_on j (rs ++ r ∷ []) ≡ is_on j rs || ((r.id == j) && r.enabled)
is_on_appended j r rs =
    rw (any_of-append (λ (x : Schedule). (x.id == j) && x.enabled) rs (r ∷ [])) (ground arith)

is_on-filter_by :
    (id j : ℕ) (rs : List Schedule)
    → is_on j (filter_by (λ (x : Schedule). not (x.id == id)) rs)
      ≡ (if id == j then false else is_on j rs)
is_on-filter_by id j [] = ground arith
is_on-filter_by id j (r ∷ rs) = ground (arith, is_on-filter_by id j rs)

take-nil : (n : ℕ) → take n [] ≡ []
take-nil zero = refl
take-nil (suc n) = refl

pub take_all : (n : ℕ) (rs : List Schedule) → length rs ≤ n → take n rs ≡ rs
take_all n [] h = take-nil n
take_all zero (r ∷ rs) h = absurd (omega arith)
take_all (suc n) (r ∷ rs) h = ap (λ xs. r ∷ xs) (take_all n rs (omega arith))

pub delete_found-Mirrors :
    (r : Option Schedule) (id : ℕ) (s : Scheduler) → Mirrors s → Mirrors (delete_found r id s).0
unfolding unprogram
delete_found-Mirrors none id s m = m
delete_found-Mirrors (some r) id s m = record {
  keys = remove-IsMap id s.crons m.keys;
  timers =
      λ j. ground (arith, get-remove id j s.crons m.keys, is_on-filter_by id j s.rows, m.timers j);
}

module _ (next_run : String → ℕ → Option ℕ) (stays_busy : Bool → Bool) where
  -- Once the row is written, `program` sets its timer right, whatever there was before.
  program-Mirrors :
      (r : Schedule) (now : ℕ) (s : Scheduler)
      → IsMap s.crons
      → is_on r.id s.rows ≡ r.enabled
      → ((j : ℕ) → (r.id == j) ≡ false → has j s.crons ≡ (s.started && is_on j s.rows))
      → Mirrors (program next_run stays_busy r now s)
  unfolding program unprogram
  program-Mirrors r now s keys own others =
      let bare = remove r.id s.crons in
      let bare_keys = remove-IsMap r.id s.crons keys in
      let set : Scheduler = record s {
        crons = put r.id (record { expression = r.cron; busy = false }) bare;
      } in
      let gone : (j : ℕ) → has j bare ≡ (if r.id == j then false else has j s.crons) =
        λ j. rw (get-remove r.id j s.crons keys) (ground arith) in
      let kept : (j : ℕ) → has j set.crons ≡ (if r.id == j then true else has j bare) = λ j.
        rw (get-put r.id j (record { expression = r.cron; busy = false }) bare) (ground arith) in
      let here : (j : ℕ) → (r.id == j) ≡ true → is_on j s.rows ≡ r.enabled =
        λ j e. rw (← (==_iff r.id j).0 e) own in
      elim (Bool-cases (s.started && r.enabled)) [
        | inl on ↦
            let all : Mirrors set = record {
              keys = put-IsMap r.id _ bare bare_keys;
              timers = λ j. ground (arith, kept j, gone j, here j, others j, on);
            } in
            rw on (Same-Mirrors (refresh_next_run-Same next_run stays_busy r.id r.cron now set) all)
        | inr off ↦ rw off (record {
          keys = bare_keys;
          timers = λ j. ground (arith, gone j, here j, others j, off);
        })
      ]

  pub create_at-Mirrors :
      (next : Option ℕ) (input : CreateScheduleRequest) (now : ℕ) (s : Scheduler)
      → Mirrors s
      → Mirrors (create_at next_run stays_busy next input now s).0
  create_at-Mirrors none input now s m = m
  create_at-Mirrors (some n) input now s m =
      let fresh = is_on-greatest (greatest s.rows) s.rows (omega arith) in
      program-Mirrors _ now _ m.keys
        (is_on_appended (suc (greatest s.rows)) _ s.rows
          ∙ rw (fresh, beq_refl (suc (greatest s.rows))) refl)
        (λ j e.
          m.timers j
          ∙ ap (λ b. s.started && b) (sym (is_on_appended j _ s.rows ∙ rw e (ground arith))))

  update_at-Mirrors :
      (next : Option ℕ) (cron : String) (r : Schedule) (changes : ScheduleChanges) (now : ℕ)
      (s : Scheduler)
      → has_row r.id s.rows ≡ true
      → Mirrors s
      → Mirrors (update_at next_run stays_busy next cron r changes now s).0
  update_at-Mirrors none cron r changes now s row m = m
  update_at-Mirrors (some n) cron r changes now s row m =
      let write = apply_changes changes r cron n in
      let rows : (j : ℕ)
          → is_on j (update_row r.id write s.rows)
            ≡ (if r.id == j then (write r).enabled else is_on j s.rows) =
        λ j.
          is_on-update_row_set r.id j write (write r).enabled s.rows (λ x. refl) (λ x. refl)
          ∙ rw row (ground arith) in
      program-Mirrors (write r) now _ m.keys (rows r.id ∙ rw (beq_refl r.id) refl)
        (λ j e. m.timers j ∙ ap (λ b. s.started && b) (sym (rows j ∙ rw e refl)))

  pub update_found-Mirrors :
      (r : Option Schedule) (id : ℕ) (changes : ScheduleChanges) (now : ℕ) (s : Scheduler)
      → find_row id s.rows ≡ r
      → Mirrors s
      → Mirrors (update_found next_run stays_busy r id changes now s).0
  update_found-Mirrors none id changes now s found m = m
  update_found-Mirrors (some r) id changes now s found m =
      let (row, same) = find_row-has_row id r s.rows found in
      update_at-Mirrors (next_run (or_else changes.cron r.cron) now) _ r changes now s (rw same row)
        m

  pub tick_timer-Mirrors :
      (t : Option Timer) (id now : ℕ) (s : Scheduler)
      → get id s.crons ≡ t
      → Mirrors s
      → Mirrors (tick_timer next_run stays_busy t id now s)
  tick_timer-Mirrors none id now s e m = m
  tick_timer-Mirrors (some t) id now s e m =
      let set : Scheduler = record s {
        crons = put id (record t { busy = stays_busy returns_promise }) s.crons;
      } in
      let kept : Mirrors set = record {
        keys = put-IsMap id _ s.crons m.keys;
        timers = λ j. ground (
          arith,
          get-put id j (record t { busy = stays_busy returns_promise }) s.crons,
          m.timers j,
          e,
          ==_iff id j,
          ap (λ i. get i s.crons) {x = id} {y = j},
        );
      } in
      elim (Bool-cases t.busy) [
        | inl on ↦ rw on (Same-Mirrors (record_result-Same next_run stays_busy id _ _ now s) m)
        | inr off ↦
            rw off (Same-Mirrors (execute-Same next_run stays_busy id Trigger.cron now set) kept)
      ]
