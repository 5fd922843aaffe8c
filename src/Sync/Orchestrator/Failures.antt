-- ===== src/Sync/Orchestrator/Failures.antt =====
-- `recordFailure` of backend/sync/orchestrator.ts, in the tasks that reach it.
use text.Mathlib.TextPositions.{eq_refl}
use cnc_network_bridge.Base.{
  ℕ, suc, ◌+◌, ◌-◌, String, ◌≡◌, refl, true, false, ◌||◌, Option, some, leb, ltb, arith, ap, ◌∙◌,
  str_eq,
}
use cnc_network_bridge.Sync.Diff.Types.{DiffInput, VerdictAction, FileState}
use cnc_network_bridge.Sync.EchoGuard.{is_quarantined}
use cnc_network_bridge.Sync.Orchestrator.Types.{
  FileRecord, Orchestrator, BreakerState, closed, opened, half_open, Phase, over, queued, statting,
  capturing, writing, update,
}
use cnc_network_bridge.Sync.Orchestrator.Breaker.{is_half_open, is_open, is_closed, on_failure}
use cnc_network_bridge.Sync.Orchestrator.Reconcile.{
  start, record_failure, base_of, retries_of, delay_at, is_due,
}
use cnc_network_bridge.Sync.Orchestrator.Cycle.{Event, step, stat_fails, capture_fails, write_fails}

-- The answer of a port is an error, for this path at this time.
pub data Fails (path : String) (now : ℕ) : Phase → Option FileRecord → Event → Type 0 where
  in_stat :
      {m : String} {rec : Option FileRecord}
      → Fails path now (statting rec) rec (stat_fails path m now)
  in_capture :
      {m : String} {rec : Option FileRecord} {i : DiffInput}
      → Fails path now (capturing rec i) rec (capture_fails path m now)
  in_write :
      {m : String} {rec : Option FileRecord} {i : DiffInput}
      → Fails path now (writing rec i) rec (write_fails path m now)

-- What a failure leaves: the record of the path, which keeps its base and waits longer; the records
-- of the others; the ports; and the breaker.
pub record IsFailed (path : String) (now : ℕ) (rec : Option FileRecord) (o o' : Orchestrator)
    : Type 0 where
  kept : FileRecord
  stored : o'.store path ≡ some kept
  base : kept.base ≡ base_of rec
  retries : kept.retry_count ≡ retries_of rec + 1
  waits : kept.next_retry_at ≡ some (now + delay_at o.options.retry_delays_ms (retries_of rec))
  others : (q : String) → str_eq q path ≡ false → o'.store q ≡ o.store q
  calls : o'.calls ≡ o.calls
  ended : o'.phase path ≡ over
  rests :
      (at later : ℕ)
      → ltb at (now + delay_at o.options.retry_delays_ms (retries_of rec)) ≡ true
      → (start path at later o').phase path ≡ over
  due :
      (at later : ℕ)
      → ltb at (now + delay_at o.options.retry_delays_ms (retries_of rec)) ≡ false
      → is_closed o'.breaker ≡ true
      → is_quarantined path o'.guard ≡ false
      → (start path at later o').phase path ≡ statting (some kept)
  counted : o'.consecutive_failures ≡ suc o.consecutive_failures
  opens :
      is_open o.breaker ≡ false
      → is_open o'.breaker
        ≡ is_half_open o.breaker || leb o.options.breaker_threshold (suc o.consecutive_failures)

abbrev set_store : (String → Option FileRecord) → Orchestrator → Orchestrator
set_store s o = record o { store = s }

on_failure_keeps :
    (now : ℕ) (o : Orchestrator)
    → ((on_failure now o).store ≡ o.store)
      × ((on_failure now o).phase ≡ o.phase)
      × ((on_failure now o).calls ≡ o.calls)
      × ((on_failure now o).consecutive_failures ≡ suc o.consecutive_failures)
      × (is_open o.breaker ≡ false
          → is_open (on_failure now o).breaker
            ≡ is_half_open o.breaker
              || leb o.options.breaker_threshold (suc o.consecutive_failures))
unfolding on_failure
on_failure_keeps now o =
    (ground arith, ground arith, ground arith, ground arith, λ h. ground (arith, h))

-- A path whose retry time is not reached is passed over.
start_late :
    (path : String) (at later : ℕ) (o : Orchestrator)
    → is_due at (o.store path) ≡ false
    → (start path at later o).phase path ≡ over
unfolding start
start_late path at later o h =
    let same : str_eq path path ≡ true = eq_refl path in ground (arith, h, same)

closed_only :
    (b : BreakerState) → is_closed b ≡ true → (is_open b ≡ false) × (is_half_open b ≡ false)
closed_only closed e = (refl, refl)
closed_only opened e = absurd (cc)
closed_only half_open e = absurd (cc)

-- A path whose retry time is reached is taken up with its record.
start_due :
    (path : String) (at later : ℕ) (kept : FileRecord) (o : Orchestrator)
    → o.store path ≡ some kept
    → is_due at (o.store path) ≡ true
    → is_closed o.breaker ≡ true
    → is_quarantined path o.guard ≡ false
    → (start path at later o).phase path ≡ statting (some kept)
unfolding start
start_due path at later kept o there due shut free =
    let (not_open, not_half) = closed_only o.breaker shut in
    let same : str_eq path path ≡ true = eq_refl path in
    rw (not_open, not_half, due, free, same, there) refl

record_failure-IsFailed :
    (path : String) (rec : Option FileRecord) (m : String) (a : VerdictAction) (now : ℕ)
    (o : Orchestrator)
    → IsFailed path now rec o (record_failure path rec m a now o)
unfolding record_failure
record_failure-IsFailed path rec m a now o =
    let same : str_eq path path ≡ true = eq_refl path in
    let kept : FileRecord = record {
      base = base_of rec;
      state = FileState.error;
      retry_count = retries_of rec + 1;
      next_retry_at = some (now + delay_at o.options.retry_delays_ms (retries_of rec + 1 - 1));
      last_error = some m;
    } in
    let keeps = on_failure_keeps now (set_store (update o.store path (some kept)) o) in
    let back : retries_of rec + 1 - 1 ≡ retries_of rec = omega arith in
    let stored : (record_failure path rec m a now o).store path ≡ some kept =
      ap (λ f. f path) keeps.0 ∙ rw same refl in
    record {
      kept = kept;
      stored = stored;
      base = refl;
      retries = refl;
      waits = rw back refl;
      others = λ q h. ap (λ f. f q) keeps.0 ∙ rw h refl;
      calls = keeps.2;
      ended = rw same refl;
      rests =
          λ at later h. start_late path at later _ (ap (is_due at) stored ∙ rw back (rw h refl));
      due = λ at later h.
          start_due path at later kept _ stored (ap (is_due at) stored ∙ rw back (rw h refl));
      counted = keeps.3;
      opens = keeps.4;
    }

module _ (upper_case : String → String) where
  answer-IsFailed :
      (path : String) (now : ℕ) (rec : Option FileRecord) (e : Event) (o : Orchestrator) (f : Phase)
      → o.phase path ≡ f
      → Fails path now f rec e
      → IsFailed path now rec o (step upper_case e o)
  unfolding step
  answer-IsFailed path now rec e o (statting r) k in_stat =
      rw k (record_failure-IsFailed path rec _ _ now o)
  answer-IsFailed path now rec e o (capturing r i) k in_capture =
      rw k (record_failure-IsFailed path rec _ _ now o)
  answer-IsFailed path now rec e o over k h = elim h [ ]
  answer-IsFailed path now rec e o queued k h = elim h [ ]
  answer-IsFailed path now rec e o (writing r i) k in_write =
      rw k (record_failure-IsFailed path rec _ _ now o)

  -- When a port answers the task of a path with an error, whether it was asked for the sides, for a capture
  -- or for a write, then the task is over; the record of the path keeps the base that the task read, counts
  -- one retry more, and waits for the delay of that count, so that a start in a cycle of an earlier time
  -- ends the task at once and one in a cycle of that time or later, with the breaker closed and the path not
  -- quarantined, asks for the sides again; no other record is touched and no port is called; and one failure more is
  -- counted, and the breaker, if it was
  -- not open, opens exactly when it was half-open or this is the last failure that the threshold allows.
  pub step-IsFailed :
      (path : String) (now : ℕ) (rec : Option FileRecord) (e : Event) (o : Orchestrator)
      → Fails path now (o.phase path) rec e
      → IsFailed path now rec o (step upper_case e o)
  step-IsFailed path now rec e o h = answer-IsFailed path now rec e o (o.phase path) refl h
