-- ===== src/Lifecycle/Drain/Flight.antt =====
-- Which operations backend/lifecycle/drain.ts takes to be in flight.
use cnc_network_bridge.Base.{
  ℕ, ◌≤◌, ◌<◌, String, ◌≡◌, refl, Bool, false, ◌&&◌, not, List, [], ◌∷◌, All, arith, inl, inr, sym,
  ◌∙◌, Bool-cases, any_of, any_of-append, ◌==◌, filter_by, ltb, leb,
}
use cnc_network_bridge.Lifecycle.Drain.{
  DrainRegistry, Operation, create, begin, done, drain, time_out, notify, is_empty, take_out,
  opened,
}
use cnc_network_bridge.Lifecycle.Drain.Events.{
  Event, begun, begins, finishes, drains, times_out, resets, step, run, IsNoReset,
}

abbrev pub in_flight : ℕ → DrainRegistry → Bool
in_flight id r = any_of (λ (o : Operation). o.id == id) r.operations

abbrev pub is_running : ℕ → DrainRegistry → Bool
is_running id r = leb 1 id && ltb id r.next_id && not (any_of (λ f. f == id) r.finished)

-- In flight is exactly what began and is not finished; what has not begun is not finished.
record Tracks (r : DrainRegistry) : Type 0 where
  exactly : (id : ℕ) → in_flight id r ≡ is_running id r
  fresh : (id : ℕ) → r.next_id ≤ id → any_of (λ f. f == id) r.finished ≡ false
  counts : 1 ≤ r.next_id

notify-same : (id : ℕ) (r : DrainRegistry) → in_flight id (notify r) ≡ in_flight id r
unfolding notify
notify-same id r = ground arith

notify-running : (id : ℕ) (r : DrainRegistry) → is_running id (notify r) ≡ is_running id r
unfolding notify
notify-running id r = ground arith

notify-next : (r : DrainRegistry) → (notify r).next_id ≡ r.next_id
unfolding notify
notify-next r = ground arith

any_of-removed :
    (id k : ℕ) (os : List Operation)
    → any_of (λ (o : Operation). o.id == id) (filter_by (λ (o : Operation). not (o.id == k)) os)
      ≡ (any_of (λ (o : Operation). o.id == id) os && not (k == id))
any_of-removed id k [] = refl
any_of-removed id k (o ∷ os) = ground (arith, any_of-removed id k os)

notify-finished : (r : DrainRegistry) → (notify r).finished ≡ r.finished
unfolding notify
notify-finished r = ground arith

begin-Tracks :
    (l : String) (now : ℕ) (r : DrainRegistry) → Tracks r → Tracks (begun (begin l now r) r)
unfolding begin
begin-Tracks l now r h = elim (Bool-cases r.closing) [
  | inl closed ↦ rw closed (record { exactly = h.exactly; fresh = h.fresh; counts = h.counts })
  | inr accepting ↦ rw accepting (record {
    exactly = λ id. ground (
      arith,
      h.exactly id,
      h.fresh id,
      h.counts,
      any_of-append (λ (o : Operation). o.id == id) r.operations (opened l now r ∷ []),
    );
    fresh = λ id le. h.fresh id (omega arith);
    counts = omega arith;
  })
]

done-Tracks : (k : ℕ) (r : DrainRegistry) → k < r.next_id → Tracks r → Tracks (done k r)
unfolding done
done-Tracks k r given h = elim (Bool-cases (any_of (λ f. f == k) r.finished)) [
  | inl again ↦ rw again h
  | inr first ↦ rw first (record {
    exactly = λ id.
        notify-same id (take_out k r)
        ∙ ground (arith, any_of-removed id k r.operations, h.exactly id)
        ∙ sym (notify-running id (take_out k r));
    fresh = λ id le.
        rw (notify-finished (take_out k r))
          (ground (arith, h.fresh id, rw (notify-next (take_out k r)) at le));
    counts = rw (notify-next (take_out k r)) h.counts;
  })
]

drain-Tracks : (r : DrainRegistry) → Tracks r → Tracks (drain r)
unfolding drain
drain-Tracks r h = elim (Bool-cases (is_empty r.operations)) [
  | inl empty ↦ rw empty (record { exactly = h.exactly; fresh = h.fresh; counts = h.counts })
  | inr busy ↦ rw busy (record { exactly = h.exactly; fresh = h.fresh; counts = h.counts })
]

time_out-Tracks : (w : ℕ) (r : DrainRegistry) → Tracks r → Tracks (time_out w r)
unfolding time_out
time_out-Tracks w r h = elim (Bool-cases (any_of (λ v. v == w) r.timers)) [
  | inr gone ↦ rw gone h
  | inl waits ↦ rw waits (record { exactly = h.exactly; fresh = h.fresh; counts = h.counts })
]

step-Tracks : (e : Event) (r : DrainRegistry) → IsNoReset e → Tracks r → Tracks (step e r)
unfolding step
step-Tracks (begins l now) r n h = begin-Tracks l now r h
step-Tracks (finishes id) r n h = elim (Bool-cases (leb 1 id && ltb id r.next_id)) [
  | inl given ↦ rw given (done-Tracks id r (ground arith) h)
  | inr unknown ↦ rw unknown h
]
step-Tracks drains r n h = drain-Tracks r h
step-Tracks (times_out w) r n h = time_out-Tracks w r h
step-Tracks resets r n h = elim n [ ]

run-Tracks : (es : List Event) (r : DrainRegistry) → All IsNoReset es → Tracks r → Tracks (run es r)
unfolding run
run-Tracks [] r n h = h
run-Tracks (e ∷ es) r (m, n) h = run-Tracks es (step e r) n (step-Tracks e r m h)

-- As long as the registry is not reset, an operation is in flight exactly if it has begun and its handle
-- is not finished, however often a handle is finished.
run-in_flight :
    (es : List Event) (id : ℕ)
    → All IsNoReset es
    → in_flight id (run es create) ≡ is_running id (run es create)
unfolding create
run-in_flight es id n =
    let start : Tracks create = record {
      exactly = λ i. ground arith;
      fresh = λ i le. refl;
      counts = omega arith;
    } in
    (run-Tracks es create n start).exactly id
