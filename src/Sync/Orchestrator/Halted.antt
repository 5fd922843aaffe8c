-- ===== src/Sync/Orchestrator/Halted.antt =====
-- What the result of a cycle of backend/sync/orchestrator.ts counts.
use mathlib.Core.Option.{some_inj}
use cnc_network_bridge.Base.{
  ℕ, ◌+◌, ◌≤◌, String, ◌≡◌, refl, Bool, true, false, Option, some, List, [], ◌∷◌, length, filter_by,
  arith, inl, inr, Option-cases, sym, is_some,
}
use cnc_network_bridge.Sync.Orchestrator.Types.{Orchestrator, SyncOutcome, working}
use cnc_network_bridge.Sync.Orchestrator.Breaker.{is_open}
use cnc_network_bridge.Sync.Orchestrator.Cycle.{
  CycleResult, counts_failed, counts_applied, counts_deferred, counts_skipped, summarise, collect,
  result_of,
}

-- An outcome of each kind is counted once.
kinds_lem :
    (xs : List SyncOutcome)
    → length xs
      ≡ length (filter_by counts_applied xs)
        + length (filter_by counts_failed xs)
        + length (filter_by counts_deferred xs)
        + length (filter_by counts_skipped xs)
kinds_lem [] = refl
kinds_lem (x ∷ xs) = let rest = kinds_lem xs in ground (arith, rest)

-- The outcomes of the paths whose task came to something.
abbrev pub reported : (String → Option SyncOutcome) → List String → List String
reported f ps = filter_by (λ p. is_some (f p)) ps

collect_all :
    (f : String → Option SyncOutcome) (ps : List String)
    → length (collect false ps f) ≡ length (reported f ps)
unfolding collect
collect_all f [] = refl
collect_all f (p ∷ ps) =
    let rest = collect_all f ps in
    elim (Option-cases (f p)) [
      | inl e ↦ ground (arith, e, rest)
      | inr (x, e) ↦ ground (arith, e, rest)
    ]

collect_first :
    (f : String → Option SyncOutcome) (ps : List String) → length (collect true ps f) ≤ 1
unfolding collect
collect_first f [] = omega arith
collect_first f (p ∷ ps) = elim (Option-cases (f p)) [
  | inl e ↦ ground (arith, e)
  | inr (x, e) ↦ ground (arith, e)
]

-- In the result of a cycle over some paths each outcome is counted as exactly one of applied, failed,
-- deferred and skipped. When the breaker is not open at the end, the outcomes are those of all the paths
-- whose task came to something; when it is open, there is at most one outcome in the result, however many
-- tasks came to something before the breaker opened.
pub result_of_lem :
    (online : Bool) (at : ℕ) (ps : List String) (o : Orchestrator) (r : CycleResult)
    → result_of (working online at ps) o ≡ some r
    → (r.scanned ≡ r.applied + r.failed + r.deferred + r.skipped)
      × (is_open o.breaker ≡ false → r.scanned ≡ length (reported o.outcome ps))
      × (is_open o.breaker ≡ true → r.scanned ≤ 1)
unfolding result_of summarise
result_of_lem online at ps o r e =
    let halted = is_open o.breaker in
    let got : summarise (collect halted ps o.outcome) halted online ≡ r = (some_inj).0 e in
    rw (sym got) (
      kinds_lem (collect halted ps o.outcome),
      (λ h. rw h (collect_all o.outcome ps)),
      (λ h. rw h (collect_first o.outcome ps)),
    )
