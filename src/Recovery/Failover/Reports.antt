-- ===== src/Recovery/Failover/Reports.antt =====
-- What backend/recovery/failover.ts reports through `onChange`.
use cnc_network_bridge.Base.{
  ℕ, suc, ◌+◌, ◌≡◌, refl, ap, sym, ◌∙◌, ◌↔◌, ◌≤◌, String, Bool, true, false, Option, none, some,
  List, [], ◌∷◌, ◌++◌, arith, str_eq, if◌then◌else◌, inl, inr, Bool-cases,
}
use mathlib.Core.Bool.{false≢true}
use text.Mathlib.TextPositions.{eq_refl}
use cnc_network_bridge.Recovery.Failover.{
  FailoverOptions, FailoverReason, Reasons, Controller, Outcome, Call, observes, holds, resumes,
  resets, create, call, run, sorted, finish, build, Effect, on_change, logged_changed,
  logged_restored, audited, observe, hold, resume, reset, snapshot_reasons, restored,
}
use cnc_network_bridge.Recovery.Failover.Latch.{snapshot_injective}

-- The last report, given the one before.
abbrev pub last_report : List FailoverReason → List Effect → List FailoverReason
last_report known [] = known
last_report known (on_change s rs ∷ es) = last_report rs es
last_report known (_ ∷ es) = last_report known es

abbrev pub reports : List Effect → ℕ
reports [] = 0
reports (on_change s rs ∷ es) = suc (reports es)
reports (_ ∷ es) = reports es

last_report-append :
    (known : List FailoverReason) (es fs : List Effect)
    → last_report known (es ++ fs) ≡ last_report (last_report known es) fs
last_report-append known [] fs = refl
last_report-append known (on_change s rs ∷ es) fs = last_report-append rs es fs
last_report-append known (audited a b d ∷ es) fs = last_report-append known es fs
last_report-append known (logged_restored n ∷ es) fs = last_report-append known es fs
last_report-append known (logged_changed s rs ∷ es) fs = last_report-append known es fs

reports-append : (es fs : List Effect) → reports (es ++ fs) ≡ reports es + reports fs
reports-append [] fs = omega arith
reports-append (on_change s rs ∷ es) fs = omega (arith, reports-append es fs)
reports-append (audited a b d ∷ es) fs = reports-append es fs
reports-append (logged_restored n ∷ es) fs = reports-append es fs
reports-append (logged_changed s rs ∷ es) fs = reports-append es fs

-- A call reports once if the reasons have changed, and not at all otherwise.
abbrev Reported : Controller → Outcome → Type 0
Reported c o =
    (last_report (sorted c.reasons) o.effects ≡ sorted o.controller.reasons)
    × (reports o.effects ≡ (
        if str_eq (snapshot_reasons c.reasons) (snapshot_reasons o.controller.reasons)
        then 0
        else 1))

finish-reports :
    (was c : Controller) (done : List Effect) (now : ℕ)
    → last_report (sorted was.reasons) done ≡ sorted was.reasons
    → reports done ≡ 0
    → Reported was (finish (snapshot_reasons was.reasons) done c now)
unfolding finish
finish-reports was c done now h k =
    elim (Bool-cases (str_eq (snapshot_reasons was.reasons) (snapshot_reasons c.reasons))) [
      | inl same ↦
          rw same (h ∙ ap sorted (snapshot_injective was.reasons c.reasons same), rw same k)
      | inr other ↦
          rw other (rw last_report-append refl, rw other (reports-append done _ ∙ rw k refl))
    ]

restored-quiet :
    (known : List FailoverReason) (b : Bool) (now : ℕ) (since : Option ℕ)
    → (last_report known (restored b now since) ≡ known) × (reports (restored b now since) ≡ 0)
unfolding restored
restored-quiet known true now (some since) = (refl, refl)
restored-quiet known true now none = (refl, refl)
restored-quiet known false now since = (refl, refl)

call-reports : (k : Call) (c : Controller) → Reported c (call k c)
unfolding call observe hold resume reset
call-reports (observes i now) c =
    let quiet = restored-quiet (sorted c.reasons) i.server_reachable now c.server_down_since in
    finish-reports c _ _ now quiet.0 quiet.1
call-reports (holds actor now) c = finish-reports c _ _ now refl refl
call-reports (resumes actor now) c = finish-reports c _ _ now refl refl
call-reports (resets actor started now) c = finish-reports c _ _ now refl refl

finish-status :
    (before : String) (done : List Effect) (c : Controller) (now : ℕ)
    → (finish before done c now).status ≡ build (finish before done c now).controller
unfolding finish
finish-status before done c now = ground arith

call-status : (k : Call) (c : Controller) → (call k c).status ≡ build (call k c).controller
unfolding call observe hold resume reset
call-status (observes i now) c = finish-status _ _ _ now
call-status (holds actor now) c = finish-status _ _ _ now
call-status (resumes actor now) c = finish-status _ _ _ now
call-status (resets actor started now) c = finish-status _ _ _ now

-- All that a sequence of calls does outside, in order.
unfoldable pub run_effects : List Call → Controller → List Effect
run_effects [] c = []
run_effects (k ∷ ks) c = (call k c).effects ++ run_effects ks (call k c).controller

run_reports_from :
    (ks : List Call) (c : Controller)
    → last_report (sorted c.reasons) (run_effects ks c) ≡ sorted (run ks c).reasons
unfolding run run_effects
run_reports_from [] c = refl
run_reports_from (k ∷ ks) c =
    rw (last_report-append, (call-reports k c).0) (run_reports_from ks (call k c).controller)

-- A listener that only keeps the last report knows the reasons of the controller after any calls.
run_reports :
    (o : FailoverOptions) (start : ℕ) (ks : List Call)
    → last_report [] (run_effects ks (create o start)) ≡ sorted (run ks (create o start)).reasons
unfolding create sorted
run_reports o start ks = run_reports_from ks (create o start)

differs :
    (r s : Reasons) (n : ℕ)
    → n ≡ (if str_eq (snapshot_reasons r) (snapshot_reasons s) then 0 else 1)
    → ((n ≡ 0) ↔ (s ≡ r)) × (n ≤ 1)
differs r s n e = elim (Bool-cases (str_eq (snapshot_reasons r) (snapshot_reasons s))) [
  | inl same ↦
      let n0 : n ≡ 0 = rw same at e in
      ((λ _. sym (snapshot_injective r s same), λ _. n0), omega arith)
  | inr other ↦
      let n1 : n ≡ 1 = rw other at e in
      (
        (
          λ z. absurd (omega arith),
          λ q. absurd (false≢true (sym other ∙ rw q (eq_refl (snapshot_reasons r)))),
        ),
        omega arith,
      )
]

-- A call of any kind calls `onChange` at most once, and not at all exactly if it leaves the reasons
-- as they were; and it returns the status of the controller that it leaves.
pub call-reports_once :
    (k : Call) (c : Controller)
    → ((reports (call k c).effects ≡ 0) ↔ ((call k c).controller.reasons ≡ c.reasons))
      × (reports (call k c).effects ≤ 1)
      × ((call k c).status ≡ build (call k c).controller)
call-reports_once k c =
    let d = differs c.reasons (call k c).controller.reasons _ (call-reports k c).1 in
    (d.0, d.1, call-status k c)
