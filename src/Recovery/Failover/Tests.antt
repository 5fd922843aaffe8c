-- ===== src/Recovery/Failover/Tests.antt =====
-- Runs of the failover controller, and its theorems at inputs where their hypotheses hold.
use cnc_network_bridge.Base.{ℕ, ◌≡◌, refl, true, false, ◌||◌, List, [], ◌∷◌}
use cnc_network_bridge.Recovery.Failover.{
  HealthInput, Controller, Call, observes, holds, resumes, resets, create, defaults, observe,
  manual, run, call, is_read_only, snapshot_reasons,
}
use cnc_network_bridge.Recovery.Failover.Latch.{run-IsSound, IsSound}
use cnc_network_bridge.Recovery.Failover.Windows.{observe_all, outage_latches, recovery_releases}
use cnc_network_bridge.Recovery.Failover.Reports.{run_effects, last_report}

abbrev fresh : Controller
fresh = create (defaults 1) 100

abbrev well : HealthInput
well = record { server_reachable = true; disk_used_pct = 40; sync_healthy = true }

abbrev away : HealthInput
away = record well { server_reachable = false }

abbrev outage : List (ℕ × HealthInput)
outage = (250, away) ∷ (510, away) ∷ []

abbrev tripped : Controller
tripped = observe_all ((200, away) ∷ outage) fresh

abbrev calls : List Call
calls =
    observes away 200
    ∷ holds "admin" 210
    ∷ observes away 500
    ∷ resumes "admin" 501
    ∷ observes well 510
    ∷ resets "admin" 520 521
    ∷ []

outage_latches_example :
    (tripped.reasons.server_unreachable ≡ true)
    × (is_read_only tripped ≡ (
        true
        || (tripped.reasons.disk_full || (tripped.reasons.sync_error || tripped.reasons.manual))))
unfolding create
outage_latches_example = outage_latches 200 away outage fresh refl refl (refl, (refl, (refl, tt)))

recovery_releases_example :
    (observe_all ((600, well) ∷ (640, well) ∷ (670, well) ∷ []) tripped).reasons.server_unreachable
    ≡ false
unfolding create observe_all observe snapshot_reasons
recovery_releases_example =
    recovery_releases 600 well ((640, well) ∷ (670, well) ∷ []) tripped refl refl
      (refl, (refl, (refl, tt)))

run-IsSound_example : IsSound (run calls fresh)
run-IsSound_example = run-IsSound (defaults 1) 100 calls

held_then_reset : last_report [] (run_effects (holds "admin" 5 ∷ []) fresh) ≡ manual ∷ []
unfolding create run_effects call snapshot_reasons
held_then_reset = refl
