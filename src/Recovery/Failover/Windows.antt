-- ===== src/Recovery/Failover/Windows.antt =====
-- The grace period and the stabilisation period of backend/recovery/failover.ts, over whole
-- sequences of observations.
use cnc_network_bridge.Base.{
  ℕ, ◌+◌, ◌≡◌, Bool, true, false, not, ◌&&◌, ◌||◌, none, some, List, [], ◌∷◌, leb, arith, All,
  any_of, or_else,
}
use cnc_network_bridge.Recovery.Failover.{HealthInput, Controller, observe, is_read_only}

-- Observations, oldest first, each with its time.
unfoldable pub observe_all : List (ℕ × HealthInput) → Controller → Controller
observe_all [] c = c
observe_all ((now, i) ∷ os) c = observe_all os (observe i now c).controller

abbrev pub AllReachable : Bool → List (ℕ × HealthInput) → Type 0
AllReachable b = All (λ (o : ℕ × HealthInput). o.1.server_reachable ≡ b)

-- Whether one of the observations was made at `due` or later.
abbrev pub reaches : ℕ → List (ℕ × HealthInput) → Bool
reaches due = any_of (λ (o : ℕ × HealthInput). leb due o.0)

observe_away :
    (i : HealthInput) (now : ℕ) (c : Controller)
    → i.server_reachable ≡ false
    → let c' = (observe i now c).controller in
      let since = or_else c.server_down_since now in
      (c'.reasons.server_unreachable
        ≡ (c.reasons.server_unreachable || leb (since + c.server_grace_s) now))
      × (c'.server_down_since ≡ some since)
      × (c'.options ≡ c.options)
unfolding observe
observe_away i now c h = ground arith

observe_back :
    (i : HealthInput) (now : ℕ) (c : Controller)
    → i.server_reachable ≡ true
    → let c' = (observe i now c).controller in
      let since = or_else c.healthy_since now in
      (c'.reasons.server_unreachable
        ≡ (c.reasons.server_unreachable && not (leb (since + c.recovery_stability_s) now)))
      × (c'.healthy_since ≡ some since)
      × (c'.options ≡ c.options)
unfolding observe
observe_back i now c h = ground arith

outage_running :
    (os : List (ℕ × HealthInput)) (since : ℕ) (c : Controller)
    → c.server_down_since ≡ some since
    → AllReachable false os
    → (observe_all os c).reasons.server_unreachable
      ≡ (c.reasons.server_unreachable || reaches (since + c.server_grace_s) os)
unfolding observe_all
outage_running [] since c d h = ground arith
outage_running ((now, i) ∷ os) since c d (away, h) = ground (
  arith,
  observe_away i now c away,
  outage_running os since (observe i now c).controller (ground (arith, observe_away i now c away))
      h,
)

outage_from :
    (first : ℕ) (i : HealthInput) (os : List (ℕ × HealthInput)) (c : Controller)
    → c.server_down_since ≡ none
    → c.reasons.server_unreachable ≡ false
    → AllReachable false ((first, i) ∷ os)
    → (observe_all ((first, i) ∷ os) c).reasons.server_unreachable
      ≡ reaches (first + c.server_grace_s) ((first, i) ∷ os)
unfolding observe_all
outage_from first i os c d u (away, h) = ground (
  arith,
  observe_away i first c away,
  outage_running os first (observe i first c).controller
      (ground (arith, observe_away i first c away)) h,
)

-- While the server stays away, the outage is latched exactly from the first observation that comes a
-- grace period after the first one of the outage, and never if it stays away less long; and writes are
-- refused exactly while it is latched, the disk is full, the sync is in error or the operator holds.
pub outage_latches :
    (first : ℕ) (i : HealthInput) (os : List (ℕ × HealthInput)) (c : Controller)
    → c.server_down_since ≡ none
    → c.reasons.server_unreachable ≡ false
    → AllReachable false ((first, i) ∷ os)
    → let c' = observe_all ((first, i) ∷ os) c in
      let over = reaches (first + c.server_grace_s) ((first, i) ∷ os) in
      (c'.reasons.server_unreachable ≡ over)
      × (is_read_only c'
          ≡ (over || (c'.reasons.disk_full || (c'.reasons.sync_error || c'.reasons.manual))))
unfolding is_read_only
outage_latches first i os c d u h =
    let latched = outage_from first i os c d u h in (latched, ground (arith, latched))

recovery_running :
    (os : List (ℕ × HealthInput)) (since : ℕ) (c : Controller)
    → c.healthy_since ≡ some since
    → AllReachable true os
    → (observe_all os c).reasons.server_unreachable
      ≡ (c.reasons.server_unreachable && not (reaches (since + c.recovery_stability_s) os))
unfolding observe_all
recovery_running [] since c d h = ground arith
recovery_running ((now, i) ∷ os) since c d (back, h) = ground (
  arith,
  observe_back i now c back,
  recovery_running os since (observe i now c).controller (ground (arith, observe_back i now c back))
      h,
)

-- While the server stays back, a latched outage is released exactly at the first observation that
-- comes a stabilisation period after the first one of the recovery.
pub recovery_releases :
    (first : ℕ) (i : HealthInput) (os : List (ℕ × HealthInput)) (c : Controller)
    → c.healthy_since ≡ none
    → c.reasons.server_unreachable ≡ true
    → AllReachable true ((first, i) ∷ os)
    → (observe_all ((first, i) ∷ os) c).reasons.server_unreachable
      ≡ not (reaches (first + c.recovery_stability_s) ((first, i) ∷ os))
unfolding observe_all
recovery_releases first i os c d u (back, h) = ground (
  arith,
  observe_back i first c back,
  recovery_running os first (observe i first c).controller
      (ground (arith, observe_back i first c back)) h,
)
