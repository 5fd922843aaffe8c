-- ===== src/Recovery/Failover/Latch.antt =====
-- How the reasons of backend/recovery/failover.ts are set and cleared, and what holds of every
-- controller.
use cnc_network_bridge.Base.{
  ℕ, ◌+◌, ◌*◌, ◌≡◌, refl, ap, sym, ◌∙◌, String, Bool, true, false, not, ◌&&◌, ◌||◌, List, [], ◌∷◌,
  leb, ltb, if◌then◌else◌, or_else, is_some, arith, str_eq, eq_iff,
}
use cnc_network_bridge.Recovery.Failover.{
  FailoverOptions, Reasons, HealthInput, Controller, Call, observes, holds, resumes, resets, create,
  observe, call, run, snapshot_reasons, finish, Effect,
}

-- The snapshot determines the reasons: it can be read back.
read_snapshot : String → Reasons
read_snapshot s = record {
  server_unreachable =
      str_eq s "server_unreachable"
      || str_eq s "disk_full,server_unreachable"
      || str_eq s "manual,server_unreachable"
      || str_eq s "disk_full,manual,server_unreachable"
      || str_eq s "server_unreachable,sync_error"
      || str_eq s "disk_full,server_unreachable,sync_error"
      || str_eq s "manual,server_unreachable,sync_error"
      || str_eq s "disk_full,manual,server_unreachable,sync_error";
  disk_full =
      str_eq s "disk_full"
      || str_eq s "disk_full,manual"
      || str_eq s "disk_full,sync_error"
      || str_eq s "disk_full,server_unreachable"
      || str_eq s "disk_full,manual,sync_error"
      || str_eq s "disk_full,manual,server_unreachable"
      || str_eq s "disk_full,server_unreachable,sync_error"
      || str_eq s "disk_full,manual,server_unreachable,sync_error";
  sync_error =
      str_eq s "sync_error"
      || str_eq s "disk_full,sync_error"
      || str_eq s "manual,sync_error"
      || str_eq s "server_unreachable,sync_error"
      || str_eq s "disk_full,manual,sync_error"
      || str_eq s "disk_full,server_unreachable,sync_error"
      || str_eq s "manual,server_unreachable,sync_error"
      || str_eq s "disk_full,manual,server_unreachable,sync_error";
  manual =
      str_eq s "manual"
      || str_eq s "disk_full,manual"
      || str_eq s "manual,sync_error"
      || str_eq s "manual,server_unreachable"
      || str_eq s "disk_full,manual,sync_error"
      || str_eq s "disk_full,manual,server_unreachable"
      || str_eq s "manual,server_unreachable,sync_error"
      || str_eq s "disk_full,manual,server_unreachable,sync_error";
}

abbrev reasons : Bool → Bool → Bool → Bool → Reasons
reasons u d s m = record { server_unreachable = u; disk_full = d; sync_error = s; manual = m }

read_back : (u d s m : Bool) → read_snapshot (snapshot_reasons (reasons u d s m)) ≡ reasons u d s m
unfolding read_snapshot snapshot_reasons
read_back true true true true = refl
read_back true true true false = refl
read_back true true false true = refl
read_back true true false false = refl
read_back true false true true = refl
read_back true false true false = refl
read_back true false false true = refl
read_back true false false false = refl
read_back false true true true = refl
read_back false true true false = refl
read_back false true false true = refl
read_back false true false false = refl
read_back false false true true = refl
read_back false false true false = refl
read_back false false false true = refl
read_back false false false false = refl

-- Two snapshots agree only where the reasons do.
pub snapshot_injective :
    (r s : Reasons) → str_eq (snapshot_reasons r) (snapshot_reasons s) ≡ true → r ≡ s
snapshot_injective r s h =
    sym (read_back r.server_unreachable r.disk_full r.sync_error r.manual)
    ∙ ap read_snapshot ((eq_iff _ _).0 h)
    ∙ read_back s.server_unreachable s.disk_full s.sync_error s.manual

-- What `observe` makes of each reason, written from the documentation: each has a trigger and a
-- release of its own, and none looks at the others.
abbrev pub next_reasons : HealthInput → ℕ → Controller → Reasons
next_reasons i now c = record {
  server_unreachable =
      if i.server_reachable
      then c.reasons.server_unreachable
        && ltb now (or_else c.healthy_since now + c.recovery_stability_s)
      else c.reasons.server_unreachable
        || leb (or_else c.server_down_since now + c.server_grace_s) now;
  disk_full =
      leb c.disk_full_pct i.disk_used_pct
      || c.reasons.disk_full && leb c.disk_full_pct (i.disk_used_pct + 5 * c.per_point);
  sync_error = not i.sync_healthy;
  manual = c.manual_hold;
}

pub finish_controller :
    (before : String) (done : List Effect) (c : Controller) (now : ℕ)
    → ((finish before done c now).controller.reasons ≡ c.reasons)
      × ((finish before done c now).controller.manual_hold ≡ c.manual_hold)
      × ((finish before done c now).controller.server_down_since ≡ c.server_down_since)
      × ((finish before done c now).controller.healthy_since ≡ c.healthy_since)
      × ((finish before done c now).controller.options ≡ c.options)
unfolding finish
finish_controller before done c now = ground arith

-- One observation sets and clears each of the four reasons by its own rule alone.
pub observe_reasons :
    (i : HealthInput) (now : ℕ) (c : Controller)
    → (observe i now c).controller.reasons ≡ next_reasons i now c
unfolding observe
observe_reasons i now c = ground arith

-- What holds of every controller: the manual reason is the operator's hold, at most one of the two
-- timers runs, and the outage is latched only while one does.
pub record IsSound (c : Controller) : Type 0 where
  pub manual_is_hold : c.reasons.manual ≡ c.manual_hold
  pub one_timer : (is_some c.server_down_since && is_some c.healthy_since) ≡ false
  pub timed :
      (not c.reasons.server_unreachable || is_some c.server_down_since || is_some c.healthy_since)
      ≡ true

call-IsSound : (k : Call) (c : Controller) → IsSound c → IsSound (call k c).controller
unfolding call
call-IsSound (observes i now) c h = ground arith
call-IsSound (holds actor now) c h = ground arith
call-IsSound (resumes actor now) c h = ground arith
call-IsSound (resets actor started now) c h = ground arith

run-IsSound_from : (ks : List Call) (c : Controller) → IsSound c → IsSound (run ks c)
unfolding run
run-IsSound_from [] c h = h
run-IsSound_from (k ∷ ks) c h = run-IsSound_from ks _ (call-IsSound k c h)

-- After any calls to a new controller, the manual reason is there exactly while the operator holds,
-- the outage timer and the recovery timer do not run together, and a latched outage has a timer.
pub run-IsSound :
    (o : FailoverOptions) (start : ℕ) (ks : List Call) → IsSound (run ks (create o start))
unfolding create
run-IsSound o start ks = run-IsSound_from ks _ (ground arith)
