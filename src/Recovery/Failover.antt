-- ===== src/Recovery/Failover.antt =====
-- backend/recovery/failover.ts: the controller that latches the reasons for refusing writes. Times
-- are whole seconds and an argument of each call. A percentage is a number of units of which
-- `per_point` make one percentage point, so that fractional readings are whole numbers. The `Set` of
-- reasons is only ever tested, cleared and sorted, so it is four Booleans.
pub mod Latch
pub mod Windows
pub mod Reports
mod Tests
use cnc_network_bridge.Base.{
  ℕ, ◌+◌, ◌-◌, ◌*◌, ◌≤◌, ◌≡◌, refl, String, Bool, true, false, not, ◌&&◌, ◌||◌, Option, none, some,
  List, [], ◌∷◌, ◌++◌, leb, ltb, if◌then◌else◌, str_eq, or_else, is_some, ◌<>◌,
}

pub data FailoverReason : Type 0 where
  server_unreachable disk_full sync_error manual : FailoverReason

pub data FailoverState : Type 0 where
  healthy degraded read_only : FailoverState

pub record Reasons : Type 0 where
  pub server_unreachable : Bool
  pub disk_full : Bool
  pub sync_error : Bool
  pub manual : Bool

pub record FailoverOptions : Type 0 where
  pub server_grace_s : ℕ
  pub disk_full_pct : ℕ
  pub recovery_stability_s : ℕ
  pub per_point : ℕ

pub record HealthInput : Type 0 where
  pub server_reachable : Bool
  pub disk_used_pct : ℕ
  pub sync_healthy : Bool

pub record FailoverStatus : Type 0 where
  pub state : FailoverState
  pub read_only : Bool
  pub reasons : List FailoverReason
  pub server_down_since : Option ℕ
  pub healthy_since : Option ℕ
  pub since : ℕ

pub record Controller : Type 0 where
  pub options : FailoverOptions
  pub open options use *
  pub reasons : Reasons
  pub server_down_since : Option ℕ
  pub healthy_since : Option ℕ
  pub changed_at : ℕ
  pub manual_hold : Bool

-- What a call does outside: `onChange`, the audit records (actor, action, detail) and the log.
pub data Effect : Type 0 where
  on_change : FailoverState → List FailoverReason → Effect
  audited : String → String → Option String → Effect
  logged_restored : ℕ → Effect
  logged_changed : FailoverState → List FailoverReason → Effect

-- The result of a call: the controller after it, what it returned, what it did outside.
pub record Outcome : Type 0 where
  pub controller : Controller
  pub status : FailoverStatus
  pub effects : List Effect

abbrev pub no_reasons : Reasons
no_reasons = record {
  server_unreachable = false;
  disk_full = false;
  sync_error = false;
  manual = false;
}

-- `serverGraceS`, `diskFullPct` and `recoveryStabilityS` where the caller gives none.
abbrev pub defaults : ℕ → FailoverOptions
defaults per_point = record {
  server_grace_s = 300;
  disk_full_pct = 95 * per_point;
  recovery_stability_s = 60;
  per_point = per_point;
}

pub create : FailoverOptions → ℕ → Controller
create options now = record {
  options = options;
  reasons = no_reasons;
  server_down_since = none;
  healthy_since = none;
  changed_at = now;
  manual_hold = false;
}

abbrev when {ℓ} : {A : Type ℓ} → Bool → A → List A
when true a = a ∷ []
when false a = []

-- `[...this.reasons].sort()`: the names in alphabetical order.
pub sorted : Reasons → List FailoverReason
sorted r =
    when r.disk_full disk_full
    ++ (when r.manual manual
        ++ (when r.server_unreachable server_unreachable ++ when r.sync_error sync_error))

abbrev name_of : FailoverReason → String
name_of server_unreachable = "server_unreachable"
name_of disk_full = "disk_full"
name_of sync_error = "sync_error"
name_of manual = "manual"

-- `names.join(comma)`
abbrev join_names : String → List FailoverReason → String
join_names comma [] = ""
join_names comma (r ∷ []) = name_of r
join_names comma (r ∷ s ∷ rs) = name_of r <> comma <> join_names comma (s ∷ rs)

abbrev state_name : FailoverState → String
state_name healthy = "healthy"
state_name degraded = "degraded"
state_name read_only = "read_only"

-- The detail of the audit record.
abbrev describe : FailoverState → List FailoverReason → String
describe s [] = state_name s
describe s (r ∷ rs) = state_name s <> ": " <> join_names ", " (r ∷ rs)

pub snapshot_reasons : Reasons → String
unfolding sorted
snapshot_reasons r = join_names "," (sorted r)

abbrev pub any_reason : Reasons → Bool
any_reason r = r.server_unreachable || r.disk_full || r.sync_error || r.manual

-- `reasons.size > 0`
pub is_read_only : Controller → Bool
is_read_only c = any_reason c.reasons

abbrev pub state_of : Controller → FailoverState
state_of c =
    if any_reason c.reasons
    then read_only
    else if is_some c.server_down_since
    then degraded
    else healthy

pub build : Controller → FailoverStatus
build c = record {
  state = state_of c;
  read_only = any_reason c.reasons;
  reasons = sorted c.reasons;
  server_down_since = c.server_down_since;
  healthy_since = c.healthy_since;
  since = c.changed_at;
}

-- The end of every operation. `before` is the snapshot taken at its start.
pub finish : String → List Effect → Controller → ℕ → Outcome
unfolding build
finish before done c now =
    let changed = record c { changed_at = now } in
    if str_eq before (snapshot_reasons c.reasons)
    then record { controller = c; status = build c; effects = done }
    else record {
      controller = changed;
      status = build changed;
      effects =
          done
          ++ (logged_changed (state_of c) (sorted c.reasons)
              ∷ audited "system" "failover.state" (some (describe (state_of c) (sorted c.reasons)))
              ∷ on_change (state_of c) (sorted c.reasons)
              ∷ []);
    }

-- The reachability part of `observe`: the two timers and the latch.
see_server : Bool → ℕ → Controller → Controller
see_server true now c =
    let since = or_else c.healthy_since now in
    record c {
      server_down_since = none;
      healthy_since = some since;
      reasons = record c.reasons {
        server_unreachable =
            c.reasons.server_unreachable && not (leb (since + c.recovery_stability_s) now);
      };
    }
see_server false now c =
    let since = or_else c.server_down_since now in
    record c {
      healthy_since = none;
      server_down_since = some since;
      reasons = record c.reasons {
        server_unreachable = c.reasons.server_unreachable || leb (since + c.server_grace_s) now;
      };
    }

-- Five points of hysteresis; `used < full - 5` with the subtraction moved to the other side.
see_disk : ℕ → Controller → Controller
see_disk used c = record c {
  reasons = record c.reasons {
    disk_full =
        if leb c.disk_full_pct used
        then true
        else if ltb (used + 5 * c.per_point) c.disk_full_pct
        then false
        else c.reasons.disk_full;
  };
}

see_rest : Bool → Controller → Controller
see_rest sync_healthy c = record c {
  reasons = record c.reasons { sync_error = not sync_healthy; manual = c.manual_hold };
}

restored : Bool → ℕ → Option ℕ → List Effect
restored true now (some since) = logged_restored (now - since) ∷ []
restored true now none = []
restored false now since = []

pub observe : HealthInput → ℕ → Controller → Outcome
unfolding see_server see_disk see_rest finish
observe input now c =
    finish (snapshot_reasons c.reasons) (restored input.server_reachable now c.server_down_since)
      (see_rest input.sync_healthy
        (see_disk input.disk_used_pct (see_server input.server_reachable now c)))
      now

pub hold : String → ℕ → Controller → Outcome
unfolding finish
hold actor now c =
    finish (snapshot_reasons c.reasons)
      (audited actor "failover.hold" (some "forced read-only") ∷ [])
      (record c { manual_hold = true; reasons = record c.reasons { manual = true } }) now

pub resume : String → ℕ → Controller → Outcome
unfolding finish
resume actor now c =
    finish (snapshot_reasons c.reasons) (audited actor "failover.resume" none ∷ [])
      (record c { manual_hold = false; reasons = record c.reasons { manual = false } }) now

-- The clock is read twice: for `healthySince`, and again for `finish`.
pub reset : String → ℕ → ℕ → Controller → Outcome
unfolding finish
reset actor started now c =
    finish (snapshot_reasons c.reasons) (audited actor "failover.reset" (some "recovery mode") ∷ [])
      (record c {
        reasons = no_reasons;
        manual_hold = false;
        server_down_since = none;
        healthy_since = some started;
      })
      now

-- The calls that a controller receives, each with the time that it reads.
pub data Call : Type 0 where
  observes : HealthInput → ℕ → Call
  holds resumes : String → ℕ → Call
  resets : String → ℕ → ℕ → Call

pub call : Call → Controller → Outcome
unfolding observe hold resume reset
call (observes input now) c = observe input now c
call (holds actor now) c = hold actor now c
call (resumes actor now) c = resume actor now c
call (resets actor started now) c = reset actor started now c

pub run : List Call → Controller → Controller
run [] c = c
run (k ∷ ks) c = run ks (call k c).controller
