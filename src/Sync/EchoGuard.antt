-- ===== src/Sync/EchoGuard.antt =====
-- backend/sync/echo-guard.ts: dropping the events that the bridge's own writes raise, and stopping a
-- path that is synced too often. Times are milliseconds and an argument of each call; modification
-- times are whole milliseconds. `now - at < windowMs` is `now < at + windowMs`.
pub mod History
pub mod Expectations
pub mod Quarantine
mod Tests
use cnc_network_bridge.Base.{
  ℕ, suc, ◌+◌, ◌-◌, String, Bool, true, false, ◌&&◌, Option, none, some, List, [], ◌∷◌, ◌++◌, map,
  ltb, leb, ◌==◌, if◌then◌else◌, or_else, abs_diff, any_of, filter_by, length, unless_empty,
  is_some, Dict, get, put, remove, update_all, has, string_eq,
}

pub record EchoGuardOptions : Type 0 where
  pub ttl_ms : ℕ
  pub mtime_tolerance_ms : ℕ
  pub max_syncs_per_window : ℕ
  pub window_ms : ℕ
  pub max_tracked_paths : ℕ

-- The defaults of the constructor.
abbrev pub default_options : EchoGuardOptions
default_options = record {
  ttl_ms = 10000;
  mtime_tolerance_ms = 1000;
  max_syncs_per_window = 10;
  window_ms = 60000;
  max_tracked_paths = 10000;
}

pub record ExpectedWrite : Type 0 where
  pub path : String
  pub size : ℕ
  pub mtime_ms : ℕ

pub record ObservedEvent : Type 0 where
  pub path : String
  pub size : ℕ
  pub mtime_ms : ℕ

pub record QuarantineEvent : Type 0 where
  pub path : String
  pub syncs_in_window : ℕ
  pub window_ms : ℕ
  pub at : ℕ

pub record Expectation : Type 0 where
  pub size : ℕ
  pub mtime_ms : ℕ
  pub expires_at : ℕ

pub record EchoGuardStats : Type 0 where
  pub live_expectations : ℕ
  pub dropped : ℕ
  pub passed : ℕ
  pub tracked_paths : ℕ
  pub quarantined : ℕ

pub record EchoGuard : Type 0 where
  pub options : EchoGuardOptions
  pub open options use *
  pub expectations : Dict String (List Expectation)
  pub sync_times : Dict String (List ℕ)
  pub quarantined : Dict String QuarantineEvent
  pub dropped : ℕ
  pub passed : ℕ

unfoldable pub create : EchoGuardOptions → EchoGuard
create options = record {
  options = options;
  expectations = [];
  sync_times = [];
  quarantined = [];
  dropped = 0;
  passed = 0;
}

unfoldable pub expect : ExpectedWrite → ℕ → EchoGuard → EchoGuard
expect write now g =
    let entry : Expectation = record {
      size = write.size;
      mtime_ms = write.mtime_ms;
      expires_at = now + g.ttl_ms;
    } in
    record g {
      expectations =
          put write.path (or_else (get write.path g.expectations) [] ++ entry ∷ []) g.expectations;
    }

abbrev pub is_live : ℕ → Expectation → Bool
is_live now e = ltb now e.expires_at

abbrev pub live_or_gone : ℕ → List Expectation → Option (List Expectation)
live_or_gone now entries = unless_empty (filter_by (is_live now) entries)

pub prune_expired : ℕ → EchoGuard → EchoGuard
prune_expired now g = record g { expectations = update_all (live_or_gone now) g.expectations }

abbrev pub fits : ℕ → ObservedEvent → ℕ → ℕ → Bool
fits tolerance event size mtime =
    size == event.size && leb (abs_diff mtime event.mtime_ms) tolerance

-- The guard after the call, and whether the event is to be dropped.
pub should_drop : ObservedEvent → ℕ → EchoGuard → EchoGuard × Bool
unfolding prune_expired
should_drop event now g =
    let pruned = prune_expired now g in
    let candidates = or_else (get event.path pruned.expectations) [] in
    if any_of (λ (c : Expectation). fits g.mtime_tolerance_ms event c.size c.mtime_ms) candidates
    then (record pruned { dropped = g.dropped + 1 }, true)
    else (record pruned { passed = g.passed + 1 }, false)

-- The loop deletes the first key, the least recently touched one, while there are too many.
pub evict_oldest : ℕ → Dict String (List ℕ) → Dict String (List ℕ)
evict_oldest most [] = []
evict_oldest most (e ∷ d) =
    let rest = evict_oldest most d in if ltb most (length (e ∷ d)) then rest else e ∷ d

abbrev pub recent : EchoGuard → ℕ → List ℕ → List ℕ
recent g now = filter_by (λ at. ltb now (at + g.window_ms))

-- What `recordSync` does: the guard after it, whether the path is quarantined now, and the event
-- that `onQuarantine` is called with.
pub record Recorded : Type 0 where
  pub guard : EchoGuard
  pub tripped : Bool
  pub alert : Option QuarantineEvent

pub record_sync : String → ℕ → EchoGuard → Recorded
unfolding evict_oldest
record_sync path now g =
    let times = recent g now (or_else (get path g.sync_times) []) ++ now ∷ [] in
    let tracked = record g {
      sync_times = evict_oldest g.max_tracked_paths (put path times (remove path g.sync_times));
    } in
    let event : QuarantineEvent = record {
      path = path;
      syncs_in_window = length times;
      window_ms = g.window_ms;
      at = now;
    } in
    if has path g.quarantined
    then record { guard = g; tripped = true; alert = none }
    else if ltb g.max_syncs_per_window (length times)
    then record {
      guard = record tracked { quarantined = put path event g.quarantined };
      tripped = true;
      alert = some event;
    }
    else record { guard = tracked; tripped = false; alert = none }

unfoldable pub is_quarantined : String → EchoGuard → Bool
is_quarantined path g = has path g.quarantined

pub quarantine_for : String → EchoGuard → Option QuarantineEvent
quarantine_for path g = get path g.quarantined

pub list_quarantined : EchoGuard → List QuarantineEvent
list_quarantined g = map (λ (e : String × QuarantineEvent). e.1) g.quarantined

-- The guard after it, and whether there was a quarantine to lift.
pub release : String → EchoGuard → EchoGuard × Bool
release path g = (
  record g { sync_times = remove path g.sync_times; quarantined = remove path g.quarantined },
  has path g.quarantined,
)

count_live : Dict String (List Expectation) → ℕ
count_live [] = 0
count_live ((path, entries) ∷ d) = length entries + count_live d

pub stats : EchoGuard → EchoGuardStats
unfolding count_live
stats g = record {
  live_expectations = count_live g.expectations;
  dropped = g.dropped;
  passed = g.passed;
  tracked_paths = length g.sync_times;
  quarantined = length g.quarantined;
}

pub clear : EchoGuard → EchoGuard
clear g = record g { expectations = []; sync_times = []; quarantined = []; dropped = 0; passed = 0 }
