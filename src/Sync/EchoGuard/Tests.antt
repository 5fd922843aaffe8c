-- ===== src/Sync/EchoGuard/Tests.antt =====
-- Runs of the echo guard, and its theorems at inputs where their hypotheses hold.
use cnc_network_bridge.Base.{
  ℕ, ◌≡◌, refl, true, false, none, List, [], ◌∷◌, get, put, remove, update_all, string_eq, arith,
}
use cnc_network_bridge.Sync.EchoGuard.{
  EchoGuard, EchoGuardOptions, ExpectedWrite, ObservedEvent, default_options, create, expect,
  should_drop, record_sync, is_quarantined, release,
}
use cnc_network_bridge.Sync.EchoGuard.History.{
  Event, expects, observes, syncs, releases, prunes, run, declared,
}
use cnc_network_bridge.Sync.EchoGuard.Expectations.{should_drop_iff}
use cnc_network_bridge.Sync.EchoGuard.Quarantine.{quarantine_stays}

abbrev write : ExpectedWrite
write = record { path = "A.H"; size = 10; mtime_ms = 5000 }

abbrev echo : ObservedEvent
echo = record { path = "A.H"; size = 10; mtime_ms = 5900 }

abbrev history : List (ℕ × Event)
history = (100, expects write) ∷ (200, observes echo) ∷ (300, syncs "A.H") ∷ (400, prunes) ∷ []

should_drop_iff_example : (should_drop echo 9000 (run history (create default_options))).1 ≡ true
unfolding declared
should_drop_iff_example = should_drop_iff default_options history 9000 echo (omega arith)

expired : (should_drop echo 10100 (run history (create default_options))).1 ≡ false
unfolding run create expect should_drop record_sync get put remove update_all
expired = refl

-- One sync in a window is allowed.
abbrev strict : EchoGuardOptions
strict = record default_options { max_syncs_per_window = 1 }

abbrev looping : EchoGuard
looping = (record_sync "B.H" 10 (create strict)).guard

quarantine_stays_example :
    let g =
      run ((30, syncs "B.H") ∷ (40, releases "A.H") ∷ []) (record_sync "B.H" 20 looping).guard in
    record_sync "B.H" 50 g ≡ record { guard = g; tripped = true; alert = none }
unfolding create record_sync get put remove
quarantine_stays_example =
    quarantine_stays "B.H" 20 50 ((30, syncs "B.H") ∷ (40, releases "A.H") ∷ []) looping tt refl
      (tt, (refl, tt))

lifted : is_quarantined "B.H" (release "B.H" (record_sync "B.H" 20 looping).guard).0 ≡ false
unfolding is_quarantined release create record_sync get put remove
lifted = refl
