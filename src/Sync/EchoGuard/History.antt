-- ===== src/Sync/EchoGuard/History.antt =====
-- Sequences of calls of the guard of backend/sync/echo-guard.ts, and what they declare.
use cnc_network_bridge.Base.{ℕ, String, List, [], ◌∷◌}
use cnc_network_bridge.Sync.EchoGuard.{
  EchoGuard, ExpectedWrite, ObservedEvent, expect, should_drop, record_sync, release, prune_expired,
  clear,
}

-- What happens to a guard, each at its time.
pub data Event : Type 0 where
  expects : ExpectedWrite → Event
  observes : ObservedEvent → Event
  syncs releases : String → Event
  prunes clears : Event

unfoldable pub step : ℕ → Event → EchoGuard → EchoGuard
step now (expects w) g = expect w now g
step now (observes e) g = (should_drop e now g).0
step now (syncs p) g = (record_sync p now g).guard
step now (releases p) g = (release p g).0
step now prunes g = prune_expired now g
step now clears g = clear g

unfoldable pub run : List (ℕ × Event) → EchoGuard → EchoGuard
unfolding step
run [] g = g
run ((now, e) ∷ es) g = run es (step now e g)

-- The writes declared since the guard was last cleared, with their times, newest first.
unfoldable pub declared : List (ℕ × Event) → List (ℕ × ExpectedWrite) → List (ℕ × ExpectedWrite)
declared [] log = log
declared ((now, expects w) ∷ es) log = declared es ((now, w) ∷ log)
declared ((now, clears) ∷ es) log = declared es []
declared ((now, _) ∷ es) log = declared es log
