-- ===== src/Lifecycle/Drain/Events.antt =====
-- What can happen to the registry of backend/lifecycle/drain.ts, in any order.
use cnc_network_bridge.Base.{
  ℕ, String, Option, none, some, List, [], ◌∷◌, ltb, leb, ◌&&◌, if◌then◌else◌,
}
use cnc_network_bridge.Lifecycle.Drain.{DrainRegistry, begin, done, drain, time_out, reset}

-- A handle is done only where it was given.
pub data Event : Type 0 where
  begins : String → ℕ → Event
  finishes : ℕ → Event
  drains : Event
  times_out : ℕ → Event
  resets : Event

abbrev pub begun : Option (DrainRegistry × ℕ) → DrainRegistry → DrainRegistry
begun none r = r
begun (some (r', id)) r = r'

unfoldable pub step : Event → DrainRegistry → DrainRegistry
step (begins label now) r = begun (begin label now r) r
step (finishes id) r = if leb 1 id && ltb id r.next_id then done id r else r
step drains r = drain r
step (times_out w) r = time_out w r
step resets r = reset r

unfoldable pub run : List Event → DrainRegistry → DrainRegistry
run [] r = r
run (e ∷ es) r = run es (step e r)

abbrev pub IsNoReset : Event → Type 0
IsNoReset resets = ⊥
IsNoReset _ = Unit
