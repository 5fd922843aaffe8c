-- ===== src/Lifecycle/Drain/Tests.antt =====
-- Runs of the registry of backend/lifecycle/drain.ts.
use cnc_network_bridge.Base.{◌≡◌, refl, true, false, List, [], ◌∷◌, map}
use cnc_network_bridge.Lifecycle.Drain.{
  create, begin, done, drain, time_out, notify, resolve_all, clear_timers, reset,
}
use cnc_network_bridge.Lifecycle.Drain.Events.{
  Event, begins, finishes, drains, times_out, resets, step, run,
}
use cnc_network_bridge.Lifecycle.Drain.Answers.{Answers, run-IsHonest}

-- Two transfers, one of which ends twice; a drain that times out, and one that is answered.
abbrev shutdown : List Event
shutdown =
    begins "push A.H" 1
    ∷ begins "pull B.H" 2
    ∷ finishes 1
    ∷ finishes 1
    ∷ drains
    ∷ begins "late" 3
    ∷ times_out 0
    ∷ drains
    ∷ finishes 2
    ∷ []

answered :
    map (λ a. a.1) (run shutdown create).answers
    ≡ record { drained = true; remaining = [] }
      ∷ record { drained = false; remaining = "pull B.H" ∷ [] }
      ∷ []
unfolding run step create begin done drain time_out notify resolve_all clear_timers
answered = refl

-- A drain that waits while the registry is reset says that it did not drain, with nothing left.
reset_in_drain :
    map (λ a. a.1) (run (begins "push A.H" 1 ∷ drains ∷ resets ∷ times_out 0 ∷ []) create).answers
    ≡ record { drained = false; remaining = [] } ∷ []
unfolding run step create begin drain time_out reset
reset_in_drain = refl

abbrev closing : List Event
closing = begins "push A.H" 1 ∷ drains ∷ drains ∷ []

run-IsHonest_example : Answers (run closing create) (step (finishes 1) (run closing create))
run-IsHonest_example = run-IsHonest closing (finishes 1) (tt, (tt, (tt, tt))) tt
