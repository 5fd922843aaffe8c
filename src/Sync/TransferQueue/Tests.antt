-- ===== src/Sync/TransferQueue/Tests.antt =====
-- Runs of the queue of backend/sync/throttle.ts.
use cnc_network_bridge.Base.{
  ℕ, List, ltb, ◌&&◌, not, false, ◌-◌, ◌*◌, ◌<◌, ◌+◌, ◌≡◌, refl, true, none, some, [], ◌∷◌, arith,
}
use cnc_network_bridge.Sync.TransferQueue.{Waiting, take_next, best_index, splice, create}
use cnc_network_bridge.Sync.TransferQueue.Pump.{Event, run, added, ended, is_empty}
use cnc_network_bridge.Sync.TransferQueue.Once.{IsOnce, additions, endings, run-create_keeps}
use cnc_network_bridge.Sync.TransferQueue.Patience.{take_next_patience}

-- A video that has waited for two minutes, and two programs that came later.
abbrev video : Waiting
video = record { size = 200000000; enqueued_at = 0; sequence = 0 }

abbrev old_program : Waiting
old_program = record { size = 4096; enqueued_at = 100000; sequence = 1 }

abbrev new_program : Waiting
new_program = record { size = 4096; enqueued_at = 260000; sequence = 2 }

program_first : take_next 1048576 120000 (video ∷ old_program ∷ []) ≡ some (old_program, video ∷ [])
unfolding take_next best_index splice
program_first = refl

video_first : take_next 1048576 260000 (video ∷ new_program ∷ []) ≡ some (video, new_program ∷ [])
unfolding take_next best_index splice
video_first = refl

take_next_patience_example : 4096 * 1000 + (100000 - 0) * 1048576 < 200000000 * 1000
take_next_patience_example =
    take_next_patience 1048576 120000 [] (old_program ∷ []) video old_program (video ∷ [])
      program_first tt (omega arith) (omega arith) (omega arith)

abbrev events : List (Event × ℕ)
events = (added 10, 1) ∷ (added 5, 2) ∷ (ended true, 9) ∷ []

run-create_keeps_example :
    let first = create (some 1) none in
    let q = run events first in
    IsOnce (additions events) (endings true events first) (endings false events first) q
    × ((ltb q.active q.limit && not (is_empty q.waiting)) ≡ false)
run-create_keeps_example = run-create_keeps (some 1) none events
