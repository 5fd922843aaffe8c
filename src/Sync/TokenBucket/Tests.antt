-- ===== src/Sync/TokenBucket/Tests.antt =====
-- Runs of the token bucket of backend/sync/throttle.ts.
use cnc_network_bridge.Base.{
  ℕ, ◌+◌, ◌≤◌, ◌≡◌, refl, true, none, some, List, [], ◌∷◌, is_some, arith,
}
use cnc_network_bridge.Sync.TokenBucket.{
  TokenBucket, create, refill, set_rate, take_round, consume_loop, consume,
}
use cnc_network_bridge.Sync.TokenBucket.Allowance.{
  Event, takes, sets, taken, allowance, taken-le-allowance,
}
use cnc_network_bridge.Sync.TokenBucket.Progress.{consume_ends, set_rate_stalls}

-- 1000 bytes for a second: 100 at once, and 100 for each tenth of a second.
abbrev slow : TokenBucket
slow = create (some 1000) 0

-- 300 bytes are paid for after two sleeps of a tenth of a second.
paid :
    consume (100 ∷ 100 ∷ []) 0 300 slow
    ≡ some (record { tokens = 0; last_refill_at = 200; rate = 1000 })
unfolding create consume consume_loop take_round refill
paid = refl

too_soon : consume (100 ∷ 99 ∷ []) 0 300 slow ≡ none
unfolding create consume consume_loop take_round refill
too_soon = refl

abbrev draws : List (ℕ × Event)
draws = (0, takes 90000) ∷ (50, takes 90000) ∷ (60, sets (some 10)) ∷ (70, takes 5000) ∷ []

taken-le-allowance_example :
    taken draws slow ≤ slow.tokens + allowance draws slow.last_refill_at slow.rate
taken-le-allowance_example = taken-le-allowance draws slow

consume_ends_example : is_some (consume (100 ∷ 100 ∷ []) 0 2 slow) ≡ true
unfolding create
consume_ends_example =
    consume_ends (100 ∷ 100 ∷ []) 0 2 slow (omega arith) (omega arith, (omega arith, tt))
      (omega arith)

set_rate_stalls_example :
    consume_loop (100 ∷ 100 ∷ 100 ∷ []) 50 200000 (set_rate none 20 slow) ≡ none
set_rate_stalls_example = set_rate_stalls (100 ∷ 100 ∷ 100 ∷ []) 20 50 200000 slow (omega arith)
