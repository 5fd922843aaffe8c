-- ===== src/Sync/TokenBucket.antt =====
-- backend/sync/throttle.ts: the token bucket. Rates are whole bytes for a second and times whole
-- milliseconds. Tokens, and the bytes that are still to be paid for, are counted in thousandths of a
-- byte, in which both the capacity and a refill are whole. The clock is an argument: the time at which
-- it is read, or the times that the sleeps of a call take.
pub mod Allowance
pub mod Progress
mod Tests
use cnc_network_bridge.Base.{
  ℕ, zero, suc, ◌+◌, ◌-◌, ◌*◌, ◌/◌, min, max, Bool, true, false, Option, none, some, List, [], ◌∷◌,
  ltb, ◌==◌, or_else, if◌then◌else◌,
}

pub record TokenBucket : Type 0 where
  pub tokens : ℕ
  pub last_refill_at : ℕ
  pub rate : ℕ

-- `this.rate / REFILL_HZ` bytes, which is 1000 / 10 thousandths for each byte of the rate.
abbrev pub capacity : ℕ → ℕ
capacity rate = rate * 100

-- `null` is no limit, and so is 0.
unfoldable pub create : Option ℕ → ℕ → TokenBucket
create bytes_per_second now =
    let rate = or_else bytes_per_second 0 in
    record { tokens = capacity rate; last_refill_at = now; rate = rate }

-- `unlimited`
pub is_unlimited : TokenBucket → Bool
is_unlimited b = b.rate == 0

-- `Math.max(0, now - lastRefillAt)` is the subtraction, which stops at 0.
unfoldable pub refill : ℕ → TokenBucket → TokenBucket
refill now b =
    let filled = min (capacity b.rate) (b.tokens + (now - b.last_refill_at) * b.rate) in
    record b { last_refill_at = now; tokens = if ltb 0 b.rate then filled else b.tokens }

unfoldable pub set_rate : Option ℕ → ℕ → TokenBucket → TokenBucket
unfolding refill
set_rate bytes_per_second now b =
    let refilled = refill now b in
    let rate = or_else bytes_per_second 0 in
    record refilled { rate = rate; tokens = min refilled.tokens (capacity rate) }

-- One round of the loop of `consume`: what is taken, and the bucket after it.
unfoldable pub take_round : ℕ → ℕ → TokenBucket → TokenBucket × ℕ
unfolding refill
take_round now outstanding b =
    let refilled = refill now b in
    let taken = min refilled.tokens outstanding in
    (record refilled { tokens = refilled.tokens - taken }, taken)

-- `Math.min(REFILL_INTERVAL_MS, Math.max(1, needed))`, in whole milliseconds; where the rate is 0
-- `needed` is infinite.
unfoldable pub nap : ℕ → ℕ → ℕ
nap rate outstanding = if ltb 0 rate then min 100 (max 1 (outstanding / rate)) else 100

-- The loop of `consume` at a time, where the sleeps take the listed times; `none` while it still waits
-- when they are over.
unfoldable pub consume_loop : List ℕ → ℕ → ℕ → TokenBucket → Option TokenBucket
unfolding take_round
consume_loop [] now outstanding b =
    let (b', taken) = take_round now outstanding b in
    if ltb 0 (outstanding - taken) then none else some b'
consume_loop (slept ∷ more) now outstanding b =
    let (b', taken) = take_round now outstanding b in
    let rest = consume_loop more (now + slept) (outstanding - taken) b' in
    if ltb 0 (outstanding - taken) then rest else some b'

unfoldable pub consume : List ℕ → ℕ → ℕ → TokenBucket → Option TokenBucket
unfolding consume_loop
consume sleeps now bytes b =
    if b.rate == 0
    then some b
    else if bytes == 0
    then some b
    else consume_loop sleeps now (bytes * 1000) b

-- `kbpsToBytesPerSecond`
pub kbps_to_bytes_per_second : Option ℕ → Option ℕ
kbps_to_bytes_per_second none = none
kbps_to_bytes_per_second (some kbps) = if kbps == 0 then none else some (kbps * 1000 / 8)
