-- ===== src/Sync/TokenBucket/Progress.antt =====
-- Whether a call of `consume` on the bucket of backend/sync/throttle.ts ends.
use native.Mathlib.Nat.{mul-suc}
use cnc_network_bridge.Base.{
  ℕ, ◌+◌, ◌-◌, ◌*◌, ◌≤◌, ◌<◌, ◌≡◌, refl, true, false, none, List, [], ◌∷◌, ltb, ◌==◌, All, length,
  arith, inl, inr, Bool-cases, is_some,
}
use cnc_network_bridge.Sync.TokenBucket.{
  TokenBucket, refill, take_round, consume_loop, consume, set_rate,
}

rate-le-mul : (slept rate : ℕ) → 1 ≤ slept → rate ≤ slept * rate
rate-le-mul slept rate long = grind arith

round_keeps :
    (now n : ℕ) (b : TokenBucket)
    → ((take_round now n b).0.rate ≡ b.rate) × ((take_round now n b).0.last_refill_at ≡ now)
unfolding take_round refill
round_keeps now n b = (refl, refl)

-- A millisecond or more after the last refill, a round pays for a thousandth of a second's bytes, or
-- for all.
round_pays :
    (now n : ℕ) (b : TokenBucket)
    → 0 < b.rate
    → b.last_refill_at < now
    → n - (take_round now n b).1 ≤ n - b.rate
unfolding take_round refill
round_pays now n b r later =
    ground (arith, rate-le-mul (now - b.last_refill_at) b.rate (omega arith))

-- A loop that has just slept ends if its sleeps are enough for what it still has to pay.
loop_ends :
    (sleeps : List ℕ) (now n : ℕ) (b : TokenBucket)
    → 0 < b.rate
    → b.last_refill_at < now
    → All (λ slept. 1 ≤ slept) sleeps
    → n ≤ b.rate + b.rate * length sleeps
    → is_some (consume_loop sleeps now n b) ≡ true
unfolding consume_loop
loop_ends [] now n b r later long enough = ground (arith, round_pays now n b)
loop_ends (slept ∷ sleeps) now n b r later (long, longs) enough =
    let b' = (take_round now n b).0 in
    let left = n - (take_round now n b).1 in
    let (same, read) = round_keeps now n b in
    let pays = round_pays now n b r later in
    elim (Bool-cases (ltb 0 left)) [
      | inr paid ↦ rw paid refl
      | inl more ↦ rw more (
          loop_ends sleeps (now + slept) left b' (rw same r) (rw read (omega arith)) longs
            (omega (arith, pays, mul-suc b.rate (length sleeps))))
    ]

-- A call on a bucket with a limit returns if it sleeps often enough for its bytes at the limit's pace of
-- one sleep for each thousandth of a second's worth, and each sleep takes a millisecond or more.
pub consume_ends :
    (sleeps : List ℕ) (now bytes : ℕ) (b : TokenBucket)
    → 0 < b.rate
    → All (λ slept. 1 ≤ slept) sleeps
    → bytes * 1000 ≤ b.rate * length sleeps
    → is_some (consume sleeps now bytes b) ≡ true
unfolding consume consume_loop
consume_ends [] now bytes b r long enough = ground arith
consume_ends (slept ∷ sleeps) now bytes b r (long, longs) enough =
    let n = bytes * 1000 in
    let left = n - (take_round now n b).1 in
    let (same, read) = round_keeps now n b in
    let limited : (b.rate == 0) ≡ false = ground arith in
    elim (Bool-cases (bytes == 0)) [
      | inl nothing ↦ rw (limited, nothing) refl
      | inr something ↦ elim (Bool-cases (ltb 0 left)) [
        | inr paid ↦ rw (limited, something, paid) refl
        | inl more ↦
            rw (limited, something, more)
              (loop_ends sleeps (now + slept) left (take_round now n b).0 (rw same r)
                (rw read (omega arith)) longs (omega (arith, mul-suc b.rate (length sleeps))))
      ]
    ]

no_tokens :
    (now n : ℕ) (b : TokenBucket)
    → b.rate ≡ 0
    → b.tokens ≡ 0
    → ((take_round now n b).1 ≡ 0) × ((take_round now n b).0.tokens ≡ 0)
unfolding take_round refill
no_tokens now n b r t = ground arith

still_owes :
    (now n : ℕ) (b : TokenBucket)
    → b.rate ≡ 0
    → b.tokens ≡ 0
    → 0 < n
    → ltb 0 (n - (take_round now n b).1) ≡ true
still_owes now n b r t some_left = rw (no_tokens now n b r t).0 (ground arith)

dry_loop :
    (sleeps : List ℕ) (now n : ℕ) (b : TokenBucket)
    → b.rate ≡ 0
    → b.tokens ≡ 0
    → 0 < n
    → consume_loop sleeps now n b ≡ none
unfolding consume_loop
dry_loop [] now n b r t some_left = rw (still_owes now n b r t some_left) refl
dry_loop (slept ∷ sleeps) now n b r t some_left =
    let owes = still_owes now n b r t some_left in
    rw owes (
      dry_loop sleeps (now + slept) (n - (take_round now n b).1) (take_round now n b).0
        (rw (round_keeps now n b).0 r) (no_tokens now n b r t).1 (ground arith))

-- A call that still has to pay when the limit is lifted never returns, however long it sleeps, as long
-- as no limit is set again.
pub set_rate_stalls :
    (sleeps : List ℕ) (at now n : ℕ) (b : TokenBucket)
    → 0 < n
    → consume_loop sleeps now n (set_rate none at b) ≡ none
unfolding set_rate
set_rate_stalls sleeps at now n b some_left =
    dry_loop sleeps now n (set_rate none at b) refl (omega arith) some_left
