-- ===== src/Sync/TokenBucket/Allowance.antt =====
-- How much the bucket of backend/sync/throttle.ts lets through, whoever draws on it.
use cnc_network_bridge.Base.{
  ℕ, ◌+◌, ◌-◌, ◌*◌, ◌≤◌, ◌≡◌, refl, Option, List, [], ◌∷◌, or_else, arith, subst,
}
use cnc_network_bridge.Sync.TokenBucket.{TokenBucket, refill, set_rate, take_round}

-- What happens to a bucket: a round of the loop of some call of `consume`, or a change of the rate.
pub data Event : Type 0 where
  takes : ℕ → Event
  sets : Option ℕ → Event

unfoldable pub step : ℕ → Event → TokenBucket → TokenBucket
step now (takes outstanding) b = (take_round now outstanding b).0
step now (sets rate) b = set_rate rate now b

abbrev pub taken_by : ℕ → Event → TokenBucket → ℕ
taken_by now (takes outstanding) b = (take_round now outstanding b).1
taken_by now (sets rate) b = 0

-- What all calls have taken, in thousandths of a byte.
unfoldable pub taken : List (ℕ × Event) → TokenBucket → ℕ
taken [] b = 0
taken ((now, e) ∷ es) b = taken_by now e b + taken es (step now e b)

-- What the rates in force allow for the time that passes, from a time with a rate on.
unfoldable pub allowance : List (ℕ × Event) → ℕ → ℕ → ℕ
allowance [] since rate = 0
allowance ((now, takes n) ∷ es) since rate = (now - since) * rate + allowance es now rate
allowance ((now, sets q) ∷ es) since rate = (now - since) * rate + allowance es now (or_else q 0)

take_round_balance :
    (now n : ℕ) (b : TokenBucket)
    → (take_round now n b).0.tokens + (take_round now n b).1
      ≤ b.tokens + (now - b.last_refill_at) * b.rate
unfolding take_round refill
take_round_balance now n b = ground arith

set_rate_balance :
    (rate : Option ℕ) (now : ℕ) (b : TokenBucket)
    → (set_rate rate now b).tokens ≤ b.tokens + (now - b.last_refill_at) * b.rate
unfolding set_rate refill
set_rate_balance rate now b = ground arith

take_round_keeps :
    (now n : ℕ) (b : TokenBucket)
    → ((take_round now n b).0.last_refill_at ≡ now) × ((take_round now n b).0.rate ≡ b.rate)
unfolding take_round refill
take_round_keeps now n b = (refl, refl)

set_rate_sets :
    (rate : Option ℕ) (now : ℕ) (b : TokenBucket)
    → ((set_rate rate now b).last_refill_at ≡ now) × ((set_rate rate now b).rate ≡ or_else rate 0)
unfolding set_rate refill
set_rate_sets rate now b = (refl, refl)

-- Whatever calls draw on a bucket, at whatever times, and however the rate is changed on the way: all
-- that they take together is at most what was in the bucket and what the rates in force have allowed
-- for the time that has passed.
pub taken-le-allowance :
    (es : List (ℕ × Event)) (b : TokenBucket)
    → taken es b ≤ b.tokens + allowance es b.last_refill_at b.rate
unfolding taken allowance step
taken-le-allowance [] b = omega arith
taken-le-allowance ((now, takes n) ∷ es) b =
    let next = (take_round now n b).0 in
    let (time, same) = take_round_keeps now n b in
    let rest : taken es next ≤ next.tokens + allowance es now b.rate =
      subst (λ t. taken es next ≤ next.tokens + allowance es t b.rate) time
        (subst (λ r. taken es next ≤ next.tokens + allowance es next.last_refill_at r) same
          (taken-le-allowance es next)) in
    omega (arith, take_round_balance now n b, rest)
taken-le-allowance ((now, sets q) ∷ es) b =
    let next = set_rate q now b in
    let (time, new) = set_rate_sets q now b in
    let rest : taken es next ≤ next.tokens + allowance es now (or_else q 0) =
      subst (λ t. taken es next ≤ next.tokens + allowance es t (or_else q 0)) time
        (subst (λ r. taken es next ≤ next.tokens + allowance es next.last_refill_at r) new
          (taken-le-allowance es next)) in
    omega (arith, set_rate_balance q now b, rest)
