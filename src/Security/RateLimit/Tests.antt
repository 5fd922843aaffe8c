-- ===== src/Security/RateLimit/Tests.antt =====
-- Runs of the rate limiter, and its theorems at inputs where their hypotheses hold.
use cnc_network_bridge.Base.{
  ℕ, ◌≤◌, ◌≡◌, refl, none, some, List, [], ◌∷◌, get, remove, put, update_all, arith, decimal,
  string_eq,
}
use cnc_network_bridge.Security.RateLimit.{
  LimiterOptions, Caller, check, prune, rate_limit, size, reset, default_key,
}
use cnc_network_bridge.Security.RateLimit.Window.{
  Event, checks, prunes, watch_event, watch_all, empty_watch, count_by, in_interval, check_bound,
}
use cnc_network_bridge.Security.RateLimit.Retry.{rate_limit_retry}

abbrev two_per_second : LimiterOptions
two_per_second = record { limit = 2; window_ms = 1000 }

abbrev caller : Caller
caller = record { session_id = none; api_token_id = some 7; ip = none }

abbrev busy : List (ℕ × Event)
busy =
    (100, checks "token:7")
    ∷ (200, checks "ip:1")
    ∷ (900, checks "token:7")
    ∷ (950, checks "token:7")
    ∷ (1000, prunes)
    ∷ (1150, checks "token:7")
    ∷ []

allowed_times : (watch_all two_per_second "token:7" busy empty_watch).log ≡ 1150 ∷ 900 ∷ 100 ∷ []
unfolding watch_all watch_event check prune get put update_all
allowed_times = refl

check_bound_example :
    count_by (in_interval 900 1000) (watch_all two_per_second "token:7" busy empty_watch).log ≤ 2
check_bound_example = check_bound two_per_second "token:7" busy 900 (omega arith)

rate_limit_retry_example :
    (rate_limit two_per_second caller 2200
      (rate_limit two_per_second caller 1200
        (watch_all two_per_second (default_key caller) busy empty_watch).hits).0).1.refused
    ≡ none
unfolding rate_limit watch_all watch_event check prune get put update_all decimal
rate_limit_retry_example =
    rate_limit_retry two_per_second busy caller 1200 1 2200 (omega arith) refl (omega arith)

forgotten : size (reset "a" (put "b" (1 ∷ []) (put "a" (1 ∷ []) []))) ≡ 1
unfolding size reset remove put
forgotten = refl
