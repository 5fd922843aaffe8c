-- ===== src/Sync/Orchestrator/Breaker.antt =====
-- The circuit breaker of backend/sync/orchestrator.ts.
use cnc_network_bridge.Base.{ℕ, suc, ◌+◌, Bool, true, false, leb, if◌then◌else◌}
use cnc_network_bridge.Sync.Orchestrator.Types.{
  ShareStatus, BreakerState, closed, opened, half_open, Orchestrator,
}

abbrev pub is_closed : BreakerState → Bool
is_closed closed = true
is_closed _ = false

abbrev pub is_open : BreakerState → Bool
is_open opened = true
is_open _ = false

abbrev pub is_half_open : BreakerState → Bool
is_half_open half_open = true
is_half_open _ = false

-- `now - breakerOpenedAt >= breakerCooldownMs`, with the time of the opening on the other side, so that no
-- number is below 0. The orchestrator after the call, and whether the cycle may proceed.
unfoldable pub try_enter_breaker : ℕ → Orchestrator → Orchestrator × Bool
try_enter_breaker now o =
    if is_closed o.breaker
    then (o, true)
    else if is_half_open o.breaker
    then (o, true)
    else if leb (o.options.breaker_cooldown_ms + o.breaker_opened_at) now
    then (record o { breaker = half_open; probe_used = false }, true)
    else (o, false)

unfoldable pub on_success : Orchestrator → Orchestrator
on_success o = record o {
  consecutive_failures = 0;
  breaker = if is_closed o.breaker then o.breaker else closed;
}

abbrev pub open_breaker : ℕ → Orchestrator → Orchestrator
open_breaker now o = record o {
  breaker = opened;
  breaker_opened_at = now;
  status = ShareStatus.error;
}

unfoldable pub on_failure : ℕ → Orchestrator → Orchestrator
on_failure now o =
    let counted = record o { consecutive_failures = suc o.consecutive_failures } in
    if is_half_open o.breaker
    then open_breaker now counted
    else if leb o.options.breaker_threshold (suc o.consecutive_failures)
    then open_breaker now counted
    else counted
