-- ===== src/Security/RateLimit.antt =====
-- backend/security/rate-limit.ts: the sliding-window limiter and the middleware around it. Times
-- are milliseconds and an argument of each call; `ts > now - windowMs` is `now < ts + windowMs`. The
-- sweeper's timer only calls `prune` and is not a part of the state.
pub mod Window
pub mod Retry
mod Tests
use cnc_network_bridge.Base.{
  ℕ, ◌+◌, ◌-◌, ◌/◌, String, Bool, true, false, not, Option, none, some, List, [], ◌∷◌, ◌++◌, ltb,
  leb, if◌then◌else◌, ◌<>◌, decimal, or_else, filter_by, length, Dict, get, put, remove, update_all,
  string_eq, unless_empty,
}

pub record LimiterOptions : Type 0 where
  pub limit : ℕ
  pub window_ms : ℕ

abbrev pub Hits : Type 0
Hits = Dict String (List ℕ)

pub record RateLimitState : Type 0 where
  pub key : String
  pub hits : ℕ
  pub reset_in_ms : ℕ

pub record Checked : Type 0 where
  pub hits : Hits
  pub allowed : Bool
  pub state : RateLimitState

abbrev pub is_live : LimiterOptions → ℕ → ℕ → Bool
is_live o now ts = ltb now (ts + o.window_ms)

abbrev pub live : LimiterOptions → ℕ → List ℕ → List ℕ
live o now = filter_by (is_live o now)

-- `timestamps[0] ?? now`
abbrev pub first_or : ℕ → List ℕ → ℕ
first_or now [] = now
first_or now (t ∷ ts) = t

pub check : LimiterOptions → String → ℕ → Hits → Checked
check o key now hits =
    let timestamps = live o now (or_else (get key hits) []) in
    let taken = timestamps ++ now ∷ [] in
    if leb o.limit (length timestamps)
    then record {
      hits = put key timestamps hits;
      allowed = false;
      state = record {
        key = key;
        hits = length timestamps;
        reset_in_ms = first_or now timestamps + o.window_ms - now;
      };
    }
    else record {
      hits = put key taken hits;
      allowed = true;
      state = record { key = key; hits = length taken; reset_in_ms = o.window_ms };
    }

pub reset : String → Hits → Hits
reset key hits = remove key hits

pub reset_all : Hits → Hits
reset_all hits = []

abbrev pub live_or_gone : LimiterOptions → ℕ → List ℕ → Option (List ℕ)
live_or_gone o now timestamps = unless_empty (live o now timestamps)

-- The entries that stay, and how many were removed.
pub prune : LimiterOptions → ℕ → Hits → Hits × ℕ
prune o now hits =
    let kept = update_all (live_or_gone o now) hits in (kept, length hits - length kept)

pub size : Hits → ℕ
size hits = length hits

-- The parts of a request that `DEFAULT_KEY` reads.
pub record Caller : Type 0 where
  pub session_id : Option String
  pub api_token_id : Option ℕ
  pub ip : Option String

abbrev key_of : Option String → Option ℕ → Option String → String
key_of (some id) token ip = "session:" <> id
key_of none (some id) ip = "token:" <> decimal id
key_of none none ip = "ip:" <> or_else ip "unknown"

pub default_key : Caller → String
default_key c = key_of c.session_id c.api_token_id c.ip

-- What the middleware sets and how it ends: `none` calls the next handler, `some` is the 429 with
-- its `Retry-After` in seconds.
pub record Answer : Type 0 where
  pub limit_header : ℕ
  pub remaining_header : ℕ
  pub reset_header : ℕ
  pub refused : Option ℕ

-- `Math.ceil(ms / 1000)`
abbrev pub seconds : ℕ → ℕ
seconds ms = (ms + 999) / 1000

pub rate_limit : LimiterOptions → Caller → ℕ → Hits → Hits × Answer
unfolding default_key check
rate_limit o caller now hits =
    let c = check o (default_key caller) now hits in
    (
      c.hits,
      record {
        limit_header = o.limit;
        remaining_header = o.limit - c.state.hits;
        reset_header = seconds c.state.reset_in_ms;
        refused = if c.allowed then none else some (seconds c.state.reset_in_ms);
      },
    )
