-- ===== src/Fs/RateLimiter.antt =====
-- `ReconnectRateLimiter` (core/src/fs/rate_limiter.rs). Times and durations are nanoseconds; the
-- two `u32` counters and the `u64` product of the delay are written with their wrap-around. The
-- clock of a call is an argument, and the mutex makes each call one step.
pub mod Runs
mod Examples
use braid_rs.Prelude.{
  ℕ, ◌+◌, ◌-◌, ◌*◌, ◌%◌, ◌^◌, min, Bool, true, false, Option, none, some, Text, Map, lookup, insert,
  remove, [], if◌then◌else◌, ltb,
}

pub record ConnectionState : Type 0 where
  pub connected : Bool
  pub last_attempt : ℕ
  pub failure_count : ℕ
  pub pending_turns : ℕ

pub record ReconnectRateLimiter : Type 0 where
  pub delay_ms : ℕ
  pub connections : Map ConnectionState

-- `ConnectionState::default`.
abbrev pub default_state : ℕ → ConnectionState
default_state now = record {
  connected = false;
  last_attempt = now;
  failure_count = 0;
  pending_turns = 0;
}

unfoldable pub new_limiter : ℕ → ReconnectRateLimiter
new_limiter delay_ms = record { delay_ms = delay_ms; connections = [] }

-- `entry(url).or_default()`.
abbrev pub or_default : Option ConnectionState → ℕ → ConnectionState
or_default none now = default_state now
or_default (some s) now = s

abbrev pub put : Text → ConnectionState → ReconnectRateLimiter → ReconnectRateLimiter
put url s l = record l { connections = insert url s l.connections }

unfoldable pub turn_delay : ℕ → ConnectionState → ℕ
turn_delay delay_ms s =
    if s.connected then 0 else ((delay_ms * (min s.failure_count 10 + 1)) % 2 ^ 64) * 1_000_000

-- The limiter afterwards, and the time to wait.
unfoldable pub get_turn : Text → ℕ → ReconnectRateLimiter → ReconnectRateLimiter × ℕ
unfolding turn_delay
get_turn url now l =
    let s = or_default (lookup url l.connections) now in
    let delay = turn_delay l.delay_ms s in
    let elapsed = now - s.last_attempt in
    (
      put url (record s { pending_turns = (s.pending_turns + 1) % 2 ^ 32 }) l,
      (if ltb elapsed delay then delay - elapsed else 0),
    )

unfoldable pub on_conn : Text → ℕ → ReconnectRateLimiter → ReconnectRateLimiter
on_conn url now l =
    let s = or_default (lookup url l.connections) now in
    put url (record s { connected = true; failure_count = 0; last_attempt = now }) l

unfoldable pub on_diss : Text → ℕ → ReconnectRateLimiter → ReconnectRateLimiter
on_diss url now l =
    let s = or_default (lookup url l.connections) now in
    put url
      (record s {
        connected = false;
        failure_count = (s.failure_count + 1) % 2 ^ 32;
        last_attempt = now;
      })
      l

unfoldable pub is_connected : Text → ReconnectRateLimiter → Bool
is_connected url l = elim (lookup url l.connections) [ none ↦ false | some s ↦ s.connected ]

unfoldable pub failure_count : Text → ReconnectRateLimiter → ℕ
failure_count url l = elim (lookup url l.connections) [ none ↦ 0 | some s ↦ s.failure_count ]

unfoldable pub reset : Text → ReconnectRateLimiter → ReconnectRateLimiter
reset url l = record l { connections = remove url l.connections }
