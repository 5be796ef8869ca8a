-- ===== src/Client/Retry.antt =====
-- `RetryConfig`, `RetryState` and `parse_retry_after` (core/src/core/client/retry.rs).
-- A `Duration` is a number of nanoseconds; `Duration + Duration` panics past `duration_max`.
-- `attempts` is a `u32`, and its increment is written with the wrap-around of a release build.
mod Decide
mod Runs
mod Examples
use braid_rs.Prelude.{
  ℕ, zero, suc, ◌+◌, ◌-◌, ◌*◌, ◌%◌, ◌^◌, ◌≤◌, ◌<◌, min, ◌≡◌, Bool, true, false, ◌&&◌, ◌||◌, List,
  [], ◌∷◌, ◌++◌, Option, none, some, Bytes, ltb, leb, ◌==◌, if◌then◌else◌, unwrap_or, Outcome,
  returned, panicked, any, map,
}
use braid_rs.Prelude.Chars.{codes, contains_text, to_lowercase}
use braid_rs.Prelude.Decimal.{parse_unsigned}

abbrev pub second : ℕ
second = 1_000_000_000

-- `Duration::MAX`: 2^64 - 1 seconds and 999,999,999 nanoseconds.
abbrev pub duration_max : ℕ
duration_max = 2 ^ 64 * 1_000_000_000 - 1

abbrev pub u32_mod : ℕ
u32_mod = 2 ^ 32

pub record RetryConfig : Type 0 where
  pub max_retries : Option ℕ
  pub initial_backoff : ℕ
  pub max_backoff : ℕ
  pub retry_on_status : List ℕ
  pub respect_retry_after : Bool

abbrev pub default_config : RetryConfig
default_config = record {
  max_retries = none;
  initial_backoff = 1 * second;
  max_backoff = 3 * second;
  retry_on_status = 408 ∷ 425 ∷ 429 ∷ 502 ∷ 503 ∷ 504 ∷ [];
  respect_retry_after = true;
}

abbrev pub no_retry : RetryConfig
no_retry = record default_config { max_retries = some 0 }

pub with_max_retries : RetryConfig → ℕ → RetryConfig
with_max_retries c max = record c { max_retries = some max }

pub with_initial_backoff : RetryConfig → ℕ → RetryConfig
with_initial_backoff c duration = record c { initial_backoff = duration }

pub with_max_backoff : RetryConfig → ℕ → RetryConfig
with_max_backoff c duration = record c { max_backoff = duration }

-- `Vec<u16>::contains`.
pub contains_status : ℕ → List ℕ → Bool
contains_status status = any (λ s. s == status)

pub with_retry_on_status : RetryConfig → ℕ → RetryConfig
unfolding contains_status
with_retry_on_status c status =
    if contains_status status c.retry_on_status
    then c
    else record c { retry_on_status = c.retry_on_status ++ (status ∷ []) }

pub with_respect_retry_after : RetryConfig → Bool → RetryConfig
with_respect_retry_after c respect = record c { respect_retry_after = respect }

pub data RetryDecision : Type 0 where
  retry : ℕ → RetryDecision
  dont_retry : RetryDecision

pub record RetryState : Type 0 where
  pub attempts : ℕ
  pub current_backoff : ℕ
  pub config : RetryConfig

pub new_state : RetryConfig → RetryState
new_state c = record { attempts = 0; current_backoff = c.initial_backoff; config = c }

-- `self.attempts > max`, where a maximum is set.
pub exceeds : Option ℕ → ℕ → Bool
exceeds none attempts = false
exceeds (some max) attempts = ltb max attempts

-- The wait before the next attempt: the server's `Retry-After` if it is respected and present.
pub wait_for : RetryState → Option ℕ → ℕ
wait_for s retry_after =
    if s.config.respect_retry_after
    then unwrap_or retry_after s.current_backoff
    else s.current_backoff

-- `self.current_backoff + Duration::from_secs(1)`, and the cap.
pub next_backoff : RetryState → Outcome ℕ
next_backoff s =
    if leb (s.current_backoff + second) duration_max
    then returned (min (s.current_backoff + second) s.config.max_backoff)
    else panicked

abbrev give_up : RetryState → RetryState × RetryDecision
give_up s = (s, dont_retry)

advance : RetryState → ℕ → Outcome ℕ → Outcome (RetryState × RetryDecision)
advance s wait (returned backoff) = returned (record s { current_backoff = backoff }, retry wait)
advance s wait panicked = panicked

pub decide_retry : RetryState → Option ℕ → Outcome (RetryState × RetryDecision)
unfolding exceeds wait_for next_backoff advance
decide_retry s retry_after =
    let counted = record s { attempts = (s.attempts + 1) % u32_mod } in
    if exceeds s.config.max_retries counted.attempts
    then returned (give_up counted)
    else advance counted (wait_for counted retry_after) (next_backoff counted)

pub should_retry_error : RetryState → Bool → Outcome (RetryState × RetryDecision)
unfolding decide_retry
should_retry_error s is_abort = if is_abort then returned (give_up s) else decide_retry s none

pub should_retry_status : RetryState → ℕ → Option ℕ → Outcome (RetryState × RetryDecision)
unfolding decide_retry contains_status
should_retry_status s status retry_after =
    if contains_status status s.config.retry_on_status
    then decide_retry s retry_after
    else returned (give_up s)

abbrev pub says_missing_parents : Option Bytes → Bool
says_missing_parents none = false
says_missing_parents (some text) = contains_text (codes "missing parents") (to_lowercase text)

pub should_retry_status_with_text :
    RetryState → ℕ → Option Bytes → Option ℕ → Outcome (RetryState × RetryDecision)
unfolding decide_retry should_retry_status
should_retry_status_with_text s status status_text retry_after =
    if says_missing_parents status_text
    then decide_retry s retry_after
    else should_retry_status s status retry_after

pub reset : RetryState → RetryState
reset s = record s { attempts = 0; current_backoff = s.config.initial_backoff }

abbrev to_seconds : Option ℕ → Option ℕ
to_seconds none = none
to_seconds (some n) = some (n * second)

-- Seconds only; the date form of the header is not read.
pub parse_retry_after : Bytes → Option ℕ
unfolding parse_unsigned
parse_retry_after value = to_seconds (parse_unsigned (2 ^ 64) value)
