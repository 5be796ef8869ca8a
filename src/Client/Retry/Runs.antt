-- ===== src/Client/Retry/Runs.antt =====
-- What a row of failures does to the retry policy (core/src/core/client/retry.rs): how often it
-- retries, and how long it waits each time.
use braid_rs.Client.Retry.{second, RetryConfig, RetryDecision, retry, dont_retry, RetryState}
use braid_rs.Client.Retry.Decide.{Call, error}
use braid_rs.Prelude.{
  ℕ, zero, suc, ◌+◌, ◌*◌, min, false, List, [], ◌∷◌, none, some, ltb, if◌then◌else◌,
}

-- The back-off after `k` retries: the initial one first, then one more second each time, capped.
abbrev pub backoff_at : RetryConfig → ℕ → ℕ
backoff_at c zero = c.initial_backoff
backoff_at c (suc k) = min (c.initial_backoff + suc k * second) c.max_backoff

-- How many of `k` failures are retried.
abbrev pub retried : RetryConfig → ℕ → ℕ
retried c k = elim c.max_retries [ none ↦ k | some limit ↦ min k limit ]

abbrev pub state_after : RetryConfig → ℕ → RetryState
state_after c k = record { attempts = k; current_backoff = backoff_at c (retried c k); config = c }

-- The decision on failure `k + 1`.
abbrev pub decision_at : RetryConfig → ℕ → RetryDecision
decision_at c k = elim c.max_retries [
  | none ↦ retry (backoff_at c k)
  | some limit ↦ if ltb k limit then retry (backoff_at c k) else dont_retry
]

abbrev pub decisions_from : RetryConfig → ℕ → ℕ → List RetryDecision
decisions_from c k zero = []
decisions_from c k (suc n) = decision_at c k ∷ decisions_from c (suc k) n

abbrev pub failures : ℕ → List Call
failures zero = []
failures (suc n) = error false ∷ failures n
