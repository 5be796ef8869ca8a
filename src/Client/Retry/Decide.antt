-- ===== src/Client/Retry/Decide.antt =====
-- Every single decision of the retry policy (core/src/core/client/retry.rs): no panic, a bounded
-- back-off, and the "Missing Parents" rule.
use braid_rs.Client.Retry.{
  second, duration_max, RetryConfig, RetryDecision, retry, dont_retry, RetryState, new_state,
  decide_retry, should_retry_error, should_retry_status, should_retry_status_with_text, reset,
  parse_retry_after, to_seconds,
}
use braid_rs.Prelude.{
  ℕ, ◌+◌, ◌*◌, ◌^◌, ◌≤◌, ◌<◌, max, ◌≡◌, refl, ◌⊎◌, Bool, ◌++◌, Option, none, some, Bytes, ap, arith,
  Outcome, returned, panicked, bind, subst, ◌∙◌, List, [], ◌∷◌,
}
use braid_rs.Prelude.Decimal.{show, parse_unsigned-show}
use braid_rs.Prelude.Chars.{codes, to_lowercase, contains_text_append, to_lowercase-append}

-- The largest wait that the policy chooses by itself.
abbrev pub ceiling : RetryConfig → ℕ
ceiling c = max c.initial_backoff c.max_backoff

-- The configured durations leave room for the one second that is added.
abbrev pub FitsDuration : RetryConfig → Type 0
FitsDuration c = ceiling c + second ≤ duration_max

pub record IsPaced (s : RetryState) : Type 0 where
  pub room : FitsDuration s.config
  pub bounded : s.current_backoff ≤ ceiling s.config

-- One call of the interface of `RetryState`.
pub data Call : Type 0 where
  error : Bool → Call
  status : ℕ → Option Bytes → Option ℕ → Call
  success : Call

unfoldable pub apply : Call → RetryState → Outcome (RetryState × RetryDecision)
apply (error is_abort) s = should_retry_error s is_abort
apply (status code text retry_after) s = should_retry_status_with_text s code text retry_after
apply success s = returned (reset s, dont_retry)

abbrev pub server_wait : Call → Option ℕ
server_wait (error _) = none
server_wait (status _ _ retry_after) = retry_after
server_wait success = none

-- A decision waits for the server's time, or for no longer than the ceiling.
abbrev pub IsDecent : RetryConfig → Option ℕ → RetryDecision → Type 0
IsDecent c server dont_retry = Unit {0}
IsDecent c server (retry wait) = (server ≡ some wait) ⊎ (wait ≤ ceiling c)

-- The call returned, it kept the configuration and the pace, and its decision is decent.
abbrev pub EndsWell : RetryConfig → Option ℕ → Outcome (RetryState × RetryDecision) → Type 0
EndsWell c server panicked = ⊥
EndsWell c server (returned (s, d)) = IsPaced s × (s.config ≡ c) × IsDecent c server d

decide_retry-EndsWell :
    (s : RetryState) (server : Option ℕ)
    → IsPaced s
    → EndsWell s.config server (decide_retry s server)
unfolding decide_retry
decide_retry-EndsWell s server h = ground arith

should_retry_status-EndsWell :
    (s : RetryState) (code : ℕ) (server : Option ℕ)
    → IsPaced s
    → EndsWell s.config server (should_retry_status s code server)
unfolding should_retry_status
should_retry_status-EndsWell s code server h = ground (arith, decide_retry-EndsWell s server h)

-- From a paced state no call panics, the state stays paced, the configuration is kept, and a wait
-- is the server's own or at most the larger of the initial and the maximal back-off.
pub apply-EndsWell :
    (call : Call) (s : RetryState) → IsPaced s → EndsWell s.config (server_wait call) (apply call s)
unfolding apply should_retry_error should_retry_status_with_text reset
apply-EndsWell (error is_abort) s h = ground (arith, decide_retry-EndsWell s none h)
apply-EndsWell (status code text server) s h =
    ground (arith, decide_retry-EndsWell s server h, should_retry_status-EndsWell s code server h)
apply-EndsWell success s h = ground arith

-- Calls one after the other, with what they decide.
unfoldable pub apply_all : List Call → RetryState → Outcome (RetryState × List RetryDecision)
apply_all [] s = returned (s, [])
apply_all (call ∷ calls) s =
    bind (apply call s) λ (s', d). bind (apply_all calls s') λ (t, ds). returned (t, d ∷ ds)

abbrev pub AllDecent : RetryConfig → List Call → List RetryDecision → Type 0
AllDecent c [] [] = Unit {0}
AllDecent c [] (d ∷ ds) = ⊥
AllDecent c (call ∷ calls) [] = ⊥
AllDecent c (call ∷ calls) (d ∷ ds) = IsDecent c (server_wait call) d × AllDecent c calls ds

abbrev pub AllEndWell : RetryConfig → List Call → Outcome (RetryState × List RetryDecision) → Type 0
AllEndWell c calls panicked = ⊥
AllEndWell c calls (returned (s, ds)) = IsPaced s × (s.config ≡ c) × AllDecent c calls ds

apply_all-AllEndWell :
    (calls : List Call) (c : RetryConfig) (s : RetryState)
    → s.config ≡ c
    → IsPaced s
    → AllEndWell c calls (apply_all calls s)
unfolding apply_all
apply_all-AllEndWell [] c s e h = (h, e, tt)
apply_all-AllEndWell (call ∷ calls) c s e h =
    step (apply call s) (apply-EndsWell call s h) (λ s' k p. apply_all-AllEndWell calls c s' k p)
  where
    rest :
        (o : Outcome (RetryState × List RetryDecision)) (d : RetryDecision)
        → IsDecent c (server_wait call) d
        → AllEndWell c calls o
        → AllEndWell c (call ∷ calls) (bind o λ (t, ds). returned (t, d ∷ ds))
    rest (returned (t, ds)) d good (p, k, all) = (p, k, (good, all))
    rest panicked d good bad = bad

    step :
        (o : Outcome (RetryState × RetryDecision))
        → EndsWell s.config (server_wait call) o
        → ((s' : RetryState) → s'.config ≡ c → IsPaced s' → AllEndWell c calls (apply_all calls s'))
        → AllEndWell c
            (call ∷ calls)
            (bind o λ (s', d). bind (apply_all calls s') λ (t, ds). returned (t, d ∷ ds))
    step (returned (s', d)) (p, k, good) ih =
        rest (apply_all calls s') d (subst (λ x. IsDecent x (server_wait call) d) e good)
          (ih s' (k ∙ e) p)
    step panicked bad ih = bad

-- From a fresh state whose durations leave room for the added second, no sequence of errors,
-- responses and resets panics; each decision waits for the server's time or at most for the larger
-- of the initial and the maximal back-off, and the configuration is kept.
pub apply_all_from_new :
    (c : RetryConfig) (calls : List Call)
    → FitsDuration c
    → AllEndWell c calls (apply_all calls (new_state c))
unfolding new_state
apply_all_from_new c calls h =
    apply_all-AllEndWell calls c (new_state c) refl (record { room = h; bounded = omega arith })

-- A status text that holds "missing parents" in any case, wherever it stands, is put to the retry
-- policy for every status code, also one that is not listed.
should_retry_missing_parents :
    (s : RetryState) (code : ℕ) (before word after : Bytes) (server : Option ℕ)
    → to_lowercase word ≡ codes "missing parents"
    → should_retry_status_with_text s code (some (before ++ (word ++ after))) server
      ≡ decide_retry s server
unfolding should_retry_status_with_text
should_retry_missing_parents s code before word after server h =
    rw
      (
        to_lowercase-append before (word ++ after),
        to_lowercase-append word after,
        h,
        contains_text_append (codes "missing parents") (to_lowercase before) (to_lowercase after),
      )
      refl

-- A `Retry-After` value printed in seconds is read back as that duration, if it fits a `u64`.
parse_retry_after-show : (n : ℕ) → n < 2 ^ 64 → parse_retry_after (show n) ≡ some (n * second)
unfolding parse_retry_after
parse_retry_after-show n h = ap to_seconds (parse_unsigned-show (2 ^ 64) n h)
