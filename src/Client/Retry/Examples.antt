-- ===== src/Client/Retry/Examples.antt =====
-- Tests of the retry policy after those of core/src/core/client/retry.rs, and the instances of its
-- theorems.
use braid_rs.Client.Retry.{
  second, RetryConfig, default_config, dont_retry, RetryState, new_state, should_retry_status,
  parse_retry_after,
}
use braid_rs.Client.Retry.Decide.{
  Call, error, status, success, apply_all, AllEndWell, apply_all_from_new,
}
use braid_rs.Prelude.{◌*◌, ◌≡◌, refl, true, false, List, [], ◌∷◌, none, some, arith, returned, any}
use braid_rs.Prelude.Chars.{codes}

abbrev three_times : RetryConfig
three_times = record default_config { max_retries = some 3 }

abbrev fresh : RetryState
fresh = record { attempts = 0; current_backoff = 1 * second; config = default_config }

-- `test_retry_state_status`: 404 is not listed, and the state is as before.
not_listed : should_retry_status fresh 404 none ≡ returned (fresh, dont_retry)
unfolding should_retry_status any
not_listed = refl

-- `test_parse_retry_after`.
parse_invalid : parse_retry_after (codes "invalid") ≡ none
unfolding parse_retry_after
parse_invalid = refl

abbrev mixed_calls : List Call
mixed_calls =
    error false
    ∷ status 503 none (some (10 * second))
    ∷ success
    ∷ status 404 none none
    ∷ error true
    ∷ []

apply_all_from_new_example :
    AllEndWell three_times mixed_calls (apply_all mixed_calls (new_state three_times))
apply_all_from_new_example = apply_all_from_new three_times mixed_calls (omega arith)
