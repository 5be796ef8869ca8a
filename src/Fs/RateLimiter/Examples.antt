-- ===== src/Fs/RateLimiter/Examples.antt =====
-- Runs of the rate limiter after the tests of core/src/fs/rate_limiter.rs, and the instances of its
-- theorems.
use braid_rs.Prelude.{◌+◌, ◌*◌, ◌%◌, ◌^◌, ◌≤◌, min, ◌≡◌, refl, List, [], ◌∷◌, Text, lookup, arith}
use braid_rs.Prelude.Chars.{codes}
use braid_rs.Fs.RateLimiter.{get_turn, turn_delay}
use braid_rs.Fs.RateLimiter.Runs.{
  Call, turn, connect, disconnect, after, failures, online, Knows, after-Knows, get_turn_paced,
}

abbrev url : Text
url = codes "http://example.com"

-- Two failures behind a connection.
abbrev calls : List Call
calls =
    disconnect url 50
    ∷ turn (codes "http://b") 40
    ∷ disconnect url 30
    ∷ connect url 20
    ∷ disconnect url 10
    ∷ []

-- A url that was never seen waits a whole delay.
first_turn : (get_turn url 7 (after 100 [])).1 ≡ 100 * 1_000_000
unfolding after get_turn turn_delay lookup
first_turn = refl

after-Knows_example : Knows url (failures url calls) (online url calls) (after 100 calls)
after-Knows_example = after-Knows 100 calls url

get_turn_paced_example :
    let n = failures url (disconnect url 60 ∷ calls) % 2 ^ 32 in
    let wait = (get_turn url 90 (after 100 (disconnect url 60 ∷ calls))).1 in
    (60 + 100 * (min n 10 + 1) * 1_000_000 ≤ 90 + wait)
    × (wait ≤ 100 * 11 * 1_000_000)
    × ((get_turn url 90 (after 100 (connect url 60 ∷ calls))).1 ≡ 0)
get_turn_paced_example = get_turn_paced 100 calls url 60 90 (omega arith) (omega arith)
