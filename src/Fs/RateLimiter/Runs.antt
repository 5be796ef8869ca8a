-- ===== src/Fs/RateLimiter/Runs.antt =====
-- What the rate limiter knows after any calls (core/src/fs/rate_limiter.rs).
use braid_rs.Prelude.{
  ℕ, zero, suc, ◌+◌, ◌*◌, ◌%◌, ◌^◌, ◌≤◌, ◌<◌, min, ◌≡◌, refl, ◌∙◌, ap, sym, Bool, true, false, List,
  [], ◌∷◌, Option, none, some, Text, lookup, lookup-insert, lookup-remove, str_eq, str_eq_self,
  eq_iff, arith, if◌then◌else◌,
}
use braid_rs.Fs.RateLimiter.{
  ConnectionState, ReconnectRateLimiter, new_limiter, or_default, turn_delay, get_turn, on_conn,
  on_diss, is_connected, failure_count, reset,
}

-- The calls that change the limiter, with their url and their time.
pub data Call : Type 0 where
  turn : Text → ℕ → Call
  connect : Text → ℕ → Call
  disconnect : Text → ℕ → Call
  forget : Text → Call

unfoldable pub apply : Call → ReconnectRateLimiter → ReconnectRateLimiter
apply (turn url now) l = (get_turn url now l).0
apply (connect url now) l = on_conn url now l
apply (disconnect url now) l = on_diss url now l
apply (forget url) l = reset url l

-- The limiter after calls, the newest call first.
unfoldable pub after : ℕ → List Call → ReconnectRateLimiter
unfolding apply new_limiter
after delay_ms [] = new_limiter delay_ms
after delay_ms (c ∷ cs) = apply c (after delay_ms cs)

-- The disconnections of a url since it was last connected or forgotten, the newest call first.
abbrev pub failures : Text → List Call → ℕ
failures url [] = 0
failures url (turn u now ∷ cs) = failures url cs
failures url (connect u now ∷ cs) = let rest = failures url cs in if str_eq u url then 0 else rest
failures url (disconnect u now ∷ cs) =
    let rest = failures url cs in if str_eq u url then suc rest else rest
failures url (forget u ∷ cs) = let rest = failures url cs in if str_eq u url then 0 else rest

-- Whether the last of these calls for the url was a connection.
abbrev pub online : Text → List Call → Bool
online url [] = false
online url (turn u now ∷ cs) = online url cs
online url (connect u now ∷ cs) = let rest = online url cs in if str_eq u url then true else rest
online url (disconnect u now ∷ cs) =
    let rest = online url cs in if str_eq u url then false else rest
online url (forget u ∷ cs) = let rest = online url cs in if str_eq u url then false else rest

-- The entry of a url after each call.
module _ (u url : Text) (now : ℕ) (l : ReconnectRateLimiter) where
  abbrev before : ConnectionState
  before = or_default (lookup u l.connections) now

  lookup-get_turn : lookup url (get_turn u now l).0.connections ≡ (
      if str_eq u url
      then some (record before { pending_turns = (before.pending_turns + 1) % 2 ^ 32 })
      else lookup url l.connections)
  unfolding get_turn
  lookup-get_turn = lookup-insert u url _ l.connections

  lookup-on_conn : lookup url (on_conn u now l).connections ≡ (
      if str_eq u url
      then some (record before { connected = true; failure_count = 0; last_attempt = now })
      else lookup url l.connections)
  unfolding on_conn
  lookup-on_conn = lookup-insert u url _ l.connections

  lookup-on_diss : lookup url (on_diss u now l).connections ≡ (
      if str_eq u url
      then some (record before {
        connected = false;
        failure_count = (before.failure_count + 1) % 2 ^ 32;
        last_attempt = now;
      })
      else lookup url l.connections)
  unfolding on_diss
  lookup-on_diss = lookup-insert u url _ l.connections

  lookup-reset :
      lookup url (reset u l).connections ≡ (if str_eq u url then none else lookup url l.connections)
  unfolding reset
  lookup-reset = lookup-remove u url l.connections

-- What the limiter says of a url, where it knows these failures and this connection.
pub record Knows (url : Text) (n : ℕ) (up : Bool) (l : ReconnectRateLimiter) : Type 0 where
  pub failed : failure_count url l ≡ n % 2 ^ 32
  pub linked : is_connected url l ≡ up

apply-Knows :
    (c : Call) (cs : List Call) (url : Text) (l : ReconnectRateLimiter)
    → Knows url (failures url cs) (online url cs) l
    → Knows url (failures url (c ∷ cs)) (online url (c ∷ cs)) (apply c l)
unfolding apply failure_count is_connected
apply-Knows (turn u now) cs url l h = record {
  failed = ground (arith, lookup-get_turn u url now l, h.failed, eq_iff u url);
  linked = ground (arith, lookup-get_turn u url now l, h.linked, eq_iff u url);
}
apply-Knows (connect u now) cs url l h = record {
  failed = ground (arith, lookup-on_conn u url now l, h.failed, eq_iff u url);
  linked = ground (arith, lookup-on_conn u url now l, h.linked, eq_iff u url);
}
apply-Knows (disconnect u now) cs url l h = record {
  failed = ground (arith, lookup-on_diss u url now l, h.failed, eq_iff u url);
  linked = ground (arith, lookup-on_diss u url now l, h.linked, eq_iff u url);
}
apply-Knows (forget u) cs url l h = record {
  failed = ground (arith, lookup-reset u url 0 l, h.failed);
  linked = ground (arith, lookup-reset u url 0 l, h.linked);
}

-- After any calls, the failure count of a url is the number of its disconnections since it was last
-- connected or forgotten, modulo 2^32, and the url counts as connected exactly if the last of these
-- calls for it was a connection. The calls for other urls and the turns do not matter.
pub after-Knows :
    (delay_ms : ℕ) (cs : List Call) (url : Text)
    → Knows url (failures url cs) (online url cs) (after delay_ms cs)
unfolding after new_limiter failure_count is_connected lookup
after-Knows delay_ms [] url = record { failed = refl; linked = refl }
after-Knows delay_ms (c ∷ cs) url =
    apply-Knows c cs url (after delay_ms cs) (after-Knows delay_ms cs url)

after-delay : (delay_ms : ℕ) (cs : List Call) → (after delay_ms cs).delay_ms ≡ delay_ms
unfolding after apply new_limiter get_turn on_conn on_diss reset
after-delay delay_ms [] = refl
after-delay delay_ms (turn u now ∷ cs) = after-delay delay_ms cs
after-delay delay_ms (connect u now ∷ cs) = after-delay delay_ms cs
after-delay delay_ms (disconnect u now ∷ cs) = after-delay delay_ms cs
after-delay delay_ms (forget u ∷ cs) = after-delay delay_ms cs

mul_small : (d k : ℕ) → k ≤ 11 → d * k ≤ d * 11
mul_small zero k h = omega arith
mul_small (suc d) k h = omega (arith, mul_small d k h)

turn_delay_apart :
    (delay_ms : ℕ) (s : ConnectionState)
    → delay_ms * 11 < 2 ^ 64
    → s.connected ≡ false
    → (turn_delay delay_ms s ≡ delay_ms * (min s.failure_count 10 + 1) * 1_000_000)
      × (turn_delay delay_ms s ≤ delay_ms * 11 * 1_000_000)
unfolding turn_delay
turn_delay_apart delay_ms s fits apart =
    let small = mul_small delay_ms (min s.failure_count 10 + 1) (omega arith) in
    (ground (arith, small), ground (arith, small))

-- The wait for a url whose entry is known.
get_turn_entry :
    (url : Text) (now : ℕ) (l : ReconnectRateLimiter) (s : ConnectionState)
    → lookup url l.connections ≡ some s
    → s.last_attempt ≤ now
    → (s.last_attempt + turn_delay l.delay_ms s ≤ now + (get_turn url now l).1)
      × ((get_turn url now l).1 ≤ turn_delay l.delay_ms s)
unfolding get_turn
get_turn_entry url now l s found order = (ground arith, ground arith)

-- The entry of a url that was just disconnected.
disconnected :
    (delay_ms : ℕ) (cs : List Call) (url : Text) (t : ℕ)
    → (s : ConnectionState) × (lookup url (after delay_ms (disconnect url t ∷ cs)).connections
        ≡ some s)
      × (s.connected ≡ false)
      × (s.last_attempt ≡ t)
      × (s.failure_count ≡ failures url (disconnect url t ∷ cs) % 2 ^ 32)
unfolding after apply failure_count
disconnected delay_ms cs url t =
    let l = after delay_ms cs in
    let found = lookup-on_diss url url t l in
    let known = (after-Knows delay_ms (disconnect url t ∷ cs) url).failed in
    let b = before url url t l in
    let s = record b {
      connected = false;
      failure_count = (b.failure_count + 1) % 2 ^ 32;
      last_attempt = t;
    } in
    let here : lookup url (on_diss url t l).connections ≡ some s =
      ground (arith, found, str_eq_self url) in
    (
      s,
      here,
      refl,
      refl,
      ap (λ (o : Option ConnectionState). elim o [ none ↦ 0 | some s ↦ s.failure_count ]) (sym here)
          ∙ known,
    )

no_wait :
    (delay_ms : ℕ) (cs : List Call) (url : Text) (t now : ℕ)
    → (get_turn url now (after delay_ms (connect url t ∷ cs))).1 ≡ 0
unfolding after apply get_turn turn_delay
no_wait delay_ms cs url t now =
    ground (arith, lookup-on_conn url url t (after delay_ms cs), str_eq_self url)

-- A turn for a url that was just disconnected waits until the delay, once more for each of up to
-- ten failures, has passed since the disconnection, and never longer than eleven delays, if eleven
-- delays fit a `u64` and the clock has not gone back. A turn for a url that was just connected does
-- not wait.
pub get_turn_paced :
    (delay_ms : ℕ) (cs : List Call) (url : Text) (t now : ℕ)
    → delay_ms * 11 < 2 ^ 64
    → t ≤ now
    → let n = failures url (disconnect url t ∷ cs) % 2 ^ 32 in
      let wait = (get_turn url now (after delay_ms (disconnect url t ∷ cs))).1 in
      (t + delay_ms * (min n 10 + 1) * 1_000_000 ≤ now + wait)
      × (wait ≤ delay_ms * 11 * 1_000_000)
      × ((get_turn url now (after delay_ms (connect url t ∷ cs))).1 ≡ 0)
get_turn_paced delay_ms cs url t now fits order =
    let l = after delay_ms (disconnect url t ∷ cs) in
    let (s, found, apart, last, count) = disconnected delay_ms cs url t in
    let (lower, upper) = get_turn_entry url now l s found (ground (arith, last, order)) in
    let (exact, bound) = turn_delay_apart delay_ms s fits apart in
    let kept = ap (λ d. turn_delay d s) (after-delay delay_ms (disconnect url t ∷ cs)) in
    let counted = ap (λ f. delay_ms * (min f 10 + 1) * 1_000_000) count in
    (
      omega (arith, lower, kept, exact, counted, last),
      omega (arith, upper, kept, bound),
      no_wait delay_ms cs url t now,
    )
