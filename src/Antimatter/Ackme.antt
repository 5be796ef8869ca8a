-- ===== src/Antimatter/Ackme.antt =====
-- The acknowledgements of `AntimatterCrdt` and its message handler `receive`
-- (core/src/antimatter/antimatter.rs). A handler gives `none` only if the fuel of a search runs out,
-- which Ackme/Ends and Ackme/Receive exclude. The `f64` formula of the time estimate is the parameter `weighted`.
pub mod Ends
pub mod Receive
pub mod Sends
use braid_rs.Prelude.{
  ℕ, zero, suc, ◌+◌, ◌-◌, ◌%◌, ◌^◌, Bool, true, false, not, ◌&&◌, List, [], ◌∷◌, ◌++◌, Option, none,
  some, Text, Map, lookup, insert, contains_key, keys, values, length, leb, ltb, ◌==◌, str_eq,
  StrSet, if◌then◌else◌, opt_str_eq,
}
use braid_rs.Prelude.Set
use braid_rs.Prelude.Chars.{codes}
use braid_rs.Antimatter.Messages
use braid_rs.Antimatter.Messages.{Fissure, Patch, Version, Message, ConnectionState, AckmeState}
use braid_rs.Antimatter.Search.{Graph, next_of}
use braid_rs.Antimatter.Bubble.{push_all, pending, is_empty}
use braid_rs.Antimatter.Peer.{
  PrunableCrdt, AntimatterCrdt, fissure_key, send, generate_seq, generate_random_id, add_version,
}
use braid_rs.Antimatter.Prune.{prune}

-- The stack loop of `add_full_ack_leaves`: the boundary without what is behind the stack.
unfoldable pub unack : Graph → ℕ → List Text → StrSet → StrSet → Option StrSet
unfolding push_all
unack t zero stack visited boundary = none
unack t (suc n) [] visited boundary = some boundary
unack t (suc n) (curr ∷ stack) visited boundary = elim (Set.contains curr visited) [
  | true ↦ unack t n stack visited boundary
  | false ↦
      unack t n (push_all (next_of t curr) stack) (Set.insert curr visited)
        (Set.remove curr boundary)
]

unfoldable pub ack_leaf : Graph → Text → StrSet → Option StrSet
unfolding unack pending
ack_leaf t v boundary =
    if not (contains_key v t)
    then some boundary
    else elim (unack t (suc (suc (pending t []))) (v ∷ []) [] boundary) [
      | none ↦ none
      | some b ↦ some (Set.insert v b)
    ]

unfoldable pub ack_leaves : Graph → List Text → StrSet → Option StrSet
unfolding ack_leaf
ack_leaves t [] boundary = some boundary
ack_leaves t (v ∷ vs) boundary = elim (ack_leaf t v boundary) [
  | none ↦ none
  | some b ↦ ack_leaves t vs b
]

-- A difference of two `u64`, which wraps around.
abbrev pub wrapping_sub : ℕ → ℕ → ℕ
wrapping_sub a b = (a + 2 ^ 64 - b) % 2 ^ 64

module _ (pc : PrunableCrdt) (weighted : ℕ → ℕ → ℕ) where
  abbrev pub State : Type 0
  State = AntimatterCrdt pc

  -- One message to each of the connections.
  unfoldable pub send_each : (Text → Message) → List Text → State → State
  send_each message [] s = s
  send_each message (c ∷ cs) s = send_each message cs (send pc (message c) s)

  -- The connections that are told of a full acknowledgement.
  unfoldable pub told : Option Text → ℕ → Map ConnectionState → List Text
  told ignoring_conn seq [] = []
  told ignoring_conn seq ((c, cc) ∷ conns) =
      let rest = told ignoring_conn seq conns in
      if not (opt_str_eq (some c) ignoring_conn) && leb cc.seq seq then c ∷ rest else rest

  -- The versions are acknowledged, and what they make prunable is pruned.
  unfoldable pub settle : Option StrSet → State → Option State
  unfolding prune
  settle none s = none
  settle (some boundary) s = elim (prune pc false (record s { acked_boundary = boundary })) [
    | none ↦ none
    | some (s', _) ↦ some s'
  ]

  abbrev pub cancel : Text → AckmeState → State → State
  cancel ackme m s = record s { ackmes = insert ackme (record m { cancelled = true }) s.ackmes }

  unfoldable pub full_ack : Text → Option Text → AckmeState → State → Option State
  unfolding send_each told ack_leaves settle
  full_ack ackme ignoring_conn m s =
      let message : Text → Message =
        λ c. Message.ack (codes "global") none (some ackme) (some m.versions) c false in
      settle (ack_leaves s.t (keys m.versions) s.acked_boundary)
        (send_each message (told ignoring_conn m.seq s.conns) (cancel ackme m s))

  unfoldable pub add_full_ack_leaves : Text → Option Text → State → Option State
  unfolding full_ack
  add_full_ack_leaves ackme ignoring_conn s = elim (lookup ackme s.ackmes) [
    | none ↦ some s
    | some m ↦ if m.cancelled then some s else full_ack ackme ignoring_conn m s
  ]

  -- The acknowledgement that goes back to where the request came from, or the full one.
  unfoldable pub answer_ackme : Text → AckmeState → Option Text → State → Option State
  unfolding add_full_ack_leaves
  answer_ackme ackme m none s = add_full_ack_leaves ackme none s
  answer_ackme ackme m (some conn) s = some (
      if contains_key conn s.conns
      then send pc (Message.ack (codes "local") none (some ackme) (some m.versions) conn false) s
      else s)

  -- The time of the answer, and the estimate that it gives.
  abbrev pub note_time : Text → AckmeState → ℕ → State → State
  note_time ackme m now s = record s {
    ackmes = insert ackme (record m { time2 = some now }) s.ackmes;
    ackme_time_est_1 =
        if ltb 0 m.orig_count
        then weighted (wrapping_sub now m.time) s.ackme_time_est_1
        else s.ackme_time_est_1;
  }

  unfoldable pub check_ackme_count : Text → ℕ → State → Option State
  unfolding answer_ackme
  check_ackme_count ackme now s = elim (lookup ackme s.ackmes) [
    | none ↦ some s
    | some m ↦
        if (m.count == 0) && not m.cancelled
        then answer_ackme ackme m m.origin (note_time ackme m now s)
        else some s
  ]

  -- A request that is known, or a new one.
  unfoldable pub process_request :
      Option AckmeState → Text → Map Bool → Option Text → ℕ → State → Option State
  unfolding check_ackme_count generate_seq
  process_request (some m) ackme versions conn now s =
      if ltb 0 m.count
      then check_ackme_count ackme now
          (record s { ackmes = insert ackme (record m { count = m.count - 1 }) s.ackmes })
      else some s
  process_request none ackme versions conn now s =
      let (s', seq) = generate_seq pc s in
      let m : AckmeState = record {
        id = ackme;
        origin = conn;
        count = length s.conns - 1;
        versions = versions;
        seq = seq;
        time = now;
        time2 = none;
        orig_count = length s.conns;
        real_ackme = false;
        key = ackme;
        cancelled = false;
      } in
      check_ackme_count ackme now (record s' { ackmes = insert ackme m s'.ackmes })

  unfoldable pub process_ackme : Text → Map Bool → Option Text → ℕ → State → Option State
  unfolding process_request
  process_ackme ackme versions conn now s =
      process_request (lookup ackme s.ackmes) ackme versions conn now s

  -- The state of a new request of this peer.
  abbrev pub own_ackme : Text → ℕ → ℕ → State → AckmeState
  own_ackme id seq now s = record {
    id = id;
    origin = none;
    count = length s.conns;
    versions = s.current_version;
    seq = seq;
    time = now;
    time2 = none;
    orig_count = length s.conns;
    real_ackme = true;
    key = s.id ++ (b':' ∷ id);
    cancelled = false;
  }

  unfoldable pub ackme : ℕ → State → State × Text
  unfolding generate_random_id generate_seq send_each
  ackme now s =
      let (s1, id) = generate_random_id pc s in
      let (s2, seq) = generate_seq pc s1 in
      let s3 = record s2 { ackmes = insert id (own_ackme id seq now s2) s2.ackmes } in
      let message : Text → Message = λ c. Message.update [] s3.current_version [] c (some id) in
      (send_each message (keys s3.conns) s3, id)

  -- The announcement of a version, behind the update of the own state.
  unfoldable pub announce : Text → ℕ → State → State
  unfolding ackme send_each
  announce version now s =
      if is_empty s.conns
      then s
      else (let (s', id) = ackme now s in
          let message : Text → Message =
            λ c. Message.update version s'.current_version [] c (some id) in
          send_each message (keys s'.conns) s')

  unfoldable pub update : List Patch → ℕ → State → State × Text
  unfolding generate_random_id add_version announce
  update patches now s =
      let (s1, version) = generate_random_id pc s in
      let (s2, _) = add_version pc version s1.current_version patches s1 in
      (announce version now s2, version)

  unfoldable pub ackme_timeout : Text → ℕ → State → Option State
  unfolding prune
  ackme_timeout id now s = elim (lookup id s.ackmes) [
    | none ↦ some s
    | some m ↦
        if m.cancelled
        then some s
        else if ltb 0 m.count && ltb s.ackme_current_wait_time (wrapping_sub now m.time)
        then elim (prune pc false (cancel id m s)) [ none ↦ none | some (s', _) ↦ some s' ]
        else some s
  ]

  unfoldable pub add_fissures : List Fissure → State → State
  add_fissures [] s = s
  add_fissures (f ∷ fs) s =
      add_fissures fs (record s { fissures = insert (fissure_key f.a f.b f.conn) f s.fissures })

  unfoldable pub add_versions : List Version → State → State
  unfolding add_version
  add_versions [] s = s
  add_versions (v ∷ vs) s = add_versions vs (add_version pc v.version v.parents v.patches s).0

  -- The acknowledgement in an update, and in an `Ack`.
  unfoldable pub receive_ackme : Option Text → Map Bool → ℕ → State → Option State
  unfolding process_ackme
  receive_ackme none versions now s = some s
  receive_ackme (some id) versions now s = process_ackme id versions none now s

  unfoldable pub receive_ack :
      Text → Option Text → Option (Map Bool) → Text → ℕ → State → Option State
  unfolding process_ackme add_full_ack_leaves
  receive_ack seen none versions conn now s = some s
  receive_ack seen (some id) none conn now s = some s
  receive_ack seen (some id) (some versions) conn now s =
      if str_eq seen (codes "local")
      then process_ackme id versions (some conn) now s
      else if str_eq seen (codes "global")
      then add_full_ack_leaves id (some conn) s
      else some s

  abbrev pub given : Option (List Fissure) → List Fissure
  given none = []
  given (some fs) = fs

  abbrev pub with_patches : List Patch → Option State → Option (State × List Patch)
  with_patches patches none = none
  with_patches patches (some s) = some (s, patches)

  unfoldable pub receive : Message → ℕ → State → Option (State × List Patch)
  unfolding generate_seq add_fissures add_versions add_version receive_ackme receive_ack Set.insert
      Set.remove
  receive (Message.subscribe _ conn _ _) now s = some (
    send pc (Message.welcome [] (values s.fissures) s.current_version (some s.id) conn)
        (record s { proto_conns = Set.insert conn s.proto_conns }),
    [],
  )
  receive (Message.welcome versions fissures _ _ conn) now s =
      let s1 = record s { proto_conns = Set.remove conn s.proto_conns } in
      let (s2, seq) = generate_seq pc s1 in
      let s3 = record s2 { conns = insert conn (record { peer = none; seq = seq }) s2.conns } in
      some (add_versions versions (add_fissures fissures s3), [])
  receive (Message.update version parents patches _ id) now s =
      let (s', rebased) = add_version pc version parents patches s in
      with_patches rebased (receive_ackme id parents now s')
  receive (Message.ack seen _ id versions conn _) now s =
      with_patches [] (receive_ack seen id versions conn now s)
  receive (Message.fissure none fissures _) now s = some (add_fissures (given fissures) s, [])
  receive (Message.fissure (some f) fissures _) now s =
      some (add_fissures (given fissures) (add_fissures (f ∷ []) s), [])
  receive (Message.ackme _ _ _) now s = some (s, [])
  receive (Message.unsubscribe _) now s = some (s, [])
