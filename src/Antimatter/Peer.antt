-- ===== src/Antimatter/Peer.antt =====
-- `AntimatterCrdt` (core/src/antimatter/antimatter.rs): its state, its connections and the versions
-- that it adds. The CRDT below it is the trait `PrunableCrdt` (core/src/antimatter/crdt_trait.rs).
-- The messages that the callback `send_cb` was given are part of the state, oldest first. The
-- readings of the clock in one call are one argument.
pub mod Frontier
use braid_rs.Prelude.{
  ℕ, suc, ◌+◌, ◌%◌, ◌^◌, Bool, true, false, ◌&&◌, List, [], ◌∷◌, ◌++◌, Option, none, some, Text,
  Map, lookup, insert, remove, contains_key, keys, values, unwrap_or, length, StrSet, if◌then◌else◌,
}
use braid_rs.Prelude.Set
use braid_rs.Prelude.Chars.{codes}
use braid_rs.Prelude.Decimal.{show}
use braid_rs.Antimatter.Messages
use braid_rs.Antimatter.Messages.{Fissure, Patch, Message, ConnectionState, AckmeState}
use braid_rs.Antimatter.Search.{Graph, next_of}

-- The trait `PrunableCrdt`.
pub record PrunableCrdt : Type 1 where
  pub Crdt : Type 0
  pub apply_patch : Patch → Crdt → Crdt
  pub prune : Text → Crdt → Crdt
  pub get_next_seq : Crdt → ℕ
  pub generate_braid : Crdt → Map Bool → List (Text × Map Bool × List Patch)

-- The key of a fissure.
abbrev pub fissure_key : Text → Text → Text → Text
fissure_key a b conn = a ++ (b':' ∷ (b ++ (b':' ∷ conn)))

unfoldable pub remove_all {ℓ} : {V : Type ℓ} → List Text → Map V → Map V
remove_all [] m = m
remove_all (k ∷ ks) m = remove_all ks (remove k m)

module _ (pc : PrunableCrdt) where
  pub record AntimatterCrdt : Type 0 where
    pub id : Text
    pub crdt : pc.Crdt
    pub conns : Map ConnectionState
    pub proto_conns : StrSet
    pub conn_count : ℕ
    pub t : Graph
    pub current_version : Map Bool
    pub fissures : Map Fissure
    pub acked_boundary : StrSet
    pub ackmes : Map AckmeState
    pub version_groups : Map (List Text)
    pub ackme_map : Map (Map Bool)
    pub ackme_time_est_1 : ℕ
    pub ackme_time_est_2 : ℕ
    pub ackme_current_wait_time : ℕ
    -- The calls of `send_cb`.
    pub sent : List Message

  -- `generated` is the random id that is taken if none is given.
  unfoldable pub new : Text → Option Text → pc.Crdt → AntimatterCrdt
  new generated id crdt = record {
    id = unwrap_or id generated;
    crdt = crdt;
    conns = [];
    proto_conns = [];
    conn_count = 0;
    t = [];
    current_version = [];
    fissures = [];
    acked_boundary = [];
    ackmes = [];
    version_groups = [];
    ackme_map = [];
    ackme_time_est_1 = 1000;
    ackme_time_est_2 = 1000;
    ackme_current_wait_time = 2000;
    sent = [];
  }

  abbrev pub send : Message → AntimatterCrdt → AntimatterCrdt
  send m s = record s { sent = s.sent ++ (m ∷ []) }

  -- The counter is a `u64`.
  unfoldable pub generate_seq : AntimatterCrdt → AntimatterCrdt × ℕ
  generate_seq s =
      let count = (s.conn_count + 1) % 2 ^ 64 in (record s { conn_count = count }, count)

  unfoldable pub generate_random_id : AntimatterCrdt → AntimatterCrdt × Text
  unfolding generate_seq
  generate_random_id s = let (s', seq) = generate_seq s in (s', s.id ++ (b'-' ∷ show seq))

  unfoldable pub subscribe : Text → AntimatterCrdt → AntimatterCrdt
  unfolding Set.insert
  subscribe conn s =
      send (Message.subscribe s.id conn s.current_version (some 1))
        (record s { proto_conns = Set.insert conn s.proto_conns })

  unfoldable pub create_fissure : Text → Text → ℕ → AntimatterCrdt → Fissure
  create_fissure peer conn now s = record {
    a = s.id;
    b = peer;
    conn = conn;
    versions = s.current_version;
    time = now;
    t = some s.conn_count;
  }

  -- The fissure that a disconnection leaves behind, if it is asked for and the peer is known.
  abbrev pub leave_fissure : Bool → Option Text → Text → ℕ → AntimatterCrdt → AntimatterCrdt
  leave_fissure false peer conn now s = s
  leave_fissure true none conn now s = s
  leave_fissure true (some peer) conn now s = record s {
    fissures = insert (fissure_key s.id peer conn) (create_fissure peer conn now s) s.fissures;
  }

  unfoldable pub disconnect : Text → Bool → ℕ → AntimatterCrdt → AntimatterCrdt
  unfolding create_fissure
  disconnect conn fissure now s = elim (lookup conn s.conns) [
    | none ↦ s
    | some state ↦
        leave_fissure fissure state.peer conn now (record s { conns = remove conn s.conns })
  ]

  unfoldable pub apply_patches : List Patch → pc.Crdt → pc.Crdt
  apply_patches [] crdt = crdt
  apply_patches (p ∷ ps) crdt = apply_patches ps (pc.apply_patch p crdt)

  -- The group that a version joins: its single parent's, if there is one.
  abbrev pub group_of : Text → List Text → Map (List Text) → List Text
  group_of version [] groups = version ∷ []
  group_of version (p ∷ []) groups = elim (lookup p groups) [
    | none ↦ version ∷ []
    | some group ↦ group ++ (version ∷ [])
  ]
  group_of version (_ ∷ _ ∷ _) groups = version ∷ []

  -- A version that is not in the graph yet.
  unfoldable pub add_new_version : Text → Map Bool → List Patch → AntimatterCrdt → AntimatterCrdt
  unfolding remove_all apply_patches
  add_new_version version parents patches s = record s {
    t = insert version (keys parents) s.t;
    current_version = insert version true (remove_all (keys parents) s.current_version);
    version_groups =
        insert version (group_of version (keys parents) s.version_groups) s.version_groups;
    crdt = apply_patches patches s.crdt;
  }

  unfoldable pub add_version :
      Text → Map Bool → List Patch → AntimatterCrdt → AntimatterCrdt × List Patch
  unfolding add_new_version
  add_version version parents patches s =
      if contains_key version s.t
      then (s, [])
      else (add_new_version version parents patches s, patches)

  -- One round of `get_leaves`.
  unfoldable pub drop_parents : List Text → Graph → Map Bool → Map Bool
  unfolding remove_all
  drop_parents [] t leaves = leaves
  drop_parents (v ∷ vs) t leaves = drop_parents vs t (remove_all (next_of t v) leaves)

  unfoldable pub get_leaves : Map Bool → AntimatterCrdt → Map Bool
  unfolding drop_parents
  get_leaves versions s = drop_parents (keys versions) s.t versions
