-- ===== src/Antimatter/Messages.antt =====
-- The messages between peers (core/src/antimatter/messages.rs) and the state that a peer keeps of
-- its connections and acknowledgements (core/src/antimatter/state.rs). `HashMap<String, bool>` is
-- the map that the source has.
use braid_rs.Prelude.{ℕ, Bool, List, Option, Text, Map}
use braid_rs.Prelude.Json.{Value}

pub record Fissure : Type 0 where
  pub a : Text
  pub b : Text
  pub conn : Text
  pub versions : Map Bool
  pub time : ℕ
  pub t : Option ℕ

pub record Patch : Type 0 where
  pub range : Text
  pub content : Value

pub record Version : Type 0 where
  pub version : Text
  pub parents : Map Bool
  pub patches : List Patch
  pub sort_keys : Option (Map Text)

pub data Message : Type 0 where
  -- peer, conn, parents, protocol_version
  subscribe : Text → Text → Map Bool → Option ℕ → Message
  -- version, parents, patches, conn, ackme
  update : Text → Map Bool → List Patch → Text → Option Text → Message
  -- seen, version, ackme, versions, conn, unsubscribe
  ack : Text → Option Text → Option Text → Option (Map Bool) → Text → Bool → Message
  -- fissure, fissures, conn
  fissure : Option Fissure → Option (List Fissure) → Text → Message
  -- versions, fissures, parents, peer, conn
  welcome : List Version → List Fissure → Map Bool → Option Text → Text → Message
  -- ackme, versions, conn
  ackme : Text → Map Bool → Text → Message
  unsubscribe : Text → Message

pub record ConnectionState : Type 0 where
  pub peer : Option Text
  pub seq : ℕ

pub record AckmeState : Type 0 where
  pub id : Text
  pub origin : Option Text
  pub count : ℕ
  pub versions : Map Bool
  pub seq : ℕ
  pub time : ℕ
  pub time2 : Option ℕ
  pub orig_count : ℕ
  pub real_ackme : Bool
  pub key : Text
  pub cancelled : Bool
