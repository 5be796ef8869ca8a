-- ===== src/Antimatter/Ackme/Receive.antt =====
-- Every message is handled (`receive` of core/src/antimatter/antimatter.rs).
use braid_rs.Prelude.{
  ℕ, ◌≡◌, refl, ◌∙◌, ap, Bool, false, ◌&&◌, List, [], Option, none, some, Text, Map, lookup,
  contains_key, arith, Bool-cases, Option-cases, inl, inr, if◌then◌else◌, str_eq, ltb,
}
use braid_rs.Prelude.Chars.{codes}
use braid_rs.Antimatter.Messages.{Patch, Message}
use braid_rs.Antimatter.Peer.{PrunableCrdt, AntimatterCrdt, add_version}
use braid_rs.Antimatter.Prune.Ends.{Returns, prune_returns}
use braid_rs.Antimatter.Ackme.{
  cancel, process_ackme, ackme_timeout, receive_ackme, receive_ack, with_patches, receive,
  wrapping_sub,
}
use braid_rs.Antimatter.Ackme.Ends.{process_request-Returns, add_full_ack_leaves_once}

module _ (pc : PrunableCrdt) (weighted : ℕ → ℕ → ℕ) where
  abbrev State : Type 0
  State = AntimatterCrdt pc

  receive_ackme-Returns :
      (ackme : Option Text) (versions : Map Bool) (now : ℕ) (s : State)
      → Returns (receive_ackme pc weighted ackme versions now s)
  unfolding receive_ackme process_ackme
  receive_ackme-Returns none versions now s = (s, refl)
  receive_ackme-Returns (some id) versions now s =
      process_request-Returns pc weighted (lookup id s.ackmes) id versions none now s

  receive_ack-Returns :
      (seen : Text) (ackme : Option Text) (versions : Option (Map Bool)) (conn : Text) (now : ℕ)
      (s : State)
      → Returns (receive_ack pc weighted seen ackme versions conn now s)
  unfolding receive_ack process_ackme
  receive_ack-Returns seen none versions conn now s = (s, refl)
  receive_ack-Returns seen (some id) none conn now s = (s, refl)
  receive_ack-Returns seen (some id) (some versions) conn now s =
      let (s1, local) =
        process_request-Returns pc weighted (lookup id s.ackmes) id versions (some conn) now s in
      let (s2, global, _) = add_full_ack_leaves_once pc weighted id (some conn) s in
      elim (Bool-cases (str_eq seen (codes "local"))) [
        | inl is_local ↦ (s1, ground (arith, local))
        | inr not_local ↦ elim (Bool-cases (str_eq seen (codes "global"))) [
          | inl is_global ↦ (s2, ground (arith, global))
          | inr other ↦ (s, ground arith)
        ]
      ]

  with_patches-Returns :
      (patches : List Patch) (o : Option State)
      → Returns o
      → (s' : State) × (with_patches pc weighted patches o ≡ some (s', patches))
  with_patches-Returns patches o (s', e) = (s', ap (with_patches pc weighted patches) e)

  -- The patches that the answer to a message carries: those of an update that is new.
  abbrev pub rebased : Message → State → List Patch
  rebased (Message.update version parents patches _ _) s =
      if contains_key version s.t then [] else patches
  rebased _ s = []

  add_version-patches :
      (version : Text) (parents : Map Bool) (patches : List Patch) (s : State)
      → (add_version pc version parents patches s).1
        ≡ (if contains_key version s.t then [] else patches)
  unfolding add_version
  add_version-patches version parents patches s = ground arith

  -- Every message is handled: no state makes a search of the handler run for ever, and the patches
  -- that it gives are those of an update whose version is new to the graph, and none otherwise.
  pub receive_returns :
      (message : Message) (now : ℕ) (s : State)
      → (s' : State) × (receive pc weighted message now s ≡ some (s', rebased message s))
  unfolding receive add_version
  receive_returns (Message.subscribe _ conn _ _) now s = (_, refl)
  receive_returns (Message.welcome versions fissures _ _ conn) now s = (_, refl)
  receive_returns (Message.update version parents patches _ id) now s =
      let (s', e) =
        with_patches-Returns (add_version pc version parents patches s).1 _
          (receive_ackme-Returns id parents now (add_version pc version parents patches s).0) in
      (s', e ∙ ap (λ ps. some (s', ps)) (add_version-patches version parents patches s))
  receive_returns (Message.ack seen _ id versions conn _) now s =
      with_patches-Returns [] _ (receive_ack-Returns seen id versions conn now s)
  receive_returns (Message.fissure none fissures _) now s = (_, refl)
  receive_returns (Message.fissure (some f) fissures _) now s = (_, refl)
  receive_returns (Message.ackme _ _ _) now s = (_, refl)
  receive_returns (Message.unsubscribe _) now s = (_, refl)

  ackme_timeout-Returns :
      (id : Text) (now : ℕ) (s : State) → Returns (ackme_timeout pc weighted id now s)
  unfolding ackme_timeout
  ackme_timeout-Returns id now s = elim (Option-cases (lookup id s.ackmes)) [
    | inl absent ↦ (s, ground arith)
    | inr (m, e) ↦
        let (s', answer, pruned, (k, _)) = prune_returns pc false (cancel pc weighted id m s) in
        elim (Bool-cases m.cancelled) [
          | inl old ↦ (s, ground arith)
          | inr new ↦
              elim (Bool-cases
                (ltb 0 m.count && ltb s.ackme_current_wait_time (wrapping_sub now m.time))) [
                  | inl late ↦ (s', ground (arith, pruned))
                  | inr early ↦ (s, ground arith)
                ]
        ]
  ]
