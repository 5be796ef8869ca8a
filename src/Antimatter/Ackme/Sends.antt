-- ===== src/Antimatter/Ackme/Sends.antt =====
-- What `update` sends (core/src/antimatter/antimatter.rs).
use braid_rs.Prelude.{
  ℕ, ◌≡◌, refl, ◌∙◌, ap, sym, Bool, true, false, List, [], ◌∷◌, ◌++◌, map, some, Text, Map, lookup,
  insert, remove, contains_key, keys, arith, lookup-remove, str_eq_self, eq_iff, if◌then◌else◌,
}
use mathlib.Core.List.{append-nil, append_assoc}
use braid_rs.Prelude.Set
use braid_rs.Antimatter.Messages.{Patch, Message}
use braid_rs.Antimatter.Bubble.{is_empty}
use braid_rs.Antimatter.Search.Walk.{Has, Among}
use braid_rs.Antimatter.Search.Exact.{Among-keys}
use braid_rs.Antimatter.Peer.{
  PrunableCrdt, AntimatterCrdt, send, generate_seq, generate_random_id, add_new_version,
  add_version, apply_patches, remove_all,
}
use braid_rs.Antimatter.Ackme.{send_each, own_ackme, ackme, announce, update}

remove_all_keys :
    {V : Type 0} (ks : List Text) (m : Map V)
    → ((j : Text) → Has j m → Among j ks)
    → remove_all ks m ≡ []
unfolding remove_all Set.contains lookup
remove_all_keys [] [] h = refl
remove_all_keys [] ((j, w) ∷ m) h = absurd (ground (arith, h j, str_eq_self j))
remove_all_keys (k ∷ ks) m h =
    remove_all_keys ks (remove k m)
      (λ j there. ground (arith, h j, lookup-remove k j m, eq_iff k j))

if_false : {A : Type 0} (b : Bool) (x y : A) → b ≡ false → (if b then x else y) ≡ y
if_false b x y h = rw h

module _ (pc : PrunableCrdt) (weighted : ℕ → ℕ → ℕ) where
  send_each_lem :
      (message : Text → Message) (cs : List Text) (s : AntimatterCrdt pc)
      → send_each pc weighted message cs s ≡ record s { sent = s.sent ++ map message cs }
  unfolding send_each
  send_each_lem message [] s = ap (λ m. record s { sent = m }) (sym (append-nil s.sent))
  send_each_lem message (c ∷ cs) s =
      send_each_lem message cs (send pc (message c) s)
      ∙ ap (λ m. record s { sent = m }) (append_assoc s.sent (message c ∷ []) (map message cs))

  frontier_of_new :
      (version : Text) (patches : List Patch) (s : AntimatterCrdt pc)
      → (add_new_version pc version s.current_version patches s).current_version
        ≡ (version, true) ∷ []
  unfolding add_new_version insert
  frontier_of_new version patches s = ap (insert version true) (
      remove_all_keys (keys s.current_version) s.current_version
        (λ j h. (Among-keys j s.current_version).1 h))

  -- One announcement of a version in a request: the parents are the sender's frontier.
  abbrev pub announcement : Text → Map Bool → Text → Text → Message
  announcement version parents id c = Message.update version parents [] c (some id)

  -- The state in which `ackme` has noted its request.
  abbrev noted : ℕ → AntimatterCrdt pc → AntimatterCrdt pc × Text
  unfolding generate_random_id generate_seq
  noted now s =
      let (s1, id) = generate_random_id pc s in
      let (s2, seq) = generate_seq pc s1 in
      (record s2 { ackmes = insert id (own_ackme pc weighted id seq now s2) s2.ackmes }, id)

  announce_lem :
      (version : Text) (now : ℕ) (s : AntimatterCrdt pc)
      → is_empty s.conns ≡ false
      → let (s3, id) = noted now s in
        announce pc weighted version now s ≡ record s3 {
          sent =
              (s.sent ++ map (announcement [] s.current_version id) (keys s.conns))
              ++ map (announcement version s.current_version id) (keys s.conns);
        }
  unfolding announce ackme noted
  announce_lem version now s some_conns =
      let (s3, id) = noted now s in
      let cs = keys s.conns in
      let first = announcement [] s.current_version id in
      let rest : AntimatterCrdt pc → AntimatterCrdt pc = λ s'.
        send_each pc weighted (announcement version s'.current_version id) (keys s'.conns) s' in
      if_false (is_empty s.conns) s (rest (send_each pc weighted first cs s3)) some_conns
      ∙ ap rest (send_each_lem first cs s3)
      ∙ send_each_lem (announcement version s.current_version id) cs
          (record s3 { sent = s.sent ++ map first cs })

  -- A local update of a peer that has connections, where the random version that it takes is not yet
  -- in the graph. It returns that version, applies its patches to the own CRDT, and sends two messages
  -- to each connection: one that announces the empty version as a child of the new version, and one
  -- that announces the new version with itself as its only parent. None of them carries a patch.
  pub update-sent :
      (patches : List Patch) (now : ℕ) (s : AntimatterCrdt pc)
      → is_empty s.conns ≡ false
      → contains_key (generate_random_id pc s).1 s.t ≡ false
      → let version = (generate_random_id pc s).1 in
        let frontier : Map Bool = (version, true) ∷ [] in
        ((update pc weighted patches now s).1 ≡ version)
        × ((update pc weighted patches now s).0.crdt ≡ apply_patches pc patches s.crdt)
        × ((id : Text) × ((update pc weighted patches now s).0.sent
              ≡ (s.sent ++ map (announcement [] frontier id) (keys s.conns))
                ++ map (announcement version frontier id) (keys s.conns)))
  unfolding update generate_random_id generate_seq add_version add_new_version noted
  update-sent patches now s some_conns fresh =
      let (s1, version) = generate_random_id pc s in
      let s2 = add_new_version pc version s1.current_version patches s1 in
      let (_, id) = noted now s2 in
      let added : (add_version pc version s1.current_version patches s1).0 ≡ s2 =
        ap (λ (r : AntimatterCrdt pc × List Patch). r.0)
          (if_false (contains_key version s.t) (s1, []) (s2, patches) fresh) in
      let announced =
        ap (announce pc weighted version now) added ∙ announce_lem version now s2 some_conns in
      (
        refl,
        ap (λ (x : AntimatterCrdt pc). x.crdt) announced,
        (
          id,
          ap (λ (x : AntimatterCrdt pc). x.sent) announced
              ∙ ap
                  (λ f.
                    (s.sent ++ map (announcement [] f id) (keys s.conns))
                    ++ map (announcement version f id) (keys s.conns))
                  (frontier_of_new version patches s1),
        ),
      )
