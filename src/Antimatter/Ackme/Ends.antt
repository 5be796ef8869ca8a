-- ===== src/Antimatter/Ackme/Ends.antt =====
-- The handlers of `AntimatterCrdt` end, and a full acknowledgement is given once
-- (core/src/antimatter/antimatter.rs).
use braid_rs.Prelude.{
  ℕ, zero, suc, ◌+◌, ◌-◌, ◌<◌, ◌≡◌, refl, ◌∙◌, ap, Bool, true, false, not, ◌&&◌, List, [], ◌∷◌,
  Option, none, some, Text, Map, lookup, insert, contains_key, keys, length, StrSet, arith,
  Bool-cases, Option-cases, inl, inr, if◌then◌else◌, str_eq_self, lookup-insert, ◌==◌, ltb,
}
use braid_rs.Prelude.Set
use braid_rs.Prelude.Chars.{codes}
use braid_rs.Antimatter.Messages.{Message, AckmeState}
use braid_rs.Antimatter.Search.{Graph, next_of}
use braid_rs.Antimatter.Bubble.{push_all, pending}
use braid_rs.Antimatter.Bubble.Ends.{push_all-length, pending-insert}
use braid_rs.Antimatter.Peer.{PrunableCrdt, AntimatterCrdt, send}
use braid_rs.Antimatter.Prune.Ends.{Returns, prune_returns}
use braid_rs.Antimatter.Ackme.{
  unack, ack_leaf, ack_leaves, send_each, told, settle, cancel, full_ack, add_full_ack_leaves,
  answer_ackme, note_time, check_ackme_count, process_request,
}

unack-Returns :
    (t : Graph) (n : ℕ) (stack : List Text) (visited boundary : StrSet)
    → length stack + pending t visited < n
    → Returns (unack t n stack visited boundary)
unfolding unack
unack-Returns t zero stack visited boundary h = absurd (omega arith)
unack-Returns t (suc n) [] visited boundary h = (boundary, refl)
unack-Returns t (suc n) (curr ∷ stack) visited boundary h =
    branch (Set.contains curr visited) refl (unack-Returns t n)
  where
    branch :
        (old : Bool)
        → Set.contains curr visited ≡ old
        → ((stack : List Text) (visited boundary : StrSet)
            → length stack + pending t visited < n
            → Returns (unack t n stack visited boundary))
        → Returns (elim old [
          | true ↦ unack t n stack visited boundary
          | false ↦
              unack t n
                (push_all (next_of t curr) stack)
                (Set.insert curr visited)
                (Set.remove curr boundary)
        ])
    branch true e ih = ih stack visited boundary (omega arith)
    branch false new ih =
        ih (push_all (next_of t curr) stack) (Set.insert curr visited) (Set.remove curr boundary) (
          omega
            (arith, h, push_all-length (next_of t curr) stack, pending-insert t curr visited new))

ack_leaf-Returns : (t : Graph) (v : Text) (boundary : StrSet) → Returns (ack_leaf t v boundary)
unfolding ack_leaf
ack_leaf-Returns t v boundary =
    let (b, e) = unack-Returns t (suc (suc (pending t []))) (v ∷ []) [] boundary (omega arith) in
    branch (not (contains_key v t)) b e
  where
    branch :
        {o : Option StrSet} (missing : Bool) (b : StrSet)
        → o ≡ some b
        → Returns (
            if missing
            then some boundary
            else elim o [ none ↦ none | some b ↦ some (Set.insert v b) ])
    branch true b e = (boundary, refl)
    branch false b e = (Set.insert v b, ground arith)

ack_leaves-Returns :
    (t : Graph) (vs : List Text) (boundary : StrSet) → Returns (ack_leaves t vs boundary)
unfolding ack_leaves
ack_leaves-Returns t [] boundary = (boundary, refl)
ack_leaves-Returns t (v ∷ vs) boundary =
    let (b, e) = ack_leaf-Returns t v boundary in
    let (b', e') = ack_leaves-Returns t vs b in (b', ground (arith, e, e'))

module _ (pc : PrunableCrdt) (weighted : ℕ → ℕ → ℕ) where
  abbrev State : Type 0
  State = AntimatterCrdt pc

  send_each-ackmes :
      (message : Text → Message) (cs : List Text) (s : State)
      → (send_each pc weighted message cs s).ackmes ≡ s.ackmes
  unfolding send_each
  send_each-ackmes message [] s = refl
  send_each-ackmes message (c ∷ cs) s = send_each-ackmes message cs (send pc (message c) s)

  settle_returns :
      (boundary : StrSet) (s : State)
      → (s' : State) × (settle pc weighted (some boundary) s ≡ some s') × (s'.ackmes ≡ s.ackmes)
  unfolding settle
  settle_returns boundary s =
      let (s', answer, e, (k, _)) =
        prune_returns pc false (record s { acked_boundary = boundary }) in
      (s', ground (arith, e), k.ackmes)

  full_ack_returns :
      (ackme : Text) (ignoring : Option Text) (m : AckmeState) (s : State)
      → (s' : State) × (full_ack pc weighted ackme ignoring m s ≡ some s')
        × (lookup ackme s'.ackmes ≡ some (record m { cancelled = true }))
  unfolding full_ack
  full_ack_returns ackme ignoring m s =
      let message : Text → Message =
        λ c. Message.ack (codes "global") none (some ackme) (some m.versions) c false in
      let cs = told pc weighted ignoring m.seq s.conns in
      let s1 = cancel pc weighted ackme m s in
      let (boundary, e) = ack_leaves-Returns s.t (keys m.versions) s.acked_boundary in
      let (s', e', kept) = settle_returns boundary (send_each pc weighted message cs s1) in
      (
        s',
        ap (λ o. settle pc weighted o (send_each pc weighted message cs s1)) e ∙ e',
        ap (lookup ackme) (kept ∙ send_each-ackmes message cs s1)
            ∙ ground (
              arith,
              lookup-insert ackme ackme (record m { cancelled = true }) s.ackmes,
              str_eq_self ackme,
            ),
      )

  -- The result for a request that is unknown, cancelled or neither.
  full_ack_known :
      (ackme : Text) (ignoring : Option Text) (s : State) (o : Option AckmeState)
      → lookup ackme s.ackmes ≡ o
      → (s' : State) × (elim o as (λ _. Option State) [
        | none ↦ some s
        | some m ↦ if m.cancelled then some s else full_ack pc weighted ackme ignoring m s
      ]
          ≡ some s')
        × ((other : Option Text) → add_full_ack_leaves pc weighted ackme other s' ≡ some s')
  unfolding add_full_ack_leaves
  full_ack_known ackme ignoring s none e = (s, refl, λ other. ground arith)
  full_ack_known ackme ignoring s (some m) e = elim (Bool-cases m.cancelled) [
    | inl old ↦ (s, ground arith, λ other. ground arith)
    | inr new ↦
        let (s', made, cancelled) = full_ack_returns ackme ignoring m s in
        (s', ground (arith, made), λ other. ground arith)
  ]

  -- A full acknowledgement always returns, and is given once: afterwards a further call for the same
  -- request changes nothing and sends nothing, whatever connection it ignores.
  pub add_full_ack_leaves_once :
      (ackme : Text) (ignoring : Option Text) (s : State)
      → (s' : State) × (add_full_ack_leaves pc weighted ackme ignoring s ≡ some s')
        × ((other : Option Text) → add_full_ack_leaves pc weighted ackme other s' ≡ some s')
  unfolding add_full_ack_leaves
  add_full_ack_leaves_once ackme ignoring s =
      full_ack_known ackme ignoring s (lookup ackme s.ackmes) refl

  answer_ackme-Returns :
      (ackme : Text) (m : AckmeState) (origin : Option Text) (s : State)
      → Returns (answer_ackme pc weighted ackme m origin s)
  unfolding answer_ackme
  answer_ackme-Returns ackme m none s =
      let (s', e, _) = add_full_ack_leaves_once ackme none s in (s', e)
  answer_ackme-Returns ackme m (some conn) s = (_, refl)

  check_ackme_count-Returns :
      (ackme : Text) (now : ℕ) (s : State) → Returns (check_ackme_count pc weighted ackme now s)
  unfolding check_ackme_count
  check_ackme_count-Returns ackme now s = elim (Option-cases (lookup ackme s.ackmes)) [
    | inl absent ↦ (s, ground arith)
    | inr (m, e) ↦ elim (Bool-cases ((m.count == 0) && not m.cancelled)) [
      | inr waits ↦ (s, ground arith)
      | inl full ↦
          let (s', made) =
            answer_ackme-Returns ackme m m.origin (note_time pc weighted ackme m now s) in
          (s', ground (arith, made))
    ]
  ]

  pub process_request-Returns :
      (o : Option AckmeState) (ackme : Text) (versions : Map Bool) (conn : Option Text) (now : ℕ)
      (s : State)
      → Returns (process_request pc weighted o ackme versions conn now s)
  unfolding process_request
  process_request-Returns (some m) ackme versions conn now s = elim (Bool-cases (ltb 0 m.count)) [
    | inr none_left ↦ (s, ground arith)
    | inl left ↦
        let s1 = record s { ackmes = insert ackme (record m { count = m.count - 1 }) s.ackmes } in
        let (s', e) = check_ackme_count-Returns ackme now s1 in (s', ground (arith, e))
  ]
  process_request-Returns none ackme versions conn now s = check_ackme_count-Returns ackme now _
