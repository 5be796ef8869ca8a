-- ===== src/Antimatter/Examples.antt =====
-- A small version graph and a peer with one connection (core/src/antimatter).
use braid_rs.Prelude.{
  ℕ, ◌≡◌, refl, Bool, true, false, List, [], ◌∷◌, ◌++◌, map, Option, none, some, Text, Map, lookup,
  insert, remove, all, keys, contains_key, ◌↔◌, str_eq, eq_iff, str_eq_self, Bool-cases, inl, inr,
  arith, if◌then◌else◌,
}
use braid_rs.Prelude.Set
use braid_rs.Prelude.Chars.{codes}
use braid_rs.Prelude.Decimal.{show}
use braid_rs.Prelude.Json.{Value}
use braid_rs.Antimatter.Messages.{Patch, Message}
use braid_rs.Antimatter.Search.{Graph, found, ancestors, descendants, next_of}
use braid_rs.Antimatter.Search.Walk.{Has, Reach}
use braid_rs.Antimatter.Search.Exact.{Exact, ancestors-Exact}
use braid_rs.Antimatter.Search.Children.{descendants_reverse}
use braid_rs.Antimatter.Peer.{
  PrunableCrdt, AntimatterCrdt, generate_random_id, generate_seq, add_version, apply_patches,
}
use braid_rs.Antimatter.Peer.Frontier.{IsFrontier, add_version-IsFrontier}
use braid_rs.Antimatter.Bubble.{Bubble}
use braid_rs.Antimatter.Prune.{new_version, apply_bubbles, prune}
use braid_rs.Antimatter.Prune.Versions.{IsWithin, apply_bubbles-versions}
use braid_rs.Antimatter.Prune.Ends.{Pruned, prune_returns}
use braid_rs.Antimatter.Ackme.{update, receive, add_full_ack_leaves}
use braid_rs.Antimatter.Ackme.Ends.{add_full_ack_leaves_once}
use braid_rs.Antimatter.Ackme.Receive.{rebased, receive_returns}
use braid_rs.Antimatter.Ackme.Sends.{announcement, update-sent}

abbrev a : Text
a = codes "a"

abbrev b : Text
b = codes "b"

-- `a` and its child `b`.
abbrev chain : Graph
chain = (a, []) ∷ (b, a ∷ []) ∷ []

abbrev ask : Text → Map Bool
ask v = (v, true) ∷ []

ancestors_run : ancestors chain (ask b) false ≡ found ((b, true) ∷ (a, true) ∷ [])
unfolding ancestors lookup str_eq insert
ancestors_run = refl

ancestors-Exact_example : Exact chain chain false (ask b) (ancestors chain (ask b) false)
ancestors-Exact_example = ancestors-Exact chain (ask b) false

descendants_reverse_example :
    (r : Map Bool) × (descendants chain (ask a) true ≡ found r)
    × ((w : Text) → Has w r ↔ ((v : Text) × Has v (ask a) × Reach chain chain true w v))
unfolding lookup str_eq
descendants_reverse_example = descendants_reverse chain (ask a) (refl, (refl, tt))

-- A CRDT that keeps its patches, newest first.
abbrev log : PrunableCrdt
log = record {
  Crdt = List Patch;
  apply_patch = λ p ps. p ∷ ps;
  prune = λ v ps. ps;
  get_next_seq = λ ps. 0;
  generate_braid = λ ps known. [];
}

abbrev patch : Patch
patch = record { range = codes "[0]"; content = Value.null }

-- The peer `ann`, with one connection and the versions of the chain.
abbrev ann : AntimatterCrdt log
ann = record {
  id = codes "ann";
  crdt = [];
  conns = (codes "c", record { peer = none; seq = 1 }) ∷ [];
  proto_conns = [];
  conn_count = 1;
  t = chain;
  current_version = ask b;
  fissures = [];
  acked_boundary = [];
  ackmes = [];
  version_groups = [];
  ackme_map = [];
  ackme_time_est_1 = 1000;
  ackme_time_est_2 = 1000;
  ackme_current_wait_time = 2000;
  sent = [];
}

-- The versions of the chain, and the parents of one.
chain-next : (c w : Text) → Set.contains w (next_of chain c) ≡ true → (w ≡ a) × (b ≡ c)
unfolding lookup Set.contains
chain-next c w h = ground (arith, eq_iff a w, eq_iff b c)

abbrev d : Text
d = codes "d"

apart : str_eq a b ≡ false
unfolding str_eq
apart = refl

ann-IsFrontier : IsFrontier log ann
unfolding lookup Set.contains
ann-IsFrontier = record {
  known = λ w h. ground arith;
  childless = λ w c h. elim (Bool-cases (Set.contains w (next_of chain c))) [
    | inr no_child ↦ no_child
    | inl child ↦ absurd (ground (arith, chain-next c w child, eq_iff b w))
  ];
  complete = λ w h. elim (Bool-cases (str_eq a w)) [
    | inl first ↦ inr (b, ground (arith, eq_iff a w, str_eq_self b, str_eq_self a, apart))
    | inr other ↦ inl (ground arith)
  ];
}

-- A version that arrives in order.
add_version-IsFrontier_example :
    IsFrontier log (add_version log d (ask b) (patch ∷ []) ann).0
    × ((add_version log d (ask b) (patch ∷ []) ann).1
        ≡ (if contains_key d chain then [] else patch ∷ []))
    × ((add_version log d (ask b) (patch ∷ []) ann).0.crdt
        ≡ (if contains_key d chain then [] else apply_patches log (patch ∷ []) []))
unfolding lookup str_eq apply_patches
add_version-IsFrontier_example =
    add_version-IsFrontier log d (ask b) (patch ∷ []) ann ann-IsFrontier refl
      (λ c. ground (arith, chain-next c d))

prune_returns_example :
    (s' : AntimatterCrdt log) × (answer : Bool) × (prune log false ann ≡ some (s', answer))
    × Pruned log false ann s'
prune_returns_example = prune_returns log false ann

abbrev weighted : ℕ → ℕ → ℕ
weighted elapsed estimate = estimate

abbrev news : Message
news = Message.update d (ask b) (patch ∷ []) (codes "c") (some (codes "k"))

receive_returns_example :
    (s' : AntimatterCrdt log) × (receive log weighted news 7 ann
      ≡ some (s', rebased log weighted news ann))
receive_returns_example = receive_returns log weighted news 7 ann

add_full_ack_leaves_once_example :
    (s' : AntimatterCrdt log) × (add_full_ack_leaves log weighted (codes "k") none ann ≡ some s')
    × ((other : Option Text) → add_full_ack_leaves log weighted (codes "k") other s' ≡ some s')
add_full_ack_leaves_once_example = add_full_ack_leaves_once log weighted (codes "k") none ann

update-sent_example :
    let version = (generate_random_id log ann).1 in
    let frontier : Map Bool = (version, true) ∷ [] in
    ((update log weighted (patch ∷ []) 7 ann).1 ≡ version)
    × ((update log weighted (patch ∷ []) 7 ann).0.crdt ≡ apply_patches log (patch ∷ []) [])
    × ((id : Text) × ((update log weighted (patch ∷ []) 7 ann).0.sent
          ≡ ([] ++ map (announcement log weighted [] frontier id) (codes "c" ∷ []))
            ++ map (announcement log weighted version frontier id) (codes "c" ∷ [])))
unfolding lookup str_eq generate_random_id generate_seq show
update-sent_example = update-sent log weighted (patch ∷ []) 7 ann refl refl

-- The bubble of the whole chain.
abbrev whole : Map Bubble
whole = (a, (b, a)) ∷ (b, (b, a)) ∷ []

apply_bubbles-versions_example :
    ((w : Text)
      → contains_key w (apply_bubbles log whole ann).t
        ≡ Set.contains w (map (new_version whole) (keys chain)))
    × IsWithin (apply_bubbles log whole ann).current_version (apply_bubbles log whole ann).t
apply_bubbles-versions_example = apply_bubbles-versions log whole ann ann-IsFrontier.known

-- When the whole chain is acknowledged, pruning leaves `b` with the parent `a`, which does not exist
-- any more.
pruned_dangles :
    prune log false (record ann { acked_boundary = b ∷ [] })
    ≡ some (
      record ann {
        t = (b, a ∷ []) ∷ [];
        acked_boundary = b ∷ [];
        version_groups = (b, a ∷ []) ∷ [];
      },
      false,
    )
unfolding prune insert lookup str_eq all remove
pruned_dangles = refl
