-- ===== src/Antimatter/JsonCrdt/Syncs.antt =====
-- What `generate_braid` of the JSON CRDT sends, and what it does at the peer
-- (core/src/antimatter/json_crdt.rs).
use braid_rs.Antimatter.Sequence.Splices.Braids.{braid-placed, mentions}
use braid_rs.Antimatter.Sequence.Splices.Inserts.{insert_of}
use braid_rs.Antimatter.JsonCrdt.Edits.{
  add_version_fresh, add_version_held, digits_no_colon, fits_fresh, grown, split_once_absent,
  to_splices-insert,
}
use braid_rs.Prelude.Chars.{contains_text, split_once_skip, codes}
use braid_rs.Types.Version.{to_string}
use braid_rs.Antimatter.Sequence.{len, SequenceElems, no_next, no_nodes, text}
use braid_rs.Prelude.Json.{Value}
use braid_rs.Prelude.Decimal.{show, parse_unsigned-show}
use braid_rs.Antimatter.Sequence.Splices.{seen}
use braid_rs.Antimatter.Sequence.Bubbles.Merging.{case_either}
use braid_rs.Antimatter.JsonCrdt.Updates.{
  generate_braid, known_ancestors, updates_of, graph_of, sent_to, to_patch, to_patches,
}
use braid_rs.Antimatter.JsonCrdt.{
  JsonCrdt, JsonPatch, add_version, generate_version, parse_range, with_content,
  generate_version_splices, is_ancestor, parse_usize, range_of, to_splice, to_splices, two_parts,
  version_name,
}
use braid_rs.Prelude.{
  ℕ, zero, suc, ◌+◌, ◌<◌, ◌≤◌, ◌^◌, ◌≡◌, refl, ◌∙◌, ap, Bool, true, false, List, [], ◌∷◌, ◌++◌,
  none, some, Text, str_eq, returned, arith, length, take, StrSet, lookup, contains_key, Map, keys,
  str_eq_self,
}
use mathlib.Core.List.{reverse}
use braid_rs.Prelude.Set
use braid_rs.Antimatter.Search.{Graph, next_of}
use braid_rs.Antimatter.Bubble.{push_all, pending}
use braid_rs.Antimatter.Bubble.Ends.{push_all-length, pending-insert}
use braid_rs.Antimatter.Prune.Ends.{Returns}

known_ancestors-Returns :
    (t : Graph) (n : ℕ) (stack : List Text) (seen : StrSet)
    → length stack + pending t seen < n
    → Returns (known_ancestors t n stack seen)
unfolding known_ancestors
known_ancestors-Returns t zero stack seen h = absurd (omega arith)
known_ancestors-Returns t (suc n) [] seen h = (seen, refl)
known_ancestors-Returns t (suc n) (v ∷ stack) seen h =
    case_either (Set.contains v seen) Returns
      (λ old. known_ancestors-Returns t n stack seen (omega arith))
      (λ new.
        case_either (contains_key v t) Returns
          (λ here.
            known_ancestors-Returns t n (push_all (next_of t v) stack) (Set.insert v seen)
              (omega (arith, h, push_all-length (next_of t v) stack, pending-insert t v seen new)))
          (λ absent. known_ancestors-Returns t n stack seen (omega arith)))

pub generate_braid-Returns : (c : JsonCrdt) (known : Map Bool) → Returns (generate_braid c known)
unfolding generate_braid
generate_braid-Returns c known =
    let stack = reverse (keys known) in
    let t = graph_of c.t in
    let (seen, e) =
      known_ancestors-Returns t (suc (length stack + pending t [])) stack [] (omega arith) in
    (updates_of c seen (keys c.t), ap (sent_to c) e)

no_colon : (n : ℕ) → contains_text (codes ":") (show n) ≡ false
unfolding contains_text
no_colon n = rw (contains_text, split_once_absent b':' [] (show n) (digits_no_colon n))

parse_range-pair : (n : ℕ) → n < 2 ^ 64 → parse_range (show n ++ (b':' ∷ show n)) ≡ (n, 0)
unfolding parse_range range_of two_parts parse_usize
parse_range-pair n h =
    rw
      (
        split_once_skip b':' [] (show n) (show n) (digits_no_colon n),
        no_colon n,
        parse_unsigned-show (2 ^ 64) n h,
      )
      (ap (λ d. (n, d)) (omega arith))

-- The patch that is sent of an insertion.
abbrev insert_patch : ℕ → Text → JsonPatch
insert_patch x t = record { range = show x ++ (b':' ∷ show x); content = Value.string t }

to_splices-sent :
    (to_string : Value → Text) (x : ℕ) (t : Text)
    → x < 2 ^ 64
    → to_splices to_string (insert_patch x t ∷ []) ≡ insert_of x t none ∷ []
unfolding to_splices to_splice
to_splices-sent to_string x t h = rw (parse_range-pair x h)

next_first :
    (id : Text)
    → next_of
        ((version_name 0 id, []) ∷ (version_name 1 id, version_name 0 id ∷ []) ∷ [])
        (version_name 0 id)
      ≡ []
unfolding lookup str_eq version_name
next_first id = rw (str_eq_self id)

grown_known :
    (id : Text)
    → known_ancestors
        ((version_name 0 id, []) ∷ (version_name 1 id, version_name 0 id ∷ []) ∷ [])
        (suc (
          suc (
            pending
              ((version_name 0 id, []) ∷ (version_name 1 id, version_name 0 id ∷ []) ∷ [])
              [])))
        (version_name 0 id ∷ [])
        []
      ≡ some (version_name 0 id ∷ [])
unfolding known_ancestors pending str_eq version_name push_all lookup Set.insert
grown_known id = rw (str_eq_self id, next_first id)

fresh_unmentioned :
    (id s : Text) → mentions (version_name 1 id) (text (version_name 0 id) s) ≡ false
unfolding mentions version_name str_eq
fresh_unmentioned id s = refl

grown_first :
    (to_string : Value → Text) (id s t : Text) (x : ℕ)
    → is_ancestor (grown to_string id s t x) (version_name 0 id) ≡ true
unfolding is_ancestor version_name str_eq
grown_first to_string id s t x = rw (str_eq_self id)

grown_splices :
    (to_string : Value → Text) (id s t : Text) (x : ℕ)
    → x ≤ length s
    → len (SequenceElems.string (take x s)) ≡ x
    → generate_version_splices (grown to_string id s t x) (version_name 1 id)
      ≡ insert_of x t none ∷ []
unfolding generate_version_splices
grown_splices to_string id s t x within width =
    braid-placed (is_ancestor (grown to_string id s t x)) (some (version_name 0 id)) none s false []
      no_nodes no_next (version_name 1 id) t x none refl (grown_first to_string id s t x) width
      (fits_fresh to_string (version_name 0 id) s x within) (fresh_unmentioned id s)

grown_updates :
    (to_string : Value → Text) (id s t : Text) (x : ℕ)
    → x ≤ length s
    → len (SequenceElems.string (take x s)) ≡ x
    → updates_of
        (grown to_string id s t x)
        (version_name 0 id ∷ [])
        (version_name 0 id ∷ version_name 1 id ∷ [])
      ≡ (version_name 1 id, ((version_name 0 id, true) ∷ [], insert_patch x t ∷ [])) ∷ []
unfolding updates_of to_patches to_patch str_eq version_name
grown_updates to_string id s t x within width =
    let e : x + 0 ≡ x = omega arith in
    rw (str_eq_self id, grown_splices to_string id s t x within width, e)

module _ (to_string : Value → Text) where
  -- A peer makes a document with this content, generates its next version, and inserts a text at a
  -- position within the content, in characters, that fits a `usize` and in front of which every
  -- character takes one byte. What `generate_braid` then sends to a peer that knows the first version
  -- is one update, of the new version. A peer that holds the document as it was made, with a version
  -- counter and an id of its own, and adds this update comes to the same sequence, the same graph and
  -- the same frontier as the first peer, and keeps its counter and its id.
  pub generate_braid-syncs :
      (id s t : Text) (x : ℕ) (counter : ℕ) (own : Text)
      → x ≤ length s
      → x < 2 ^ 64
      → len (SequenceElems.string (take x s)) ≡ x
      → let (c, version) = generate_version (with_content id s) in
        let patch : JsonPatch = record { range = show x; content = Value.string t } in
        let peer : JsonCrdt = record (with_content id s) { next_seq = counter; id = own } in
        (c' : JsonCrdt) × (sent : List JsonPatch) × (add_version to_string c version
            c.current_version
            (patch ∷ [])
          ≡ returned (c', []))
        × (generate_braid c' peer.current_version
            ≡ some ((version, (c.current_version, sent)) ∷ []))
        × (add_version to_string peer version c.current_version sent
            ≡ returned (record c' { next_seq = counter; id = own }, []))
  unfolding with_content generate_version generate_braid graph_of
  generate_braid-syncs id s t x counter own within small width =
      let c' = grown to_string id s t x in
      (
        c',
        insert_patch x t ∷ [],
        add_version_fresh to_string id s t x _ within (to_splices-insert to_string x t small),
        ap (sent_to c') (grown_known id) ∙ ap some (grown_updates to_string id s t x within width),
        add_version_held to_string id s t x _ counter own within
            (to_splices-sent to_string x t small),
      )
