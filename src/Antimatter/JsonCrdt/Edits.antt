-- ===== src/Antimatter/JsonCrdt/Edits.antt =====
-- An insertion into a fresh document of the JSON CRDT (core/src/antimatter/json_crdt.rs).
use braid_rs.Antimatter.Sequence.Breaks.{content_lem, shown}
use braid_rs.Antimatter.Sequence.Splices.Inserts.{
  fits, insert_of, add_version-placed, placed, content-placed,
}
use braid_rs.Antimatter.JsonCrdt.{
  JsonCrdt, generate_version, parse_range, parse_usize, range_of, to_splice, to_splices, two_parts,
  with_content, add_version, get_content, get_frontier, version_name, JsonPatch, extend_graph,
  is_ancestor, parents_known, with_sequence,
}
use braid_rs.Prelude.Utf8.{length-encode_utf8}
use braid_rs.Prelude.Chars.{split_once}
use braid_rs.Prelude.Decimal.{AreDigits-show, parse_unsigned-show, show}
use braid_rs.Prelude.{
  ℕ, ◌<◌, ◌≤◌, ◌^◌, ◌≡◌, ◌≢◌, refl, ◌∙◌, ap, Bool, true, false, List, [], ◌∷◌, ◌++◌, none, some,
  Text, str_eq, returned, arith, All, length, take, drop, any, str_eq_self, All-imp, Bytes, lookup,
  Map, keys,
}
use mathlib.Core.List.{append-nil}
use braid_rs.Prelude.Json.{Value}
use braid_rs.Antimatter.Sequence.{SequenceNode, content, no_nodes, no_next, text}
use braid_rs.Antimatter.Sequence.Splices.{Splice, inserted}
use braid_rs.Antimatter.Sequence.Splices

pub split_once_absent : (c : ℕ) (p xs : Bytes) → All (λ x. x ≢ c) xs → split_once (c ∷ p) xs ≡ none
unfolding split_once
split_once_absent c p [] h = refl
split_once_absent c p (x ∷ xs) h = ground (arith, split_once_absent c p xs h.1)

pub digits_no_colon : (n : ℕ) → All (λ x. x ≢ b':') (show n)
digits_no_colon n = All-imp (λ x d. omega (arith, d.0, d.1)) (show n) (AreDigits-show n)

parse_range-show : (n : ℕ) → n < 2 ^ 64 → parse_range (show n) ≡ (n, 0)
unfolding parse_range range_of two_parts parse_usize
parse_range-show n h =
    rw (split_once_absent b':' [] (show n) (digits_no_colon n), parse_unsigned-show (2 ^ 64) n h)

module _ (to_string : Value → Text) where
  pub to_splices-insert :
      (x : ℕ) (t : Text)
      → x < 2 ^ 64
      → to_splices to_string (record { range = show x; content = Value.string t } ∷ [])
        ≡ insert_of x t none ∷ []
  unfolding to_splices to_splice
  to_splices-insert x t h = rw (parse_range-show x h)

  pub fits_fresh : (version s : Text) (x : ℕ) → x ≤ length s → fits x (text version s) ≡ true
  unfolding fits
  fits_fresh version s x h = ground (arith, length-encode_utf8 s)

  -- A document that has just been made has one version, which is its frontier.
  content_fresh : (is_anc : Text → Bool) (version s : Text) → content is_anc (text version s) ≡ s
  unfolding shown any
  content_fresh is_anc version s = content_lem is_anc (text version s) ∙ append-nil s

  -- The document after the insertion.
  abbrev pub grown : Text → Text → Text → ℕ → JsonCrdt
  grown id s t x =
      let parents : Map Bool = (version_name 0 id, true) ∷ [] in
      let version = version_name 1 id in
      record {
        sequence = placed (inserted version (insert_of x t none)) x (text (version_name 0 id) s);
        t = (version_name 0 id, []) ∷ (version, parents) ∷ [];
        current_version = (version, true) ∷ [];
        next_seq = 2;
        id = id;
      }

  fresh_known :
      (id : Text) → parents_known ((version_name 0 id, []) ∷ []) (version_name 0 id ∷ []) ≡ true
  unfolding parents_known version_name
  fresh_known id = rw (str_eq_self (version_name 0 id))

  fresh_extended :
      (id s : Text)
      → extend_graph
          (generate_version (with_content id s)).0
          (version_name 1 id)
          ((version_name 0 id, true) ∷ [])
        ≡ record {
          sequence = text (version_name 0 id) s;
          t = (version_name 0 id, []) ∷ (version_name 1 id, (version_name 0 id, true) ∷ []) ∷ [];
          current_version = (version_name 1 id, true) ∷ [];
          next_seq = 2;
          id = id;
        }
  unfolding extend_graph generate_version with_content str_eq
  fresh_extended id s = rw (str_eq_self (version_name 0 id))

  fresh_ancestor :
      (id s : Text)
      → is_ancestor
          (record {
            sequence = text (version_name 0 id) s;
            t = (version_name 0 id, []) ∷ (version_name 1 id, (version_name 0 id, true) ∷ []) ∷ [];
            current_version = (version_name 1 id, true) ∷ [];
            next_seq = 2;
            id = id;
          })
          (version_name 1 id)
        ≡ true
  unfolding is_ancestor version_name str_eq
  fresh_ancestor id s = rw (str_eq_self id)

  -- What an addition does to the parts of the state.
  add_version-parts :
      (c c1 : JsonCrdt) (version : Text) (parents : Map Bool) (patches : List JsonPatch)
      (splices : List Splice) (root : SequenceNode)
      → parents_known c.t (keys parents) ≡ true
      → extend_graph c version parents ≡ c1
      → to_splices to_string patches ≡ splices
      → Splices.add_version (is_ancestor c1) c1.sequence version splices ≡ returned (root, [])
      → add_version to_string c version parents patches
        ≡ returned (record c1 { sequence = root }, [])
  unfolding add_version
  add_version-parts c c1 version parents patches splices root known extended read run =
      rw (known, read)
        (ap
            (λ c2.
              with_sequence c2 (Splices.add_version (is_ancestor c2) c2.sequence version splices))
            extended
          ∙ ap (with_sequence c1) run)

  -- Patches that amount to one insertion, at whoever holds the fresh document, with any counter and
  -- under any name of the own.
  pub add_version_held :
      (id s t : Text) (x : ℕ) (patches : List JsonPatch) (counter : ℕ) (own : Text)
      → x ≤ length s
      → to_splices to_string patches ≡ insert_of x t none ∷ []
      → let version = version_name 1 id in
        let parents : Map Bool = (version_name 0 id, true) ∷ [] in
        add_version to_string
          (record (with_content id s) { next_seq = counter; id = own })
          version
          parents
          patches
        ≡ returned (record (grown id s t x) { next_seq = counter; id = own }, [])
  unfolding with_content generate_version any extend_graph is_ancestor
  add_version_held id s t x patches counter own within read =
      let parents : Map Bool = (version_name 0 id, true) ∷ [] in
      let version = version_name 1 id in
      let c1 : JsonCrdt = record (grown id s t x) {
        sequence = text (version_name 0 id) s;
        next_seq = counter;
        id = own;
      } in
      add_version-parts (record (with_content id s) { next_seq = counter; id = own }) c1 version
        parents patches (insert_of x t none ∷ []) (grown id s t x).sequence (fresh_known id)
        (ap (λ (c : JsonCrdt). record c { next_seq = counter; id = own }) (fresh_extended id s))
        read
        (add_version-placed (is_ancestor c1) (some (version_name 0 id)) none s false [] no_nodes
          no_next version t x none [] refl (fits_fresh (version_name 0 id) s x within))

  pub add_version_fresh :
      (id s t : Text) (x : ℕ) (patches : List JsonPatch)
      → x ≤ length s
      → to_splices to_string patches ≡ insert_of x t none ∷ []
      → let (c, version) = generate_version (with_content id s) in
        add_version to_string c version c.current_version patches ≡ returned (grown id s t x, [])
  unfolding with_content generate_version
  add_version_fresh id s t x patches within read =
      add_version_held id s t x patches 2 id within read

  -- A document with this content that generates its next version. A text is inserted with one patch at a
  -- position within the content, in characters, that fits a `usize`; the parents are the frontier. Then
  -- `add_version` does not panic, and afterwards the content is that with the text inserted there, the
  -- new version is the only one of the frontier, and its parent in the graph is the first version.
  pub add_version-with_content :
      (id s t : Text) (x : ℕ)
      → x ≤ length s
      → x < 2 ^ 64
      → let (c, version) = generate_version (with_content id s) in
        (c' : JsonCrdt) × (add_version to_string c version c.current_version
            (record { range = show x; content = Value.string t } ∷ [])
          ≡ returned (c', []))
        × (get_content c' ≡ take x s ++ (t ++ drop x s))
        × (get_frontier c' ≡ version ∷ [])
        × (lookup version c'.t ≡ some ((version_name 0 id, true) ∷ []))
  unfolding with_content generate_version get_frontier get_content lookup str_eq is_ancestor
  add_version-with_content id s t x within small =
      let c' = grown id s t x in
      let version = version_name 1 id in
      (
        c',
        add_version_fresh id s t x _ within (to_splices-insert x t small),
        content-placed (is_ancestor c') (some (version_name 0 id)) none s false [] no_nodes no_next
              version t x none refl (fresh_ancestor id s) within
              (fits_fresh (version_name 0 id) s x within)
            ∙ rw (content_fresh (is_ancestor c') (version_name 0 id) s),
        refl,
        rw (str_eq_self id),
      )
