-- ===== src/Antimatter/JsonCrdt.antt =====
-- The JSON CRDT over the sequence (core/src/antimatter/json_crdt.rs), but for
-- `generate_braid`, which is in JsonCrdt/Updates. The printer of `serde_json` is a parameter.
pub mod Edits
mod Syncs
pub mod Updates
mod Examples
use braid_rs.Prelude.Int.{pos}
use braid_rs.Types.Version.{to_string}
use braid_rs.Prelude.Decimal.{parse_unsigned, show}
use braid_rs.Prelude.{
  ℕ, zero, suc, length, StrSet, ◌+◌, ◌-◌, ◌%◌, ◌^◌, Bool, true, false, not, ◌||◌, ◌&&◌, List, [],
  ◌∷◌, ◌++◌, Option, none, some, Text, str_eq, Outcome, returned, panicked, bind, if◌then◌else◌,
  ltb,
}
use mathlib.Core.List.{reverse}
use braid_rs.Prelude.Chars.{codes, split_once, contains_text}
use braid_rs.Prelude.Maps.{Map, lookup, insert, remove, contains_key, keys}
use braid_rs.Prelude.Json.{Value}
use braid_rs.Prelude.Set
use braid_rs.Antimatter.Search.{Graph, next_of}
use braid_rs.Antimatter.Bubble.{push_all, pending}
use braid_rs.Antimatter.Sequence.{
  SequenceElems, indices, SequenceNode, string, new_node, text, content, sequence_length,
}
use braid_rs.Antimatter.Sequence.Splices.{Splice, insertion, replacement}
use braid_rs.Antimatter.Sequence.Splices
use braid_rs.Antimatter.Sequence.Bubbles.{Bubbles}
use braid_rs.Antimatter.Sequence.Bubbles

pub record JsonCrdt : Type 0 where
  pub sequence : SequenceNode
  pub t : Map (Map Bool)
  pub current_version : Map Bool
  pub next_seq : ℕ
  pub id : Text

unfoldable pub new : Text → JsonCrdt
new id = record {
  sequence = new_node (some (codes "root")) (string []) false none;
  t = [];
  current_version = [];
  next_seq = 0;
  id = id;
}

-- `format!("{}@{}", seq, id)`.
unfoldable pub version_name : ℕ → Text → Text
unfolding show
version_name seq id = show seq ++ (b'@' ∷ id)

unfoldable pub with_content : Text → Text → JsonCrdt
unfolding version_name insert
with_content id s =
    let version = version_name 0 id in
    record {
      sequence = text version s;
      t = insert version [] [];
      current_version = insert version true [];
      next_seq = 1;
      id = id;
    }

unfoldable pub generate_version : JsonCrdt → JsonCrdt × Text
unfolding version_name
generate_version c =
    (record c { next_seq = (c.next_seq + 1) % 2 ^ 64 }, version_name c.next_seq c.id)

pub record JsonPatch : Type 0 where
  pub range : Text
  pub content : Value

abbrev pub or_default : ℕ → Option ℕ → ℕ
or_default n none = n
or_default n (some m) = m

-- A number of type `usize`.
unfoldable pub parse_usize : Text → Option ℕ
unfolding parse_unsigned
parse_usize s = parse_unsigned (2 ^ 64) s

abbrev pub two_parts : Text → Option (Text × Text) → Option (Text × Text)
unfolding contains_text
two_parts range none = none
two_parts range (some (a, b)) = if contains_text (codes ":") b then none else some (a, b)

abbrev pub range_of : Text → Option (Text × Text) → ℕ × ℕ
unfolding parse_usize
range_of range none = (or_default 0 (parse_usize range), 0)
range_of range (some (a, b)) =
    let start = or_default 0 (parse_usize a) in (start, or_default start (parse_usize b) - start)

-- The position and how much is deleted.
unfoldable pub parse_range : Text → ℕ × ℕ
unfolding range_of two_parts split_once
parse_range range = range_of range (two_parts range (split_once (codes ":") range))

-- Whether every parent is known.
unfoldable pub parents_known : Map (Map Bool) → List Text → Bool
unfolding lookup str_eq
parents_known t [] = true
parents_known t (p ∷ ps) = (contains_key p t || str_eq p (codes "root")) && parents_known t ps

unfoldable pub remove_each : List Text → Map Bool → Map Bool
unfolding remove
remove_each [] m = m
remove_each (p ∷ ps) m = remove_each ps (remove p m)

unfoldable pub is_ancestor : JsonCrdt → Text → Bool
unfolding lookup str_eq
is_ancestor c v = contains_key v c.t || str_eq v (codes "root")

unfoldable pub get_content : JsonCrdt → Text
unfolding is_ancestor content
get_content c = content (is_ancestor c) c.sequence

unfoldable pub get_length : JsonCrdt → ℕ
unfolding is_ancestor sequence_length
get_length c = sequence_length (is_ancestor c) c.sequence

unfoldable pub get_frontier : JsonCrdt → List Text
get_frontier c = keys c.current_version

unfoldable pub generate_version_splices : JsonCrdt → Text → List Splice
unfolding is_ancestor Splices.generate_braid
generate_version_splices c version = Splices.generate_braid (is_ancestor c) c.sequence version

-- The graph and the frontier with a new version.
unfoldable pub extend_graph : JsonCrdt → Text → Map Bool → JsonCrdt
unfolding remove_each insert
extend_graph c version parents = record c {
  t = insert version parents c.t;
  current_version = insert version true (remove_each (keys parents) c.current_version);
}

-- The state with what the sequence returns.
abbrev pub with_sequence :
    JsonCrdt → Outcome (SequenceNode × List Splice) → Outcome (JsonCrdt × List Splice)
with_sequence c (returned (root, rebased)) = returned (record c { sequence = root }, rebased)
with_sequence c panicked = panicked

module _ (to_string : Value → Text) where
  abbrev pub insert_text : Value → Text
  insert_text (Value.string s) = s
  insert_text v = to_string v

  unfoldable pub to_splice : JsonPatch → Splice
  unfolding parse_range
  to_splice patch =
      let (start, delete_count) = parse_range patch.range in
      record {
        pos = start;
        delete_count = delete_count;
        insert = string (insert_text patch.content);
        sort_key = none;
        op_type = if ltb 0 delete_count then replacement else insertion;
      }

  unfoldable pub to_splices : List JsonPatch → List Splice
  unfolding to_splice
  to_splices [] = []
  to_splices (p ∷ ps) = to_splice p ∷ to_splices ps

  unfoldable pub add_version :
      JsonCrdt → Text → Map Bool → List JsonPatch → Outcome (JsonCrdt × List Splice)
  unfolding parents_known extend_graph is_ancestor to_splices Splices.add_version
  add_version c version parents patches =
      if not (parents_known c.t (keys parents))
      then returned (c, [])
      else let c' = extend_graph c version parents in
        with_sequence c'
          (Splices.add_version (is_ancestor c') c'.sequence version (to_splices patches))

unfoldable pub extend_map : Map Bool → Map Bool → Map Bool
unfolding insert
extend_map [] m = m
extend_map ((k, v) ∷ kvs) m = extend_map kvs (insert k v m)

abbrev pub or_empty : Option (Map Bool) → Map Bool
or_empty none = []
or_empty (some m) = m

abbrev pub move_parents : Text → Option (Map Bool) → Map (Map Bool) → Map (Map Bool)
unfolding lookup insert extend_map
move_parents new_v none t = t
move_parents new_v (some parents) t =
    insert new_v (extend_map parents (or_empty (lookup new_v t))) t

-- The graph and the frontier without a version that has been renamed.
unfoldable pub rename_version : Text → Text → JsonCrdt → JsonCrdt
unfolding lookup remove insert str_eq move_parents
rename_version old_v new_v c = if str_eq old_v new_v then c else record c {
  t = move_parents new_v (lookup old_v c.t) (remove old_v c.t);
  current_version =
      if contains_key old_v c.current_version
      then insert new_v true (remove old_v c.current_version)
      else c.current_version;
}

unfoldable pub rename_graph : Bubbles → JsonCrdt → JsonCrdt
unfolding rename_version
rename_graph [] c = c
rename_graph ((old_v, (new_v, top)) ∷ bubbles) c =
    rename_graph bubbles (rename_version old_v new_v c)

unfoldable pub apply_bubbles : JsonCrdt → Bubbles → Outcome JsonCrdt
unfolding rename_graph Bubbles.apply_bubbles
apply_bubbles c to_bubble =
    bind (Bubbles.apply_bubbles c.sequence to_bubble)
      (λ root. returned (rename_graph to_bubble (record c { sequence = root })))
