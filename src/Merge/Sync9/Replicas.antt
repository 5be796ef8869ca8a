-- ===== src/Merge/Sync9/Replicas.antt =====
-- Two replicas with a merge type, one of which follows the other, and what becomes of them where the
-- last write wins (core/src/core/merge/merge_type.rs).
use braid_rs.Merge.Sync9.{Sync9MergeType, apply_patch, local_edit, next_version, sync9}
use braid_rs.Prelude.{◌≡◌, refl, List, [], ◌∷◌, Text}
use braid_rs.Prelude.Json.{Value}
use braid_rs.Merge.Types.{MergePatch, MergeType}

module _ (m : MergeType) where
  unfoldable pub apply_each : List MergePatch → m.State → m.State
  apply_each [] s = s
  apply_each (p ∷ ps) s = apply_each ps (m.apply_patch p s).0

  -- One replica makes the edits, and after each the other applies the patches that it gives out.
  unfoldable pub session : List MergePatch → m.State × m.State → m.State × m.State
  unfolding apply_each
  session [] (author, follower) = (author, follower)
  session (edit ∷ edits) (author, follower) =
      let (author', result) = m.local_edit edit author in
      session edits (author', apply_each result.rebased_patches follower)

  abbrev pub Agree : m.State × m.State → Type 0
  Agree (a, b) = (m.get_content a ≡ m.get_content b) × (m.get_version a ≡ m.get_version b)

module _ (to_string : Value → Text) where
  session_agrees :
      (edits : List MergePatch) (author follower : Sync9MergeType)
      → Agree (sync9 to_string) (author, follower)
      → Agree (sync9 to_string) (session (sync9 to_string) edits (author, follower))
  unfolding session local_edit apply_patch next_version
  session_agrees [] author follower h = h
  session_agrees (edit ∷ edits) author follower h = session_agrees edits _ _ (refl, refl)

  -- Two replicas of `Sync9MergeType` in any two states, which may have one id or two, and a list of
  -- edits of at least one. The one makes the edits in turn, and the other applies the patches of each
  -- result. Then the contents and the versions of the two are the same.
  pub session-Agree :
      (edit : MergePatch) (edits : List MergePatch) (author follower : Sync9MergeType)
      → Agree (sync9 to_string) (session (sync9 to_string) (edit ∷ edits) (author, follower))
  unfolding session local_edit apply_patch next_version
  session-Agree edit edits author follower = session_agrees edits _ _ (refl, refl)
