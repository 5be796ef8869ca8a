-- ===== src/Types/Update.antt =====
-- `Update` and its builder (core/src/core/types/update.rs).
use braid_rs.Prelude.{
  ℕ, Bool, List, [], ◌∷◌, ◌++◌, Option, none, some, Text, Bytes, Map, insert, is_some,
}
use braid_rs.Types.Version.{Version}
use braid_rs.Types.Patch.{Patch}
use braid_rs.Types.ContentRange.{ContentRange}

pub record Update : Type 0 where
  pub version : List Version
  pub parents : List Version
  pub current_version : Option (List Version)
  pub merge_type : Option Text
  pub patches : Option (List Patch)
  pub body : Option Bytes
  pub content_range : Option ContentRange
  pub content_type : Option Text
  pub status : ℕ
  pub extra_headers : Map Text
  pub url : Option Text

abbrev pub default_update : Update
default_update = record {
  version = [];
  parents = [];
  current_version = none;
  merge_type = none;
  patches = none;
  body = none;
  content_range = none;
  content_type = none;
  status = 200;
  extra_headers = [];
  url = none;
}

unfoldable pub snapshot : Version → Bytes → Update
snapshot version body = record default_update { version = version ∷ []; body = some body }

unfoldable pub patched : Version → List Patch → Update
patched version patches = record default_update { version = version ∷ []; patches = some patches }

pub with_status : Update → ℕ → Update
with_status u status = record u { status = status }

pub subscription_snapshot : Version → Bytes → Update
unfolding snapshot with_status
subscription_snapshot version body = with_status (snapshot version body) 209

pub subscription_patched : Version → List Patch → Update
unfolding patched with_status
subscription_patched version patches = with_status (patched version patches) 209

pub with_parent : Update → Version → Update
with_parent u parent = record u { parents = u.parents ++ (parent ∷ []) }

pub with_parents : Update → List Version → Update
with_parents u parents = record u { parents = u.parents ++ parents }

pub with_current_version : Update → Version → Update
with_current_version u version = elim u.current_version [
  | none ↦ record u { current_version = some (version ∷ []) }
  | some versions ↦ record u { current_version = some (versions ++ (version ∷ [])) }
]

unfoldable pub with_merge_type : Update → Text → Update
with_merge_type u merge_type = record u { merge_type = some merge_type }

pub with_header : Update → Text → Text → Update
with_header u name value = record u { extra_headers = insert name value u.extra_headers }

pub is_snapshot : Update → Bool
is_snapshot u = is_some u.body

pub is_patched : Update → Bool
is_patched u = is_some u.patches

-- `self.version.first()`, also written `update.version.get(0)`.
unfoldable pub primary_version : Update → Option Version
primary_version u = elim u.version [ [] ↦ none | v ∷ _ ↦ some v ]
