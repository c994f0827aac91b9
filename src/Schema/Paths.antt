-- ===== src/Schema/Paths.antt =====
-- src/schema/paths.ts: `resolveDirectory`. The table `schemas` is a list of rows.
use vault_engine.Base.{
  Text, codes, Bool, false, Option, none, some, List, [], ◌∷◌, ◌++◌, ends_with, if◌then◌else◌,
}
use vault_engine.Base.Dict
use vault_engine.Base.Dict.{Dict}

pub record ResolveDirectoryInput : Type 0 where
  pub types : List Text
  pub directory : Option Text
  pub override_default_directory : Bool

pub data DirectorySource : Type 0 where
  explicit schema_default root : DirectorySource

-- A refusal has the code INVALID_PARAMS.
pub data ResolveDirectoryResult : Type 0 where
  resolved : Text → DirectorySource → ResolveDirectoryResult
  invalid_params : Text → ResolveDirectoryResult

abbrev or_null : Option (Option Text) → Option Text
or_null none = none
or_null (some d) = d

-- The default directory of the first type; an empty one counts as none.
unfoldable pub schema_default_dir : Dict (Option Text) → List Text → Option Text
schema_default_dir schemas [] = none
schema_default_dir schemas (t ∷ ts) = or_null (Dict.get schemas t)

abbrev pub non_empty : Option Text → Option Text
non_empty none = none
non_empty (some []) = none
non_empty (some (c ∷ s)) = some (c ∷ s)

abbrev first_text : List Text → Text
first_text [] = []
first_text (t ∷ ts) = t

unfoldable pub routes_message : Text → Text → Text
routes_message t dir =
    codes "Type \""
    ++ t
    ++ codes "\" routes to \""
    ++ dir
    ++ codes "/\" via schema. Pass override_default_directory: true to place this node elsewhere."

unfoldable pub filename_message : Text
filename_message =
    codes
      "\"directory\" must be a folder path, not a filename. The filename is always derived from the node title."

-- Behind the look-up of the default directory.
unfoldable pub choose_directory : Text → Bool → Option Text → Option Text → ResolveDirectoryResult
choose_directory t override (some dir) (some d) =
    if override then resolved dir explicit else invalid_params (routes_message t d)
choose_directory t override (some dir) none = resolved dir explicit
choose_directory t override none (some d) = resolved d schema_default
choose_directory t override none none = resolved [] root

abbrev pub is_filename : Option Text → Bool
is_filename none = false
is_filename (some dir) = ends_with dir (codes ".md")

unfoldable pub resolve_directory :
    Dict (Option Text) → ResolveDirectoryInput → ResolveDirectoryResult
resolve_directory schemas input =
    if is_filename input.directory
    then invalid_params filename_message
    else choose_directory (first_text input.types) input.override_default_directory input.directory
        (non_empty (schema_default_dir schemas input.types))
