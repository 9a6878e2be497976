-- ===== src/ControlPlane/Paths.antt =====
-- Path rules of src/core/controlPlane/diff.ts: `normalizePath`, `findDeniedPathViolations` and
-- `findAllowedPathViolations`.
pub mod Laws
use Prim.Native.Char.{Char, code}
use Prim.Native.String
use tomorrowedge.Prelude.{
  String, Bool, true, false, not, ◌&&◌, ◌||◌, List, [], ◌∷◌, map, ◌==◌, append, starts_with,
  includes, any, all, filter, is_empty, eqb, if◌then◌else◌,
}

abbrev is_slash : Char → Bool
is_slash c = eqb (code c) b'/'

-- `replace(/\\/g, "/")`
to_slashes : String → String
to_slashes String.[] = ""
to_slashes (String.◌∷◌ c s) = String.◌∷◌ (if eqb (code c) 92 then "/" else c) (to_slashes s)

drop_slashes : String → String
drop_slashes String.[] = ""
drop_slashes (String.◌∷◌ c s) =
    let rest = drop_slashes s in if is_slash c then rest else String.◌∷◌ c s

-- `replace(/^\.\/+/, "")`
drop_dot_slash : String → String
unfolding drop_slashes
drop_dot_slash String.[] = ""
drop_dot_slash (String.◌∷◌ c String.[]) = String.◌∷◌ c String.[]
drop_dot_slash (String.◌∷◌ c (String.◌∷◌ d s)) =
    if eqb (code c) b'.' && is_slash d then drop_slashes s else String.◌∷◌ c (String.◌∷◌ d s)

-- `replace(/\/+$/, "")`
drop_trailing : String → String
drop_trailing String.[] = ""
drop_trailing (String.◌∷◌ c s) =
    let rest = drop_trailing s in if is_slash c && rest == "" then "" else String.◌∷◌ c rest

unfoldable pub normalize_path : String → String
unfolding to_slashes drop_dot_slash drop_trailing
normalize_path value = drop_trailing (drop_dot_slash (to_slashes value))

-- The test of both rules: the path is the item, or stands below it.
unfoldable pub covers : String → String → Bool
covers path item = path == item || starts_with path (append item "/")

-- `paths.map(normalizePath).filter(Boolean)`
unfoldable pub normalized : List String → List String
normalized paths = filter (λ p. not (p == "")) (map normalize_path paths)

unfoldable pub find_denied_path_violations : List String → List String → List String
unfolding normalized covers
find_denied_path_violations changed_files denied_paths =
    let denied = normalized denied_paths in
    filter (λ file. any (covers (normalize_path file)) denied) changed_files

unfoldable pub find_allowed_path_violations : List String → List String → List String
unfolding normalized covers
find_allowed_path_violations changed_files allowed_paths =
    let allowed = normalized allowed_paths in
    if is_empty allowed || includes allowed "."
    then []
    else filter (λ file. not (any (covers (normalize_path file)) allowed)) changed_files
