-- ===== src/Safety/Inside.antt =====
-- Paths within the project: `resolveInside` of src/core/tools/fsTool.ts and `isPathTraversal` of
-- src/core/patch/patchValidator.ts, which share `isInside` and `nearestExistingAncestor`. The
-- functions of `node:path` are those of POSIX, with an absolute `cwd`: an absolute path is the list
-- of its names.
pub mod Laws
pub mod Names
pub mod Resolving
use tomorrowedge.Prelude.{
  ℕ, zero, suc, String, Bool, true, false, not, ◌&&◌, ◌||◌, List, [], ◌∷◌, ◌++◌, map, ◌==◌, append,
  join, cat, starts_with, split_on, if◌then◌else◌, length, is_empty,
}
use tomorrowedge.ControlPlane.Specs.{Attempt, returned, threw}
use tomorrowedge.ControlPlane.Attempts.{◌>>=◌}

abbrev pub AbsolutePath : Type 0
AbsolutePath = List String

abbrev pub dirname : AbsolutePath → AbsolutePath
dirname [] = []
dirname (n ∷ []) = []
dirname (n ∷ m ∷ ns) = n ∷ dirname (m ∷ ns)

-- One name of a path that is resolved: `.` and the empty name stay, `..` goes up.
unfoldable pub enter_name : AbsolutePath → String → AbsolutePath
enter_name at name =
    if name == "" || name == "." then at else if name == ".." then dirname at else at ++ name ∷ []

unfoldable pub enter_names : AbsolutePath → List String → AbsolutePath
unfolding enter_name
enter_names at [] = at
enter_names at (n ∷ ns) = enter_names (enter_name at n) ns

-- `path.resolve(cwd)`
unfoldable pub resolve_root : String → AbsolutePath
unfolding enter_names
resolve_root cwd = enter_names [] (split_on "/" cwd)

-- `path.resolve(cwd, relativePath)`
unfoldable pub resolve : String → String → AbsolutePath
unfolding enter_names resolve_root
resolve cwd relative_path =
    enter_names (if starts_with relative_path "/" then [] else resolve_root cwd)
      (split_on "/" relative_path)

-- `path.relative(from, to)`, of resolved paths, as the list of its names.
unfoldable pub relative_names : AbsolutePath → AbsolutePath → List String
relative_names [] to = to
relative_names (r ∷ rs) [] = map (λ _. "..") (r ∷ rs)
relative_names (r ∷ rs) (c ∷ cs) =
    let below = relative_names rs cs in if r == c then below else map (λ _. "..") (r ∷ rs) ++ c ∷ cs

-- `isInside`, which both files have.
unfoldable pub is_inside : AbsolutePath → AbsolutePath → Bool
unfolding relative_names
is_inside root candidate =
    let relative = join "/" (relative_names root candidate) in
    relative == ""
    || not (relative == "") && not (starts_with relative "..") && not (starts_with relative "/")

-- What the code asks of the file system: `existsSync` and `realpathSync`.
pub record FileTree : Type 0 where
  pub exists : AbsolutePath → Bool
  pub realpath : AbsolutePath → Attempt AbsolutePath

-- The loop of `nearestExistingAncestor`; each round goes one name up.
unfoldable pub nearest_from : FileTree → ℕ → AbsolutePath → AbsolutePath → AbsolutePath
unfolding is_inside
nearest_from tree zero root current = root
nearest_from tree (suc fuel) root current =
    let further = nearest_from tree fuel root (dirname current) in
    if not (is_inside root current)
    then root
    else if tree.exists current
    then current
    else if is_empty current
    then root
    else further

unfoldable pub nearest_existing_ancestor : FileTree → AbsolutePath → AbsolutePath → AbsolutePath
unfolding nearest_from
nearest_existing_ancestor tree root start = nearest_from tree (suc (length start)) root start

-- Behind the test of the parent: the real path of the target, where there is one.
target_escapes : FileTree → AbsolutePath → AbsolutePath → Attempt Bool
unfolding is_inside
target_escapes tree real_root resolved =
    if not (tree.exists resolved)
    then returned false
    else tree.realpath resolved >>= λ real. returned (not (is_inside real_root real))

unfoldable pub escapes_real_project_root : FileTree → AbsolutePath → AbsolutePath → Attempt Bool
unfolding nearest_existing_ancestor is_inside target_escapes
escapes_real_project_root tree root resolved = do
  real_root ← tree.realpath root
  real_parent ← tree.realpath (nearest_existing_ancestor tree root (dirname resolved))
  if not (is_inside real_root real_parent)
      then returned true
      else target_escapes tree real_root resolved

-- `value.replace(/\\/g, "/")`, `normalizePath` of src/safety/ignoreRules.ts
unfoldable pub normalize_slashes : String → String
unfolding split_on
normalize_slashes value = join "/" (split_on "\\" value)

unfoldable pub resolve_inside : FileTree → String → String → Attempt AbsolutePath
unfolding resolve resolve_root is_inside escapes_real_project_root normalize_slashes
resolve_inside tree cwd relative_path =
    let resolved = resolve cwd relative_path in
    let root = resolve_root cwd in
    let refusal =
      threw (cat ("Path escapes project root: " ∷ normalize_slashes relative_path ∷ [])) in
    if not (is_inside root resolved) then refusal else (do
      escapes ← escapes_real_project_root tree root resolved
      if escapes then refusal else returned resolved)

-- The answer of the inner `try`: a path that has no real path is let through.
real_path_outside : AbsolutePath → Attempt AbsolutePath → Bool
unfolding is_inside
real_path_outside real_root (threw message) = false
real_path_outside real_root (returned real_resolved) = not (is_inside real_root real_resolved)

parent_outside : FileTree → AbsolutePath → AbsolutePath → Attempt Bool
unfolding is_inside nearest_existing_ancestor real_path_outside
parent_outside tree root resolved = do
  real_root ← tree.realpath root
  real_parent ← tree.realpath (nearest_existing_ancestor tree root (dirname resolved))
  if not (is_inside real_root real_parent)
      then returned true
      else returned (real_path_outside real_root (tree.realpath resolved))

-- The outer `catch`: the check fails closed.
abbrev fails_closed : Attempt Bool → Bool
fails_closed (threw message) = true
fails_closed (returned b) = b

unfoldable pub is_path_traversal : FileTree → String → String → Bool
unfolding resolve resolve_root is_inside parent_outside
is_path_traversal tree cwd relative_path =
    let resolved = resolve cwd relative_path in
    let root = resolve_root cwd in
    if not (is_inside root resolved) then true else fails_closed (parent_outside tree root resolved)
