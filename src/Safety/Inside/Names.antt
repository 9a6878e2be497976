-- ===== src/Safety/Inside/Names.antt =====
-- The names of resolved paths, for src/core/tools/fsTool.ts: none is empty and none starts with a
-- slash, and what the joined text starts with is what its first name starts with.
use Prim.Native.Char.{Char, code}
use tomorrowedge.Prelude.{
  ◌≡◌, refl, inl, inr, String, false, List, [], ◌∷◌, ◌++◌, ◌==◌, append, join, starts_with,
  split_on, prepend, eqb, Bool-cases, All, cons-eq-empty,
}
use tomorrowedge.Safety.Inside.{
  AbsolutePath, dirname, enter_name, enter_names, resolve_root, resolve,
}

-- A name of a resolved path.
abbrev pub Plain : String → Type 0
Plain n = ((n == "") ≡ false) × (starts_with n "/" ≡ false)

abbrev NoSlash : String → Type 0
NoSlash n = starts_with n "/" ≡ false

prepend-NoSlash :
    (c : Char) (ws : List String)
    → eqb (code c) b'/' ≡ false
    → All NoSlash ws
    → All NoSlash (prepend c ws)
prepend-NoSlash c [] e h = (rw e, tt)
prepend-NoSlash c (w ∷ ws) e h = (rw e, h.1)

split_on-NoSlash : (s : String) → All NoSlash (split_on "/" s)
unfolding split_on
split_on-NoSlash String.[] = (refl, tt)
split_on-NoSlash (String.◌∷◌ c s) = elim (Bool-cases (eqb (code c) b'/')) [
  | inl e ↦ rw e (refl, split_on-NoSlash s)
  | inr e ↦ rw e (prepend-NoSlash c (split_on "/" s) e (split_on-NoSlash s))
]

dirname-Plain : (ns : List String) → All Plain ns → All Plain (dirname ns)
dirname-Plain [] h = tt
dirname-Plain (n ∷ []) h = tt
dirname-Plain (n ∷ m ∷ ns) h = (h.0, dirname-Plain (m ∷ ns) h.1)

append-Plain : (ns : List String) (n : String) → All Plain ns → Plain n → All Plain (ns ++ n ∷ [])
append-Plain [] n h p = (p, tt)
append-Plain (m ∷ ns) n h p = (h.0, append-Plain ns n h.1 p)

enter_name-Plain :
    (at : AbsolutePath) (n : String) → All Plain at → NoSlash n → All Plain (enter_name at n)
unfolding enter_name
enter_name-Plain at n h k = elim (Bool-cases (n == "")) [
  | inl e ↦ rw e h
  | inr e ↦ elim (Bool-cases (n == ".")) [
    | inl d ↦ rw (e, d) h
    | inr d ↦ elim (Bool-cases (n == "..")) [
      | inl u ↦ rw (e, d, u) (dirname-Plain at h)
      | inr u ↦ rw (e, d, u) (append-Plain at n h (e, k))
    ]
  ]
]

enter_names-Plain :
    (at : AbsolutePath) (ns : List String)
    → All Plain at
    → All NoSlash ns
    → All Plain (enter_names at ns)
unfolding enter_names
enter_names-Plain at [] h k = h
enter_names-Plain at (n ∷ ns) h k =
    enter_names-Plain (enter_name at n) ns (enter_name-Plain at n h k.0) k.1

pub resolve_root-Plain : (cwd : String) → All Plain (resolve_root cwd)
unfolding resolve_root
resolve_root-Plain cwd = enter_names-Plain [] (split_on "/" cwd) tt (split_on-NoSlash cwd)

pub resolve-Plain : (cwd relative_path : String) → All Plain (resolve cwd relative_path)
unfolding resolve
resolve-Plain cwd relative_path = elim (Bool-cases (starts_with relative_path "/")) [
  | inl e ↦
      rw e (enter_names-Plain [] (split_on "/" relative_path) tt (split_on-NoSlash relative_path))
  | inr e ↦ rw e (
      enter_names-Plain (resolve_root cwd) (split_on "/" relative_path) (resolve_root-Plain cwd)
        (split_on-NoSlash relative_path))
]

starts_upward-append :
    (n s : String) → starts_with (append n (append "/" s)) ".." ≡ starts_with n ".."
starts_upward-append String.[] s = refl
starts_upward-append (String.◌∷◌ c String.[]) s = refl
starts_upward-append (String.◌∷◌ c (String.◌∷◌ d n)) s = refl

pub starts_upward-join :
    (n : String) (ns : List String) → starts_with (join "/" (n ∷ ns)) ".." ≡ starts_with n ".."
starts_upward-join n [] = refl
starts_upward-join n (m ∷ ns) = starts_upward-append n (join "/" (m ∷ ns))

-- The text of at least one name is neither empty nor absolute.
pub join-Plain :
    (n : String) (ns : List String)
    → Plain n
    → ((join "/" (n ∷ ns) == "") ≡ false) × (starts_with (join "/" (n ∷ ns)) "/" ≡ false)
join-Plain n [] p = p
join-Plain String.[] (m ∷ ns) p = absurd (cc p.0)
join-Plain (String.◌∷◌ c n) (m ∷ ns) p =
    (cons-eq-empty c (append n (append "/" (join "/" (m ∷ ns)))), p.1)
