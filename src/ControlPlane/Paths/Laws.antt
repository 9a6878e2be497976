-- ===== src/ControlPlane/Paths/Laws.antt =====
-- Which files the path rules report, as a condition on the lists of the goal.
use native.Mathlib.Omega.{arith}
use text.Mathlib.TextEquality.{Char-path}
use tomorrowedge.Prelude.{
  String, ◌≡◌, ◌≢◌, ◌↔◌, ◌⊎◌, inl, inr, refl, sym, ◌∙◌, subst, true, false, not, List, [], ◌∷◌,
  Memᴰ, map, any, is_empty, includes, append, starts_with, starts_with-append, ◌==◌, eq_iff,
  any_iff, mem-filter_iff, mem-map_iff, Bool-cases,
}
use tomorrowedge.ControlPlane.Paths.{
  normalize_path, covers, normalized, find_denied_path_violations, find_allowed_path_violations,
}

append_of_starts_with :
    (s p : String) → starts_with s p ≡ true → (rest : String) × (s ≡ append p rest)
append_of_starts_with s String.[] h = (s, refl)
append_of_starts_with String.[] (String.◌∷◌ d p) h = cc
append_of_starts_with (String.◌∷◌ c s) (String.◌∷◌ d p) h =
    let (rest, e) = append_of_starts_with s p (ground arith) in
    let same : c ≡ d = Char-path c d (ground arith) in (rest, λ i. String.◌∷◌ (same i) (e i))

-- The path is the item itself, or a path below it.
abbrev pub IsUnder : String → String → Type 0
IsUnder path item = (path ≡ item) ⊎ ((rest : String) × (path ≡ append (append item "/") rest))

covers_iff : (path item : String) → (covers path item ≡ true) ↔ IsUnder path item
unfolding covers
covers_iff path item = (
  λ h. elim (Bool-cases (path == item)) [
    | inl e ↦ inl ((eq_iff path item).0 e)
    | inr e ↦ inr (append_of_starts_with path (append item "/") (ground (arith, h, e)))
  ],
  λ under. elim under [
    | inl e ↦ ground (arith, (eq_iff path item).1 e)
    | inr (rest, e) ↦ ground (
      arith,
      subst (λ s. starts_with s (append item "/") ≡ true) (sym e)
          (starts_with-append (append item "/") rest),
    )
  ],
)

-- An entry of the list whose normal form is not empty has the path, normalized, under it.
pub record IsCovered (file : String) (paths : List String) : Type 0 where
  pub entry : String
  pub listed : Memᴰ entry paths
  pub real : normalize_path entry ≢ ""
  pub under : IsUnder (normalize_path file) (normalize_path entry)

IsCovered-of_any :
    (file : String) (paths : List String)
    → any (covers (normalize_path file)) (normalized paths) ≡ true
    → IsCovered file paths
unfolding normalized
IsCovered-of_any file paths h =
    let (item, m, k) = (any_iff (covers (normalize_path file)) (normalized paths)).0 h in
    let (m', some_text) =
      (mem-filter_iff (λ p. not (p == "")) (map normalize_path paths) item).0 m in
    let (entry, listed, e) = (mem-map_iff normalize_path paths item).0 m' in
    record {
      entry = entry;
      listed = listed;
      real = λ empty. ground (arith, (eq_iff item "").1 (e ∙ empty), some_text);
      under = subst (IsUnder (normalize_path file)) e ((covers_iff (normalize_path file) item).0 k);
    }

any_of_covered :
    (file : String) (paths : List String)
    → IsCovered file paths
    → any (covers (normalize_path file)) (normalized paths) ≡ true
unfolding normalized
any_of_covered file paths c =
    let item = normalize_path c.entry in
    let mapped = (mem-map_iff normalize_path paths item).1 (c.entry, c.listed, refl) in
    let some_text : not (item == "") ≡ true = elim (Bool-cases (item == "")) [
      | inl e ↦ absurd (c.real ((eq_iff item "").0 e))
      | inr e ↦ rw e refl
    ] in
    let kept =
      (mem-filter_iff (λ p. not (p == "")) (map normalize_path paths) item).1 (mapped, some_text) in
    (any_iff (covers (normalize_path file)) (normalized paths)).1
      (item, kept, (covers_iff (normalize_path file) item).1 c.under)

-- The denied files are exactly the changed ones whose normal form is a denied entry's normal form
-- or a path below it, the entries with an empty normal form left out.
pub find_denied-mem_iff :
    (changed denied : List String) (file : String)
    → Memᴰ file (find_denied_path_violations changed denied)
      ↔ (Memᴰ file changed × IsCovered file denied)
unfolding find_denied_path_violations
find_denied-mem_iff changed denied file =
    let split =
      mem-filter_iff (λ f. any (covers (normalize_path f)) (normalized denied)) changed file in
    (
      λ m. let (m', k) = split.0 m in (m', IsCovered-of_any file denied k),
      λ (m, c). split.1 (m, any_of_covered file denied c),
    )

is_empty-false : (xs : List String) → xs ≢ [] → is_empty xs ≡ false
is_empty-false [] h = absurd (h refl)
is_empty-false (x ∷ xs) h = refl

-- Where the allowed paths name something and not the whole workspace, the files outside of them
-- are exactly the changed ones that no entry has under it.
pub find_allowed-mem_iff :
    (changed allowed : List String) (file : String)
    → normalized allowed ≢ []
    → includes (normalized allowed) "." ≡ false
    → Memᴰ file (find_allowed_path_violations changed allowed)
      ↔ (Memᴰ file changed × (¬ IsCovered file allowed))
unfolding find_allowed_path_violations
find_allowed-mem_iff changed allowed file named part =
    let open_ended = any (covers (normalize_path file)) (normalized allowed) in
    let split =
      mem-filter_iff (λ f. not (any (covers (normalize_path f)) (normalized allowed))) changed
        file in
    rw (is_empty-false (normalized allowed) named, part)
      (
        (λ m.
            let (m', k) = split.0 m in (m', λ c. ground (arith, any_of_covered file allowed c, k))),
        λ (m, free). split.1 (
          m,
          elim (Bool-cases open_ended) [
            | inl e ↦ absurd (free (IsCovered-of_any file allowed e))
            | inr e ↦ rw e refl
          ],
        ),
      )
