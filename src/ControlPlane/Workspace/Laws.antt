-- ===== src/ControlPlane/Workspace/Laws.antt =====
-- What the comparison of two snapshots reports, and how a line of `git status` is read.
use Prim.Native.Char.{Char, code}
use native.Mathlib.Omega.{arith}
use tomorrowedge.Prelude.{
  String, ◌≡◌, ◌≢◌, ◌↔◌, inl, inr, refl, sym, ap, ◌∙◌, true, false, ◌||◌, ◌&&◌, Option, none, some,
  List, [], ◌∷◌, ◌++◌, Memᴰ, includes, has_text, ◌==◌, eq_iff, eq_of_some, mem-filter_iff,
  Bool-cases, sort, mem-sort_iff, unique, includes-unique, if◌then◌else◌,
}
use tomorrowedge.ControlPlane.Paths.{normalize_path}
use tomorrowedge.ControlPlane.Workspace.{
  Files, WorkspaceSnapshot, lookup, keys, differs, diff_snapshots, is_space, trim, trim_start,
  trim_end, git_line_path, drop_status, last_part,
}

includes_iff : (xs : List String) (s : String) → (includes xs s ≡ true) ↔ Memᴰ s xs
includes_iff [] s = (λ h. cc, λ m. elim m [ ])
includes_iff (x ∷ xs) s =
    let rest = includes_iff xs s in
    (
      λ h. elim (Bool-cases (x == s)) [
        | inl e ↦ Memᴰ.head (sym ((eq_iff x s).0 e))
        | inr e ↦ Memᴰ.tail (rest.0 (ground (arith, h, e)))
      ],
      λ m. includes_cons x xs s rest.1 m,
    )
  where
    includes_cons :
        (x : String) (xs : List String) (s : String)
        → (Memᴰ s xs → includes xs s ≡ true)
        → Memᴰ s (x ∷ xs)
        → includes (x ∷ xs) s ≡ true
    includes_cons x xs s h (Memᴰ.head e) = ground (arith, (eq_iff x s).1 (sym e))
    includes_cons x xs s h (Memᴰ.tail m) = ground (arith, h m)

lookup_of_missing :
    (key : String) (files : Files) → includes (keys files) key ≡ false → lookup key files ≡ none
unfolding lookup
lookup_of_missing key [] h = refl
lookup_of_missing key ((k, v) ∷ files) h = ground (arith, lookup_of_missing key files, h)

includes-append :
    (xs ys : List String) (s : String) → includes (xs ++ ys) s ≡ (includes xs s || includes ys s)
includes-append [] ys s = refl
includes-append (x ∷ xs) ys s = ground (arith, includes-append xs ys s)

differs_iff : (a b : Option String) → (differs a b ≡ true) ↔ (a ≢ b)
differs_iff none none = (λ h e. cc, λ h. absurd (h refl))
differs_iff none (some b) = (λ h e. cc, λ h. refl)
differs_iff (some a) none = (λ h e. cc, λ h. refl)
differs_iff (some a) (some b) = elim (Bool-cases (a == b)) [
  | inl e ↦ rw e ((λ h. cc, λ h. absurd (h (ap some ((eq_iff a b).0 e)))))
  | inr e ↦ rw e ((λ h k. ground (arith, (eq_iff a b).1 (eq_of_some k), e), λ h. refl))
]

missing_agree :
    (before after : WorkspaceSnapshot) (key : String)
    → includes (unique [] (keys before.files ++ keys after.files)) key ≡ false
    → lookup key before.files ≡ lookup key after.files
missing_agree before after key h =
    let seen = includes-unique [] (keys before.files ++ keys after.files) key in
    let split = includes-append (keys before.files) (keys after.files) key in
    lookup_of_missing key before.files (ground (arith, seen, split, h))
    ∙ sym (lookup_of_missing key after.files (ground (arith, seen, split, h)))

-- The comparison of two snapshots reports exactly the paths that they do not agree on: added,
-- removed or with another digest.
diff_snapshots-mem_iff :
    (before after : WorkspaceSnapshot) (key : String)
    → Memᴰ key (diff_snapshots before after) ↔ (lookup key before.files ≢ lookup key after.files)
unfolding diff_snapshots
diff_snapshots-mem_iff before after key =
    let all_keys = unique [] (keys before.files ++ keys after.files) in
    let split =
      mem-filter_iff (λ k. differs (lookup k before.files) (lookup k after.files)) (sort all_keys)
        key in
    let test = differs_iff (lookup key before.files) (lookup key after.files) in
    (
      λ m. test.0 (split.0 m).1,
      λ h. split.1 (
        (mem-sort_iff all_keys key).1 (
            (includes_iff all_keys key).0 (elim (Bool-cases (includes all_keys key)) [
              | inl e ↦ e
              | inr e ↦ absurd (h (missing_agree before after key e))
            ])),
        test.1 h,
      ),
    )

trim_start-cons :
    (c : Char) (s : String)
    → is_space (code c) ≡ false
    → trim_start (String.◌∷◌ c s) ≡ String.◌∷◌ c s
unfolding trim_start
trim_start-cons c s h = ap (λ b. if b then trim_start s else String.◌∷◌ c s) h

trim_end-cons :
    (c : Char) (s : String)
    → is_space (code c) ≡ false
    → trim_end (String.◌∷◌ c s) ≡ String.◌∷◌ c (trim_end s)
unfolding trim_end
trim_end-cons c s h = ap (λ b. if b && trim_end s == "" then "" else String.◌∷◌ c (trim_end s)) h

not_empty : (c : Char) (s : String) → (String.◌∷◌ c s == "") ≡ false
not_empty c s = elim (Bool-cases (String.◌∷◌ c s == "")) [
  | inl e ↦ let k = (eq_iff (String.◌∷◌ c s) "").0 e in cc
  | inr e ↦ e
]

-- The white space that stands before something else stays.
trim_end-space :
    (c : Char) (s : String)
    → is_space (code c) ≡ false
    → trim_end (String.◌∷◌ " " (String.◌∷◌ c s)) ≡ String.◌∷◌ " " (String.◌∷◌ c (trim_end s))
unfolding trim_end
trim_end-space c s h =
    ap (λ t. if t == "" then "" else String.◌∷◌ " " t) (trim_end-cons c s h)
    ∙ ap (λ b. if b then "" else String.◌∷◌ " " (String.◌∷◌ c (trim_end s)))
        (not_empty c (trim_end s))

drop_status-cons :
    (a b c : Char) (s : String)
    → is_space (code c) ≡ false
    → drop_status (String.◌∷◌ a (String.◌∷◌ b (String.◌∷◌ c s)))
      ≡ String.◌∷◌ a (String.◌∷◌ b (String.◌∷◌ c s))
unfolding drop_status
drop_status-cons a b c s h =
    ap (λ t. if t then trim_start s else String.◌∷◌ a (String.◌∷◌ b (String.◌∷◌ c s))) h

trim_unstaged :
    (letter first : Char) (rest : String)
    → is_space (code letter) ≡ false
    → is_space (code first) ≡ false
    → trim (String.◌∷◌ " " (String.◌∷◌ letter (String.◌∷◌ " " (String.◌∷◌ first rest))))
      ≡ String.◌∷◌ letter (String.◌∷◌ " " (String.◌∷◌ first (trim_end rest)))
unfolding trim trim_start
trim_unstaged letter first rest h k =
    let line = String.◌∷◌ " " (String.◌∷◌ first rest) in
    ap trim_end (trim_start-cons letter line h)
    ∙ trim_end-cons letter line h
    ∙ ap (λ t. String.◌∷◌ letter t) (trim_end-space first rest k)

-- A line of an unstaged change, ` M path`, is trimmed before its status is cut off: what is cut
-- off needs white space behind two characters, and the path begins there. The letter stays part
-- of the path.
unstaged_line_keeps_status :
    (letter first : Char) (rest : String)
    → is_space (code letter) ≡ false
    → is_space (code first) ≡ false
    → has_text (String.◌∷◌ letter (String.◌∷◌ " " (String.◌∷◌ first (trim_end rest)))) " -> "
      ≡ false
    → git_line_path
        (trim (String.◌∷◌ " " (String.◌∷◌ letter (String.◌∷◌ " " (String.◌∷◌ first rest)))))
      ≡ normalize_path (String.◌∷◌ letter (String.◌∷◌ " " (String.◌∷◌ first (trim_end rest))))
unfolding git_line_path
unstaged_line_keeps_status letter first rest h k plain =
    let trimmed = String.◌∷◌ letter (String.◌∷◌ " " (String.◌∷◌ first (trim_end rest))) in
    ap git_line_path (trim_unstaged letter first rest h k)
    ∙ ap (λ t. normalize_path (if has_text t " -> " then last_part 0 "" t else t))
        (drop_status-cons letter " " first (trim_end rest) k)
    ∙ ap (λ b. normalize_path (if b then last_part 0 "" trimmed else trimmed)) plain
