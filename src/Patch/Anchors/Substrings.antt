-- ===== src/Patch/Anchors/Substrings.antt =====
-- The changed part of a line, `changedSubstring` of src/core/patch/patchApplier.ts: both lines are
-- that part between the same beginning and the same end.
use Prim.Native.Char.{Char, code}
use text.Mathlib.TextEquality.{Char-path}
use tomorrowedge.Prelude.{
  ◌≤◌, ◌≡◌, refl, sym, ap, ◌∙◌, subst, inl, inr, String, false, some, ◌==◌, eqb, ltb, append,
  Bool-cases, eq_of_some, arith,
}
use tomorrowedge.Patch.Anchors.{
  behind_prefix, before_suffix, turned_onto, changed_substring, text_length, worthwhile,
}

-- Two texts behind a common beginning.
data Shares (s t s' t' : String) : Type 0 where
  shares : (front : String) → s ≡ append front s' → t ≡ append front t' → Shares s t s' t'

behind_prefix-Shares : (s t : String) → Shares s t (behind_prefix s t).0 (behind_prefix s t).1
unfolding behind_prefix
behind_prefix-Shares String.[] t = shares "" refl refl
behind_prefix-Shares (String.◌∷◌ c s) String.[] = shares "" refl refl
behind_prefix-Shares (String.◌∷◌ c s) (String.◌∷◌ d t) = elim (Bool-cases (eqb (code c) (code d))) [
  | inr e ↦ rw e (shares "" refl refl)
  | inl e ↦
      let same : c ≡ d = Char-path c d (ground arith) in
      rw e (deeper c d same (behind_prefix-Shares s t))
]
  where
    deeper :
        (c d : Char) {s' t' : String}
        → c ≡ d
        → Shares s t s' t'
        → Shares (String.◌∷◌ c s) (String.◌∷◌ d t) s' t'
    deeper c d same (shares front p q) =
        shares (String.◌∷◌ c front) (ap (String.◌∷◌ c) p) (λ i. String.◌∷◌ (sym same i) (q i))

turned_onto-append : (s t u : String) → turned_onto (append s t) u ≡ turned_onto t (turned_onto s u)
turned_onto-append String.[] t u = refl
turned_onto-append (String.◌∷◌ c s) t u = turned_onto-append s t (String.◌∷◌ c u)

turned_onto_rest : (s t u : String) → turned_onto s (append t u) ≡ append (turned_onto s t) u
turned_onto_rest String.[] t u = refl
turned_onto_rest (String.◌∷◌ c s) t u = turned_onto_rest s (String.◌∷◌ c t) u

turned_twice : (s t : String) → turned_onto (turned_onto s t) "" ≡ turned_onto t s
turned_twice String.[] t = refl
turned_twice (String.◌∷◌ c s) t = turned_twice s (String.◌∷◌ c t)

-- A text whose reverse starts with `back` ends with the reverse of `back`.
ends_with_turned :
    (s back s' : String)
    → turned_onto s "" ≡ append back s'
    → s ≡ append (turned_onto s' "") (turned_onto back "")
ends_with_turned s back s' e =
    sym (turned_twice s "")
    ∙ ap (λ r. turned_onto r "") e
    ∙ turned_onto-append back s' ""
    ∙ turned_onto_rest s' "" (turned_onto back "")

before_suffix-ends :
    (s t : String)
    → (back : String) × (s ≡ append (before_suffix s t).0 back)
      × (t ≡ append (before_suffix s t).1 back)
unfolding before_suffix
before_suffix-ends s t = go (behind_prefix-Shares (turned_onto s "") (turned_onto t ""))
  where
    go :
        {s' t' : String}
        → Shares (turned_onto s "") (turned_onto t "") s' t'
        → (back : String) × (s ≡ append (turned_onto s' "") back)
          × (t ≡ append (turned_onto t' "") back)
    go {s'} {t'} (shares front p q) =
        (turned_onto front "", ends_with_turned s front s' p, ends_with_turned t front t' q)

-- The two lines with the changed part between what they share.
pub record IsChange (old_line new_line old_text new_text : String) : Type 0 where
  pub front : String
  pub back : String
  pub old_is : old_line ≡ append front (append old_text back)
  pub new_is : new_line ≡ append front (append new_text back)
  pub some_text : (old_text == "") ≡ false
  pub short : text_length old_text ≤ 80
  pub changed : (old_text == new_text) ≡ false

worthwhile-some :
    (s t s' t' : String)
    → worthwhile s t ≡ some (s', t')
    → (s ≡ s') × (t ≡ t') × ((s == "") ≡ false) × (text_length s ≤ 80) × ((s == t) ≡ false)
worthwhile-some s t s' t' = elim (Bool-cases (s == "")) [
  | inl e ↦ rw (worthwhile, e) (λ h. absurd (cc h))
  | inr e ↦ elim (Bool-cases (ltb 80 (text_length s))) [
    | inl f ↦ rw (worthwhile, e, f) (λ h. absurd (cc h))
    | inr f ↦ elim (Bool-cases (s == t)) [
      | inl g ↦ rw (worthwhile, e, f, g) (λ h. absurd (cc h))
      | inr g ↦
          rw (worthwhile, e, f, g)
            (λ h. (
              ap (λ (p : String × String). p.0) (eq_of_some h),
              ap (λ (p : String × String). p.1) (eq_of_some h),
              refl,
              ground arith,
              refl,
            ))
    ]
  ]
]

-- What counts as the changed part is not empty, has at most 80 characters, differs from what it is
-- replaced by, and replacing it in the old line gives the new one.
pub changed_substring-IsChange :
    (old_line new_line old_text new_text : String)
    → changed_substring old_line new_line ≡ some (old_text, new_text)
    → IsChange old_line new_line old_text new_text
unfolding changed_substring
changed_substring-IsChange old_line new_line old_text new_text h =
    go (behind_prefix-Shares old_line new_line) h
  where
    go :
        {s t : String}
        → Shares old_line new_line s t
        → worthwhile (before_suffix s t).0 (before_suffix s t).1 ≡ some (old_text, new_text)
        → IsChange old_line new_line old_text new_text
    go {s} {t} (shares front p q) k =
        let (back, e, f) = before_suffix-ends s t in
        let (same_old, same_new, some_text, short, changed) =
          worthwhile-some _ _ old_text new_text k in
        record {
          front = front;
          back = back;
          old_is = p ∙ ap (append front) (e ∙ ap (λ r. append r back) same_old);
          new_is = q ∙ ap (append front) (f ∙ ap (λ r. append r back) same_new);
          some_text = subst (λ r. (r == "") ≡ false) same_old some_text;
          short = subst (λ r. text_length r ≤ 80) same_old short;
          changed =
              subst (λ r. (old_text == r) ≡ false) same_new
                (subst (λ r. (r == (before_suffix s t).1) ≡ false) same_old changed);
        }
