-- ===== src/Safety/Inside/Laws.antt =====
-- What `isInside` and `resolveInside` of src/core/tools/fsTool.ts let through, and that the path
-- check of src/core/patch/patchValidator.ts agrees with them.
use tomorrowedge.Prelude.{
  ◌≡◌, refl, sym, ap, ◌∙◌, subst, ◌↔◌, inl, inr, String, Bool, true, false, not, ◌&&◌, ◌||◌, List,
  [], ◌∷◌, ◌++◌, ◌==◌, eq_iff, eq_refl, join, starts_with, Bool-cases, All, arith,
}
use tomorrowedge.Safety.Inside.{AbsolutePath, relative_names, is_inside}
use tomorrowedge.Safety.Inside.Names.{Plain, starts_upward-join, join-Plain}

-- The first name starts with two dots.
abbrev pub goes_up : List String → Bool
goes_up [] = false
goes_up (n ∷ ns) = starts_with n ".."

-- `candidate` is `root` or below it, by names of which the first does not start with two dots.
pub record LiesWithin (root candidate : AbsolutePath) : Type 0 where
  pub rest : List String
  pub below : candidate ≡ root ++ rest
  pub forward : goes_up rest ≡ false

data Relation (root candidate : AbsolutePath) : List String → Type 0 where
  within : (rest : List String) → candidate ≡ root ++ rest → Relation root candidate rest
  apart : (more : List String) → Relation root candidate (".." ∷ more)

relative-Relation :
    (root candidate : AbsolutePath) → Relation root candidate (relative_names root candidate)
unfolding relative_names
relative-Relation [] cs = within cs refl
relative-Relation (r ∷ rs) [] = apart _
relative-Relation (r ∷ rs) (c ∷ cs) = elim (Bool-cases (r == c)) [
  | inl e ↦ rw e (deeper (relative-Relation rs cs) ((eq_iff r c).0 e))
  | inr e ↦ rw e (apart _)
]
  where
    deeper : {names : List String} → Relation rs cs names → r ≡ c → Relation (r ∷ rs) (c ∷ cs) names
    deeper (within rest p) e = within rest (λ i. sym e i ∷ p i)
    deeper (apart more) e = apart more

relative-append : (root rest : AbsolutePath) → relative_names root (root ++ rest) ≡ rest
unfolding relative_names
relative-append [] rest = refl
relative-append (r ∷ rs) rest = rw (eq_refl r) (relative-append rs rest)

All-append : (xs ys : List String) → All Plain (xs ++ ys) → All Plain ys
All-append [] ys h = h
All-append (x ∷ xs) ys h = All-append xs ys h.1

-- The test of the relative text, where its names are plain.
inside_text :
    (names : List String)
    → All Plain names
    → (let relative = join "/" names in
        relative == ""
        || not (relative == "")
          && not (starts_with relative "..")
          && not (starts_with relative "/"))
      ≡ not (goes_up names)
inside_text [] h = refl
inside_text (n ∷ ns) h =
    rw (starts_upward-join n ns, (join-Plain n ns h.0).0, (join-Plain n ns h.0).1) (ground arith)

inside_text_apart :
    (more : List String)
    → (let relative = join "/" (".." ∷ more) in
        relative == ""
        || not (relative == "")
          && not (starts_with relative "..")
          && not (starts_with relative "/"))
      ≡ false
inside_text_apart more =
    rw (starts_upward-join ".." more, (join-Plain ".." more (refl, refl)).0) refl

-- `isInside` answers true exactly for the root and for what lies below it by names of which the
-- first does not start with two dots, where the names of the candidate are those of a resolved
-- path.
pub is_inside_iff :
    (root candidate : AbsolutePath)
    → All Plain candidate
    → (is_inside root candidate ≡ true) ↔ LiesWithin root candidate
unfolding is_inside
is_inside_iff root candidate plain =
    (λ h. from (relative-Relation root candidate) h, λ w. onto w (subst (All Plain) w.below plain))
  where
    from :
        {names : List String}
        → Relation root candidate names
        → (let relative = join "/" names in
            relative == ""
            || not (relative == "")
              && not (starts_with relative "..")
              && not (starts_with relative "/"))
          ≡ true
        → LiesWithin root candidate
    from (within rest e) h =
        let kept = inside_text rest (All-append root rest (subst (All Plain) e plain)) in
        record { rest = rest; below = e; forward = ground (arith, sym kept ∙ h) }
    from (apart more) h = absurd (cc (sym (inside_text_apart more) ∙ h))

    onto :
        (w : LiesWithin root candidate)
        → All Plain (root ++ w.rest)
        → is_inside root candidate ≡ true
    onto w named = rw w.below (
        rw (is_inside, relative-append root w.rest)
          (inside_text w.rest (All-append root w.rest named) ∙ ap not w.forward))
