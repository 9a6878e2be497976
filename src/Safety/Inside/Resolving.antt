-- ===== src/Safety/Inside/Resolving.antt =====
-- What `resolveInside` of src/core/tools/fsTool.ts returns, and that the path check of
-- src/core/patch/patchValidator.ts lets the same paths through.
pub mod Ancestors
pub use tomorrowedge.Safety.Inside.Resolving.Ancestors.{nearest-IsAnchor_of_fuel, up}
use tomorrowedge.Prelude.{
  ℕ, zero, suc, ◌<◌, ◌≡◌, refl, sym, ap, ◌∙◌, subst, ◌⊎◌, ◌↔◌, inl, inr, String, Bool, true, false,
  [], ◌∷◌, Bool-cases, All, arith, length, is_empty,
}
use tomorrowedge.ControlPlane.Specs.{Attempt, returned, threw}
use tomorrowedge.ControlPlane.Effects.{Attempt-cases}
use tomorrowedge.Safety.Inside.{
  AbsolutePath, FileTree, dirname, resolve_root, resolve, is_inside, nearest_from,
  nearest_existing_ancestor, escapes_real_project_root, resolve_inside, is_path_traversal,
  real_path_outside, parent_outside, target_escapes, fails_closed,
}
use tomorrowedge.Safety.Inside.Names.{Plain, resolve-Plain}
use tomorrowedge.Safety.Inside.Laws.{LiesWithin, is_inside_iff}

-- What `resolveInside` returns for a path.
pub record IsResolved (tree : FileTree) (cwd relative_path : String) (p : AbsolutePath)
    : Type 0 where
  pub is : p ≡ resolve cwd relative_path
  pub within : LiesWithin (resolve_root cwd) p
  pub real_root : AbsolutePath
  pub root_is : tree.realpath (resolve_root cwd) ≡ returned real_root
  pub real_parent : AbsolutePath
  pub parent_is :
      tree.realpath (nearest_existing_ancestor tree (resolve_root cwd) (dirname p))
      ≡ returned real_parent
  pub parent_within : LiesWithin real_root real_parent
  pub target_within :
      (q : AbsolutePath)
      → tree.exists p ≡ true
      → tree.realpath p ≡ returned q
      → LiesWithin real_root q

target_kept :
    (tree : FileTree) (real_root p q : AbsolutePath)
    → tree.exists p ≡ true
    → tree.realpath p ≡ returned q
    → target_escapes tree real_root p ≡ returned false
    → is_inside real_root q ≡ true
unfolding target_escapes
target_kept tree real_root p q exists real = elim (Bool-cases (is_inside real_root q)) [
  | inl e ↦ λ h. e
  | inr e ↦ rw (exists, real, e) (λ h. absurd (cc h))
]

-- `resolveInside` returns exactly where the path lies inside and does not escape.
resolve_inside_iff :
    (tree : FileTree) (cwd relative_path : String) (p : AbsolutePath)
    → (resolve_inside tree cwd relative_path ≡ returned p) ↔ (
        (is_inside (resolve_root cwd) (resolve cwd relative_path) ≡ true)
        × (escapes_real_project_root tree (resolve_root cwd) (resolve cwd relative_path)
            ≡ returned false)
        × (resolve cwd relative_path ≡ p))
unfolding resolve_inside
resolve_inside_iff tree cwd relative_path p = (
  elim (Bool-cases (is_inside (resolve_root cwd) (resolve cwd relative_path))) [
    | inr e ↦ rw e (λ h. absurd (cc h))
    | inl e ↦
        elim (Attempt-cases
          (escapes_real_project_root tree (resolve_root cwd) (resolve cwd relative_path))) [
            | inr (m, f) ↦ rw (e, f) (λ h. absurd (cc h))
            | inl (true, f) ↦ rw (e, f) (λ h. absurd (cc h))
            | inl (false, f) ↦ rw (e, f) (λ h. (refl, refl, cc h))
          ]
  ],
  λ (e, f, g). rw (e, f, g) refl,
)

module _ (tree : FileTree) (cwd relative_path : String)
    (named : (p q : AbsolutePath) → tree.realpath p ≡ returned q → All Plain q) where
  not_escaping :
      escapes_real_project_root tree (resolve_root cwd) (resolve cwd relative_path) ≡ returned false
      → is_inside (resolve_root cwd) (resolve cwd relative_path) ≡ true
      → IsResolved tree cwd relative_path (resolve cwd relative_path)
  unfolding escapes_real_project_root target_escapes
  not_escaping = elim (Attempt-cases (tree.realpath (resolve_root cwd))) [
    | inr (m, e) ↦ rw e (λ h. absurd (cc h))
    | inl (real_root, e) ↦
        elim (Attempt-cases (
          tree.realpath (
            nearest_existing_ancestor tree (resolve_root cwd)
              (dirname (resolve cwd relative_path))))) [
                | inr (m, f) ↦ rw (e, f) (λ h. absurd (cc h))
                | inl (real_parent, f) ↦ elim (Bool-cases (is_inside real_root real_parent)) [
                  | inr g ↦ rw (e, f, g) (λ h. absurd (cc h))
                  | inl g ↦
                      rw (e, f, g)
                        (λ h inside. record {
                          is = refl;
                          within =
                              (is_inside_iff (resolve_root cwd) (resolve cwd relative_path)
                                  (resolve-Plain cwd relative_path)).0
                                inside;
                          real_root = real_root;
                          root_is = e;
                          real_parent = real_parent;
                          parent_is = f;
                          parent_within = (is_inside_iff real_root real_parent (named _ _ f)).0 g;
                          target_within = λ q exists real.
                              (is_inside_iff real_root q (named _ _ real)).0 (
                                target_kept tree real_root (resolve cwd relative_path) q exists real
                                  h);
                        })
                ]
              ]
  ]

  -- What `resolveInside` returns is the resolved path, and it lies within the root; the real path
  -- of the nearest ancestor that exists lies within the real path of the root, and so does its
  -- own, if it exists. The names that `realpath` gives are those of a resolved path.
  pub resolve_inside-IsResolved :
      (p : AbsolutePath)
      → resolve_inside tree cwd relative_path ≡ returned p
      → IsResolved tree cwd relative_path p
  resolve_inside-IsResolved p h =
      let (inside, kept, e) = (resolve_inside_iff tree cwd relative_path p).0 h in
      subst (IsResolved tree cwd relative_path) e (not_escaping kept inside)

-- Behind the test of the parent both checks ask the same.
same_target :
    (tree : FileTree) (real_root p : AbsolutePath)
    → (tree.exists p ≡ true) ↔ ((q : AbsolutePath) × (tree.realpath p ≡ returned q))
    → target_escapes tree real_root p ≡ returned (real_path_outside real_root (tree.realpath p))
unfolding target_escapes real_path_outside
same_target tree real_root p known = elim (Attempt-cases (tree.realpath p)) [
  | inl (q, e) ↦ rw (known.1 (q, e), e) refl
  | inr (m, e) ↦ elim (Bool-cases (tree.exists p)) [
    | inr x ↦ rw (x, e) refl
    | inl x ↦ absurd (cc (sym (known.0 x).1 ∙ e))
  ]
]

same_parent :
    (tree : FileTree) (root p : AbsolutePath)
    → (tree.exists p ≡ true) ↔ ((q : AbsolutePath) × (tree.realpath p ≡ returned q))
    → escapes_real_project_root tree root p ≡ parent_outside tree root p
unfolding escapes_real_project_root parent_outside
same_parent tree root p known = elim (Attempt-cases (tree.realpath root)) [
  | inr (m, e) ↦ rw e refl
  | inl (real_root, e) ↦
      elim (Attempt-cases (tree.realpath (nearest_existing_ancestor tree root (dirname p)))) [
        | inr (m, f) ↦ rw (e, f) refl
        | inl (real_parent, f) ↦ elim (Bool-cases (is_inside real_root real_parent)) [
          | inr g ↦ rw (e, f, g) refl
          | inl g ↦ rw (e, f, g) (same_target tree real_root p known)
        ]
      ]
]

-- The patch validator lets a path through exactly where `resolveInside` returns its resolved path,
-- if a path exists exactly where it has a real path.
pub is_path_traversal_iff :
    (tree : FileTree) (cwd relative_path : String)
    → ((p : AbsolutePath)
        → (tree.exists p ≡ true) ↔ ((q : AbsolutePath) × (tree.realpath p ≡ returned q)))
    → (is_path_traversal tree cwd relative_path ≡ false)
      ↔ (resolve_inside tree cwd relative_path ≡ returned (resolve cwd relative_path))
unfolding is_path_traversal
is_path_traversal_iff tree cwd relative_path known =
    let root = resolve_root cwd in
    let resolved = resolve cwd relative_path in
    let same = same_parent tree root resolved (known resolved) in
    let iff = resolve_inside_iff tree cwd relative_path resolved in
    elim (Bool-cases (is_inside root resolved)) [
      | inr e ↦ rw e (λ h. absurd (cc h), λ h. absurd (cc (sym e ∙ (iff.0 h).0)))
      | inl e ↦ rw e (
        λ h. iff.1 (e, same ∙ closed_false (parent_outside tree root resolved) h, refl),
        λ h. ap fails_closed (sym same ∙ (iff.0 h).1),
      )
    ]
  where
    closed_false : (x : Attempt Bool) → fails_closed x ≡ false → x ≡ returned false
    closed_false (threw m) h = cc h
    closed_false (returned b) h = ap returned h
