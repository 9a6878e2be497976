-- ===== src/Safety/Inside/Resolving/Ancestors.antt =====
-- The nearest ancestor that exists, and that the fuel for it is enough.
use tomorrowedge.Prelude.{
  ℕ, zero, suc, ◌<◌, ◌≡◌, refl, ap, ◌∙◌, ◌⊎◌, inl, inr, true, false, [], ◌∷◌, Bool-cases, arith,
  length, is_empty,
}
use tomorrowedge.Safety.Inside.{
  AbsolutePath, FileTree, dirname, is_inside, nearest_from, nearest_existing_ancestor,
}

length-dirname : (p : AbsolutePath) → is_empty p ≡ false → suc (length (dirname p)) ≡ length p
length-dirname [] h = cc
length-dirname (n ∷ []) h = refl
length-dirname (n ∷ m ∷ ns) h = ap suc (length-dirname (m ∷ ns) refl)

-- More fuel than the path has names makes no difference.
nearest_fuel :
    (tree : FileTree) (fuel : ℕ) (root current : AbsolutePath)
    → length current < fuel
    → nearest_from tree fuel root current ≡ nearest_from tree (suc (length current)) root current
unfolding nearest_from
nearest_fuel tree zero root current h = absurd (omega arith)
nearest_fuel tree (suc fuel) root current h = elim (Bool-cases (is_empty current)) [
  | inl e ↦ rw (nearest_from, e) refl
  | inr e ↦
      let shorter = length-dirname current e in
      let here = nearest_fuel tree fuel root (dirname current) (omega arith) in
      let there = ap (λ n. nearest_from tree n root (dirname current)) shorter in
      rw (nearest_from, here ∙ there) refl
]

-- An ancestor of a path, or the path.
pub data Above (p : AbsolutePath) : AbsolutePath → Type 0 where
  self : Above p p
  up : {q : AbsolutePath} → Above p q → Above p (dirname q)

-- What the loop ends with: the root, or a directory on the way up that exists and lies inside.
pub record IsAnchor (tree : FileTree) (root start found : AbsolutePath) : Type 0 where
  pub exists : tree.exists found ≡ true
  pub inside : is_inside root found ≡ true
  pub above : Above start found

from_parent :
    {tree : FileTree} {root start found : AbsolutePath}
    → IsAnchor tree root (dirname start) found
    → IsAnchor tree root start found
from_parent {start} a = record { exists = a.exists; inside = a.inside; above = lift a.above }
  where
    lift : {p : AbsolutePath} → Above (dirname start) p → Above start p
    lift self = up self
    lift (up r) = up (lift r)

nearest-IsAnchor :
    (tree : FileTree) (fuel : ℕ) (root start : AbsolutePath)
    → (nearest_from tree fuel root start ≡ root)
      ⊎ IsAnchor tree root start (nearest_from tree fuel root start)
unfolding nearest_from
nearest-IsAnchor tree zero root start = inl refl
nearest-IsAnchor tree (suc fuel) root start = elim (Bool-cases (is_inside root start)) [
  | inr e ↦ rw e (inl refl)
  | inl e ↦ elim (Bool-cases (tree.exists start)) [
    | inl x ↦ rw (e, x) (inr (record { exists = x; inside = e; above = self }))
    | inr x ↦ elim (Bool-cases (is_empty start)) [
      | inl z ↦ rw (e, x, z) (inl refl)
      | inr z ↦
          rw (e, x, z)
            (elim (nearest-IsAnchor tree fuel root (dirname start)) [
              | inl r ↦ inl r
              | inr a ↦ inr (from_parent a)
            ])
    ]
  ]
]

-- The loop over the ancestors ends by its own tests: more fuel than the path has names gives what
-- `nearestExistingAncestor` returns, and that is the root or an ancestor that exists and lies
-- inside.
pub nearest-IsAnchor_of_fuel :
    (tree : FileTree) (fuel : ℕ) (root start : AbsolutePath)
    → length start < fuel
    → (nearest_from tree fuel root start ≡ nearest_existing_ancestor tree root start)
      × ((nearest_existing_ancestor tree root start ≡ root)
          ⊎ IsAnchor tree root start (nearest_existing_ancestor tree root start))
unfolding nearest_existing_ancestor
nearest-IsAnchor_of_fuel tree fuel root start h =
    (nearest_fuel tree fuel root start h, nearest-IsAnchor tree (suc (length start)) root start)
