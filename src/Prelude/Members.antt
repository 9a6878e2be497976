-- ===== src/Prelude/Members.antt =====
-- Members of a filtered and of a mapped list, and what `any` finds.
use mathlib.Core.Path.{◌≡◌, refl, ◌∙◌, ap, subst, sym}
use mathlib.Core.Logic.{◌↔◌, ◌⊎◌, inl, inr}
use mathlib.Core.Bool.{Bool, true, false, ◌||◌}
use mathlib.Core.Option.{some}
use mathlib.Core.List.{List, [], ◌∷◌, ◌++◌, map, Memᴰ}
use native.Mathlib.Omega.{arith}
use text.Mathlib.TextEquality.{eq_iff}
use tomorrowedge.Prelude.Tests.{if◌then◌else◌, Bool-cases, eq_of_some}
use Prim.Native.String.{String}
use tomorrowedge.Prelude.Lists.{any, filter, find}
use tomorrowedge.Prelude.Text.{text_le, insert_sorted, sort, includes, unique}

module _ {ℓ} {A : Type ℓ} (p : A → Bool) where
  abbrev Found : List A → Type ℓ
  Found xs = (x : A) × Memᴰ x xs × (p x ≡ true)

  Found-tail : {x : A} {xs : List A} → Found xs → Found (x ∷ xs)
  Found-tail (y, m, k) = (y, Memᴰ.tail m, k)

  Found-of_any : (xs : List A) → any p xs ≡ true → Found xs
  Found-of_any [] h = cc
  Found-of_any (x ∷ xs) h =
      let rest = Found-of_any xs in
      elim (Bool-cases (p x)) [
        | inl e ↦ (x, Memᴰ.head refl, e)
        | inr e ↦ Found-tail (rest (ground (arith, e, h)))
      ]

  any_of_found : (xs : List A) (y : A) → Memᴰ y xs → p y ≡ true → any p xs ≡ true
  any_of_found [] y m k = elim m [ ]
  any_of_found (x ∷ xs) y (Memᴰ.head e) k = ground (arith, ap p e, k)
  any_of_found (x ∷ xs) y (Memᴰ.tail m) k = ground (arith, any_of_found xs y m k)

  pub any_iff : (xs : List A) → (any p xs ≡ true) ↔ Found xs
  any_iff xs = (Found-of_any xs, λ (y, m, k). any_of_found xs y m k)

  mem_if :
      (x : A) (xs kept : List A) (y : A) (b : Bool)
      → p x ≡ b
      → (Memᴰ y kept → Memᴰ y xs × (p y ≡ true))
      → Memᴰ y (if b then x ∷ kept else kept)
      → Memᴰ y (x ∷ xs) × (p y ≡ true)
  mem_if x xs kept y true e rest (Memᴰ.head h) = (Memᴰ.head h, ap p h ∙ e)
  mem_if x xs kept y true e rest (Memᴰ.tail m) = let (m', k) = rest m in (Memᴰ.tail m', k)
  mem_if x xs kept y false e rest m = let (m', k) = rest m in (Memᴰ.tail m', k)

  mem_of_filter : (xs : List A) (y : A) → Memᴰ y (filter p xs) → Memᴰ y xs × (p y ≡ true)
  mem_of_filter [] y m = elim m [ ]
  mem_of_filter (x ∷ xs) y m = mem_if x xs (filter p xs) y (p x) refl (mem_of_filter xs y) m

  filter_of_mem : (xs : List A) (y : A) → Memᴰ y xs → p y ≡ true → Memᴰ y (filter p xs)
  filter_of_mem [] y m k = elim m [ ]
  filter_of_mem (x ∷ xs) y (Memᴰ.head e) k =
      let passes : p x ≡ true = sym (ap p e) ∙ k in rw passes (Memᴰ.head e)
  filter_of_mem (x ∷ xs) y (Memᴰ.tail m) k =
      let rest = filter_of_mem xs y m k in
      elim (Bool-cases (p x)) [ inl e ↦ rw e (Memᴰ.tail rest) | inr e ↦ rw e rest ]

  pub mem-filter_iff : (xs : List A) (y : A) → Memᴰ y (filter p xs) ↔ (Memᴰ y xs × (p y ≡ true))
  mem-filter_iff xs y = (mem_of_filter xs y, λ (m, k). filter_of_mem xs y m k)

module _ {ℓ κ} {A : Type ℓ} {B : Type κ} (f : A → B) where
  mem_of_map : (xs : List A) (y : B) → Memᴰ y (map f xs) → (x : A) × Memᴰ x xs × (y ≡ f x)
  mem_of_map [] y m = elim m [ ]
  mem_of_map (x ∷ xs) y (Memᴰ.head h) = (x, Memᴰ.head refl, h)
  mem_of_map (x ∷ xs) y (Memᴰ.tail m) = let (a, m', k) = mem_of_map xs y m in (a, Memᴰ.tail m', k)

  map_of_mem : (xs : List A) (x : A) → Memᴰ x xs → Memᴰ (f x) (map f xs)
  map_of_mem [] x m = elim m [ ]
  map_of_mem (x' ∷ xs) x (Memᴰ.head h) = Memᴰ.head (ap f h)
  map_of_mem (x' ∷ xs) x (Memᴰ.tail m) = Memᴰ.tail (map_of_mem xs x m)

  pub mem-map_iff : (xs : List A) (y : B) → Memᴰ y (map f xs) ↔ ((x : A) × Memᴰ x xs × (y ≡ f x))
  mem-map_iff xs y =
      (mem_of_map xs y, λ (x, m, k). subst (λ z. Memᴰ z (map f xs)) (sym k) (map_of_mem xs x m))

mem-insert_sorted_iff :
    (x : String) (xs : List String) (y : String)
    → (Memᴰ y (insert_sorted x xs) → Memᴰ y (x ∷ xs))
      × (Memᴰ y (x ∷ xs) → Memᴰ y (insert_sorted x xs))
unfolding insert_sorted
mem-insert_sorted_iff x [] y = (λ m. m, λ m. m)
mem-insert_sorted_iff x (z ∷ zs) y =
    let (there, back) = mem-insert_sorted_iff x zs y in
    elim (Bool-cases (text_le x z)) [
      | inl e ↦ rw e ((λ m. m, λ m. m))
      | inr e ↦ rw e (
        (λ m. elim m [
          | Memᴰ.head h ↦ Memᴰ.tail (Memᴰ.head h)
          | Memᴰ.tail n ↦ elim (there n) [
            | Memᴰ.head h ↦ Memᴰ.head h
            | Memᴰ.tail k ↦ Memᴰ.tail (Memᴰ.tail k)
          ]
        ]),
        λ m. elim m [
          | Memᴰ.head h ↦ Memᴰ.tail (back (Memᴰ.head h))
          | Memᴰ.tail n ↦ elim n [
            | Memᴰ.head h ↦ Memᴰ.head h
            | Memᴰ.tail k ↦ Memᴰ.tail (back (Memᴰ.tail k))
          ]
        ],
      )
    ]

pub mem-sort_iff : (xs : List String) (y : String) → Memᴰ y (sort xs) ↔ Memᴰ y xs
unfolding sort
mem-sort_iff [] y = (λ m. m, λ m. m)
mem-sort_iff (x ∷ xs) y =
    let (there, back) = mem-insert_sorted_iff x (sort xs) y in
    let (down, up) = mem-sort_iff xs y in
    (
      λ m. elim (there m) [ Memᴰ.head h ↦ Memᴰ.head h | Memᴰ.tail n ↦ Memᴰ.tail (down n) ],
      λ m. back (elim m [ Memᴰ.head h ↦ Memᴰ.head h | Memᴰ.tail n ↦ Memᴰ.tail (up n) ]),
    )

-- `unique` drops no text.
pub includes-unique :
    (seen xs : List String) (s : String)
    → (includes (unique seen xs) s || includes seen s) ≡ (includes xs s || includes seen s)
unfolding unique
includes-unique seen [] s = refl
includes-unique seen (x ∷ xs) s =
    ground (arith, includes-unique seen xs s, includes-unique (x ∷ seen) xs s, eq_iff x s)

module _ {ℓ} {A : Type ℓ} {x : A} where
  pub mem-append_right : (xs : List A) {ys : List A} → Memᴰ x ys → Memᴰ x (xs ++ ys)
  mem-append_right [] m = m
  mem-append_right (y ∷ xs) m = Memᴰ.tail (mem-append_right xs m)

  pub mem-append_cases : (xs ys : List A) → Memᴰ x (xs ++ ys) → Memᴰ x xs ⊎ Memᴰ x ys
  mem-append_cases [] ys m = inr m
  mem-append_cases (y ∷ xs) ys (Memᴰ.head e) = inl (Memᴰ.head e)
  mem-append_cases (y ∷ xs) ys (Memᴰ.tail m) = elim (mem-append_cases xs ys m) [
    | inl k ↦ inl (Memᴰ.tail k)
    | inr k ↦ inr k
  ]

module _ {ℓ} {A : Type ℓ} (p : A → Bool) where
  pub find-some : (xs : List A) (x : A) → find p xs ≡ some x → Memᴰ x xs × (p x ≡ true)
  find-some [] x = λ h. absurd (cc h)
  find-some (y ∷ ys) x = elim (Bool-cases (p y)) [
    | inl e ↦ rw e (λ h. (Memᴰ.head (sym (eq_of_some h)), ap p (sym (eq_of_some h)) ∙ e))
    | inr e ↦ rw e (λ h. let (m, k) = find-some ys x h in (Memᴰ.tail m, k))
  ]

  pub find-mem : (xs : List A) (y : A) → Memᴰ y xs → p y ≡ true → (x : A) × (find p xs ≡ some x)
  find-mem [] y m h = elim m [ ]
  find-mem (x ∷ xs) y (Memᴰ.head e) h = rw (sym (ap p e) ∙ h) (x, refl)
  find-mem (x ∷ xs) y (Memᴰ.tail m) h = elim (Bool-cases (p x)) [
    | inl e ↦ rw e (x, refl)
    | inr e ↦ rw e (find-mem xs y m h)
  ]
