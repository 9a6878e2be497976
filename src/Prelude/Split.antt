-- ===== src/Prelude/Split.antt =====
-- `s.split(c)` at a single character, and its round trip with `join`.
use Prim.Native.Nat.{ℕ}
use Prim.Native.Char.{Char, code}
use Prim.Native.String.{String}
use mathlib.Core.Path.{◌≡◌, refl, ap, ◌∙◌}
use mathlib.Core.Bool.{true, false, not}
use mathlib.Core.Logic.{inl, inr}
use mathlib.Core.List.{List, [], ◌∷◌}
use native.Mathlib.Omega.{arith}
use text.Mathlib.TextEquality.{Char-path}
use tomorrowedge.Prelude.Tests.{if◌then◌else◌, eqb, Bool-cases, and-eq-true}
use tomorrowedge.Prelude.Lists.{All}
use tomorrowedge.Prelude.Text.{append, join, all_chars}

-- A character before the first of the pieces.
abbrev pub prepend : Char → List String → List String
prepend c [] = String.◌∷◌ c String.[] ∷ []
prepend c (w ∷ ws) = String.◌∷◌ c w ∷ ws

unfoldable pub split_on : Char → String → List String
split_on k String.[] = "" ∷ []
split_on k (String.◌∷◌ c s) =
    let rest = split_on k s in if eqb (code c) (code k) then "" ∷ rest else prepend c rest

abbrev pub Cons : List String → Type 0
Cons [] = ⊥
Cons (w ∷ ws) = Unit

pub split_on-Cons : (k : Char) (s : String) → Cons (split_on k s)
unfolding split_on
split_on-Cons k String.[] = tt
split_on-Cons k (String.◌∷◌ c s) = elim (Bool-cases (eqb (code c) (code k))) [
  | inl e ↦ rw e tt
  | inr e ↦ rw e (prepend-Cons (split_on k s))
]
  where
    prepend-Cons : (ws : List String) → Cons (prepend c ws)
    prepend-Cons [] = tt
    prepend-Cons (w ∷ ws) = tt

join-prepend :
    (separator : String) (c : Char) (ws : List String)
    → join separator (prepend c ws) ≡ String.◌∷◌ c (join separator ws)
join-prepend separator c [] = refl
join-prepend separator c (w ∷ []) = refl
join-prepend separator c (w ∷ v ∷ ws) = refl

join-empty :
    (separator : String) (ws : List String)
    → Cons ws
    → join separator ("" ∷ ws) ≡ append separator (join separator ws)
join-empty separator [] h = elim h [ ]
join-empty separator (w ∷ ws) h = refl

-- What is split and joined by the same character is the text again.
pub join-split_on : (k : Char) (s : String) → join (String.◌∷◌ k String.[]) (split_on k s) ≡ s
unfolding split_on
join-split_on k String.[] = refl
join-split_on k (String.◌∷◌ c s) =
    let separator : String = String.◌∷◌ k String.[] in
    elim (Bool-cases (eqb (code c) (code k))) [
      | inl e ↦
          let same : k ≡ c = Char-path k c (ground arith) in
          rw e (
            join-empty separator (split_on k s) (split_on-Cons k s)
            ∙ (λ i. String.◌∷◌ (same i) (join-split_on k s i)))
      | inr e ↦
          rw e (join-prepend separator c (split_on k s) ∙ ap (String.◌∷◌ c) (join-split_on k s))
    ]

-- No character of the text is `k`.
abbrev pub Free : Char → String → Type 0
Free k s = all_chars (λ c. not (eqb c (code k))) s ≡ true

prepend-Free :
    (k c : Char) (ws : List String)
    → eqb (code c) (code k) ≡ false
    → All (Free k) ws
    → All (Free k) (prepend c ws)
unfolding all_chars
prepend-Free k c [] e h = (rw e refl, tt)
prepend-Free k c (w ∷ ws) e h = (rw e h.0, h.1)

pub split_on-Free : (k : Char) (s : String) → All (Free k) (split_on k s)
unfolding split_on all_chars
split_on-Free k String.[] = (refl, tt)
split_on-Free k (String.◌∷◌ c s) = elim (Bool-cases (eqb (code c) (code k))) [
  | inl e ↦ rw e (refl, split_on-Free k s)
  | inr e ↦ rw e (prepend-Free k c (split_on k s) e (split_on-Free k s))
]

eqb_refl : (n : ℕ) → eqb n n ≡ true
eqb_refl n = ground arith

-- A piece without the character, and what is split behind it.
split_on-append :
    (k : Char) (w t : String) → Free k w → split_on k (append w (String.◌∷◌ k t)) ≡ w ∷ split_on k t
unfolding split_on all_chars
split_on-append k String.[] t h = rw (eqb_refl (code k)) refl
split_on-append k (String.◌∷◌ c w) t h =
    let (differs, rest) = and-eq-true (not (eqb (code c) (code k))) _ h in
    let other : eqb (code c) (code k) ≡ false = ground arith in
    rw (other, split_on-append k w t rest) refl

split_on-piece : (k : Char) (w : String) → Free k w → split_on k w ≡ w ∷ []
unfolding split_on all_chars
split_on-piece k String.[] h = refl
split_on-piece k (String.◌∷◌ c w) h =
    let (differs, rest) = and-eq-true (not (eqb (code c) (code k))) _ h in
    let other : eqb (code c) (code k) ≡ false = ground arith in
    rw (other, split_on-piece k w rest) refl

-- Pieces without the character are what their joined text splits into.
pub split_on-join :
    (k : Char) (w : String) (ws : List String)
    → All (Free k) (w ∷ ws)
    → split_on k (join (String.◌∷◌ k String.[]) (w ∷ ws)) ≡ w ∷ ws
split_on-join k w [] h = split_on-piece k w h.0
split_on-join k w (v ∷ vs) h =
    split_on-append k w (join (String.◌∷◌ k String.[]) (v ∷ vs)) h.0
    ∙ ap (◌∷◌ w) (split_on-join k v vs h.1)
