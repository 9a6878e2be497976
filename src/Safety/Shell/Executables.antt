-- ===== src/Safety/Shell/Executables.antt =====
-- The names under which src/safety/shellGuard.ts looks for an executable, `normalizeExecutable`.
use Prim.Native.Char.{Char}
use tomorrowedge.Prelude.{
  ℕ, suc, ◌+◌, ◌⊎◌, inl, inr, ◌≡◌, refl, sym, ap, ◌∙◌, ◌↔◌, subst, String, Bool, true, false, [],
  ◌∷◌, eq_iff, includes, append, arith, Bool-cases,
}
use tomorrowedge.Safety.Letters.{to_lower}
use tomorrowedge.Safety.Shell.{drop_extension, normalize_executable}

-- An ending that is dropped, in any case of its letters.
abbrev IsEnding : String → Type 0
IsEnding s =
    (to_lower s ≡ ".cmd")
    ⊎ ((to_lower s ≡ ".exe") ⊎ ((to_lower s ≡ ".bat") ⊎ (to_lower s ≡ ".ps1")))

-- The name is the lower-case text without its ending, or the whole of it where it has none.
abbrev pub HasName : String → String → Type 0
HasName executable name =
    ((ending : String) × IsEnding ending × (to_lower executable ≡ append name ending))
    ⊎ ((name ≡ to_lower executable)
        × ((before ending : String)
            → to_lower executable ≡ append before ending
            → ¬ IsEnding ending))

abbrev is_ending : String → Bool
is_ending s = includes (".cmd" ∷ ".exe" ∷ ".bat" ∷ ".ps1" ∷ []) (to_lower s)

is_ending_iff : (s : String) → (is_ending s ≡ true) ↔ IsEnding s
is_ending_iff s = ground (
  arith,
  eq_iff ".cmd" (to_lower s),
  eq_iff ".exe" (to_lower s),
  eq_iff ".bat" (to_lower s),
  eq_iff ".ps1" (to_lower s),
)

-- How many characters the text has.
size : String → ℕ
size String.[] = 0
size (String.◌∷◌ c s) = suc (size s)

size-append : (s t : String) → size (append s t) ≡ size s + size t
unfolding size
size-append String.[] t = omega arith
size-append (String.◌∷◌ c s) t = omega (arith, size-append s t)

size-to_lower : (s : String) → size (to_lower s) ≡ size s
unfolding size to_lower
size-to_lower String.[] = refl
size-to_lower (String.◌∷◌ c s) = ap suc (size-to_lower s)

-- The four endings have four characters.
size-IsEnding : (s : String) → IsEnding s → size s ≡ 4
unfolding size
size-IsEnding s (inl e) = sym (size-to_lower s) ∙ ap size e
size-IsEnding s (inr (inl e)) = sym (size-to_lower s) ∙ ap size e
size-IsEnding s (inr (inr (inl e))) = sym (size-to_lower s) ∙ ap size e
size-IsEnding s (inr (inr (inr e))) = sym (size-to_lower s) ∙ ap size e

false_of : (s : String) → ¬ IsEnding s → is_ending s ≡ false
false_of s h = elim (Bool-cases (is_ending s)) [
  | inl e ↦ absurd (h ((is_ending_iff s).0 e))
  | inr e ↦ e
]

empty-not-IsEnding : ¬ IsEnding ""
empty-not-IsEnding h = let four = size-IsEnding "" h in unfold size in absurd (cc four)

-- The name of a text that is in lower case already.
abbrev IsStem : String → String → Type 0
IsStem whole name =
    ((ending : String) × IsEnding ending × (whole ≡ append name ending))
    ⊎ ((name ≡ whole)
        × ((before ending : String) → whole ≡ append before ending → ¬ IsEnding ending))

-- What is dropped is an ending, and is the last of the text.
drop-append : (name ending : String) → IsEnding ending → drop_extension (append name ending) ≡ name
unfolding drop_extension size
drop-append String.[] String.[] h = refl
drop-append String.[] (String.◌∷◌ c s) h = rw ((is_ending_iff (String.◌∷◌ c s)).1 h) refl
drop-append (String.◌∷◌ c name) ending h =
    let long : ¬ IsEnding (String.◌∷◌ c (append name ending)) = λ k.
      let four = size-IsEnding (String.◌∷◌ c (append name ending)) k in
      let three = size-IsEnding ending h in
      absurd (omega (arith, four, three, size-append name ending)) in
    rw (false_of _ long) (ap (String.◌∷◌ c) (drop-append name ending h))

drop_nothing :
    (whole : String)
    → ((before ending : String) → whole ≡ append before ending → ¬ IsEnding ending)
    → drop_extension whole ≡ whole
unfolding drop_extension
drop_nothing String.[] h = refl
drop_nothing (String.◌∷◌ c s) h = rw (false_of _ (h "" (String.◌∷◌ c s) refl)) (
    ap (String.◌∷◌ c)
      (drop_nothing s (λ before ending e. h (String.◌∷◌ c before) ending (ap (String.◌∷◌ c) e))))

drop_unique : (whole name : String) → IsStem whole name → name ≡ drop_extension whole
drop_unique whole name (inl (ending, is, e)) =
    sym (drop-append name ending is) ∙ ap drop_extension (sym e)
drop_unique whole name (inr (e, h)) = e ∙ sym (drop_nothing whole h)

IsStem-cons :
    (c : Char) (s name : String)
    → ¬ IsEnding (String.◌∷◌ c s)
    → IsStem s name
    → IsStem (String.◌∷◌ c s) (String.◌∷◌ c name)
IsStem-cons c s name unended (inl (ending, is, e)) = inl (ending, is, ap (String.◌∷◌ c) e)
IsStem-cons c s name unended (inr (e, h)) = inr (ap (String.◌∷◌ c) e, further)
  where
    further : (before ending : String) → String.◌∷◌ c s ≡ append before ending → ¬ IsEnding ending
    further String.[] ending e k = unended (subst IsEnding (sym e) k)
    further (String.◌∷◌ b before) ending e k = h before ending (cc e) k

drop-IsStem : (whole : String) → IsStem whole (drop_extension whole)
unfolding drop_extension
drop-IsStem String.[] = inr (refl, nothing)
  where
    nothing : (before ending : String) → "" ≡ append before ending → ¬ IsEnding ending
    nothing String.[] ending e k = empty-not-IsEnding (subst IsEnding (sym e) k)
    nothing (String.◌∷◌ b before) ending e k = cc
drop-IsStem (String.◌∷◌ c s) = elim (Bool-cases (is_ending (String.◌∷◌ c s))) [
  | inl e ↦ rw e (inl (String.◌∷◌ c s, (is_ending_iff (String.◌∷◌ c s)).0 e, refl))
  | inr e ↦
      let unended : ¬ IsEnding (String.◌∷◌ c s) =
        λ k. let yes = (is_ending_iff (String.◌∷◌ c s)).1 k in cc in
      rw e (IsStem-cons c s (drop_extension s) unended (drop-IsStem s))
]

pub normalize-HasName : (executable : String) → HasName executable (normalize_executable executable)
unfolding normalize_executable
normalize-HasName executable = drop-IsStem (to_lower executable)

pub HasName-unique :
    (executable name : String) → HasName executable name → name ≡ normalize_executable executable
unfolding normalize_executable
HasName-unique executable name h = drop_unique (to_lower executable) name h
