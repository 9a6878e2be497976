-- ===== src/Safety/Shell/Characters.antt =====
-- What `shellMetacharacters` of src/safety/shellGuard.ts finds in a text.
use Prim.Native.Char.{Char, code}
use tomorrowedge.Prelude.{
  ℕ, ◌⊎◌, inl, inr, ◌≡◌, refl, ap, ◌∙◌, ◌↔◌, String, Bool, true, false, ◌||◌, ◌&&◌, eqb, append,
  arith, Bool-cases,
}
use tomorrowedge.Safety.Shell.{is_shell_character, opens_call, has_metacharacters}

-- `;`, `&`, `|`, a backquote, `<`, `>`, and the ends of lines.
abbrev IsShellCharacter : ℕ → Type 0
IsShellCharacter c =
    (c ≡ 59)
    ⊎ ((c ≡ 38) ⊎ ((c ≡ 124) ⊎ ((c ≡ 96) ⊎ ((c ≡ 60) ⊎ ((c ≡ 62) ⊎ ((c ≡ 13) ⊎ (c ≡ 10)))))))

-- No character of the text is one of the shell, and nowhere stands `$` before `(`.
pub record IsClean (s : String) : Type 0 where
  pub no_character :
      (before after : String) (c : Char)
      → s ≡ append before (String.◌∷◌ c after)
      → ¬ IsShellCharacter (code c)
  pub no_call :
      (before after : String) (c d : Char)
      → s ≡ append before (String.◌∷◌ c (String.◌∷◌ d after))
      → code c ≡ 36
      → ¬ (code d ≡ 40)

is_shell_character_iff : (c : ℕ) → (is_shell_character c ≡ true) ↔ IsShellCharacter c
unfolding is_shell_character
is_shell_character_iff c = ground arith

or-eq-false : (a b : Bool) → (a || b) ≡ false → (a ≡ false) × (b ≡ false)
or-eq-false true b h = cc
or-eq-false false b h = (refl, h)

opens_call_of : (c d : ℕ) → (eqb c 36 && eqb d 40) ≡ false → c ≡ 36 → ¬ (d ≡ 40)
opens_call_of c d h e f = ground arith

IsClean-empty : IsClean ""
IsClean-empty = record {
  no_character = λ before after c e s. first before after c e;
  no_call = λ before after c d e f g. first before (String.◌∷◌ d after) c e;
}
  where
    first : (before after : String) (c : Char) → ¬ ("" ≡ append before (String.◌∷◌ c after))
    first String.[] after c e = cc
    first (String.◌∷◌ b before) after c e = cc

IsClean-cons :
    (c : Char) (s : String)
    → is_shell_character (code c) ≡ false
    → opens_call (code c) s ≡ false
    → IsClean s
    → IsClean (String.◌∷◌ c s)
IsClean-cons c s plain shut clean = record { no_character = character; no_call = call s shut clean }
  where
    character :
        (before after : String) (d : Char)
        → String.◌∷◌ c s ≡ append before (String.◌∷◌ d after)
        → ¬ IsShellCharacter (code d)
    character String.[] after d e h =
        let same : c ≡ d = cc in let there = (is_shell_character_iff (code c)).1 (rw (same) h) in cc
    character (String.◌∷◌ b before) after d e h = clean.no_character before after d (cc e) h

    call :
        (s : String)
        → opens_call (code c) s ≡ false
        → IsClean s
        → (before after : String) (d k : Char)
        → String.◌∷◌ c s ≡ append before (String.◌∷◌ d (String.◌∷◌ k after))
        → code d ≡ 36
        → ¬ (code k ≡ 40)
    call s shut clean (String.◌∷◌ b before) after d k e f g =
        clean.no_call before after d k (cc e) f g
    call String.[] shut clean String.[] after d k e f g = cc
    call (String.◌∷◌ a s) shut clean String.[] after d k e f g =
        let same : c ≡ d = cc in
        let next : a ≡ k = cc in
        opens_call_of (code c) (code a) shut (ap code same ∙ f) (ap code next ∙ g)

has_metacharacters-IsClean : (s : String) → has_metacharacters s ≡ false → IsClean s
unfolding has_metacharacters
has_metacharacters-IsClean String.[] h = IsClean-empty
has_metacharacters-IsClean (String.◌∷◌ c s) h =
    let (plain, h') = or-eq-false (is_shell_character (code c) || opens_call (code c) s) _ h in
    let (a, b) = or-eq-false (is_shell_character (code c)) _ plain in
    IsClean-cons c s a b (has_metacharacters-IsClean s h')

IsClean-tail : (c : Char) (s : String) → IsClean (String.◌∷◌ c s) → IsClean s
IsClean-tail c s clean = record {
  no_character =
      λ before after d e. clean.no_character (String.◌∷◌ c before) after d (ap (String.◌∷◌ c) e);
  no_call =
      λ before after d k e. clean.no_call (String.◌∷◌ c before) after d k (ap (String.◌∷◌ c) e);
}

opens_nothing : (c : Char) (s : String) → IsClean (String.◌∷◌ c s) → opens_call (code c) s ≡ false
opens_nothing c String.[] clean = refl
opens_nothing c (String.◌∷◌ d s) clean =
    let no = clean.no_call "" s c d refl in
    elim (Bool-cases (eqb (code c) 36 && eqb (code d) 40)) [
      | inl e ↦ absurd (ground (arith, no))
      | inr e ↦ e
    ]

plain_of : (c : Char) (s : String) → IsClean (String.◌∷◌ c s) → is_shell_character (code c) ≡ false
plain_of c s clean = elim (Bool-cases (is_shell_character (code c))) [
  | inl e ↦ absurd (clean.no_character "" s c refl ((is_shell_character_iff (code c)).0 e))
  | inr e ↦ e
]

IsClean-has_metacharacters : (s : String) → IsClean s → has_metacharacters s ≡ false
unfolding has_metacharacters
IsClean-has_metacharacters String.[] clean = refl
IsClean-has_metacharacters (String.◌∷◌ c s) clean =
    rw (plain_of c s clean, opens_nothing c s clean)
      (IsClean-has_metacharacters s (IsClean-tail c s clean))

pub has_metacharacters_iff : (s : String) → (has_metacharacters s ≡ false) ↔ IsClean s
has_metacharacters_iff s = (has_metacharacters-IsClean s, IsClean-has_metacharacters s)
