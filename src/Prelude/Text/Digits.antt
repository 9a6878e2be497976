-- ===== src/Prelude/Text/Digits.antt =====
-- A printed number is at least one digit, and nothing else.
use Prim.Native.Nat.{ℕ, zero, suc, ◌/◌, ◌%◌, ◌<◌}
use Prim.Native.Char.{code}
use Prim.Native.String.{String}
use mathlib.Core.Path.{◌≡◌, refl}
use mathlib.Core.Bool.{Bool, true, false}
use mathlib.Core.Logic.{inl, inr}
use native.Mathlib.Omega.{arith}
use text.Mathlib.Text.{◌==◌}
use tomorrowedge.Prelude.Tests.{if◌then◌else◌, Bool-cases, and-eq-true, ltb, eqb}
use tomorrowedge.Prelude.TextLaws.{cons-eq-empty}
use tomorrowedge.Prelude.Text.{append, digit, show, show_on, is_digit, all_chars}

abbrev pub Number : String → Type 0
Number s = ((s == "") ≡ false) × (all_chars is_digit s ≡ true)

pub all_chars-append :
    (p : ℕ → Bool) (s t : String)
    → all_chars p s ≡ true
    → all_chars p t ≡ true
    → all_chars p (append s t) ≡ true
unfolding all_chars
all_chars-append p String.[] t h k = k
all_chars-append p (String.◌∷◌ c s) t h k =
    let (a, b) = and-eq-true (p (code c)) (all_chars p s) h in rw a (all_chars-append p s t b k)

append-nonempty : (s t : String) → (s == "") ≡ false → (append s t == "") ≡ false
append-nonempty String.[] t h = absurd (cc h)
append-nonempty (String.◌∷◌ c s) t h = cons-eq-empty c (append s t)

if-Number : (b : Bool) (s t : String) → Number s → Number t → Number (if b then s else t)
if-Number true s t h k = h
if-Number false s t h k = k

digit-Number : (n : ℕ) → Number (digit n)
unfolding all_chars
digit-Number n =
    if-Number (eqb n 0) "0" _ (refl, refl)
      (if-Number (eqb n 1) "1" _ (refl, refl)
        (if-Number (eqb n 2) "2" _ (refl, refl)
          (if-Number (eqb n 3) "3" _ (refl, refl)
            (if-Number (eqb n 4) "4" _ (refl, refl)
              (if-Number (eqb n 5) "5" _ (refl, refl)
                (if-Number (eqb n 6) "6" _ (refl, refl)
                  (if-Number (eqb n 7) "7" _ (refl, refl)
                    (if-Number (eqb n 8) "8" "9" (refl, refl) (refl, refl)))))))))

show_on-Number : (fuel n : ℕ) → n < fuel → Number (show_on fuel n)
unfolding show_on
show_on-Number zero n h = absurd (omega arith)
show_on-Number (suc fuel) n h = elim (Bool-cases (ltb n 10)) [
  | inl e ↦ rw e (digit-Number n)
  | inr e ↦
      let front = show_on-Number fuel (n / 10) (ground arith) in
      rw e (
        append-nonempty _ (digit (n % 10)) front.0,
        all_chars-append is_digit _ (digit (n % 10)) front.1 (digit-Number (n % 10)).1,
      )
]

pub show-Number : (n : ℕ) → Number (show n)
unfolding show
show-Number n = show_on-Number (suc n) n (omega arith)
