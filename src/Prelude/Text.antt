-- ===== src/Prelude/Text.antt =====
-- Text: template literals, `join`, `startsWith`, decimal printing, `trim` tests and the order that
-- `sort` uses, over the native text by its own constructors.
pub mod Digits
use Prim.Native.Nat.{ℕ, zero, suc, ◌/◌, ◌%◌, compare as compare_ℕ, Ordering}
use Prim.Native.Char.{code}
use Prim.Native.String.{String}
use mathlib.Core.Bool.{Bool, true, false, ◌||◌, ◌&&◌}
use mathlib.Core.Option.{Option, none, some}
use mathlib.Core.List.{List, [], ◌∷◌}
use text.Mathlib.Text.{◌==◌}
use tomorrowedge.Prelude.Tests.{if◌then◌else◌, eqb, ltb, leb}

abbrev pub append : String → String → String
append String.[] t = t
append (String.◌∷◌ c s) t = String.◌∷◌ c (append s t)

-- A template literal, as the list of its parts.
abbrev pub cat : List String → String
cat [] = ""
cat (s ∷ ss) = append s (cat ss)

-- `items.join(separator)`
abbrev pub join : String → List String → String
join separator [] = ""
join separator (s ∷ []) = s
join separator (s ∷ t ∷ ss) = append s (append separator (join separator (t ∷ ss)))

-- `s.startsWith(p)`
abbrev pub starts_with : String → String → Bool
starts_with s String.[] = true
starts_with String.[] (String.◌∷◌ d p) = false
starts_with (String.◌∷◌ c s) (String.◌∷◌ d p) = eqb (code c) (code d) && starts_with s p

-- `s.includes(p)`
abbrev pub has_text : String → String → Bool
has_text String.[] p = starts_with String.[] p
has_text (String.◌∷◌ c s) p = starts_with (String.◌∷◌ c s) p || has_text s p

-- `prefix`, and the text behind it.
abbrev pub strip : String → String → Option String
strip String.[] s = some s
strip (String.◌∷◌ c p) String.[] = none
strip (String.◌∷◌ c p) (String.◌∷◌ d s) = if eqb (code c) (code d) then strip p s else none

-- `items.includes(s)`
abbrev pub includes : List String → String → Bool
includes [] s = false
includes (x ∷ xs) s = x == s || includes xs s

abbrev pub is_digit : ℕ → Bool
is_digit c = leb b'0' c && leb c b'9'

unfoldable pub all_chars : (ℕ → Bool) → String → Bool
all_chars p String.[] = true
all_chars p (String.◌∷◌ c s) = p (code c) && all_chars p s

abbrev digit : ℕ → String
digit n =
    if eqb n 0
    then "0"
    else if eqb n 1
    then "1"
    else if eqb n 2
    then "2"
    else if eqb n 3
    then "3"
    else if eqb n 4
    then "4"
    else if eqb n 5
    then "5"
    else if eqb n 6
    then "6"
    else if eqb n 7
    then "7"
    else if eqb n 8
    then "8"
    else "9"

show_on : ℕ → ℕ → String
show_on zero n = ""
show_on (suc fuel) n =
    let more = append (show_on fuel (n / 10)) (digit (n % 10)) in if ltb n 10 then digit n else more

-- `${n}` of a natural number: it has at most n + 1 digits.
unfoldable pub show : ℕ → String
unfolding show_on
show n = show_on (suc n) n

-- The order of code points, in which `sort()` puts texts.
abbrev pub text_le : String → String → Bool
text_le String.[] t = true
text_le (String.◌∷◌ c s) String.[] = false
text_le (String.◌∷◌ c s) (String.◌∷◌ d t) = elim (compare_ℕ (code c) (code d)) [
  | Ordering.lt ↦ true
  | Ordering.eq ↦ text_le s t
  | Ordering.gt ↦ false
]

unfoldable pub insert_sorted : String → List String → List String
insert_sorted s [] = s ∷ []
insert_sorted s (t ∷ ts) = if text_le s t then s ∷ t ∷ ts else t ∷ insert_sorted s ts

-- `items.slice().sort()`
unfoldable pub sort : List String → List String
unfolding insert_sorted
sort [] = []
sort (s ∷ ss) = insert_sorted s (sort ss)

-- `[...new Set(items)]`, behind the items seen: the first of each stays.
unfoldable pub unique : List String → List String → List String
unique seen [] = []
unique seen (x ∷ xs) =
    let fresh = x ∷ unique (x ∷ seen) xs in
    let known = unique seen xs in if includes seen x then known else fresh
