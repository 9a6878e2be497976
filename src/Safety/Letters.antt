-- ===== src/Safety/Letters.antt =====
-- `toLowerCase` and `endsWith`, as src/safety uses them. Letters outside of Latin-1, but for the
-- Kelvin and the Angstrom sign, are taken as they are.
use Prim.Native.Char.{Char, code}
use tomorrowedge.Prelude.{String, Bool, ◌||◌, ◌==◌, eqb, if◌then◌else◌}

abbrev capitals : String
capitals = "ABCDEFGHIJKLMNOPQRSTUVWXYZÀÁÂÃÄÅÆÇÈÉÊËÌÍÎÏÐÑÒÓÔÕÖØÙÚÛÜÝÞKÅ"

abbrev small_letters : String
small_letters = "abcdefghijklmnopqrstuvwxyzàáâãäåæçèéêëìíîïðñòóôõöøùúûüýþkå"

letter_of : String → String → Char → Char
letter_of (String.◌∷◌ u us) (String.◌∷◌ l ls) c =
    if eqb (code c) (code u) then l else letter_of us ls c
letter_of _ _ c = c

-- `s.toLowerCase()`
unfoldable pub to_lower : String → String
unfolding letter_of
to_lower String.[] = ""
to_lower (String.◌∷◌ c s) = String.◌∷◌ (letter_of capitals small_letters c) (to_lower s)

-- `s.endsWith(p)`
abbrev pub ends_with : String → String → Bool
ends_with String.[] p = "" == p
ends_with (String.◌∷◌ c s) p = String.◌∷◌ c s == p || ends_with s p
