-- ===== src/Safety/Risk.antt =====
-- The risk of a file by its path, src/safety/fileRisk.ts.
use Prim.Native.Char.{code}
use tomorrowedge.Prelude.{
  ℕ, String, Bool, ◌&&◌, ◌||◌, Option, none, some, List, [], ◌∷◌, ◌==◌, has_text, starts_with,
  includes, split_on, any, eqb, ltb, if◌then◌else◌,
}
use tomorrowedge.Safety.Letters.{to_lower, ends_with}

pub data FileRisk : Type 0 where
  safe sensitive large binary ignored : FileRisk

abbrev binary_extensions : List String
binary_extensions =
    ".7z" ∷ ".avif" ∷ ".bmp" ∷ ".class" ∷ ".dll" ∷ ".dmg" ∷ ".exe" ∷ ".gif" ∷ ".gz" ∷ ".ico"
    ∷ ".jar" ∷ ".jpeg" ∷ ".jpg" ∷ ".mov" ∷ ".mp3" ∷ ".mp4" ∷ ".pdf" ∷ ".png" ∷ ".pyc" ∷ ".so"
    ∷ ".tar" ∷ ".tgz" ∷ ".webp" ∷ ".woff" ∷ ".woff2" ∷ ".zip" ∷ []

-- `path.basename`: the last name that is not empty.
abbrev last_name : String → List String → String
last_name found [] = found
last_name found (n ∷ ns) = last_name (if n == "" then found else n) ns

unfoldable pub basename : String → String
unfolding split_on
basename path = last_name "" (split_on "/" path)

-- What stands in front of the last dot, and the text from it on.
last_dot : String → Option (String × String)
last_dot String.[] = none
last_dot (String.◌∷◌ c s) = elim (last_dot s) [
  | some (front, ext) ↦ some (String.◌∷◌ c front, ext)
  | none ↦ if eqb (code c) b'.' then some ("", String.◌∷◌ c s) else none
]

-- `path.extname`: a name that starts with its last dot has none, nor has `..`.
unfoldable pub extname : String → String
unfolding basename last_dot
extname path = elim (last_dot (basename path)) [
  | none ↦ ""
  | some (front, ext) ↦ if front == "" || front == "." && ext == "." then "" else ext
]

unfoldable pub is_binary_like_path : String → Bool
unfolding extname to_lower
is_binary_like_path path = includes binary_extensions (to_lower (extname path))

-- `/credential|secret|token|password/i`
abbrev names_secret : String → Bool
names_secret path =
    any (has_text (to_lower path)) ("credential" ∷ "secret" ∷ "token" ∷ "password" ∷ [])

unfoldable pub classify_file_risk : String → ℕ → FileRisk
unfolding is_binary_like_path basename to_lower
classify_file_risk path size_bytes =
    let name = to_lower (basename path) in
    if is_binary_like_path path
    then FileRisk.binary
    else if ltb 500000 size_bytes
    then FileRisk.large
    else if starts_with name ".env"
        || any (ends_with name) (".pem" ∷ ".key" ∷ ".sqlite" ∷ ".db" ∷ [])
        || names_secret path
    then FileRisk.sensitive
    else FileRisk.safe
