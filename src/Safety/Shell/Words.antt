-- ===== src/Safety/Shell/Words.antt =====
-- The round trip of `splitCommand`, src/safety/shellGuard.ts: what it makes of words that are
-- written with a backslash before each white space, quote and backslash.
use Prim.Native.Char.{Char, code}
use mathlib.Core.List.{append_assoc}
use tomorrowedge.Prelude.{
  text_assoc, append-empty, cons-eq-empty, ◌≡◌, refl, sym, ap, ◌∙◌, ◌≢◌, String, true, false, none,
  List, [], ◌∷◌, ◌++◌, map, append, join, if◌then◌else◌, Bool-cases, arith, All, inl, inr,
}
use tomorrowedge.ControlPlane.Specs.{returned}
use tomorrowedge.Safety.Shell.{split_from, split_command, needs_escape, single, push_token}

-- A word as it is written: a backslash stands before what is no plain character.
unfoldable pub write_word : String → String
write_word String.[] = ""
write_word (String.◌∷◌ c s) =
    if needs_escape (code c)
    then append "\\" (String.◌∷◌ c (write_word s))
    else String.◌∷◌ c (write_word s)

push_token-nonempty :
    (tokens : List String) (w : String) → w ≢ "" → push_token tokens w ≡ tokens ++ w ∷ []
push_token-nonempty tokens String.[] h = absurd (h refl)
push_token-nonempty tokens (String.◌∷◌ c s) h = rw (cons-eq-empty c s) refl

split_plain :
    (tokens : List String) (current : String) (c : Char) (s : String)
    → needs_escape (code c) ≡ false
    → split_from tokens current none false (String.◌∷◌ c s)
      ≡ split_from tokens (append current (single c)) none false s
unfolding split_from needs_escape
split_plain tokens current c s h = ground arith

split_escaped :
    (tokens : List String) (current : String) (c : Char) (s : String)
    → needs_escape (code c) ≡ true
    → split_from tokens current none false (append "\\" (String.◌∷◌ c s))
      ≡ split_from tokens (append current (single c)) none false s
unfolding split_from
split_escaped tokens current c s h = rw (h, split_from) refl

split-write_word :
    (tokens : List String) (current w rest : String)
    → split_from tokens current none false (append (write_word w) rest)
      ≡ split_from tokens (append current w) none false rest
unfolding write_word
split-write_word tokens current String.[] rest = rw (append-empty current) refl
split-write_word tokens current (String.◌∷◌ c w) rest =
    let later = split-write_word tokens (append current (single c)) w rest in
    let joined = ap (λ t. split_from tokens t none false rest) (text_assoc current (single c) w) in
    elim (Bool-cases (needs_escape (code c))) [
      | inl e ↦
          rw (e, write_word)
            (split_escaped tokens current c (append (write_word w) rest) e ∙ later ∙ joined)
      | inr e ↦
          rw (e, write_word)
            (split_plain tokens current c (append (write_word w) rest) e ∙ later ∙ joined)
    ]

-- Behind the last character of a word: a space ends it.
split_space :
    (tokens : List String) (current rest : String)
    → split_from tokens current none false (append " " rest)
      ≡ split_from (push_token tokens current) "" none false rest
unfolding split_from
split_space tokens current rest = refl

split-words :
    (tokens : List String) (w : String) (ws : List String)
    → All (λ t. t ≢ "") (w ∷ ws)
    → split_from tokens "" none false (join " " (map write_word (w ∷ ws)))
      ≡ returned (tokens ++ w ∷ ws)
split-words tokens w [] h =
    let start = split-write_word tokens "" w "" in
    let whole = ap (split_from tokens "" none false) (append-empty (write_word w)) in
    let end : split_from tokens w none false "" ≡ returned (push_token tokens w) =
      unfold split_from in refl in
    sym whole ∙ start ∙ end ∙ ap returned (push_token-nonempty tokens w h.0)
split-words tokens w (v ∷ vs) h =
    let later = split-words (push_token tokens w) v vs h.1 in
    let start = split-write_word tokens "" w (append " " (join " " (map write_word (v ∷ vs)))) in
    let space = split_space tokens w (join " " (map write_word (v ∷ vs))) in
    let regroup : push_token tokens w ++ v ∷ vs ≡ tokens ++ w ∷ v ∷ vs =
      rw (push_token-nonempty tokens w h.0) (append_assoc tokens (w ∷ []) (v ∷ vs)) in
    start ∙ space ∙ later ∙ ap returned regroup

-- The round trip of the words of a command: words that are not empty, written with a backslash
-- before each white space, quote and backslash and joined by single spaces, are what
-- `splitCommand` returns, whatever else the words contain.
pub split_command-write_word :
    (words : List String)
    → All (λ t. t ≢ "") words
    → split_command (join " " (map write_word words)) ≡ returned words
unfolding split_command
split_command-write_word [] h = unfold split_from in refl
split_command-write_word (w ∷ ws) h = split-words [] w ws h
