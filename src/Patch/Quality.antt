-- ===== src/Patch/Quality.antt =====
-- The checks of a text that a patch adds, src/core/patch/patchValidator.ts: mojibake, placeholders
-- and broken closing tags.
use Prim.Native.Char.{code}
use tomorrowedge.Prelude.{
  ℕ, ◌+◌, ◌*◌, max, String, Bool, false, not, ◌&&◌, ◌||◌, Option, none, some, List, [], ◌∷◌, map,
  ◌==◌, append, has_text, starts_with, join, any, filter, eqb, leb, ltb, if◌then◌else◌,
}
use tomorrowedge.ControlPlane.Workspace.{trim}
use tomorrowedge.Safety.Letters.{to_lower, ends_with}
use tomorrowedge.Patch.Anchors.{count_occurrences, rest_of}

-- The lines with a sign that are not the header of a file, without the sign.
abbrev pub text_with : String → String → List String → String
text_with sign header lines =
    join "\n"
      (map rest_of (filter (λ line. starts_with line sign && not (starts_with line header)) lines))

abbrev pub added_text : List String → String
added_text lines = text_with "+" "+++" lines

abbrev pub removed_text : List String → String
removed_text lines = text_with "-" "---" lines

abbrev markers : List String
markers =
    "鏄" ∷ "涓" ∷ "鐨" ∷ "鎴" ∷ "鍥" ∷ "绋" ∷ "甯" ∷ "杈" ∷ "紭" ∷ "璇" ∷ "鎬" ∷ "寤" ∷ "銆" ∷ "锛" ∷ "鏁" ∷ "鐭"
    ∷ "鏍" ∷ "閺" ∷ "閻" ∷ "閹" ∷ "娑" ∷ "缁" ∷ "绱" ∷ "鐠" ∷ "瀵" ∷ "閵" ∷ "閿" ∷ "顩" ∷ "绨" ∷ "粙" ∷ "瀣" ∷ "碍"
    ∷ "搴" ∷ "嫯" ∷ "鐦" ∷ "毉" ∷ "滈" ∷ []

-- `/[\u3400-\u9fff]/`
abbrev is_cjk : ℕ → Bool
is_cjk c = leb 0x3400 c && leb c 0x9fff

cjk_count : String → ℕ
cjk_count String.[] = 0
cjk_count (String.◌∷◌ c s) = (if is_cjk (code c) then 1 else 0) + cjk_count s

-- A question mark behind such a character.
dangling_question_marks : String → ℕ
dangling_question_marks String.[] = 0
dangling_question_marks (String.◌∷◌ c s) =
    (if is_cjk (code c) && starts_with s "?" then 1 else 0) + dangling_question_marks s

marker_hits : String → List String → ℕ
unfolding count_occurrences
marker_hits text [] = 0
marker_hits text (marker ∷ rest) = count_occurrences text marker + marker_hits text rest

-- `hits / Math.max(cjkCount, 1) > 0.08` is `25 * hits > 2 * max(cjkCount, 1)`.
unfoldable pub looks_like_mojibake : String → Bool
unfolding marker_hits cjk_count dangling_question_marks
looks_like_mojibake text =
    let hits = marker_hits text markers in
    has_text text "�"
    || has_text text "锟斤拷"
    || leb 2 (dangling_question_marks text)
    || leb 3 hits && ltb (2 * max (cjk_count text) 1) (25 * hits)

-- `\w`
abbrev pub is_word : ℕ → Bool
is_word c =
    leb b'a' c && leb c b'z' || leb b'A' c && leb c b'Z' || leb b'0' c && leb c b'9' || eqb c b'_'

abbrev starts_word : String → Bool
starts_word String.[] = false
starts_word (String.◌∷◌ c s) = is_word (code c)

-- `word` stands here, with the end of a word behind it.
abbrev ends_as_word : String → String → Bool
ends_as_word String.[] s = not (starts_word s)
ends_as_word (String.◌∷◌ d w) String.[] = false
ends_as_word (String.◌∷◌ d w) (String.◌∷◌ c s) = eqb (code d) (code c) && ends_as_word w s

-- `/\b(?:TODO|FIXME|TBD|XXX)\b/`; the flag tells that a character of a word stands before.
has_placeholder_word : Bool → String → Bool
has_placeholder_word in_word String.[] = false
has_placeholder_word in_word (String.◌∷◌ c s) =
    not in_word
      && any (λ w. ends_as_word w (String.◌∷◌ c s)) ("TODO" ∷ "FIXME" ∷ "TBD" ∷ "XXX" ∷ [])
    || has_placeholder_word (is_word (code c)) s

unfoldable pub looks_like_placeholder : String → Bool
unfolding has_placeholder_word
looks_like_placeholder text =
    has_placeholder_word false text || has_text text "待办" || has_text text "占位"

-- `/\?\/(?:p|strong|em|h[1-6]|div|span|body|html)>/i`
abbrev broken_tags : List String
broken_tags =
    map (λ tag. append "?/" (append tag ">"))
      ("p" ∷ "strong" ∷ "em" ∷ "h1" ∷ "h2" ∷ "h3" ∷ "h4" ∷ "h5" ∷ "h6" ∷ "div" ∷ "span" ∷ "body"
        ∷ "html" ∷ [])

-- `/\.(?:html?|xhtml)$/i`
abbrev is_html_path : String → Bool
is_html_path path = any (ends_with (to_lower path)) (".htm" ∷ ".html" ∷ ".xhtml" ∷ [])

unfoldable pub text_quality_issue : String → String → Option String
unfolding trim to_lower looks_like_mojibake looks_like_placeholder
text_quality_issue added path =
    if trim added == ""
    then none
    else if is_html_path path && any (has_text (to_lower added)) broken_tags
    then some "added HTML appears to contain malformed closing tags"
    else if looks_like_mojibake added
    then some "added text appears to contain mojibake; regenerate valid UTF-8 output"
    else if looks_like_placeholder added
    then some "added text contains unresolved TODO/FIXME/TBD placeholder text"
    else none
