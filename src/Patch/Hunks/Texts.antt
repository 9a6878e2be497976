-- ===== src/Patch/Hunks/Texts.antt =====
-- `normalizeUnifiedDiffHunkCounts` of src/core/patch/patchParser.ts on whole texts.
use Prim.Native.Char.{code}
use tomorrowedge.Prelude.{
  ℕ, zero, suc, ◌≡◌, refl, ap, inl, inr, String, Bool, true, not, List, [], ◌∷◌, ◌++◌, ◌==◌, cat,
  join, split_on, split_on-Free, split_on-join, Free, Cons, split_on-Cons, show, Bool-cases,
  Option-cases, and-eq-true, arith, All, length, all_chars, all_chars-append, is_digit, Number,
  show-Number, eqb,
}
use tomorrowedge.Patch.Hunks.{
  HunkHeader, Hunk, empty_hunk, match_header, print_header, is_patch_boundary, as_context,
  collect_hunk, normalize_lines, normalize_hunk_counts, is_line_end, add_line,
}
use tomorrowedge.Patch.Hunks.Headers.{IsHeader, match_header-IsHeader}
use tomorrowedge.Patch.Hunks.Laws.{normalize_lines-IsCounted, normalize_lines-counted}

abbrev OneLine : String → Type 0
OneLine s = Free "\n" s

all_chars_weaken :
    (p q : ℕ → Bool)
    → ((c : ℕ) → p c ≡ true → q c ≡ true)
    → (s : String) → all_chars p s ≡ true
    → all_chars q s ≡ true
unfolding all_chars
all_chars_weaken p q h String.[] k = refl
all_chars_weaken p q h (String.◌∷◌ c s) k =
    let (a, b) = and-eq-true (p (code c)) (all_chars p s) k in
    rw (h (code c) a, all_chars_weaken p q h s b) refl

Number-OneLine : (s : String) → Number s → OneLine s
Number-OneLine s n = all_chars_weaken is_digit _ (λ c h. ground arith) s n.1

cat-OneLine : (parts : List String) → All OneLine parts → OneLine (cat parts)
cat-OneLine [] h = unfold all_chars in refl
cat-OneLine (s ∷ parts) h = all_chars-append _ s (cat parts) h.0 (cat-OneLine parts h.1)

print_header-OneLine :
    (h : HunkHeader) (old_lines new_lines : ℕ)
    → IsHeader h
    → OneLine (print_header h old_lines new_lines)
unfolding print_header all_chars
print_header-OneLine h old_lines new_lines is =
    let parts =
      "@@ -"
      ∷ h.old_start
      ∷ ","
      ∷ show old_lines
      ∷ " +"
      ∷ h.new_start
      ∷ ","
      ∷ show new_lines
      ∷ " @@"
      ∷ h.section
      ∷ [] in
    let start = Number-OneLine h.old_start is.old_number in
    let counts = (λ (n : ℕ). Number-OneLine (show n) (show-Number n)) in
    let new_start = Number-OneLine h.new_start is.new_number in
    let section =
      all_chars_weaken (λ c. not (is_line_end c)) (λ c. not (eqb c (code "\n")))
        (λ c k. ground arith) h.section is.one_line in
    cat-OneLine parts (
      refl,
      (
        start,
        (
          refl,
          (
            counts old_lines,
            (refl, (new_start, (refl, (counts new_lines, (refl, (section, tt)))))),
          ),
        ),
      ),
    )

as_context-OneLine : (s : String) → OneLine s → OneLine (as_context s)
as_context-OneLine s h = elim (Bool-cases (s == "")) [
  | inl e ↦ rw e (unfold all_chars in refl)
  | inr e ↦ rw e h
]

All-append : (xs ys : List String) → All OneLine xs → All OneLine ys → All OneLine (xs ++ ys)
All-append [] ys h k = k
All-append (x ∷ xs) ys h k = (h.0, All-append xs ys h.1 k)

collect_hunk-OneLine :
    (h : Hunk) (lines : List String)
    → All OneLine h.hunk_lines
    → All OneLine lines
    → All OneLine (collect_hunk h lines).hunk_lines × All OneLine (collect_hunk h lines).remaining
unfolding collect_hunk
collect_hunk-OneLine h [] k l = (k, tt)
collect_hunk-OneLine h (raw ∷ lines) k l = elim (Bool-cases (is_patch_boundary raw)) [
  | inl e ↦ rw e (k, l)
  | inr e ↦ rw e (
      collect_hunk-OneLine (add_line h (as_context raw)) lines
        (All-append h.hunk_lines (as_context raw ∷ []) k (as_context-OneLine raw l.0, tt)) l.1)
]

normalize_lines-OneLine :
    (fuel : ℕ) (lines : List String) → All OneLine lines → All OneLine (normalize_lines fuel lines)
unfolding normalize_lines
normalize_lines-OneLine zero lines l = tt
normalize_lines-OneLine (suc fuel) [] l = tt
normalize_lines-OneLine (suc fuel) (header ∷ lines) l = elim (Option-cases (match_header header)) [
  | inl e ↦ rw (normalize_lines, e) (l.0, normalize_lines-OneLine fuel lines l.1)
  | inr (k, e) ↦
      let c = collect_hunk empty_hunk lines in
      let (body, rest) = collect_hunk-OneLine empty_hunk lines tt l.1 in
      rw (normalize_lines, e)
        (
          print_header-OneLine k c.old_lines c.new_lines (match_header-IsHeader header k e),
          All-append c.hunk_lines _ body (normalize_lines-OneLine fuel c.remaining rest),
        )
]

normalize_lines-Cons :
    (lines : List String) → Cons lines → Cons (normalize_lines (length lines) lines)
unfolding normalize_lines
normalize_lines-Cons [] h = h
normalize_lines-Cons (header ∷ lines) h = elim (Option-cases (match_header header)) [
  | inl e ↦ rw (Cons, e) tt
  | inr (k, e) ↦ rw (Cons, e) tt
]

joined :
    (lines : List String) → Cons lines → All OneLine lines → split_on "\n" (join "\n" lines) ≡ lines
joined [] h k = absurd h
joined (w ∷ ws) h k = split_on-join "\n" w ws k

-- Counting is idempotent on texts: what the applier has counted is the very text that the parser,
-- which counts again, and the validator read.
pub normalize_hunk_counts_idempotent :
    (unified_diff : String)
    → normalize_hunk_counts (normalize_hunk_counts unified_diff)
      ≡ normalize_hunk_counts unified_diff
unfolding normalize_hunk_counts
normalize_hunk_counts_idempotent unified_diff =
    let lines = split_on "\n" unified_diff in
    let counted = normalize_lines (length lines) lines in
    let whole : split_on "\n" (join "\n" counted) ≡ counted =
      joined counted (normalize_lines-Cons lines (split_on-Cons "\n" unified_diff))
        (normalize_lines-OneLine (length lines) lines (split_on-Free "\n" unified_diff)) in
    rw whole (
      ap (join "\n") (
        normalize_lines-counted (length counted) counted (omega arith)
          (normalize_lines-IsCounted (length lines) lines (omega arith))))
