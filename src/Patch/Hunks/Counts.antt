-- ===== src/Patch/Hunks/Counts.antt =====
-- The counting of src/core/patch/patchParser.ts against the lines of the diff that it counts.
use Prim.Native.Char.{code}
use tomorrowedge.Prelude.{
  ℕ, zero, suc, ◌+◌, ◌≤◌, ◌⊎◌, ◌≡◌, refl, subst, sym, ap, ◌∙◌, inl, inr, String, Bool, true, false,
  ◌||◌, none, some, List, [], ◌∷◌, ◌++◌, ◌==◌, eqb, eq_iff, Bool-cases, Option-cases, arith, All,
  length, starts_with, cat, show, if◌then◌else◌,
}
use tomorrowedge.Patch.Hunks.{
  HunkHeader, Hunk, empty_hunk, match_header, print_header, is_patch_boundary, as_context,
  counts_old, counts_new, collect_hunk, normalize_lines, add_line,
}
use tomorrowedge.Patch.Hunks.Laws.{total, with_body, with_body-cons, with_body-nil, zero_body}

-- The first character of the line is `k`.
abbrev begins : String → ℕ → Bool
begins String.[] k = false
begins (String.◌∷◌ c s) k = eqb (code c) k

-- A line of the old file: of context, or one that is taken out.
abbrev is_old : String → Bool
is_old line = begins line b' ' || begins line b'-'

-- A line of the new file: of context, or one that is put in.
abbrev is_new : String → Bool
is_new line = begins line b' ' || begins line b'+'

abbrev one_where : Bool → ℕ
one_where b = if b then 1 else 0

-- How many lines pass the test.
abbrev number : (String → Bool) → List String → ℕ
number p [] = 0
number p (line ∷ lines) = one_where (p line) + number p lines

-- A line at which the next hunk or file begins.
abbrev begins_next : String → Bool
begins_next line =
    starts_with line "@@ " || (starts_with line "--- " || starts_with line "diff --git ")

-- The line is kept, or is the empty one and becomes one of context.
abbrev IsKept : String → String → Type 0
IsKept raw line = ((raw ≡ "") × (line ≡ " ")) ⊎ ((¬ (raw ≡ "")) × (line ≡ raw))

abbrev AreKept : List String → List String → Type 0
AreKept [] [] = Unit
AreKept [] (line ∷ body) = ⊥
AreKept (raw ∷ raws) [] = ⊥
AreKept (raw ∷ raws) (line ∷ body) = IsKept raw line × AreKept raws body

abbrev IsStop : List String → Type 0
IsStop [] = Unit
IsStop (line ∷ lines) = begins_next line ≡ true

abbrev counted_header : HunkHeader → List String → String
counted_header h body = cat (
    "@@ -"
    ∷ h.old_start
    ∷ ","
    ∷ show (number is_old body)
    ∷ " +"
    ∷ h.new_start
    ∷ ","
    ∷ show (number is_new body)
    ∷ " @@"
    ∷ h.section
    ∷ [])

-- The lines of a diff, and the same lines with each header counted. A hunk takes the lines behind
-- its header up to where the next hunk or file begins, or to the end.
pub data IsNormalized : List String → List String → Type 0 where
  done : IsNormalized [] []
  plain :
      (line : String) (input output : List String)
      → match_header line ≡ none
      → IsNormalized input output
      → IsNormalized (line ∷ input) (line ∷ output)
  hunk :
      (header : String) (h : HunkHeader) (raws body rest output : List String)
      → match_header header ≡ some h
      → All (λ raw. begins_next raw ≡ false) raws
      → AreKept raws body
      → IsStop rest
      → IsNormalized rest output
      → IsNormalized (header ∷ raws ++ rest) (counted_header h body ∷ body ++ output)

counts_old_lem : (line : String) → counts_old line ≡ one_where (is_old line)
unfolding counts_old
counts_old_lem String.[] = refl
counts_old_lem (String.◌∷◌ c s) = ground arith

counts_new_lem : (line : String) → counts_new line ≡ one_where (is_new line)
unfolding counts_new
counts_new_lem String.[] = refl
counts_new_lem (String.◌∷◌ c s) = ground arith

total-number :
    (count : String → ℕ) (p : String → Bool)
    → ((line : String) → count line ≡ one_where (p line))
    → (lines : List String) → total count lines ≡ number p lines
unfolding total
total-number count p each [] = refl
total-number count p each (line ∷ lines) = rw (each line, total-number count p each lines) refl

boundary_lem : (line : String) → is_patch_boundary line ≡ begins_next line
unfolding is_patch_boundary
boundary_lem line = ground arith

as_context-IsKept : (raw : String) → IsKept raw (as_context raw)
as_context-IsKept raw = elim (Bool-cases (raw == "")) [
  | inl e ↦ rw e (inl ((eq_iff raw "").0 e, refl))
  | inr e ↦ rw e (inr (λ same. let equal = (eq_iff raw "").1 same in cc, refl))
]

-- What the inner loop takes of the lines.
record IsTaken (h : Hunk) (lines : List String) (collected : Hunk) : Type 0 where
  raws : List String
  body : List String
  rest : List String
  split : lines ≡ raws ++ rest
  is : collected ≡ with_body h body rest
  inside : All (λ raw. begins_next raw ≡ false) raws
  kept : AreKept raws body
  stops : IsStop rest
  shorter : length rest ≤ length lines

collect_hunk-IsTaken : (h : Hunk) (lines : List String) → IsTaken h lines (collect_hunk h lines)
unfolding collect_hunk
collect_hunk-IsTaken h [] = record {
  raws = [];
  body = [];
  rest = [];
  split = refl;
  is = with_body-nil h [];
  inside = tt;
  kept = tt;
  stops = tt;
  shorter = omega arith;
}
collect_hunk-IsTaken h (raw ∷ lines) =
    let line = as_context raw in
    let further = collect_hunk-IsTaken (add_line h line) lines in
    elim (Bool-cases (is_patch_boundary raw)) [
      | inl e ↦ rw e (record {
        raws = [];
        body = [];
        rest = raw ∷ lines;
        split = refl;
        is = with_body-nil h (raw ∷ lines);
        inside = tt;
        kept = tt;
        stops = sym (boundary_lem raw) ∙ e;
        shorter = omega arith;
      })
      | inr e ↦ rw e (record {
        raws = raw ∷ further.raws;
        body = line ∷ further.body;
        rest = further.rest;
        split = ap (◌∷◌ raw) further.split;
        is = further.is ∙ with_body-cons h line further.body further.rest;
        inside = (sym (boundary_lem raw) ∙ e, further.inside);
        kept = (as_context-IsKept raw, further.kept);
        stops = further.stops;
        shorter = omega (arith, further.shorter);
      })
    ]

counted_header_lem :
    (h : HunkHeader) (body : List String)
    → print_header h (total counts_old body) (total counts_new body) ≡ counted_header h body
unfolding print_header
counted_header_lem h body =
    rw
      (
        total-number counts_old is_old counts_old_lem body,
        total-number counts_new is_new counts_new_lem body,
      )
      refl

-- Counting leaves all lines and their order, but for the empty lines inside of hunks, which become
-- lines of context, and for the headers of hunks: whatever counts the source has, the header of a
-- hunk keeps its starts and its section and gets as counts how many of the lines up to the next
-- hunk, the next file or the end begin with a space or a minus, and with a space or a plus.
pub normalize_lines-IsNormalized :
    (fuel : ℕ) (lines : List String)
    → length lines ≤ fuel
    → IsNormalized lines (normalize_lines fuel lines)
unfolding normalize_lines
normalize_lines-IsNormalized zero [] h = done
normalize_lines-IsNormalized zero (line ∷ lines) h = absurd (omega arith)
normalize_lines-IsNormalized (suc fuel) [] h = done
normalize_lines-IsNormalized (suc fuel) (header ∷ lines) h =
    elim (Option-cases (match_header header)) [
      | inl e ↦
          rw (e, normalize_lines)
            (plain header lines _ e (normalize_lines-IsNormalized fuel lines (omega arith)))
      | inr (k, e) ↦
          let c = collect_hunk-IsTaken empty_hunk lines in
          let behind = normalize_lines-IsNormalized fuel c.rest (omega (arith, c.shorter)) in
          rw (e, normalize_lines)
            (rw (c.is ∙ zero_body c.body c.rest, counted_header_lem k c.body)
              (subst
                (λ ls.
                  IsNormalized (header ∷ ls)
                    (counted_header k c.body ∷ c.body ++ normalize_lines fuel c.rest))
                (sym c.split)
                (hunk header k c.raws c.body c.rest _ e c.inside c.kept c.stops behind)))
    ]
