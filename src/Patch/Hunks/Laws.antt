-- ===== src/Patch/Hunks/Laws.antt =====
-- The form that the counting of src/core/patch/patchParser.ts leaves a diff in, and the counting of
-- a diff of that form.
use mathlib.Core.List.{append_assoc, append-nil}
use tomorrowedge.Prelude.{
  ℕ, zero, suc, ◌+◌, ◌≤◌, ◌≡◌, refl, ap, ◌∙◌, inl, inr, String, true, false, none, List, [], ◌∷◌,
  ◌++◌, ◌==◌, Bool-cases, Option-cases, arith, All, length, length-append,
}
use tomorrowedge.Patch.Hunks.{
  HunkHeader, Hunk, empty_hunk, match_header, print_header, is_patch_boundary, as_context,
  counts_old, counts_new, collect_hunk, normalize_lines, add_line,
}
use tomorrowedge.Patch.Hunks.Headers.{IsHeader, match-print_header, match_header-IsHeader}

unfoldable pub total : (String → ℕ) → List String → ℕ
total count [] = 0
total count (line ∷ lines) = count line + total count lines

-- A line of a hunk.
abbrev pub InBody : String → Type 0
InBody line = (is_patch_boundary line ≡ false) × (as_context line ≡ line)

abbrev pub StopsAt : List String → Type 0
StopsAt [] = Unit
StopsAt (line ∷ lines) = is_patch_boundary line ≡ true

-- A diff in which the header of each hunk counts the lines up to the next boundary or the end.
pub data IsCounted : List String → Type 0 where
  done : IsCounted []
  plain :
      (line : String) (lines : List String)
      → match_header line ≡ none
      → IsCounted lines
      → IsCounted (line ∷ lines)
  hunk :
      (h : HunkHeader) (body rest : List String)
      → IsHeader h
      → All InBody body
      → StopsAt rest
      → IsCounted rest
      → IsCounted (print_header h (total counts_old body) (total counts_new body) ∷ body ++ rest)

-- The hunk with more lines, and what is left behind them.
abbrev pub with_body : Hunk → List String → List String → Hunk
with_body h body rest = record {
  hunk_lines = h.hunk_lines ++ body;
  old_lines = h.old_lines + total counts_old body;
  new_lines = h.new_lines + total counts_new body;
  remaining = rest;
}

record IsCollected (h : Hunk) (lines : List String) (collected : Hunk) : Type 0 where
  body : List String
  rest : List String
  is : collected ≡ with_body h body rest
  in_body : All InBody body
  stops : StopsAt rest
  shorter : length rest ≤ length lines

as_context-InBody : (raw : String) → is_patch_boundary raw ≡ false → InBody (as_context raw)
unfolding is_patch_boundary
as_context-InBody raw h = elim (Bool-cases (raw == "")) [
  | inl e ↦ rw e (refl, refl)
  | inr e ↦ rw e (h, rw e refl)
]

pub with_body-cons :
    (h : Hunk) (line : String) (body rest : List String)
    → with_body (add_line h line) body rest ≡ with_body h (line ∷ body) rest
unfolding total
with_body-cons h line body rest = rw (append_assoc h.hunk_lines (line ∷ []) body) (ground arith)

pub with_body-nil :
    (h : Hunk) (rest : List String) → record h { remaining = rest } ≡ with_body h [] rest
unfolding total
with_body-nil h rest = rw (append-nil h.hunk_lines) (ground arith)

collect_hunk-IsCollected :
    (h : Hunk) (lines : List String) → IsCollected h lines (collect_hunk h lines)
unfolding collect_hunk
collect_hunk-IsCollected h [] = record {
  body = [];
  rest = [];
  is = with_body-nil h [];
  in_body = tt;
  stops = tt;
  shorter = omega arith;
}
collect_hunk-IsCollected h (raw ∷ lines) =
    let line = as_context raw in
    let further = collect_hunk-IsCollected (add_line h line) lines in
    elim (Bool-cases (is_patch_boundary raw)) [
      | inl e ↦ rw e (record {
        body = [];
        rest = raw ∷ lines;
        is = with_body-nil h (raw ∷ lines);
        in_body = tt;
        stops = e;
        shorter = omega arith;
      })
      | inr e ↦ rw e (record {
        body = line ∷ further.body;
        rest = further.rest;
        is = further.is ∙ with_body-cons h line further.body further.rest;
        in_body = (as_context-InBody raw e, further.in_body);
        stops = further.stops;
        shorter = omega (arith, further.shorter);
      })
    ]

-- A body up to a boundary is collected whole.
collect_hunk-body :
    (h : Hunk) (body rest : List String)
    → All InBody body
    → StopsAt rest
    → collect_hunk h (body ++ rest) ≡ with_body h body rest
unfolding collect_hunk
collect_hunk-body h [] [] in_body stops = with_body-nil h []
collect_hunk-body h [] (line ∷ rest) in_body stops = rw stops (with_body-nil h (line ∷ rest))
collect_hunk-body h (line ∷ body) rest in_body stops =
    rw (in_body.0.0, in_body.0.1)
      (collect_hunk-body (add_line h line) body rest in_body.1 stops
        ∙ with_body-cons h line body rest)

print_header-boundary :
    (h : HunkHeader) (old_lines new_lines : ℕ)
    → is_patch_boundary (print_header h old_lines new_lines) ≡ true
unfolding is_patch_boundary print_header
print_header-boundary h old_lines new_lines = refl

pub zero_body :
    (body rest : List String)
    → with_body empty_hunk body rest ≡ record {
      hunk_lines = body;
      old_lines = total counts_old body;
      new_lines = total counts_new body;
      remaining = rest;
    }
zero_body body rest = ground arith

-- The first line stays one at which a hunk stops.
normalize-StopsAt :
    (fuel : ℕ) (lines : List String) → StopsAt lines → StopsAt (normalize_lines fuel lines)
unfolding normalize_lines
normalize-StopsAt zero lines h = tt
normalize-StopsAt (suc fuel) [] h = tt
normalize-StopsAt (suc fuel) (header ∷ lines) h = elim (Option-cases (match_header header)) [
  | inl e ↦ rw (StopsAt, normalize_lines, e) h
  | inr (k, e) ↦
      rw (StopsAt, normalize_lines, e)
        (print_header-boundary k (collect_hunk empty_hunk lines).old_lines
          (collect_hunk empty_hunk lines).new_lines)
]

-- Whatever the counts of the source say: in the counted diff the header of each hunk has the
-- numbers of the old and of the new lines up to the next boundary.
pub normalize_lines-IsCounted :
    (fuel : ℕ) (lines : List String) → length lines ≤ fuel → IsCounted (normalize_lines fuel lines)
unfolding normalize_lines
normalize_lines-IsCounted zero lines h = done
normalize_lines-IsCounted (suc fuel) [] h = done
normalize_lines-IsCounted (suc fuel) (header ∷ lines) h =
    elim (Option-cases (match_header header)) [
      | inl e ↦
          rw (e, normalize_lines)
            (plain header _ e (normalize_lines-IsCounted fuel lines (omega arith)))
      | inr (k, e) ↦
          let c = collect_hunk-IsCollected empty_hunk lines in
          rw (e, normalize_lines)
            (rw (c.is ∙ zero_body c.body c.rest) (
              hunk k c.body _ (match_header-IsHeader header k e) c.in_body
                (normalize-StopsAt fuel c.rest c.stops)
                (normalize_lines-IsCounted fuel c.rest (omega (arith, c.shorter)))))
    ]

-- Counting a counted diff again changes nothing.
pub normalize_lines-counted :
    (fuel : ℕ) (lines : List String)
    → length lines ≤ fuel
    → IsCounted lines
    → normalize_lines fuel lines ≡ lines
unfolding normalize_lines
normalize_lines-counted zero [] h c = refl
normalize_lines-counted zero (line ∷ lines) h c = absurd (omega arith)
normalize_lines-counted (suc fuel) _ h done = refl
normalize_lines-counted (suc fuel) _ h (plain line lines e c) =
    rw (e, normalize_lines) (ap (◌∷◌ line) (normalize_lines-counted fuel lines (omega arith) c))
normalize_lines-counted (suc fuel) _ h (hunk k body rest is in_body stops c) =
    let collected = collect_hunk-body empty_hunk body rest in_body stops in
    let read = match-print_header k (total counts_old body) (total counts_new body) is in
    let whole = zero_body body rest in
    rw (read, normalize_lines)
      (rw (collected ∙ whole) (
        ap (λ ls. print_header k (total counts_old body) (total counts_new body) ∷ body ++ ls)
          (normalize_lines-counted fuel rest (omega (arith, length-append {0} body rest)) c)))
