-- ===== src/Patch/Hunks/Headers.antt =====
-- The header of a hunk, src/core/patch/patchParser.ts: what is printed is read back.
use Prim.Native.Char.{Char, code}
use tomorrowedge.Prelude.{
  strip, ℕ, ◌≡◌, refl, ap, subst, inl, inr, String, true, false, not, Option, none, some, ◌==◌,
  append, show, is_digit, all_chars, Number, show-Number, if◌then◌else◌, Bool-cases, eq_of_some,
  and-eq-true, arith, append-empty,
}
use tomorrowedge.Patch.Hunks.{
  HunkHeader, digits, some_digits, skip_count, match_header, print_header, is_line_end, ◌>>=◌,
}

pub record IsHeader (h : HunkHeader) : Type 0 where
  pub old_number : Number h.old_start
  pub new_number : Number h.new_start
  pub one_line : all_chars (λ c. not (is_line_end c)) h.section ≡ true

strip-append : (p s : String) → strip p (append p s) ≡ some s
strip-append String.[] s = refl
strip-append (String.◌∷◌ c p) s = ground (arith, strip-append p s)

digits-append :
    (run : String) (c : Char) (rest : String)
    → all_chars is_digit run ≡ true
    → is_digit (code c) ≡ false
    → digits (append run (String.◌∷◌ c rest)) ≡ (run, String.◌∷◌ c rest)
unfolding digits all_chars
digits-append String.[] c rest h k = rw k refl
digits-append (String.◌∷◌ d run) c rest h k =
    let (a, b) = and-eq-true (is_digit (code d)) (all_chars is_digit run) h in
    rw (a, digits-append run c rest b k) refl

-- The digits of a number before another character.
read-Number :
    (run : String) (c : Char) (rest : String)
    → Number run
    → is_digit (code c) ≡ false
    → some_digits (digits (append run (String.◌∷◌ c rest))) ≡ some (run, String.◌∷◌ c rest)
read-Number run c rest n k = rw (digits-append run c rest n.1 k, n.0) refl

digits-Number : (s : String) → all_chars is_digit (digits s).0 ≡ true
unfolding digits all_chars
digits-Number String.[] = refl
digits-Number (String.◌∷◌ c s) = elim (Bool-cases (is_digit (code c))) [
  | inl e ↦ rw e (rw e (digits-Number s))
  | inr e ↦ rw e refl
]

some_digits-Number :
    (s : String) (p : String × String) → some_digits (digits s) ≡ some p → Number p.0
some_digits-Number s p = elim (Bool-cases ((digits s).0 == "")) [
  | inl e ↦ rw e (λ h. absurd (cc h))
  | inr e ↦
      rw e
        (λ h. subst Number (ap (λ (q : String × String). q.0) (eq_of_some h)) (e, digits-Number s))
]

skip_printed :
    (run : String) (c : Char) (rest : String)
    → Number run
    → is_digit (code c) ≡ false
    → skip_count (String.◌∷◌ "," (append run (String.◌∷◌ c rest))) ≡ String.◌∷◌ c rest
unfolding skip_count
skip_printed run c rest n k = rw (skip_count, read-Number run c rest n k) refl

>>=-eq-some {ℓ κ} :
    {A : Type ℓ} {B : Type κ} (m : Option A) (f : A → Option B) {b : B}
    → (m >>= f) ≡ some b
    → (a : A) × (m ≡ some a) × (f a ≡ some b)
>>=-eq-some none f h = absurd (cc h)
>>=-eq-some (some a) f h = (a, refl, h)

-- What is printed of a header is read back, whatever counts are put in.
pub match-print_header :
    (h : HunkHeader) (old_lines new_lines : ℕ)
    → IsHeader h
    → match_header (print_header h old_lines new_lines) ≡ some h
unfolding match_header print_header
match-print_header h old_lines new_lines is =
    let behind = append " @@" (append h.section "") in
    let counted = String.◌∷◌ "," (append (show new_lines) behind) in
    let second = append " +" (append h.new_start counted) in
    let first = String.◌∷◌ "," (append (show old_lines) second) in
    rw (read-Number h.old_start "," (append (show old_lines) second) is.old_number refl) (
      rw (skip_printed (show old_lines) " " _ (show-Number old_lines) refl) rw
        (read-Number h.new_start "," (append (show new_lines) behind) is.new_number refl)
        (rw
          (skip_printed (show new_lines) " " _ (show-Number new_lines) refl, append-empty h.section)
          (rw is.one_line refl)))

read_section :
    (old_start new_start s : String) {h : HunkHeader}
    → Number old_start
    → Number new_start
    → (if all_chars (λ c. not (is_line_end c)) s
        then some (record { old_start = old_start; new_start = new_start; section = s })
        else none)
      ≡ some h
    → IsHeader h
read_section old_start new_start s n m =
    elim (Bool-cases (all_chars (λ c. not (is_line_end c)) s)) [
      | inl e ↦ rw e (λ k.
          subst IsHeader (eq_of_some k) (record { old_number = n; new_number = m; one_line = e }))
      | inr e ↦ rw e (λ k. absurd (cc k))
    ]

-- What is read is a header.
pub match_header-IsHeader :
    (line : String) (h : HunkHeader) → match_header line ≡ some h → IsHeader h
unfolding match_header
match_header-IsHeader line h e =
    let (s1, e1, k1) = >>=-eq-some (strip "@@ -" line) _ e in
    let (p2, e2, k2) = >>=-eq-some (some_digits (digits s1)) _ k1 in
    let (s3, e3, k3) = >>=-eq-some (strip " +" (skip_count p2.1)) _ k2 in
    let (p4, e4, k4) = >>=-eq-some (some_digits (digits s3)) _ k3 in
    let (s5, e5, k5) = >>=-eq-some (strip " @@" (skip_count p4.1)) _ k4 in
    read_section p2.0 p4.0 s5 (some_digits-Number s1 p2 e2) (some_digits-Number s3 p4 e4) k5
