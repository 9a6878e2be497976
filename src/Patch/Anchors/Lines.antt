-- ===== src/Patch/Anchors/Lines.antt =====
-- The removed lines as an anchor, `applyUniqueDeletionAnchoredPatch` of
-- src/core/patch/patchApplier.ts: what is replaced is the one place where they stand.
use tomorrowedge.Prelude.{
  ◌≡◌, refl, sym, ap, ◌∙◌, subst, ◌↔◌, inl, inr, String, false, Option, none, some, List, [], ◌∷◌,
  ◌++◌, map, ◌==◌, eq_iff, Bool-cases, Memᴰ, mem-map_iff, mem-append_cases, mem-append_right,
  is_empty,
}
use tomorrowedge.Patch.Anchors.{
  behind, Place, places, place_here, one_line_on, spliced, replace_lines,
}

behind_iff : (rs ls back : List String) → (behind rs ls ≡ some back) ↔ (ls ≡ rs ++ back)
unfolding behind
behind_iff [] ls back = (λ h. cc, λ h. cc)
behind_iff (r ∷ rs) [] back = (λ h. absurd (cc h), λ h. absurd (cc h))
behind_iff (r ∷ rs) (l ∷ ls) back =
    let later = behind_iff rs ls back in
    elim (Bool-cases (r == l)) [
      | inl e ↦ rw e (λ h. λ i. sym ((eq_iff r l).0 e) i ∷ later.0 h i, λ h. later.1 (cc h))
      | inr e ↦ rw e (λ h. absurd (cc h), λ h. absurd (cc (sym e ∙ (eq_iff r l).1 (cc h))))
    ]

here_of_mem :
    (removed lines front back : List String) (o : Option (List String))
    → ((b : List String) → o ≡ some b → lines ≡ removed ++ b)
    → Memᴰ (front, back) (place_here o)
    → lines ≡ front ++ removed ++ back
here_of_mem removed lines front back none known m = elim m [ ]
here_of_mem removed lines front back (some b) known (Memᴰ.head e) =
    subst (λ (p : Place). lines ≡ p.0 ++ removed ++ p.1) (sym e) (known b refl)
here_of_mem removed lines front back (some b) known (Memᴰ.tail m) = elim m [ ]

only_member :
    {f b front back : List String}
    → Memᴰ {A = Place} (f, b) ((front, back) ∷ [])
    → (f ≡ front) × (b ≡ back)
only_member (Memᴰ.head e) = (ap (λ (p : Place). p.0) e, ap (λ (p : Place). p.1) e)
only_member (Memᴰ.tail m) = elim m [ ]

split_mem :
    (removed lines front back : List String) (l : String) (ps : List Place)
    → ((f b : List String) → Memᴰ (f, b) ps → lines ≡ f ++ removed ++ b)
    → Memᴰ (front, back) (map (one_line_on l) ps)
    → l ∷ lines ≡ front ++ removed ++ back
split_mem removed lines front back l ps later m =
    let ((f, b), at, e) = (mem-map_iff (one_line_on l) ps (front, back)).0 m in
    subst (λ (p : Place). l ∷ lines ≡ p.0 ++ removed ++ p.1) (sym e) (ap (◌∷◌ l) (later f b at))

-- The places are just those where the removed lines stand.
place_of_mem :
    (removed lines front back : List String)
    → Memᴰ (front, back) (places removed lines)
    → lines ≡ front ++ removed ++ back
unfolding places
place_of_mem removed [] front back m =
    here_of_mem removed [] front back (behind removed []) (λ b. (behind_iff removed [] b).0) m
place_of_mem removed (l ∷ ls) front back m =
    elim (mem-append_cases (place_here (behind removed (l ∷ ls))) _ m) [
      | inl at ↦
          here_of_mem removed (l ∷ ls) front back (behind removed (l ∷ ls))
            (λ b. (behind_iff removed (l ∷ ls) b).0) at
      | inr at ↦
          split_mem removed ls front back l (places removed ls) (λ f b. place_of_mem removed ls f b)
            at
    ]

mem_of_place :
    (removed lines front back : List String)
    → lines ≡ front ++ removed ++ back
    → Memᴰ (front, back) (places removed lines)
unfolding places
mem_of_place removed [] [] back e = rw ((behind_iff removed [] back).1 e) (Memᴰ.head refl)
mem_of_place removed [] (f ∷ fs) back e = absurd (cc e)
mem_of_place removed (l ∷ ls) [] back e =
    rw ((behind_iff removed (l ∷ ls) back).1 e) (Memᴰ.head refl)
mem_of_place removed (l ∷ ls) (f ∷ fs) back e =
    mem-append_right (place_here (behind removed (l ∷ ls))) (
      subst (λ x. Memᴰ (x ∷ fs, back) (map (one_line_on l) (places removed ls))) (cc e)
        ((mem-map_iff (one_line_on l) (places removed ls) (l ∷ fs, back)).1
          ((fs, back), mem_of_place removed ls fs back (cc e), refl)))

-- What is replaced is the only place where the removed lines stand, and there is one.
pub record IsReplaced (removed added lines next : List String) : Type 0 where
  pub front : List String
  pub back : List String
  pub stood : lines ≡ front ++ removed ++ back
  pub stands : next ≡ front ++ added ++ back
  pub only : (f b : List String) → lines ≡ f ++ removed ++ b → (f ≡ front) × (b ≡ back)

-- Where the removed lines are an anchor, they are not empty, and what is replaced is the only
-- place where they stand; all other lines stay.
pub replace_lines-IsReplaced :
    (removed added lines next : List String)
    → replace_lines removed added lines ≡ some next
    → (is_empty removed ≡ false) × IsReplaced removed added lines next
unfolding replace_lines
replace_lines-IsReplaced [] added lines next h = absurd (cc h)
replace_lines-IsReplaced (r ∷ rs) added lines next h =
    (refl, one_place (places (r ∷ rs) lines) refl h)
  where
    one_place :
        (ps : List Place)
        → places (r ∷ rs) lines ≡ ps
        → spliced added ps ≡ some next
        → IsReplaced (r ∷ rs) added lines next
    one_place [] e k = absurd (cc k)
    one_place ((front, back) ∷ []) e k = record {
      front = front;
      back = back;
      stood = place_of_mem (r ∷ rs) lines front back (rw e (Memᴰ.head refl));
      stands = cc k;
      only = λ f b s. only_member (rw e at (mem_of_place (r ∷ rs) lines f b s));
    }
    one_place (p ∷ q ∷ ps) e k = absurd (cc k)
