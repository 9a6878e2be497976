-- ===== src/Planning/Inputs/Laws.antt =====
-- The search for an output finds it where a step before the step has it, and its depth is enough.
use tomorrowedge.Prelude.{
  ℕ, zero, suc, ◌<◌, ◌≤◌, String, ◌≡◌, inl, inr, sym, ◌∙◌, true, none, some, List, [], ◌∷◌,
  includes, arith, Bool-cases, Option-cases,
}
use tomorrowedge.Planning.TaskGraph.{TaskGraphNode}
use tomorrowedge.Planning.Cycles.{deps_of_node, node_by_id, node_ids}
use tomorrowedge.Planning.Cycles.Fuel.{free, free_cons_le, free_cons_lt, node_by_id_of_missing}
use tomorrowedge.Planning.Inputs.{
  Quest, found, nothing, spent, or_else_try, try_all, has_output, quest_from,
}

module _ (nodes : List TaskGraphNode) where
  -- The search does not run out of depth, and what it has seen is not forgotten.
  abbrev pub Lasts : List String → Quest → Type 0
  Lasts seen found = Unit
  Lasts seen (nothing after) = free nodes after ≤ free nodes seen
  Lasts seen spent = ⊥

  Lasts-le : (a b : List String) (q : Quest) → free nodes b ≤ free nodes a → Lasts b q → Lasts a q
  Lasts-le a b found h l = tt
  Lasts-le a b (nothing after) h l = omega (arith, h, l)
  Lasts-le a b spent h l = l

  or_else_try-Lasts :
      (seen : List String) (q : Quest) (f : List String → Quest)
      → Lasts seen q
      → ((s : List String) → free nodes s ≤ free nodes seen → Lasts s (f s))
      → Lasts seen (or_else_try q f)
  or_else_try-Lasts seen found f l k = tt
  or_else_try-Lasts seen (nothing after) f l k = Lasts-le seen after (f after) l (k after l)
  or_else_try-Lasts seen spent f l k = l

  pub try_all-Lasts :
      (visit : List String → String → Quest) (ids seen : List String)
      → ((s : List String) (i : String) → free nodes s ≤ free nodes seen → Lasts s (visit s i))
      → Lasts seen (try_all visit ids seen)
  try_all-Lasts visit [] seen h = omega arith
  try_all-Lasts visit (i ∷ ids) seen h =
      or_else_try-Lasts seen (visit seen i) (try_all visit ids) (h seen i (omega arith))
        (λ s e. try_all-Lasts visit ids s (λ t j e'. h t j (omega (arith, e, e'))))

  id_of_some :
      (id : String) (n : TaskGraphNode)
      → node_by_id nodes id ≡ some n
      → includes (node_ids nodes) id ≡ true
  id_of_some id n e = elim (Bool-cases (includes (node_ids nodes) id)) [
    | inl k ↦ k
    | inr k ↦ absurd (differ (sym (node_by_id_of_missing nodes id k) ∙ e))
  ]
    where
      differ : none ≡ some n → ⊥
      differ x = cc

  pub quest_from-Lasts :
      (output_id : String) (depth : ℕ) (seen : List String) (id : String)
      → free nodes seen < depth
      → Lasts seen (quest_from nodes output_id depth seen id)
  unfolding quest_from
  quest_from-Lasts output_id zero seen id h = absurd (omega (arith, h))
  quest_from-Lasts output_id (suc depth) seen id h =
      let below = quest_from-Lasts output_id depth in
      elim (Bool-cases (includes seen id)) [
        | inl e ↦ rw e (omega arith)
        | inr new ↦ elim (Option-cases (node_by_id nodes id)) [
          | inl e ↦ rw (new, e) (free_cons_le nodes seen id)
          | inr (n, e) ↦ elim (Bool-cases (has_output output_id n)) [
            | inl out ↦ rw (new, e, out) tt
            | inr no_out ↦
                rw (new, e, no_out)
                  (Lasts-le seen (id ∷ seen) _ (free_cons_le nodes seen id) (
                    try_all-Lasts (quest_from nodes output_id depth)
                      (deps_of_node (node_by_id nodes id)) (id ∷ seen)
                      (λ t j e'. below t j (
                        omega (arith, h, e', free_cons_lt nodes seen id new (id_of_some id n e))))))
          ]
        ]
      ]
