-- ===== src/Planning/Inputs/Exact.antt =====
-- The search for an output answers exactly whether a step before the step has it.
use tomorrowedge.Prelude.{
  ℕ, zero, suc, ◌+◌, String, ◌≡◌, ◌⊎◌, ◌↔◌, inl, inr, refl, subst, Bool, true, false, none, some,
  List, [], ◌∷◌, ◌==◌, Memᴰ, includes, all, arith, Bool-cases, Option-cases, eq_iff, eq_refl,
  length,
}
use tomorrowedge.Planning.TaskGraph.{TaskGraphNode, TaskGraph}
use tomorrowedge.Planning.Cycles.{deps_of, node_by_id}
use tomorrowedge.Planning.Cycles.Exact.{includes_of_all}
use tomorrowedge.Planning.Cycles.Fuel.{free-nil}
use tomorrowedge.Planning.Inputs.Laws.{Lasts, try_all-Lasts, quest_from-Lasts}
use tomorrowedge.Planning.Inputs.{
  Quest, found, nothing, spent, or_else_try, try_all, has_output, quest_from, is_found,
  search_upstream, upstream_produces,
}

module _ (nodes : List TaskGraphNode) (output_id : String) where
  -- The id has a node with the output.
  abbrev pub produces : String → Bool
  produces id = elim (node_by_id nodes id) [ none ↦ false | some n ↦ has_output output_id n ]

  -- A step at or before the id has the output.
  pub data Produces : String → Type 0 where
    here : {id : String} → produces id ≡ true → Produces id
    before : {id d : String} → Memᴰ d (deps_of nodes id) → Produces d → Produces id

  -- What a search that finds nothing has seen.
  record IsEmptyHanded (seen ids after : List String) : Type 0 where
    kept : (x : String) → includes seen x ≡ true → includes after x ≡ true
    reached : all (includes after) ids ≡ true
    closed :
        (x : String)
        → includes after x ≡ true
        → (includes seen x ≡ true)
          ⊎ ((all (includes after) (deps_of nodes x) ≡ true) × (produces x ≡ false))

  abbrev FoundIn : List String → Type 0
  FoundIn ids = (d : String) × Memᴰ d ids × Produces d

  abbrev IsOutcome : List String → List String → Quest → Type 0
  IsOutcome seen ids found = FoundIn ids
  IsOutcome seen ids (nothing after) = IsEmptyHanded seen ids after
  IsOutcome seen ids spent = Unit

  all_kept :
      (a b ids : List String)
      → ((x : String) → includes a x ≡ true → includes b x ≡ true)
      → all (includes a) ids ≡ true
      → all (includes b) ids ≡ true
  all_kept a b [] h k = refl
  all_kept a b (i ∷ ids) h k = ground (arith, all_kept a b ids h, h i, k)

  -- Two searches one after the other.
  join-IsOutcome :
      (seen between ids : List String) (i : String) (q : Quest)
      → IsEmptyHanded seen (i ∷ []) between
      → IsOutcome between ids q
      → IsOutcome seen (i ∷ ids) q
  join-IsOutcome seen between ids i found h (d, m, p) = (d, Memᴰ.tail m, p)
  join-IsOutcome seen between ids i spent h k = tt
  join-IsOutcome seen between ids i (nothing after) h k = record {
    kept = λ x e. k.kept x (h.kept x e);
    reached = ground (arith, k.reached, all_kept between after (i ∷ []) k.kept h.reached);
    closed = λ x e. elim (k.closed x e) [
      | inr done ↦ inr done
      | inl old ↦ elim (h.closed x old) [
        | inl older ↦ inl older
        | inr (deps, no_output) ↦
            inr (all_kept between after (deps_of nodes x) k.kept deps, no_output)
      ]
    ];
  }

  or_else_try-IsOutcome :
      (seen ids : List String) (i : String) (q : Quest) (f : List String → Quest)
      → IsOutcome seen (i ∷ []) q
      → ((after : List String) → IsOutcome after ids (f after))
      → IsOutcome seen (i ∷ ids) (or_else_try q f)
  or_else_try-IsOutcome seen ids i found f (d, Memᴰ.head e, p) k = (d, Memᴰ.head e, p)
  or_else_try-IsOutcome seen ids i found f (d, Memᴰ.tail m, p) k = elim m [ ]
  or_else_try-IsOutcome seen ids i spent f h k = tt
  or_else_try-IsOutcome seen ids i (nothing between) f h k =
      join-IsOutcome seen between ids i (f between) h (k between)

  try_all-IsOutcome :
      (visit : List String → String → Quest) (ids seen : List String)
      → ((s : List String) (i : String) → IsOutcome s (i ∷ []) (visit s i))
      → IsOutcome seen ids (try_all visit ids seen)
  try_all-IsOutcome visit [] seen h = record {
    kept = λ x e. e;
    reached = refl;
    closed = λ x e. inl e;
  }
  try_all-IsOutcome visit (i ∷ ids) seen h =
      or_else_try-IsOutcome seen ids i (visit seen i) (try_all visit ids) (h seen i)
        (λ after. try_all-IsOutcome visit ids after h)

  all_missing :
      (id : String)
      → node_by_id nodes id ≡ none
      → (seen : List String) → all (includes seen) (deps_of nodes id) ≡ true
  unfolding deps_of
  all_missing id e seen = rw (e, deps_of) refl

  close_empty :
      (seen : List String) (id : String) (after : List String)
      → produces id ≡ false
      → IsEmptyHanded (id ∷ seen) (deps_of nodes id) after
      → IsEmptyHanded seen (id ∷ []) after
  close_empty seen id after no_output h = record {
    kept = λ x e. h.kept x (ground (arith, e));
    reached = ground (arith, h.kept id (ground (arith, eq_refl id)));
    closed = λ x e. elim (h.closed x e) [
      | inr done ↦ inr done
      | inl old ↦ elim (Bool-cases (id == x)) [
        | inr other ↦ inl (ground (arith, old, other))
        | inl same ↦
            let e' = (eq_iff id x).0 same in
            inr (
              subst (λ y. (all (includes after) (deps_of nodes y) ≡ true) × (produces y ≡ false)) e'
                (h.reached, no_output))
      ]
    ];
  }

  -- The end of a visit whose id has not the output.
  close-IsOutcome :
      (seen : List String) (id : String) (q : Quest)
      → produces id ≡ false
      → IsOutcome (id ∷ seen) (deps_of nodes id) q
      → IsOutcome seen (id ∷ []) q
  close-IsOutcome seen id found no_output (d, m, p) = (id, Memᴰ.head refl, before m p)
  close-IsOutcome seen id spent no_output h = tt
  close-IsOutcome seen id (nothing after) no_output h = close_empty seen id after no_output h

  quest_from-IsOutcome :
      (depth : ℕ) (seen : List String) (id : String)
      → IsOutcome seen (id ∷ []) (quest_from nodes output_id depth seen id)
  unfolding quest_from deps_of
  quest_from-IsOutcome zero seen id = tt
  quest_from-IsOutcome (suc depth) seen id =
      let below = quest_from-IsOutcome depth in
      elim (Bool-cases (includes seen id)) [
        | inl e ↦
            rw e (record { kept = λ x k. k; reached = ground (arith, e); closed = λ x k. inl k })
        | inr new ↦ elim (Option-cases (node_by_id nodes id)) [
          | inl e ↦
              rw (new, e)
                (close_empty seen id (id ∷ seen) (rw (e, produces) refl) (record {
                  kept = λ x k. k;
                  reached = all_missing id e (id ∷ seen);
                  closed = λ x k. inl k;
                }))
          | inr (n, e) ↦ elim (Bool-cases (has_output output_id n)) [
            | inl out ↦ rw (new, e, out) (id, Memᴰ.head refl, here (rw (e, produces) out))
            | inr no_out ↦
                rw (new, e, no_out)
                  (close-IsOutcome seen id _ (rw (e, produces) no_out) (
                    try_all-IsOutcome (quest_from nodes output_id depth) (deps_of nodes id)
                      (id ∷ seen) below))
          ]
        ]
      ]

  -- Nothing that a search from nothing has seen leads to the output.
  seen_in_vain :
      (ids after : List String) (d : String)
      → IsEmptyHanded [] ids after
      → includes after d ≡ true
      → ¬ Produces d
  seen_in_vain ids after d h e (here p) = elim (h.closed d e) [
    | inl none_seen ↦ cc
    | inr (deps, no_output) ↦ cc
  ]
  seen_in_vain ids after d h e (before {d = c} m p) = elim (h.closed d e) [
    | inl none_seen ↦ cc
    | inr (deps, no_output) ↦
        seen_in_vain ids after c h (includes_of_all after (deps_of nodes d) c deps m) p
  ]

  none_produces : (ids after : List String) → IsEmptyHanded [] ids after → ¬ FoundIn ids
  none_produces ids after h (d, m, p) =
      seen_in_vain ids after d h (includes_of_all after ids d h.reached m) p

  answer_iff :
      (ids : List String) (q : Quest)
      → Lasts nodes [] q
      → IsOutcome [] ids q
      → (is_found q ≡ true) ↔ FoundIn ids
  answer_iff ids found l h = (λ e. h, λ f. refl)
  answer_iff ids spent l h = absurd l
  answer_iff ids (nothing after) l h = (λ e. cc, λ f. absurd (none_produces ids after h f))

-- The search answers true exactly where a step that the node depends on, over one step or more, is
-- in the graph and has the output.
pub upstream_produces_iff :
    (graph : TaskGraph) (node : TaskGraphNode) (output_id : String)
    → (upstream_produces graph node output_id ≡ true)
      ↔ ((d : String) × Memᴰ d node.depends_on × Produces graph.nodes output_id d)
unfolding upstream_produces search_upstream
upstream_produces_iff graph node output_id =
    let visit = quest_from graph.nodes output_id (length graph.nodes + 1) in
    answer_iff graph.nodes output_id node.depends_on (search_upstream graph.nodes node output_id)
      (try_all-Lasts graph.nodes visit node.depends_on [] (λ s i e.
        quest_from-Lasts graph.nodes output_id (length graph.nodes + 1) s i
          (omega (arith, e, free-nil graph.nodes))))
      (try_all-IsOutcome graph.nodes output_id visit node.depends_on []
        (quest_from-IsOutcome graph.nodes output_id (length graph.nodes + 1)))
