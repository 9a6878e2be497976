-- ===== src/Planning/Cycles/Exact.antt =====
-- The search answers exactly whether there is a cycle, and has an order where there is none.
use tomorrowedge.Prelude.{
  String, ◌≡◌, ◌≢◌, ◌↔◌, inl, inr, refl, sym, subst, ap, Bool, true, false, List, [], ◌∷◌, ◌==◌,
  Memᴰ, includes, all, arith, Bool-cases, eq_iff,
}
use tomorrowedge.Planning.TaskGraph.{TaskGraphNode, TaskGraph}
use tomorrowedge.Planning.Cycles.{
  Search, cycle, clear, spent, is_cycle, search_cycle, has_cycle, deps_of, node_ids,
}
use tomorrowedge.Planning.Cycles.Laws.{
  IsTopological, DependsOn, direct, over, HasCycle, IsOutcome, search_cycle-IsOutcome,
}
use tomorrowedge.Planning.Cycles.Fuel.{search_cycle-not-spent, has_node_of_dependency}

pub includes_of_all :
    (xs ids : List String) (d : String)
    → all (includes xs) ids ≡ true
    → Memᴰ d ids
    → includes xs d ≡ true
includes_of_all xs [] d h m = elim m [ ]
includes_of_all xs (i ∷ ids) d h (Memᴰ.head e) = ground (arith, h, ap (includes xs) e)
includes_of_all xs (i ∷ ids) d h (Memᴰ.tail m) = includes_of_all xs ids d (ground (arith, h)) m

mem_of_includes : (xs : List String) (s : String) → includes xs s ≡ true → Memᴰ s xs
mem_of_includes [] s h = cc
mem_of_includes (x ∷ xs) s h =
    let rest = mem_of_includes xs s in
    elim (Bool-cases (x == s)) [
      | inl e ↦ Memᴰ.head (sym ((eq_iff x s).0 e))
      | inr e ↦ Memᴰ.tail (rest (ground (arith, h, e)))
    ]

module _ (nodes : List TaskGraphNode) where
  -- In such an order, what an id of it depends on is in it too.
  dependency_behind :
      (ids : List String) (b c : String)
      → IsTopological nodes ids
      → includes ids b ≡ true
      → Memᴰ c (deps_of nodes b)
      → includes ids c ≡ true
  dependency_behind [] b c t h m = cc
  dependency_behind (i ∷ ids) b c t h m =
      let rest = dependency_behind ids b c t.1 in
      elim (Bool-cases (i == b)) [
        | inl e ↦
            let found =
              includes_of_all ids (deps_of nodes b) c
                (subst (λ y. all (includes ids) (deps_of nodes y) ≡ true) ((eq_iff i b).0 e) t.0)
                m in
            ground (arith, found)
        | inr e ↦ let found = rest (ground (arith, h, e)) m in ground (arith, found)
      ]

  reached_behind :
      (ids : List String) (a b : String)
      → all (includes ids) (deps_of nodes a) ≡ true
      → IsTopological nodes ids
      → DependsOn nodes a b
      → includes ids b ≡ true
  reached_behind ids a b h t (direct m) = includes_of_all ids (deps_of nodes a) b h m
  reached_behind ids a b h t (over {b = c} d m) =
      dependency_behind ids c b t (reached_behind ids a c h t d) m

  no_cycle :
      (ids : List String) (c : String)
      → IsTopological nodes ids
      → includes ids c ≡ true
      → ¬ DependsOn nodes c c
  no_cycle [] c t h d = cc
  no_cycle (i ∷ ids) c t h d =
      let rest = no_cycle ids c t.1 in
      elim (Bool-cases (i == c)) [
        | inl e ↦
            rest
              (reached_behind ids c c
                (subst (λ y. all (includes ids) (deps_of nodes y) ≡ true) ((eq_iff i c).0 e) t.0)
                t.1 d)
              d
        | inr e ↦ rest (ground (arith, h, e)) d
      ]

  starts_somewhere : (a b : String) → DependsOn nodes a b → includes (node_ids nodes) a ≡ true
  starts_somewhere a b (direct m) = has_node_of_dependency nodes a b m
  starts_somewhere a b (over {b = c} d m) = starts_somewhere a c d

  -- An order of ids that has each node, and each id behind what it depends on.
  pub record IsOrder (order : List String) : Type 0 where
    pub topological : IsTopological nodes order
    pub complete : all (includes order) (node_ids nodes) ≡ true

  IsOrder-no_cycle : (order : List String) → IsOrder order → ¬ HasCycle nodes
  IsOrder-no_cycle order o (c, d) =
      no_cycle order c o.topological
        (includes_of_all order (node_ids nodes) c o.complete
          (mem_of_includes (node_ids nodes) c (starts_somewhere c c d)))
        d

  -- Which of the two the search has found.
  abbrev Verdict : Bool → Type 0
  Verdict true = HasCycle nodes
  Verdict false = (order : List String) × IsOrder order

  Verdict-of :
      (r : Search) → r ≢ spent → IsOutcome nodes [] (node_ids nodes) r → Verdict (is_cycle r)
  Verdict-of cycle h k = k
  Verdict-of spent h k = absurd (h refl)
  Verdict-of (clear after) h k = (after, record { topological = k.ordered; complete = k.reached })

module _ (graph : TaskGraph) where
  has_cycle-Verdict : Verdict graph.nodes (has_cycle graph)
  unfolding has_cycle
  has_cycle-Verdict =
      Verdict-of graph.nodes (search_cycle graph.nodes) (search_cycle-not-spent graph.nodes)
        (search_cycle-IsOutcome graph.nodes)

  -- The search answers true exactly where a node depends on itself, over one step or more.
  pub has_cycle_iff : (has_cycle graph ≡ true) ↔ HasCycle graph.nodes
  has_cycle_iff = (
    λ h. subst (Verdict graph.nodes) h has_cycle-Verdict,
    λ c. elim (Bool-cases (has_cycle graph)) [
      | inl e ↦ e
      | inr e ↦
          let (order, o) = subst (Verdict graph.nodes) e has_cycle-Verdict in
          absurd (IsOrder-no_cycle graph.nodes order o c)
    ],
  )

  -- Where it answers false there is an order of the ids in which each node stands and everything
  -- stands behind what it depends on.
  pub has_cycle-IsOrder :
      has_cycle graph ≡ false → (order : List String) × IsOrder graph.nodes order
  has_cycle-IsOrder h = subst (Verdict graph.nodes) h has_cycle-Verdict
