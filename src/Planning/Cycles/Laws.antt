-- ===== src/Planning/Cycles/Laws.antt =====
-- What the search for a cycle says of the graph: an order in which nothing stands before what it
-- depends on, or a cycle.
use tomorrowedge.Prelude.{
  ℕ, zero, suc, String, ◌≡◌, inl, inr, refl, subst, true, List, [], ◌∷◌, ◌==◌, Memᴰ, includes, all,
  arith, Bool-cases, eq_iff, eq_refl, length, ◌+◌,
}
use tomorrowedge.Planning.TaskGraph.{TaskGraphNode}
use tomorrowedge.Planning.Cycles.{
  Search, cycle, clear, spent, and_then, visit_all, visit_from, search_cycle, deps_of, node_ids,
}

module _ (nodes : List TaskGraphNode) where
  -- Each id stands before the ids that it depends on; the list is read from its end.
  abbrev pub IsTopological : List String → Type 0
  IsTopological [] = Unit
  IsTopological (id ∷ ids) = (all (includes ids) (deps_of nodes id) ≡ true) × IsTopological ids

  -- The first id depends on the second, over one step or more.
  pub data DependsOn : String → String → Type 0 where
    direct : {a b : String} → Memᴰ b (deps_of nodes a) → DependsOn a b
    over : {a b c : String} → DependsOn a b → Memᴰ c (deps_of nodes b) → DependsOn a c

  -- What a visit may end with, when all of the ids are to be visited.
  pub record IsVisit (before ids after : List String) : Type 0 where
    pub ordered : IsTopological after
    pub kept : (x : String) → includes before x ≡ true → includes after x ≡ true
    pub reached : all (includes after) ids ≡ true

  abbrev pub HasCycle : Type 0
  HasCycle = (c : String) × DependsOn c c

  abbrev pub IsOutcome : List String → List String → Search → Type 0
  IsOutcome before ids cycle = HasCycle
  IsOutcome before ids (clear after) = IsVisit before ids after
  IsOutcome before ids spent = Unit

  all_kept :
      (before after ids : List String)
      → ((x : String) → includes before x ≡ true → includes after x ≡ true)
      → all (includes before) ids ≡ true
      → all (includes after) ids ≡ true
  all_kept before after [] h k = refl
  all_kept before after (i ∷ ids) h k = ground (arith, all_kept before after ids h, h i, k)

  widen :
      (before between ids : List String) (i : String) (r : Search)
      → IsVisit before (i ∷ []) between
      → IsOutcome between ids r
      → IsOutcome before (i ∷ ids) r
  widen before between ids i cycle h k = k
  widen before between ids i spent h k = tt
  widen before between ids i (clear after) h k = record {
    ordered = k.ordered;
    kept = λ x e. k.kept x (h.kept x e);
    reached = ground (arith, k.reached, all_kept between after (i ∷ []) k.kept h.reached);
  }

  and_then-IsOutcome :
      (before ids : List String) (i : String) (r : Search) (f : List String → Search)
      → IsOutcome before (i ∷ []) r
      → ((after : List String) → IsTopological after → IsOutcome after ids (f after))
      → IsOutcome before (i ∷ ids) (and_then r f)
  and_then-IsOutcome before ids i cycle f h k = h
  and_then-IsOutcome before ids i spent f h k = tt
  and_then-IsOutcome before ids i (clear between) f h k =
      widen before between ids i (f between) h (k between h.ordered)

  visit_all-IsOutcome :
      (visit : List String → String → Search) (ids before : List String)
      → ((b : List String) (i : String)
          → Memᴰ i ids
          → IsTopological b
          → IsOutcome b (i ∷ []) (visit b i))
      → IsTopological before
      → IsOutcome before ids (visit_all visit ids before)
  visit_all-IsOutcome visit [] before h t = record { ordered = t; kept = λ x e. e; reached = refl }
  visit_all-IsOutcome visit (i ∷ ids) before h t =
      let rest = visit_all-IsOutcome visit ids in
      and_then-IsOutcome before ids i (visit before i) (visit_all visit ids)
        (h before i (Memᴰ.head refl) t)
        (λ after t'. rest after (λ b j m t''. h b j (Memᴰ.tail m) t'') t')

  -- The end of a visit, when what the id depends on has been visited.
  close-IsOutcome :
      (before : List String) (id : String) (r : Search)
      → IsOutcome before (deps_of nodes id) r
      → IsOutcome before (id ∷ []) (and_then r (λ after. clear (id ∷ after)))
  close-IsOutcome before id cycle h = h
  close-IsOutcome before id spent h = tt
  close-IsOutcome before id (clear after) h = record {
    ordered = (h.reached, h.ordered);
    kept = λ x e. ground (arith, h.kept x e);
    reached = ground (arith, eq_refl id);
  }

  path_to :
      (visiting : List String) (id d : String)
      → ((x : String) → includes visiting x ≡ true → DependsOn x id)
      → Memᴰ d (deps_of nodes id)
      → (x : String) → includes (id ∷ visiting) x ≡ true
      → DependsOn x d
  path_to visiting id d h m x e = elim (Bool-cases (id == x)) [
    | inl same ↦ direct (subst (λ y. Memᴰ d (deps_of nodes y)) ((eq_iff id x).0 same) m)
    | inr other ↦ over (h x (ground (arith, e, other))) m
  ]

  visit_from-IsOutcome :
      (depth : ℕ) (visiting before : List String) (id : String)
      → ((x : String) → includes visiting x ≡ true → DependsOn x id)
      → IsTopological before
      → IsOutcome before (id ∷ []) (visit_from nodes depth visiting before id)
  unfolding visit_from
  visit_from-IsOutcome zero visiting before id h t = tt
  visit_from-IsOutcome (suc depth) visiting before id h t =
      let below = visit_from-IsOutcome depth (id ∷ visiting) in
      elim (Bool-cases (includes before id)) [
        | inl known ↦
            rw known (record { ordered = t; kept = λ x e. e; reached = ground (arith, known) })
        | inr new ↦ elim (Bool-cases (includes visiting id)) [
          | inl on_path ↦ rw (new, on_path) (id, h id on_path)
          | inr off_path ↦
              rw (new, off_path)
                (close-IsOutcome before id _ (
                  visit_all-IsOutcome (visit_from nodes depth (id ∷ visiting)) (deps_of nodes id)
                    before (λ b d m t'. below b d (path_to visiting id d h m) t') t))
        ]
      ]

  pub search_cycle-IsOutcome : IsOutcome [] (node_ids nodes) (search_cycle nodes)
  unfolding search_cycle
  search_cycle-IsOutcome =
      visit_all-IsOutcome (visit_from nodes (length nodes + 1) []) (node_ids nodes) []
        (λ b i m t. visit_from-IsOutcome (length nodes + 1) [] b i (λ x e. cc) t) tt
