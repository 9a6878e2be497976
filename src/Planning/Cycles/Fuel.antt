-- ===== src/Planning/Cycles/Fuel.antt =====
-- The depth that the search is given is enough: a path repeats no id, and goes on only from ids
-- that have a node.
use tomorrowedge.Prelude.{
  ℕ, zero, suc, ◌+◌, ◌<◌, ◌≤◌, String, ◌≡◌, ◌≢◌, ◌⊎◌, inl, inr, refl, ◌∙◌, ap, Bool, true, false,
  ◌||◌, Option, none, some, List, [], ◌∷◌, ◌==◌, Memᴰ, includes, arith, Bool-cases, eq_iff, length,
  if◌then◌else◌,
}
use tomorrowedge.Planning.TaskGraph.{TaskGraphNode}
use tomorrowedge.Planning.Cycles.{
  Search, cycle, clear, spent, and_then, visit_all, visit_from, search_cycle, has_cycle, deps_of,
  node_by_id, node_ids,
}

abbrev is_spent : Search → Bool
is_spent spent = true
is_spent _ = false

and_then-is_spent :
    (r : Search) (f : List String → Search)
    → is_spent r ≡ false
    → ((v : List String) → is_spent (f v) ≡ false)
    → is_spent (and_then r f) ≡ false
and_then-is_spent cycle f h k = refl
and_then-is_spent (clear v) f h k = k v
and_then-is_spent spent f h k = cc

visit_all-is_spent :
    (visit : List String → String → Search) (ids before : List String)
    → ((b : List String) (i : String) → Memᴰ i ids → is_spent (visit b i) ≡ false)
    → is_spent (visit_all visit ids before) ≡ false
visit_all-is_spent visit [] before h = refl
visit_all-is_spent visit (i ∷ ids) before h =
    and_then-is_spent (visit before i) (visit_all visit ids) (h before i (Memᴰ.head refl))
      (λ v. visit_all-is_spent visit ids v (λ b j m. h b j (Memᴰ.tail m)))

-- How many of the nodes are not on the path.
abbrev pub free : List TaskGraphNode → List String → ℕ
free [] visiting = 0
free (n ∷ ns) visiting = (if includes visiting n.id then 0 else 1) + free ns visiting

pub free-nil : (nodes : List TaskGraphNode) → free nodes [] ≡ length nodes
free-nil [] = refl
free-nil (n ∷ ns) = ground (arith, free-nil ns)

pub free_cons_le :
    (nodes : List TaskGraphNode) (visiting : List String) (id : String)
    → free nodes (id ∷ visiting) ≤ free nodes visiting
free_cons_le [] visiting id = omega arith
free_cons_le (n ∷ ns) visiting id = ground (arith, free_cons_le ns visiting id)

pub free_cons_lt :
    (nodes : List TaskGraphNode) (visiting : List String) (id : String)
    → includes visiting id ≡ false
    → includes (node_ids nodes) id ≡ true
    → free nodes (id ∷ visiting) < free nodes visiting
free_cons_lt [] visiting id h k = cc
free_cons_lt (n ∷ ns) visiting id h k = elim (Bool-cases (n.id == id)) [
  | inl same ↦
      let e = (eq_iff n.id id).0 same in
      let e' = (eq_iff id n.id).1 (tomorrowedge.Prelude.sym e) in
      let off = ap (includes visiting) e ∙ h in ground (arith, free_cons_le ns visiting id, e', off)
  | inr other ↦
      ground (arith, free_cons_lt ns visiting id h, k, other, eq_iff id n.id, eq_iff n.id id)
]

pub node_by_id_of_missing :
    (nodes : List TaskGraphNode) (id : String)
    → includes (node_ids nodes) id ≡ false
    → node_by_id nodes id ≡ none
unfolding node_by_id
node_by_id_of_missing [] id h = refl
node_by_id_of_missing (n ∷ ns) id h =
    let rest = node_by_id_of_missing ns id (ground (arith, h)) in
    let other : (n.id == id) ≡ false = ground (arith, h) in rw (rest, other) refl

pub has_node_of_dependency :
    (nodes : List TaskGraphNode) (id d : String)
    → Memᴰ d (deps_of nodes id)
    → includes (node_ids nodes) id ≡ true
unfolding deps_of
has_node_of_dependency nodes id d m = elim (Bool-cases (includes (node_ids nodes) id)) [
  | inl e ↦ e
  | inr e ↦ absurd (
      nothing (
        tomorrowedge.Prelude.subst (λ o. Memᴰ d (tomorrowedge.Planning.Cycles.deps_of_node o))
          (node_by_id_of_missing nodes id e) m))
]
  where
    nothing : Memᴰ d [] → ⊥
    nothing k = elim k [ ]

visit_from-is_spent :
    (nodes : List TaskGraphNode) (depth : ℕ) (visiting before : List String) (id : String)
    → free nodes visiting < depth
    → is_spent (visit_from nodes depth visiting before id) ≡ false
unfolding visit_from
visit_from-is_spent nodes zero visiting before id h = absurd (omega (arith, h))
visit_from-is_spent nodes (suc depth) visiting before id h =
    let below = visit_from-is_spent nodes depth (id ∷ visiting) in
    elim (Bool-cases (includes before id)) [
      | inl known ↦ rw known refl
      | inr new ↦ elim (Bool-cases (includes visiting id)) [
        | inl on_path ↦ rw (new, on_path) refl
        | inr off_path ↦
            rw (new, off_path)
              (and_then-is_spent _ _
                (visit_all-is_spent (visit_from nodes depth (id ∷ visiting)) (deps_of nodes id)
                  before
                  (λ b d m. below b d (
                    omega (
                      arith,
                      h,
                      free_cons_lt nodes visiting id off_path (has_node_of_dependency nodes id d m),
                    ))))
                (λ v. refl))
      ]
    ]

-- The search never runs out of depth.
pub search_cycle-not-spent : (nodes : List TaskGraphNode) → search_cycle nodes ≢ spent
unfolding search_cycle
search_cycle-not-spent nodes e =
    let found : is_spent (search_cycle nodes) ≡ false =
      visit_all-is_spent (visit_from nodes (length nodes + 1) []) (node_ids nodes) [] (λ b i m.
        visit_from-is_spent nodes (length nodes + 1) [] b i (omega (arith, free-nil nodes))) in
    let wrong : true ≡ false = tomorrowedge.Prelude.sym (ap is_spent e) ∙ found in cc
