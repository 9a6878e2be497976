-- ===== src/Orchestration/RoleGraph/Laws.antt =====
-- What every built graph keeps to: its dependencies point backwards, a read-only graph changes
-- nothing, and a high risk has its review and its judgment.
pub mod Filters
use tomorrowedge.Orchestration.RoleGraph.Laws.Filters.{
  avoids, looks_back, base-looks_back, looks_back-filter, keeps_governance, has_node_filter, admits,
  base-has-reviewer, base-judge, admits-filter, looks_back_behind,
}
use tomorrowedge.Prelude.{
  String, ◌≡◌, refl, sym, subst, ◌∙◌, ap, Bool, true, false, not, ◌&&◌, ◌||◌, List, [], ◌∷◌, ◌++◌,
  ◌==◌, all, filter, includes, arith, Bool-cases, inl, inr, if◌then◌else◌, eq_iff,
}
use tomorrowedge.Roles.{AgentRole, reviewer, judge, role_eq}
use tomorrowedge.Orchestration.RoleGraph.{
  RoleNode, BuildRoleGraphInput, ids, keeps, restrict_to, is_governance_role, risk_is_high,
  base_graph, constrain_role_graph, build_role_graph, ensure_governance_nodes, with_reviewer,
  with_judge, has_node_of, dependency_if_present, read_only_graph, patch_graph, repair_loop_graph,
  phase_allowed_for_role, node,
}

-- Each dependency is the id of a node that stands before, or one of `seen`.
abbrev pub is_ordered : List String → List RoleNode → Bool
is_ordered seen [] = true
is_ordered seen (n ∷ ns) = all (includes seen) n.dependencies && is_ordered (n.id ∷ seen) ns

-- No id stands twice.
abbrev pub is_distinct : List RoleNode → Bool
is_distinct [] = true
is_distinct (n ∷ ns) = not (includes (ids ns) n.id) && is_distinct ns

seen_of_avoids :
    (known seen later ds : List String)
    → ((d : String) → includes known d ≡ true → (includes seen d || includes later d) ≡ true)
    → avoids later ds ≡ true
    → all (includes seen) (filter (includes known) ds) ≡ true
seen_of_avoids known seen later [] h k = refl
seen_of_avoids known seen later (d ∷ ds) h k =
    ground (arith, seen_of_avoids known seen later ds h, h d, k)

restrict_to-is_ordered :
    (known seen : List String) (ns : List RoleNode)
    → ((d : String) → includes known d ≡ true → (includes seen d || includes (ids ns) d) ≡ true)
    → looks_back ns ≡ true
    → is_ordered seen (restrict_to known ns) ≡ true
unfolding restrict_to
restrict_to-is_ordered known seen [] h k = refl
restrict_to-is_ordered known seen (n ∷ ns) h k = ground (
  arith,
  seen_of_avoids known seen (n.id ∷ ids ns) n.dependencies h,
  restrict_to-is_ordered known (n.id ∷ seen) ns (λ d e. ground (arith, h d e)),
  k,
)

ids-restrict_to : (known : List String) (ns : List RoleNode) → ids (restrict_to known ns) ≡ ids ns
unfolding restrict_to
ids-restrict_to known [] = refl
ids-restrict_to known (n ∷ ns) = ap (λ l. n.id ∷ l) (ids-restrict_to known ns)

restrict_to-is_distinct :
    (known : List String) (ns : List RoleNode)
    → looks_back ns ≡ true
    → is_distinct (restrict_to known ns) ≡ true
unfolding restrict_to
restrict_to-is_distinct known [] k = refl
restrict_to-is_distinct known (n ∷ ns) k =
    rw (ids-restrict_to known ns) (ground (arith, restrict_to-is_distinct known ns, k))

-- The nodes before the dependencies are restricted.
abbrev pub constrained_nodes : BuildRoleGraphInput → List RoleNode
constrained_nodes input =
    let kept = filter (keeps input (risk_is_high input)) (base_graph input).nodes in
    if risk_is_high input
    then ensure_governance_nodes kept (base_graph input).workflow_kind
    else kept

judge-admitted :
    (kept : List RoleNode)
    → looks_back kept ≡ true
    → (has_node_of judge kept || admits "judge" kept) ≡ true
    → looks_back (with_judge kept) ≡ true
unfolding with_judge dependency_if_present
judge-admitted kept h k =
    let m =
      node judge (dependency_if_present kept "reviewer") ("judge_decision" ∷ [])
        ("plan" ∷ "context" ∷ "review_evidence" ∷ []) in
    elim (Bool-cases (has_node_of judge kept)) [
      | inl e ↦ rw e h
      | inr e ↦ rw e (looks_back_behind kept m h (ground (arith, k, e)) (ground arith))
    ]

module _ (input : BuildRoleGraphInput) where
  abbrev pub kept_nodes : List RoleNode
  kept_nodes = filter (keeps input true) (base_graph input).nodes

  pub kept-reviewer : risk_is_high input ≡ true → has_node_of reviewer kept_nodes ≡ true
  kept-reviewer high =
      has_node_filter reviewer (keeps input true)
        (λ n e. keeps_governance input n (ground (arith, e))) (base_graph input).nodes
      ∙ base-has-reviewer input high

  kept-judge :
      risk_is_high input ≡ true → (has_node_of judge kept_nodes || admits "judge" kept_nodes) ≡ true
  kept-judge high = ground (
    arith,
    has_node_filter judge (keeps input true) (λ n e. keeps_governance input n (ground (arith, e)))
        (base_graph input).nodes,
    admits-filter "judge" (keeps input true) (base_graph input).nodes,
    base-judge input high,
  )

  pub constrained-high : risk_is_high input ≡ true → constrained_nodes input ≡ with_judge kept_nodes
  unfolding ensure_governance_nodes with_reviewer
  constrained-high high = rw (high, kept-reviewer high) refl

  constrained-looks_back : looks_back (constrained_nodes input) ≡ true
  constrained-looks_back = elim (Bool-cases (risk_is_high input)) [
    | inr e ↦
        rw e
          (looks_back-filter (keeps input false) (base_graph input).nodes (base-looks_back input))
    | inl e ↦
        subst (λ ns. looks_back ns ≡ true) (sym (constrained-high e))
          (judge-admitted kept_nodes
            (looks_back-filter (keeps input true) (base_graph input).nodes (base-looks_back input))
            (kept-judge e))
  ]

  -- In every built graph no id stands twice, and each dependency of a node is the id of a node
  -- before it: the graph has no cycle, whatever roles and phases are left out.
  pub build-is_ordered :
      (is_ordered [] (build_role_graph input).nodes ≡ true)
      × (is_distinct (build_role_graph input).nodes ≡ true)
  unfolding build_role_graph constrain_role_graph
  build-is_ordered =
      let nodes = constrained_nodes input in
      (
        restrict_to-is_ordered (ids nodes) [] nodes (λ d e. e) constrained-looks_back,
        restrict_to-is_distinct (ids nodes) nodes constrained-looks_back,
      )
