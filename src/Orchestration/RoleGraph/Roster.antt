-- ===== src/Orchestration/RoleGraph/Roster.antt =====
-- Which roles a built graph has for certain, and which it never has.
use tomorrowedge.Prelude.{
  ◌≡◌, refl, sym, subst, ◌∙◌, Bool, true, false, ◌||◌, List, [], ◌∷◌, ◌++◌, any, filter, arith,
  Bool-cases, inl, inr, String,
}
use tomorrowedge.Roles.{AgentRole, reviewer, judge, role_eq}
use tomorrowedge.Orchestration.RoleGraph.{
  RoleNode, BuildRoleGraphInput, ids, keeps, restrict_to, is_read_only, is_mutation_role,
  risk_is_high, base_graph, constrain_role_graph, build_role_graph, with_judge, has_node_of,
  dependency_if_present, node,
}
use tomorrowedge.Orchestration.RoleGraph.Laws.{
  constrained_nodes, kept_nodes, kept-reviewer, constrained-high,
}

-- Whether a node has a role of the kind.
abbrev pub has_role_of : (AgentRole → Bool) → List RoleNode → Bool
has_role_of p nodes = any (λ (n : RoleNode). p n.role) nodes

has_role_of-restrict_to :
    (p : AgentRole → Bool) (known : List String) (ns : List RoleNode)
    → has_role_of p (restrict_to known ns) ≡ has_role_of p ns
unfolding restrict_to
has_role_of-restrict_to p known [] = refl
has_role_of-restrict_to p known (n ∷ ns) = ground (arith, has_role_of-restrict_to p known ns)

has_role_of-append :
    (p : AgentRole → Bool) (ns ms : List RoleNode)
    → has_role_of p (ns ++ ms) ≡ (has_role_of p ns || has_role_of p ms)
has_role_of-append p [] ms = refl
has_role_of-append p (n ∷ ns) ms = ground (arith, has_role_of-append p ns ms)

has_role_of-filter :
    (p : AgentRole → Bool) (q : RoleNode → Bool) (ns : List RoleNode)
    → ((n : RoleNode) → q n ≡ true → p n.role ≡ false)
    → has_role_of p (filter q ns) ≡ false
has_role_of-filter p q [] h = refl
has_role_of-filter p q (n ∷ ns) h = ground (arith, has_role_of-filter p q ns h, h n)

-- The node that `with_judge` adds.
abbrev judge_node : List RoleNode → RoleNode
judge_node ns =
    node judge (dependency_if_present ns "reviewer") ("judge_decision" ∷ [])
      ("plan" ∷ "context" ∷ "review_evidence" ∷ [])

with_judge-roles :
    (ns : List RoleNode)
    → has_role_of (λ role. role_eq role reviewer) ns ≡ true
    → (has_role_of (λ role. role_eq role reviewer) (with_judge ns) ≡ true)
      × (has_role_of (λ role. role_eq role judge) (with_judge ns) ≡ true)
unfolding with_judge
with_judge-roles ns h = elim (Bool-cases (has_node_of judge ns)) [
  | inl e ↦ rw e (h, e)
  | inr e ↦ rw e (
    has_role_of-append (λ role. role_eq role reviewer) ns (judge_node ns ∷ []) ∙ rw h refl,
    has_role_of-append (λ role. role_eq role judge) ns (judge_node ns ∷ []) ∙ rw e refl,
  )
]

with_judge-no_mutation :
    (ns : List RoleNode)
    → has_role_of is_mutation_role ns ≡ false
    → has_role_of is_mutation_role (with_judge ns) ≡ false
unfolding with_judge
with_judge-no_mutation ns h = elim (Bool-cases (has_node_of judge ns)) [
  | inl e ↦ rw e h
  | inr e ↦ rw e (has_role_of-append is_mutation_role ns (judge_node ns ∷ []) ∙ rw h refl)
]

keeps_no_mutation :
    (input : BuildRoleGraphInput) (high_risk : Bool) (n : RoleNode)
    → is_read_only input.workflow_kind ≡ true
    → keeps input high_risk n ≡ true
    → is_mutation_role n.role ≡ false
unfolding keeps
keeps_no_mutation input high_risk n h k = elim (Bool-cases (is_mutation_role n.role)) [
  | inr e ↦ e
  | inl e ↦ absurd (dropped (rw (h, e) refl ∙ k))
]
  where
    dropped : false ≡ true → ⊥
    dropped x = cc

module _ (input : BuildRoleGraphInput) where
  -- A graph for a high risk has a review and a judgment, whatever the allowed roles and phases
  -- leave out.
  pub build-governed :
      risk_is_high input ≡ true
      → (has_role_of (λ role. role_eq role reviewer) (build_role_graph input).nodes ≡ true)
        × (has_role_of (λ role. role_eq role judge) (build_role_graph input).nodes ≡ true)
  unfolding build_role_graph constrain_role_graph
  build-governed high =
      let nodes = constrained_nodes input in
      let roles =
        subst
          (λ ns.
            (has_role_of (λ role. role_eq role reviewer) ns ≡ true)
            × (has_role_of (λ role. role_eq role judge) ns ≡ true))
          (sym (constrained-high input high))
          (with_judge-roles (kept_nodes input) (kept-reviewer input high)) in
      (
        has_role_of-restrict_to (λ role. role_eq role reviewer) (ids nodes) nodes ∙ roles.0,
        has_role_of-restrict_to (λ role. role_eq role judge) (ids nodes) nodes ∙ roles.1,
      )

  no_mutation :
      is_read_only input.workflow_kind ≡ true
      → (high_risk : Bool)
      → has_role_of is_mutation_role (filter (keeps input high_risk) (base_graph input).nodes)
        ≡ false
  no_mutation h high_risk =
      has_role_of-filter is_mutation_role (keeps input high_risk) (base_graph input).nodes
        (λ n k. keeps_no_mutation input high_risk n h k)

  constrained-no_mutation :
      is_read_only input.workflow_kind ≡ true
      → has_role_of is_mutation_role (constrained_nodes input) ≡ false
  constrained-no_mutation h = elim (Bool-cases (risk_is_high input)) [
    | inr low ↦ rw low (no_mutation h false)
    | inl high ↦
        subst (λ ns. has_role_of is_mutation_role ns ≡ false) (sym (constrained-high input high))
          (with_judge-no_mutation (kept_nodes input) (no_mutation h true))
  ]

  -- A read-only, an advisory or an asking graph has no role that changes the workspace.
  pub build-is_read_only :
      is_read_only input.workflow_kind ≡ true
      → has_role_of is_mutation_role (build_role_graph input).nodes ≡ false
  unfolding build_role_graph constrain_role_graph
  build-is_read_only h =
      has_role_of-restrict_to is_mutation_role (ids (constrained_nodes input))
        (constrained_nodes input)
      ∙ constrained-no_mutation h
