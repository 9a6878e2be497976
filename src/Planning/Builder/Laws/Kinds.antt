-- ===== src/Planning/Builder/Laws/Kinds.antt =====
-- The graph of each kind of workflow, and what the validator says of it.
use tomorrowedge.Prelude.{
  ℕ, zero, suc, ◌≤◌, ◌≡◌, refl, ap, inl, inr, String, Bool, true, false, not, ◌||◌, Option, none,
  some, List, [], ◌∷◌, map, ◌==◌, join, length, Bool-cases, arith,
}
use tomorrowedge.Orchestration.RoleGraph.{is_read_only, RiskLevel, WorkflowKind}
use tomorrowedge.ControlPlane.Workspace.{trim}
use tomorrowedge.Planning.TaskGraph.{TaskGraphNode}
use tomorrowedge.Planning.Cycles.{has_cycle}
use tomorrowedge.Planning.Inputs.{upstream_produces}
use tomorrowedge.Planning.Validator.{validate_task_graph, risk_is_high, kind_is_patch}
use tomorrowedge.Planning.Contract.{ObjectiveContract}
use tomorrowedge.Planning.Specs.{
  BuildTaskGraphFromContractInput, NodeSpec, read_only_specs, ask_user_specs, repair_loop_specs,
  commands_or, step_titles,
}
use tomorrowedge.Planning.Specs.Patch.{
  patch_specs, high_risk_patch_specs, patch_specs_of, high_risk_specs_of, candidate_ids,
  candidate_patch_node_ids, should_include_alternative, verify_objective,
}
use tomorrowedge.Planning.Builder.{
  graph_of_nodes, materialize_node, slice, specs_by_kind, patch_specs_by_risk,
}

abbrev nodes_of : Option ObjectiveContract → RiskLevel → List NodeSpec → List TaskGraphNode
nodes_of contract risk specs = map (λ (s : NodeSpec). materialize_node s contract risk) specs

-- The validator has no objection to the graph of the specifications.
abbrev Accepts : BuildTaskGraphFromContractInput → RiskLevel → List NodeSpec → Type 0
Accepts input risk specs =
    (validate_task_graph (graph_of_nodes input risk (nodes_of input.contract risk specs))).ok ≡ true

-- The commands give the step that runs them an objective: without them it has one of its own.
abbrev pub is_spoken : Option (List String) → Bool
is_spoken none = true
is_spoken (some commands) = join "; " commands == "" || not (trim (join "; " commands) == "")

spoken-objective :
    (other : String) (commands : Option (List String))
    → (trim other == "") ≡ false
    → is_spoken commands ≡ true
    → (trim (commands_or other commands) == "") ≡ false
spoken-objective other none o = λ h. o
spoken-objective other (some commands) o = elim (Bool-cases (join "; " commands == "")) [
  | inl e ↦ rw e (λ h. o)
  | inr e ↦ rw e (λ h. not_true (trim (join "; " commands) == "") h)
]
  where
    not_true : (b : Bool) → not b ≡ true → b ≡ false
    not_true false h = refl
    not_true true h = absurd (cc h)

pub slice-all {ℓ} : {A : Type ℓ} (n : ℕ) (xs : List A) → length xs ≤ n → slice n xs ≡ xs
slice-all n [] h = refl
slice-all zero (x ∷ xs) h = absurd (omega arith)
slice-all (suc n) (x ∷ xs) h = λ i. x ∷ slice-all n xs (omega arith) i

module _ (input : BuildTaskGraphFromContractInput) (criteria : List String) (parallel : Bool)
    (objective : String) (spoken : (trim objective == "") ≡ false)
    (changes : is_read_only input.workflow_kind ≡ false) where
  patch-Accepts :
      (needs_patch alternative : Bool) (risk : RiskLevel)
      → kind_is_patch (some input.workflow_kind) ≡ needs_patch
      → risk_is_high risk ≡ false
      → Accepts input risk (patch_specs_of criteria parallel alternative objective)
  unfolding validate_task_graph has_cycle upstream_produces materialize_node
  patch-Accepts true true risk k r = rw (changes, k, r, spoken) refl
  patch-Accepts true false risk k r = rw (changes, k, r, spoken) refl
  patch-Accepts false true risk k r = rw (changes, k, r, spoken) refl
  patch-Accepts false false risk k r = rw (changes, k, r, spoken) refl

  high_risk-Accepts :
      (needs_patch alternative : Bool)
      → kind_is_patch (some input.workflow_kind) ≡ needs_patch
      → Accepts input RiskLevel.high (
          high_risk_specs_of criteria
            (candidate_ids alternative)
            (patch_specs_of criteria parallel alternative objective))
  unfolding validate_task_graph has_cycle upstream_produces materialize_node
  high_risk-Accepts true true k = rw (changes, k, spoken) refl
  high_risk-Accepts true false k = rw (changes, k, spoken) refl
  high_risk-Accepts false true k = rw (changes, k, spoken) refl
  high_risk-Accepts false false k = rw (changes, k, spoken) refl

abbrev pub repairs_failing : RiskLevel → WorkflowKind → Bool
repairs_failing risk WorkflowKind.repair = risk_is_high risk
repairs_failing risk _ = false

module _ (input : BuildTaskGraphFromContractInput)
    (spoken : is_spoken input.verification_commands ≡ true) where
  read_only-Accepts :
      (kind : WorkflowKind) (risk : RiskLevel)
      → input.workflow_kind ≡ kind
      → is_read_only kind ≡ true
      → Accepts input risk (specs_by_kind kind risk input)
  unfolding validate_task_graph has_cycle upstream_produces materialize_node read_only_specs
      ask_user_specs
  read_only-Accepts WorkflowKind.read_only RiskLevel.low e k = rw e refl
  read_only-Accepts WorkflowKind.read_only RiskLevel.medium e k = rw e refl
  read_only-Accepts WorkflowKind.read_only RiskLevel.high e k = rw e refl
  read_only-Accepts WorkflowKind.advisory RiskLevel.low e k = rw e refl
  read_only-Accepts WorkflowKind.advisory RiskLevel.medium e k = rw e refl
  read_only-Accepts WorkflowKind.advisory RiskLevel.high e k = rw e refl
  read_only-Accepts WorkflowKind.ask_user RiskLevel.low e k = rw e refl
  read_only-Accepts WorkflowKind.ask_user RiskLevel.medium e k = rw e refl
  read_only-Accepts WorkflowKind.ask_user RiskLevel.high e k = rw e refl
  read_only-Accepts WorkflowKind.patch risk e k = absurd (cc k)
  read_only-Accepts WorkflowKind.repair risk e k = absurd (cc k)
  read_only-Accepts WorkflowKind.vision_patch risk e k = absurd (cc k)
  read_only-Accepts WorkflowKind.sirius_council risk e k = absurd (cc k)

  repair-Accepts :
      (risk : RiskLevel)
      → input.workflow_kind ≡ WorkflowKind.repair
      → risk_is_high risk ≡ false
      → Accepts input risk (repair_loop_specs input)
  unfolding validate_task_graph has_cycle upstream_produces materialize_node repair_loop_specs
  repair-Accepts risk e r =
      rw
        (
          e,
          r,
          spoken-objective "Run the failed verifier after repair." input.verification_commands refl
              spoken,
        )
        refl

  objective_spoken : (trim (verify_objective input) == "") ≡ false
  unfolding trim
  objective_spoken =
      spoken-objective "Run the configured verifier or record why verification is not available."
        input.verification_commands refl spoken

  patch_specs-Accepts :
      (risk : RiskLevel)
      → is_read_only input.workflow_kind ≡ false
      → Accepts input risk (patch_specs_by_risk risk input)
  unfolding patch_specs high_risk_patch_specs candidate_patch_node_ids
  patch_specs-Accepts RiskLevel.low changes =
      patch-Accepts input (step_titles input) _ (verify_objective input) objective_spoken changes _
        (should_include_alternative input) RiskLevel.low refl refl
  patch_specs-Accepts RiskLevel.medium changes =
      patch-Accepts input (step_titles input) _ (verify_objective input) objective_spoken changes _
        (should_include_alternative input) RiskLevel.medium refl refl
  patch_specs-Accepts RiskLevel.high changes =
      high_risk-Accepts input (step_titles input) _ (verify_objective input) objective_spoken
        changes _ (should_include_alternative input) refl

  pub specs-Accepts :
      (kind : WorkflowKind) (risk : RiskLevel)
      → input.workflow_kind ≡ kind
      → repairs_failing risk kind ≡ false
      → Accepts input risk (specs_by_kind kind risk input)
  specs-Accepts WorkflowKind.read_only risk e r =
      read_only-Accepts WorkflowKind.read_only risk e refl
  specs-Accepts WorkflowKind.advisory risk e r = read_only-Accepts WorkflowKind.advisory risk e refl
  specs-Accepts WorkflowKind.ask_user risk e r = read_only-Accepts WorkflowKind.ask_user risk e refl
  specs-Accepts WorkflowKind.repair risk e r = repair-Accepts risk e r
  specs-Accepts WorkflowKind.patch risk e r = patch_specs-Accepts risk (ap is_read_only e)
  specs-Accepts WorkflowKind.vision_patch risk e r = patch_specs-Accepts risk (ap is_read_only e)
  specs-Accepts WorkflowKind.sirius_council risk e r = patch_specs-Accepts risk (ap is_read_only e)
