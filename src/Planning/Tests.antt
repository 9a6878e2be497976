-- ===== src/Planning/Tests.antt =====
-- The search for cycles and the ready nodes on small task graphs.
use tomorrowedge.Prelude.{◌≡◌, ◌↔◌, refl, true, false, [], ◌∷◌}
use tomorrowedge.Planning.TaskGraph.{
  pending, done, TaskGraph, EvidenceKind, EvidenceRequirement, OutputKind, ExpectedOutput,
  next_ready_task_nodes,
}
use tomorrowedge.Planning.Samples.{step, graph_of}
use tomorrowedge.Planning.Progress.{is_finished, ready_or_finished}
use tomorrowedge.Planning.Cycles.{has_cycle, node_ids}
use tomorrowedge.Planning.Cycles.Laws.{HasCycle}
use tomorrowedge.Planning.Validator.{validate_task_graph}
use tomorrowedge.Planning.Validator.Laws.{IsValid, validate-IsValid}
use tomorrowedge.Planning.Inputs.{upstream_produces}
use tomorrowedge.Planning.Cycles.Exact.{has_cycle_iff}

abbrev chain : TaskGraph
chain = graph_of (
    step "test" ("code" ∷ []) pending
    ∷ step "code" ("plan" ∷ "notes" ∷ []) pending
    ∷ step "plan" [] done
    ∷ [])

abbrev ring : TaskGraph
ring = graph_of (step "a" ("b" ∷ []) pending ∷ step "b" ("a" ∷ []) pending ∷ [])

chain-no_cycle : has_cycle chain ≡ false
unfolding has_cycle
chain-no_cycle = refl

ring-cycle : has_cycle ring ≡ true
unfolding has_cycle
ring-cycle = refl

code_is_ready : node_ids (next_ready_task_nodes chain) ≡ "code" ∷ []
unfolding next_ready_task_nodes
code_is_ready = refl

has_cycle_iff_example : (has_cycle ring ≡ true) ↔ HasCycle ring.nodes
has_cycle_iff_example = has_cycle_iff ring

abbrev outline : ExpectedOutput
outline = record { id = "outline"; kind = OutputKind.plan; description = "Outline" }

abbrev needed : EvidenceRequirement
needed = record {
  id = "outline";
  kind = EvidenceKind.artifact;
  description = "Outline";
  required = true;
}

-- The same chain, whose plan has an output.
abbrev planned : TaskGraph
planned = graph_of (
    step "test" ("code" ∷ []) pending
    ∷ step "code" ("plan" ∷ "notes" ∷ []) pending
    ∷ record (step "plan" [] done) { expected_outputs = outline ∷ [] }
    ∷ [])

outline_is_upstream : upstream_produces planned (step "test" ("code" ∷ []) pending) "outline" ≡ true
unfolding upstream_produces
outline_is_upstream = refl

-- A test that needs the outline, which the plan of a step before it has.
abbrev sound : TaskGraph
sound = graph_of (
    record (step "test" ("code" ∷ []) pending) { required_inputs = needed ∷ [] }
    ∷ step "code" ("plan" ∷ []) pending
    ∷ record (step "plan" [] done) { expected_outputs = outline ∷ [] }
    ∷ [])

sound-ok : (validate_task_graph sound).ok ≡ true
unfolding validate_task_graph has_cycle upstream_produces
sound-ok = refl

chain_misses_notes :
    (validate_task_graph chain).errors
    ≡ "node code depends on missing node notes"
      ∷ "node code legacy dependency points to missing node notes" ∷ []
unfolding validate_task_graph has_cycle upstream_produces
chain_misses_notes = refl

validate-IsValid_example : IsValid sound
validate-IsValid_example = validate-IsValid sound sound-ok

ready_or_finished_example : (next_ready_task_nodes sound ≡ []) ↔ (is_finished sound.nodes ≡ true)
ready_or_finished_example = ready_or_finished sound sound-ok (refl, (refl, (refl, tt)))
