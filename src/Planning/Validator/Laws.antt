-- ===== src/Planning/Validator/Laws.antt =====
-- What a graph without errors keeps to.
use tomorrowedge.Prelude.{
  String, ◌≡◌, refl, ap, ◌⊎◌, inl, inr, subst, Bool, true, false, not, Option, none, some, List, [],
  ◌∷◌, ◌++◌, Memᴰ, All, all, includes, filter, is_empty,
}
use tomorrowedge.Planning.TaskGraph.{TaskNodeKind, TaskGraphNode, TaskGraph, EvidenceRequirement}
use tomorrowedge.Orchestration.RoleGraph.{is_mutation_role}
use tomorrowedge.Orchestration.RoleGraph.Graphs.{WorkflowKind}
use tomorrowedge.Planning.Cycles.{node_ids}
use tomorrowedge.Planning.Cycles.Exact.{IsOrder, has_cycle-IsOrder}
use tomorrowedge.Planning.Inputs.{upstream_produces}
use tomorrowedge.Planning.Inputs.Exact.{Produces, upstream_produces_iff}
use tomorrowedge.Planning.Validator.{
  push_if, for_each, only_if, node_errors, dependency_errors, read_only_errors, patch_errors,
  input_errors, workflow_errors, validate_task_graph, kind_is_read_only, kind_is_patch,
  is_mutation_kind, find_kind, is_absent, is_apart, shape_errors,
}

nil_of_append : (xs ys : List String) → xs ++ ys ≡ [] → (xs ≡ []) × (ys ≡ [])
nil_of_append [] ys h = (refl, h)
nil_of_append (x ∷ xs) ys h = cc

off_of_nil : (b : Bool) (message : String) → push_if b message ≡ [] → b ≡ false
off_of_nil true message h = cc
off_of_nil false message h = refl

for_each-All {ℓ κ} :
    {A : Type ℓ} (P : A → Type κ) (xs : List A) (f : A → List String)
    → ((x : A) → f x ≡ [] → P x)
    → for_each xs f ≡ []
    → All P xs
for_each-All P [] f k h = tt
for_each-All P (x ∷ xs) f k h =
    let (now, rest) = nil_of_append (f x) (for_each xs f) h in (k x now, for_each-All P xs f k rest)

all_known :
    (ids ds : List String) → All (λ d. includes ids d ≡ true) ds → all (includes ids) ds ≡ true
all_known ids [] h = refl
all_known ids (d ∷ ds) h = rw h.0 (all_known ids ds h.1)

on_of_not : (b : Bool) → not b ≡ false → b ≡ true
on_of_not true h = refl
on_of_not false h = cc

-- No id is one of `seen` or stands twice.
abbrev pub AreNew : List String → List TaskGraphNode → Type 0
AreNew seen [] = Unit
AreNew seen (n ∷ ns) = (includes seen n.id ≡ false) × AreNew (n.id ∷ seen) ns

node_errors-AreNew :
    (seen : List String) (ns : List TaskGraphNode) → node_errors seen ns ≡ [] → AreNew seen ns
unfolding node_errors
node_errors-AreNew seen [] h = tt
node_errors-AreNew seen (n ∷ ns) h =
    let (now, rest) = nil_of_append _ (node_errors (n.id ∷ seen) ns) h in
    (
      off_of_nil (includes seen n.id) _ (nil_of_append (shape_errors n) _ now).1,
      node_errors-AreNew (n.id ∷ seen) ns rest,
    )

-- The first steps of their kinds are in order: judge, apply and verify.
pub record IsGoverned (graph : TaskGraph) : Type 0 where
  pub judged : TaskGraphNode
  pub applied : TaskGraphNode
  pub verified : TaskGraphNode
  pub judges : find_kind graph TaskNodeKind.judge ≡ some judged
  pub applies : find_kind graph TaskNodeKind.apply_patch ≡ some applied
  pub verifies : find_kind graph TaskNodeKind.verify ≡ some verified
  pub judged_first : includes applied.depends_on judged.id ≡ true
  pub applied_first : includes verified.depends_on applied.id ≡ true

there_of : (o : Option TaskGraphNode) → is_absent o ≡ false → (n : TaskGraphNode) × (o ≡ some n)
there_of none h = cc
there_of (some n) h = (n, refl)

depends_of :
    (o p : Option TaskGraphNode) (n m : TaskGraphNode)
    → o ≡ some n
    → p ≡ some m
    → is_apart o p ≡ false
    → includes n.depends_on m.id ≡ true
depends_of o p n m e f h =
    on_of_not (includes n.depends_on m.id)
      (subst (λ q. is_apart (some n) q ≡ false) f (subst (λ q. is_apart q p ≡ false) e h))

patch_errors-IsGoverned : (graph : TaskGraph) → patch_errors graph ≡ [] → IsGoverned graph
unfolding patch_errors
patch_errors-IsGoverned graph h =
    let (_, h1) = nil_of_append _ _ h in
    let (_, h2) = nil_of_append _ _ h1 in
    let (no_judge, h3) = nil_of_append _ _ h2 in
    let (no_apply, h4) = nil_of_append _ _ h3 in
    let (no_verify, h5) = nil_of_append _ _ h4 in
    let (apart, apart') = nil_of_append _ _ h5 in
    let (judged, j) = there_of (find_kind graph TaskNodeKind.judge) (off_of_nil _ _ no_judge) in
    let (applied, a) =
      there_of (find_kind graph TaskNodeKind.apply_patch) (off_of_nil _ _ no_apply) in
    let (verified, v) = there_of (find_kind graph TaskNodeKind.verify) (off_of_nil _ _ no_verify) in
    record {
      judged = judged;
      applied = applied;
      verified = verified;
      judges = j;
      applies = a;
      verifies = v;
      judged_first = depends_of _ _ applied judged a j (off_of_nil _ _ apart);
      applied_first = depends_of _ _ verified applied v a (off_of_nil _ _ apart');
    }

-- What each node keeps to in a graph that changes nothing.
pub record IsHarmless (n : TaskGraphNode) : Type 0 where
  pub no_mutation : n.mutation_allowed ≡ false
  pub no_mutation_kind : is_mutation_kind n.kind ≡ false
  pub no_mutation_role : is_mutation_role n.owner_role ≡ false

read_only_errors-IsHarmless : (n : TaskGraphNode) → read_only_errors n ≡ [] → IsHarmless n
unfolding read_only_errors
read_only_errors-IsHarmless n h =
    let (a, bc) = nil_of_append _ _ h in
    let (b, c) = nil_of_append _ _ bc in
    record {
      no_mutation = off_of_nil n.mutation_allowed _ a;
      no_mutation_kind = off_of_nil (is_mutation_kind n.kind) _ b;
      no_mutation_role = off_of_nil (is_mutation_role n.owner_role) _ c;
    }

-- A required input of the node is an output of a step before it.
abbrev pub AreProduced : TaskGraph → TaskGraphNode → Type 0
AreProduced graph n =
    All
      (λ (item : EvidenceRequirement).
        (d : String) × Memᴰ d n.depends_on × Produces graph.nodes item.id d)
      (filter (λ (item : EvidenceRequirement). item.required) n.required_inputs)

input_errors-AreProduced :
    (graph : TaskGraph) (n : TaskGraphNode) → input_errors graph n ≡ [] → AreProduced graph n
unfolding input_errors
input_errors-AreProduced graph n h =
    for_each-All _ (filter (λ (item : EvidenceRequirement). item.required) n.required_inputs) _
      (λ item e.
        (upstream_produces_iff graph n item.id).0
          (on_of_not (upstream_produces graph n item.id) (off_of_nil _ _ e)))
      h

-- What a valid graph keeps to.
pub record IsValid (graph : TaskGraph) : Type 0 where
  pub distinct : AreNew [] graph.nodes
  pub known :
      All
        (λ (n : TaskGraphNode). all (includes (node_ids graph.nodes)) n.depends_on ≡ true)
        graph.nodes
  pub ordered : (order : List String) × IsOrder graph.nodes order
  pub harmless :
      (graph.workflow_kind ≡ some WorkflowKind.read_only)
        ⊎ ((graph.workflow_kind ≡ some WorkflowKind.advisory)
            ⊎ (graph.workflow_kind ≡ some WorkflowKind.ask_user))
      → All IsHarmless graph.nodes
  pub governed :
      (graph.workflow_kind ≡ some WorkflowKind.patch)
        ⊎ (graph.workflow_kind ≡ some WorkflowKind.vision_patch)
      → IsGoverned graph
  pub produced : All (AreProduced graph) graph.nodes

dependency_errors-known :
    (ids : List String) (n : TaskGraphNode)
    → dependency_errors ids n ≡ []
    → all (includes ids) n.depends_on ≡ true
unfolding dependency_errors
dependency_errors-known ids n h = all_known ids n.depends_on (
    for_each-All _ n.depends_on _ (λ d e. on_of_not (includes ids d) (off_of_nil _ _ e))
      (nil_of_append _ _ h).0)

nil_of_empty : (xs : List String) → is_empty xs ≡ true → xs ≡ []
nil_of_empty [] h = refl
nil_of_empty (x ∷ xs) h = cc

nil_of_only_if : (b : Bool) (xs : List String) → only_if b xs ≡ [] → b ≡ true → xs ≡ []
nil_of_only_if true xs h e = h
nil_of_only_if false xs h e = cc

read_only_on :
    (kind : Option WorkflowKind)
    → (kind ≡ some WorkflowKind.read_only)
      ⊎ ((kind ≡ some WorkflowKind.advisory) ⊎ (kind ≡ some WorkflowKind.ask_user))
    → kind_is_read_only kind ≡ true
read_only_on kind (inl e) = ap kind_is_read_only e
read_only_on kind (inr (inl e)) = ap kind_is_read_only e
read_only_on kind (inr (inr e)) = ap kind_is_read_only e

patch_on :
    (kind : Option WorkflowKind)
    → (kind ≡ some WorkflowKind.patch) ⊎ (kind ≡ some WorkflowKind.vision_patch)
    → kind_is_patch kind ≡ true
patch_on kind (inl e) = ap kind_is_patch e
patch_on kind (inr e) = ap kind_is_patch e

-- A graph that the validator finds no error in has no id twice and no missing dependency; there is
-- an order in which each step stands behind all that it depends on; if it is read-only, advice or a question nothing in
-- it changes the workspace; if it is a patch, also a visual one, its first step that applies depends
-- on its first judge and its first verifier on that step (nothing is said of a second step that
-- applies); and each required input of a step is an output of a step before it.
pub validate-IsValid : (graph : TaskGraph) → (validate_task_graph graph).ok ≡ true → IsValid graph
unfolding validate_task_graph workflow_errors
validate-IsValid graph h =
    let (_, h1) = nil_of_append _ _ (nil_of_empty _ h) in
    let (_, h2) = nil_of_append _ _ h1 in
    let (nodes, h3) = nil_of_append (node_errors [] graph.nodes) _ h2 in
    let (deps, h4) = nil_of_append _ _ h3 in
    let (no_cycle, h5) = nil_of_append _ _ h4 in
    let (frozen, h6) = nil_of_append _ _ h5 in
    let (patched, h7) = nil_of_append _ _ h6 in
    let (_, inputs) = nil_of_append _ _ h7 in
    record {
      distinct = node_errors-AreNew [] graph.nodes nodes;
      known = for_each-All _ graph.nodes _ (dependency_errors-known (node_ids graph.nodes)) deps;
      ordered = has_cycle-IsOrder graph (off_of_nil _ _ no_cycle);
      harmless = λ on.
          for_each-All IsHarmless graph.nodes read_only_errors read_only_errors-IsHarmless
            (nil_of_only_if _ _ frozen (read_only_on _ on));
      governed = λ on. patch_errors-IsGoverned graph (nil_of_only_if _ _ patched (patch_on _ on));
      produced = for_each-All _ graph.nodes _ (input_errors-AreProduced graph) inputs;
    }
