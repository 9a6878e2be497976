-- ===== src/Lib.antt =====
-- TomorrowEdge: the convergence runtime, the role and task graphs, the strong-agent budget, and what
-- a patch and a command go through before they change the workspace.
--
-- The convergence runtime (src/core/controlPlane) reconciles a workspace with a goal. A
-- controller observes the workspace, runs the gates of an acceptance matrix, lets an adapter
-- act, observes and evaluates again, and decides to go on, to converge or to abort; each pass
-- writes its status to a ledger of three files, behind what it finds there. The budget (src/core/budget) says which calls
-- of the executor (src/core/agentGraph) may use the strong agents, and counts them. The role
-- graphs (src/core/orchestration) say which roles take part in a task and when each may run,
-- the task graphs (src/core/planning) which steps it has and what each step waits for. The safety
-- rules (src/safety, src/core/tools) bound the commands and the paths, and the patches
-- (src/core/patch) are counted, checked, planned and written under them. The routing
-- (src/core/routing) says which provider and model each role calls, the permissions
-- (src/core/permissions) what an access mode approves.
--
-- The files, and the code that each models:
--   Prelude: the names that all files share; tests on numbers, list and text functions,
--     members of filtered, mapped and sorted lists
--   Roles: src/schemas/agentTask.ts, the phases of src/core/events/eventTypes.ts
--   ControlPlane.Specs: the data of src/core/controlPlane/specs.ts and adapters.ts
--   ControlPlane.Paths: normalizePath and the two path rules of diff.ts
--   ControlPlane.Workspace: snapshots, git status, observeWorkspace of diff.ts
--   ControlPlane.Host, ControlPlane.Effects, ControlPlane.Attempts: the calls that leave the
--     repository, and their sequence; every such call may throw, and a throw ends what awaits it
--   ControlPlane.StatusStore: writeStatus and the report of statusStore.ts; a write that fails may
--     have done nothing, a part or all of its work, and an append may be cut off
--   ControlPlane.Gates: each gate's `run`, createGate and writeGateLog of gates.ts
--   ControlPlane.Evaluator: EvaluationRunner.run and its helpers of evaluator.ts;
--     `Evaluator.Conditions` says apart from the code what each condition asks for
--   ControlPlane.Decision, Status, Pass, Controller: controller.ts; `Decision` has its pure
--     functions, `Status` what it writes, `Pass` the body of its loop, `Controller` the run, which
--     starts from the ledger that it finds, since a run id may be used again
--   Budget.Allocator: budgetAllocator.ts and strongAgentBudget.ts
--   Budget.Gate: budgetGate.ts; a reservation is an object that the runtime and its holder
--     share, and the holder's reference is its place in the list of reservations
--   Budget.Scope: the budget scopes of src/core/agentGraph/executor.ts
--   Orchestration.RoleGraph, Orchestration.Scheduler: roleGraph.ts and roleGraphScheduler.ts;
--     the table of a run's nodes is a list of entries
--   Planning.TaskGraph: taskGraph.ts and taskGraphScheduler.ts of src/core/planning
--   Planning.Cycles: hasCycle of taskGraphValidator.ts; a visit has a depth, and the number of
--     nodes and one is enough, since a path repeats no id and goes on only from nodes
--   Planning.Inputs: upstreamProduces of the same file, with the same depth
--   Planning.Validator: validateTaskGraph of the same file
--   Planning.Plan, Planning.Contract: src/schemas/plan.ts, workflowKindFromPlan, the objective
--     contract, and what is read of a policy
--   Planning.Specs, Planning.Specs.Patch, Planning.Ids, Planning.Builder: taskGraphBuilder.ts, with
--     its list of steps for each kind of workflow
--   Planning.Execution: updateTaskGraphForRoleNode, markTaskNodesRunning and
--     flushReadyTaskGraphNodes of src/core/agentGraph/executor.ts; a round of the last one that
--     changes something leaves fewer steps pending, so their number and one is enough
--   Planning.Progress: how the validator and the scheduler meet
--   Safety.Shell: src/safety/shellGuard.ts; Safety.Letters: its `toLowerCase`
--   Safety.Inside: resolveInside of src/core/tools/fsTool.ts and isPathTraversal of
--     src/core/patch/patchValidator.ts; an absolute path is the list of its names, and the loop over
--     ancestors has one more round than the path has names, which is enough
--     (`nearest-IsAnchor_of_fuel`)
--   Patch.Hunks: normalizeUnifiedDiffHunkCounts of src/core/patch/patchParser.ts; each round of its
--     loop takes a line at least, so the number of lines is enough fuel
--   Patch.Anchors: the two fallbacks of patchApplier.ts for a hunk that does not apply where it says
--   Patch.Quality, Patch.Declarations, Patch.Validator: src/core/patch/patchValidator.ts, its
--     regular expressions written out, and what parseUnifiedDiff of patchParser.ts reads off a
--     patch; `Validator` has applyUnifiedDiffWithResult with its guards
--   Patch.Parser: parseUnifiedDiff of patchParser.ts, with its binary patches; the test for a single
--     file there has no say, since the one of the whole diff comes first
--   Safety.Risk: src/safety/fileRisk.ts
--   Patch.Applier: applyUnifiedDiffWithResult of patchApplier.ts from the parsed files on
--   Patch.Transaction: its writing and its rollback, with createUndoSnapshot of undoManager.ts; any
--     operation may fail, those of the rollback too
--   Routing.Profiles, Routing.Policies: the types and buildRoutingPlan of
--     src/core/routing/policies.ts; Routing.Defaults, Routing.Configured: modelProfiles.ts, with
--     the variables of the process and the engine's upper case as a record; Routing.Router:
--     rerouteRoutingPlanForPlan and router.ts; Routing.Externals: externalAgentRouter.ts and, of
--     externalAgentRegistry.ts in src/core/externalAgents, what the router asks for
--   Permissions: src/core/permissions
--
-- A module that has grown hands parts of its code to modules below it and passes their names on.
--
-- The components meet at records: `Host` has the operations that the runtime takes from its
-- surroundings, `RunOptions` what a caller sets, `BudgetGateDecision` what the gate tells the
-- executor. The theorems on runs hold for every host. The applier takes its paths from
-- `resolve_inside`, and the file system and the package `diff` as records of what they answer.
--
-- Numbers are natural numbers. A cost in dollars is a number of millionths, a confidence or a
-- score one of hundredths, as the source prints and rounds them. The loop of a run goes through
-- the passes that are left, of which there are `max_iterations`, so that it needs no fuel; the
-- printing of a number has as many steps as the number, plus one, which is more than its digits.
--
-- Text is a list of code points, and its length counts those. Paths are those of POSIX.
--
-- Not modelled: the restoring of snapshots; secret scanning; the cost estimates of a request; the
-- parsing of candidates for task graphs, which casts JSON values of any shape; time stamps, run
-- ids and the contents of evidence files and gate logs; the adapters, which call shells and
-- models; the YAML documents and their schemas; the glob, the digests and git, which are
-- parameters; the graph executor around the budget scopes and the steps of its task graph; the
-- user interfaces, providers and protocols.
mod Prelude
pub mod Roles
pub mod ControlPlane
pub mod Budget
pub mod Orchestration
pub mod Planning
pub mod Safety
pub mod Patch
pub mod Routing
pub mod Permissions
