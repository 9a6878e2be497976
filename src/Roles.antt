-- ===== src/Roles.antt =====
-- The agent roles of src/schemas/agentTask.ts and the event phases of src/core/events/eventTypes.ts.
use tomorrowedge.Prelude.{
  ℕ, String, ◌≡◌, refl, ◌↔◌, Bool, true, List, [], ◌∷◌, ◌||◌, ◌==◌, eqb, arith,
}

pub data AgentRole : Type 0 where
  core vision planner explorer coder_a coder_b reviewer judge runner repairer summarizer : AgentRole

pub data EventPhase : Type 0 where
  planning vision exploration coding review judge patch shell repair verification : EventPhase
  summary routing memory council execution evolution delivery : EventPhase

abbrev role_index : AgentRole → ℕ
role_index AgentRole.core = 0
role_index AgentRole.vision = 1
role_index AgentRole.planner = 2
role_index AgentRole.explorer = 3
role_index AgentRole.coder_a = 4
role_index AgentRole.coder_b = 5
role_index AgentRole.reviewer = 6
role_index AgentRole.judge = 7
role_index AgentRole.runner = 8
role_index AgentRole.repairer = 9
role_index AgentRole.summarizer = 10

abbrev role_of_index : ℕ → AgentRole
role_of_index n =
    tomorrowedge.Prelude.or_else
      (tomorrowedge.Prelude.get_elem?
        (AgentRole.core ∷ AgentRole.vision ∷ AgentRole.planner ∷ AgentRole.explorer
          ∷ AgentRole.coder_a ∷ AgentRole.coder_b ∷ AgentRole.reviewer ∷ AgentRole.judge
          ∷ AgentRole.runner ∷ AgentRole.repairer ∷ AgentRole.summarizer ∷ [])
        n)
      AgentRole.core

-- `a === b`
abbrev pub role_eq : AgentRole → AgentRole → Bool
role_eq a b = eqb (role_index a) (role_index b)

role_of_index-role_index : (a : AgentRole) → role_of_index (role_index a) ≡ a
role_of_index-role_index AgentRole.core = refl
role_of_index-role_index AgentRole.vision = refl
role_of_index-role_index _ = refl

pub role_eq_iff : (a b : AgentRole) → (role_eq a b ≡ true) ↔ (a ≡ b)
role_eq_iff a b = (
  λ h. equal (ground arith),
  λ e. tomorrowedge.Prelude.subst (λ c. role_eq a c ≡ true) e (ground arith),
)
  where
    equal : role_index a ≡ role_index b → a ≡ b
    equal e = cc (
      tomorrowedge.Prelude.ap role_of_index e,
      role_of_index-role_index a,
      role_of_index-role_index b,
    )

abbrev pub has_role : List AgentRole → AgentRole → Bool
has_role [] role = tomorrowedge.Prelude.false
has_role (r ∷ rs) role = role_eq r role || has_role rs role

abbrev pub role_text : AgentRole → String
role_text AgentRole.core = "core"
role_text AgentRole.vision = "vision"
role_text AgentRole.planner = "planner"
role_text AgentRole.explorer = "explorer"
role_text AgentRole.coder_a = "coder_a"
role_text AgentRole.coder_b = "coder_b"
role_text AgentRole.reviewer = "reviewer"
role_text AgentRole.judge = "judge"
role_text AgentRole.runner = "runner"
role_text AgentRole.repairer = "repairer"
role_text AgentRole.summarizer = "summarizer"

abbrev pub phase_text : EventPhase → String
phase_text EventPhase.planning = "planning"
phase_text EventPhase.vision = "vision"
phase_text EventPhase.exploration = "exploration"
phase_text EventPhase.coding = "coding"
phase_text EventPhase.review = "review"
phase_text EventPhase.judge = "judge"
phase_text EventPhase.patch = "patch"
phase_text EventPhase.shell = "shell"
phase_text EventPhase.repair = "repair"
phase_text EventPhase.verification = "verification"
phase_text EventPhase.summary = "summary"
phase_text EventPhase.routing = "routing"
phase_text EventPhase.memory = "memory"
phase_text EventPhase.council = "council"
phase_text EventPhase.execution = "execution"
phase_text EventPhase.evolution = "evolution"
phase_text EventPhase.delivery = "delivery"

abbrev pub phase_eq : EventPhase → EventPhase → Bool
phase_eq a b = phase_text a == phase_text b
