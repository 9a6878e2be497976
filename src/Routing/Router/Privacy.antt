-- ===== src/Routing/Router/Privacy.antt =====
-- The privacy lock over the life of a router, src/core/routing/router.ts.
use tomorrowedge.Prelude.{
  ◌≡◌, refl, ap, ◌∙◌, subst, inl, inr, String, Bool, true, false, Option, none, some, List, [], ◌∷◌,
  map, ◌==◌, starts_with-append, ◌||◌, Bool-cases, Option-cases, All, All-mem, Memᴰ,
}
use tomorrowedge.Roles.{AgentRole, role_eq, has_role}
use tomorrowedge.ControlPlane.Specs.{returned}
use tomorrowedge.ControlPlane.Attempts.{>>=-eq-returned, eq_of_returned}
use tomorrowedge.Planning.Plan.{Plan}
use tomorrowedge.Routing.Profiles.{RoutingMode, RouteAssignment, RoutingPlan, RoutingPlanChange}
use tomorrowedge.Routing.Defaults.{default_ollama_profile}
use tomorrowedge.Routing.Configured.Laws.{default_ollama-listed}
use tomorrowedge.Routing.Policies.{build_routing_plan, is_privacy_locked_mode}
use tomorrowedge.Routing.Policies.Privacy.{KeepsLocal, external, plan-KeepsLocal, build-locked}
use tomorrowedge.Routing.Externals.{
  ExternalAgentProfile, external_agent_id, external_assignment_for, bound_to,
}
use tomorrowedge.Routing.Router.{
  RouterConfig, profiles_of, validate_external_assignment, validated_plan, new_router,
  apply_policy_routing_preference, reroute_after_plan, reroute_routing_plan, mode_is, agent_of,
}

-- The plans that a router may hold, from its making on.
pub data IsHeld (config : RouterConfig) : RoutingPlan → Type 0 where
  made : (p : RoutingPlan) → new_router config ≡ returned p → IsHeld config p
  preferred :
      (p q : RoutingPlan) (preference : Option RoutingMode) (changes : List RoutingPlanChange)
      → IsHeld config p
      → apply_policy_routing_preference config p preference ≡ returned (q, changes)
      → IsHeld config q
  rerouted :
      (p q : RoutingPlan) (plan : Plan) (has_image_inputs : Bool) (changes : List RoutingPlanChange)
      → IsHeld config p
      → reroute_after_plan config p plan has_image_inputs ≡ returned (q, changes)
      → IsHeld config q

-- Of a role other than the core role: the assignment keeps to local providers.
abbrev Keeps : RouterConfig → RouteAssignment → Type 0
Keeps config a = role_eq a.role AgentRole.core ≡ false → KeepsLocal (profiles_of config) a.provider

bound-Keeps :
    (config : RouterConfig) (a : RouteAssignment) (id : String)
    (profile : Option ExternalAgentProfile)
    → Keeps config a
    → Keeps config (bound_to a id profile)
unfolding external_assignment_for
bound-Keeps config a id none k = k
bound-Keeps config a id (some profile) k =
    elim (Bool-cases (has_role profile.allowed_roles a.role)) [
      | inl e ↦ rw e (λ other. external (starts_with-append "external:" profile.id))
      | inr e ↦ rw e k
    ]

validate-Keeps :
    (config : RouterConfig) (a : RouteAssignment)
    → Keeps config a
    → Keeps config (validate_external_assignment config a)
unfolding validate_external_assignment
validate-Keeps config a k = elim (Option-cases (external_agent_id a.provider)) [
  | inl e ↦ rw (validate_external_assignment, e) k
  | inr (id, e) ↦ elim (Bool-cases (id == "")) [
    | inl f ↦ rw (validate_external_assignment, e, f) k
    | inr f ↦
        rw (validate_external_assignment, e, f) (bound-Keeps config a id (agent_of config id) k)
  ]
]

map-Keeps :
    (config : RouterConfig) (assignments : List RouteAssignment)
    → All (Keeps config) assignments
    → All (Keeps config) (map (validate_external_assignment config) assignments)
map-Keeps config [] k = tt
map-Keeps config (a ∷ rest) k = (validate-Keeps config a k.0, map-Keeps config rest k.1)

All-of_mem {ℓ κ} :
    {A : Type ℓ} (P : A → Type κ) (xs : List A) → ((x : A) → Memᴰ x xs → P x) → All P xs
All-of_mem P [] h = tt
All-of_mem P (x ∷ xs) h = (h x (Memᴰ.head refl), All-of_mem P xs (λ y m. h y (Memᴰ.tail m)))

or_true : (b : Bool) → (b || true) ≡ true
or_true true = refl
or_true false = refl

-- A locked plan that keeps to local providers.
abbrev IsLocked : RouterConfig → RoutingPlan → Type 0
IsLocked config p = (p.privacy_locked ≡ true) × All (Keeps config) p.assignments

module _ (config : RouterConfig) (locked : is_privacy_locked_mode config.mode ≡ true) where
  made-IsLocked : (p : RoutingPlan) → new_router config ≡ returned p → IsLocked config p
  unfolding new_router validated_plan
  made-IsLocked p h =
      let (plan, e, k) =
        >>=-eq-returned (build_routing_plan config.mode (profiles_of config) config.overrides) _
          h in
      subst (IsLocked config) (eq_of_returned k) (
        build-locked config.mode (profiles_of config) config.overrides plan e ∙ locked,
        map-Keeps config plan.assignments (
            All-of_mem (Keeps config) plan.assignments (λ a m other.
              plan-KeepsLocal config.mode (profiles_of config) default_ollama_profile locked
                (default_ollama-listed config.environment config.providers) refl config.overrides
                plan a e m other)),
      )

  preferred-same :
      (p q : RoutingPlan) (preference : Option RoutingMode) (changes : List RoutingPlanChange)
      → p.privacy_locked ≡ true
      → apply_policy_routing_preference config p preference ≡ returned (q, changes)
      → p ≡ q
  unfolding apply_policy_routing_preference
  preferred-same p q none changes l = λ h. ap (λ r. r.0) (eq_of_returned h)
  preferred-same p q (some preference) changes l =
      rw (l, or_true (mode_is preference RoutingMode.balanced))
        (λ h. ap (λ r. r.0) (eq_of_returned h))

  rerouted-same :
      (p q : RoutingPlan) (plan : Plan) (has_image_inputs : Bool) (changes : List RoutingPlanChange)
      → p.privacy_locked ≡ true
      → reroute_after_plan config p plan has_image_inputs ≡ returned (q, changes)
      → validated_plan config p ≡ q
  unfolding reroute_after_plan reroute_routing_plan
  rerouted-same p q plan has_image_inputs changes l = rw l (λ h. ap (λ r. r.0) (eq_of_returned h))

  validated-IsLocked :
      (p : RoutingPlan) → IsLocked config p → IsLocked config (validated_plan config p)
  unfolding validated_plan
  validated-IsLocked p (l, k) = (l, map-Keeps config p.assignments k)

  IsHeld-IsLocked : (p : RoutingPlan) → IsHeld config p → IsLocked config p
  IsHeld-IsLocked p (made _ h) = made-IsLocked p h
  IsHeld-IsLocked q (preferred p _ preference changes held h) =
      let is = IsHeld-IsLocked p held in
      subst (IsLocked config) (preferred-same p q preference changes is.0 h) is
  IsHeld-IsLocked q (rerouted p _ plan has_image_inputs changes held h) =
      let is = IsHeld-IsLocked p held in
      subst (IsLocked config) (rerouted-same p q plan has_image_inputs changes is.0 h)
        (validated-IsLocked p is)

  -- In the privacy and the local mode, whatever plan a router holds after any number of routing
  -- preferences and revisions, every role but the core role is assigned to a provider that is local
  -- by its name or by a profile, or to an external agent, whatever the providers and the overrides
  -- of the configuration are.
  pub IsHeld-KeepsLocal :
      (p : RoutingPlan) (a : RouteAssignment)
      → IsHeld config p
      → Memᴰ a p.assignments
      → role_eq a.role AgentRole.core ≡ false
      → KeepsLocal (profiles_of config) a.provider
  IsHeld-KeepsLocal p a held m = All-mem (Keeps config) p.assignments (IsHeld-IsLocked p held).1 m
