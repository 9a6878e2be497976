-- ===== src/Routing/Policies/Total.antt =====
-- With a profile to choose from, the routing of src/core/routing/policies.ts throws nowhere, and each
-- role that is routed has its assignment, in the order of the roles.
use tomorrowedge.Prelude.{
  ◌≡◌, refl, sym, ◌∙◌, inl, inr, String, Bool, true, false, Option, none, some, List, [], ◌∷◌, map,
  includes, find, if◌then◌else◌, Bool-cases, Option-cases, Memᴰ, is_some, not, ◌&&◌,
}
use tomorrowedge.Roles.{AgentRole, role_eq, role_eq_iff}
use tomorrowedge.ControlPlane.Specs.{Attempt, returned}
use tomorrowedge.Routing.Profiles.{
  ModelStrength, ModelProfile, RoutingMode, RouteAssignment, RoutingPlan, AgentRouteOverride,
  AgentRouteOverrides,
}
use tomorrowedge.Routing.Policies.{
  runner_assignment, first_of, head_of, choose_profile, to_assignment, pick, by_mode, assign_role,
  overridden, apply_override, assign_roles, build_routing_plan, routing_roles, has_any_strength,
  is_privacy_locked_mode, normalize_override,
}

-- A call that returns an assignment for a role.
abbrev pub HasRole : AgentRole → Attempt RouteAssignment → Type 0
HasRole role m = (a : RouteAssignment) × (m ≡ returned a) × (a.role ≡ role)

pub if-HasRole :
    (role : AgentRole) (b : Bool) (m n : Attempt RouteAssignment)
    → HasRole role m
    → HasRole role n
    → HasRole role (if b then m else n)
if-HasRole role true m n h k = h
if-HasRole role false m n h k = k

first_of-some {ℓ} :
    {A : Type ℓ} (a b : Option A) → ((x : A) × (b ≡ some x)) → (x : A) × (first_of a b ≡ some x)
first_of-some none b h = h
first_of-some (some a) b h = (a, refl)

head_of-some {ℓ} : {A : Type ℓ} {q : A} (xs : List A) → Memᴰ q xs → (x : A) × (head_of xs ≡ some x)
head_of-some [] m = elim m [ ]
head_of-some (x ∷ xs) m = (x, refl)

module _ (profiles : List ModelProfile) (q : ModelProfile) (listed : Memᴰ q profiles) where
  chosen :
      (role : AgentRole) (strengths : List ModelStrength)
      → (p : ModelProfile) × (choose_profile role profiles strengths ≡ some p)
  unfolding choose_profile
  chosen role strengths = first_of-some _ _ (
      first_of-some (find (has_any_strength strengths) profiles) _
        (first_of-some _ (head_of profiles) (head_of-some profiles listed)))

  pub pick-HasRole :
      (role : AgentRole) (strengths : List ModelStrength) (reason : String)
      → HasRole role (pick role profiles strengths reason)
  unfolding pick to_assignment
  pick-HasRole role strengths reason = let (p, e) = chosen role strengths in rw e (_, refl, refl)

  by_mode-HasRole :
      (role : AgentRole) (mode : RoutingMode) → HasRole role (by_mode role mode profiles)
  unfolding by_mode to_assignment
  by_mode-HasRole role RoutingMode.cheap = pick-HasRole role _ _
  by_mode-HasRole role RoutingMode.balanced = pick-HasRole role _ _
  by_mode-HasRole role RoutingMode.quality = pick-HasRole role _ _
  by_mode-HasRole role RoutingMode.local = pick-HasRole role _ _
  by_mode-HasRole role RoutingMode.privacy = pick-HasRole role _ _
  by_mode-HasRole role RoutingMode.china =
      elim (Option-cases (
        find (λ (p : ModelProfile). includes ("mimo" ∷ "deepseek" ∷ "kimi" ∷ []) p.provider)
          profiles)) [
            | inl e ↦ rw (by_mode, e) (pick-HasRole role _ _)
            | inr (p, e) ↦ rw (by_mode, e) (_, refl, refl)
          ]

  assign_role-HasRole :
      (role : AgentRole) (mode : RoutingMode) → HasRole role (assign_role role mode profiles)
  unfolding assign_role
  assign_role-HasRole role mode =
      if-HasRole role (role_eq role AgentRole.core) _ _ (pick-HasRole role _ _)
        (elim (Bool-cases (role_eq role AgentRole.runner)) [
          | inl e ↦ rw e (runner_assignment, refl, sym ((role_eq_iff role AgentRole.runner).0 e))
          | inr e ↦ rw e (
              if-HasRole role (is_privacy_locked_mode mode) _ _ (pick-HasRole role _ _) (
                if-HasRole role (role_eq role AgentRole.vision) _ _ (pick-HasRole role _ _)
                  (by_mode-HasRole role mode)))
        ])

if-role :
    (role : AgentRole) (b : Bool) (x y : RouteAssignment)
    → x.role ≡ role
    → y.role ≡ role
    → (if b then x else y).role ≡ role
if-role role true x y h k = h
if-role role false x y h k = k

apply_override-role :
    (mode : RoutingMode) (profiles : List ModelProfile) (a : RouteAssignment)
    (o : Option AgentRouteOverride)
    → (apply_override a mode profiles o).role ≡ a.role
unfolding apply_override overridden
apply_override-role mode profiles a none = refl
apply_override-role mode profiles a (some o) =
    if-role a.role (role_eq a.role AgentRole.runner) _ _ refl (
      if-role a.role
        (not (is_some (normalize_override o.provider))
          && not (is_some (normalize_override o.model)))
        _ _ refl (if-role a.role _ _ _ refl refl))

module _ (profiles : List ModelProfile) (q : ModelProfile) (listed : Memᴰ q profiles)
    (mode : RoutingMode) (overrides : AgentRouteOverrides) where
  assign_roles-HasRole :
      (roles : List AgentRole)
      → (assignments : List RouteAssignment) × (assign_roles mode profiles overrides roles
          ≡ returned assignments)
        × (map (λ (a : RouteAssignment). a.role) assignments ≡ roles)
  unfolding assign_roles
  assign_roles-HasRole [] = ([], refl, refl)
  assign_roles-HasRole (role ∷ roles) =
      let (a, e, is) = assign_role-HasRole profiles q listed role mode in
      let (rest, f, are) = assign_roles-HasRole roles in
      (
        apply_override a mode profiles (overrides role) ∷ rest,
        rw (assign_roles, e, f) refl,
        λ i. (apply_override-role mode profiles a (overrides role) ∙ is) i ∷ are i,
      )

  -- A plan is built, with an assignment for each role that is routed.
  pub build-HasRoles :
      (plan : RoutingPlan) × (build_routing_plan mode profiles overrides ≡ returned plan)
      × (map (λ (a : RouteAssignment). a.role) plan.assignments ≡ routing_roles overrides)
  unfolding build_routing_plan
  build-HasRoles =
      let (assignments, e, are) = assign_roles-HasRole (routing_roles overrides) in
      rw e (_, refl, are)
