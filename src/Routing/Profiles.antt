-- ===== src/Routing/Profiles.antt =====
-- The data of src/core/routing: the profiles of modelProfiles.ts, and the assignments, plans and
-- overrides of policies.ts.
use tomorrowedge.Prelude.{ℕ, String, Bool, Option, List, eqb, any}
use tomorrowedge.Roles.{AgentRole}

pub data ModelStrength : Type 0 where
  vision ocr perception planning coding review long_context : ModelStrength
  cheap fast local privacy multilingual reasoning : ModelStrength

abbrev strength_index : ModelStrength → ℕ
strength_index ModelStrength.vision = 0
strength_index ModelStrength.ocr = 1
strength_index ModelStrength.perception = 2
strength_index ModelStrength.planning = 3
strength_index ModelStrength.coding = 4
strength_index ModelStrength.review = 5
strength_index ModelStrength.long_context = 6
strength_index ModelStrength.cheap = 7
strength_index ModelStrength.fast = 8
strength_index ModelStrength.local = 9
strength_index ModelStrength.privacy = 10
strength_index ModelStrength.multilingual = 11
strength_index ModelStrength.reasoning = 12

-- `candidate.strengths.includes(strength)`
abbrev pub has_strength : List ModelStrength → ModelStrength → Bool
has_strength strengths wanted = any (λ s. eqb (strength_index s) (strength_index wanted)) strengths

pub data LatencyClass : Type 0 where
  low medium high : LatencyClass

-- Prices are in cents for a million tokens.
pub record ModelProfile : Type 0 where
  pub provider : String
  pub model : String
  pub label : String
  pub strengths : List ModelStrength
  pub context_window : Option ℕ
  pub input_price_per_m_tok : Option ℕ
  pub output_price_per_m_tok : Option ℕ
  pub latency_class : Option LatencyClass
  pub default_roles : Option (List AgentRole)

pub data RoutingMode : Type 0 where
  cheap balanced quality local privacy china : RoutingMode

pub record RouteAssignment : Type 0 where
  pub role : AgentRole
  pub provider : String
  pub model : String
  pub reason : String

pub record RoutingPlan : Type 0 where
  pub mode : RoutingMode
  pub privacy_locked : Bool
  pub assignments : List RouteAssignment
  pub fallbacks : List RouteAssignment

pub record AgentRouteOverride : Type 0 where
  pub provider : Option String
  pub model : Option String
  pub reason : Option String

-- `Partial<Record<AgentRole, AgentRouteOverride>>`
abbrev pub AgentRouteOverrides : Type 0
AgentRouteOverrides = AgentRole → Option AgentRouteOverride

pub record RoutingPlanChange : Type 0 where
  pub role : AgentRole
  pub from : RouteAssignment
  pub to : RouteAssignment
  pub reason : String
