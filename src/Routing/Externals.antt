-- ===== src/Routing/Externals.antt =====
-- The external agents that a configuration enables, src/core/externalAgents/externalAgentRegistry.ts,
-- and the assignments that are bound to them, externalAgentRouter.ts, as far as those read them.
use tomorrowedge.Prelude.{
  String, Bool, Option, none, some, List, [], ◌∷◌, ◌==◌, append, cat, strip, or_else, if◌then◌else◌,
}
use tomorrowedge.Roles.{AgentRole, has_role, role_text}
use tomorrowedge.Routing.Profiles.{RouteAssignment}

-- An external agent as the configuration enables it.
pub record ExternalAgentProfile : Type 0 where
  pub id : String
  pub name : String
  pub transport : String
  pub trust_level : String
  pub allowed_roles : List AgentRole

pub record ExternalAgentConfig : Type 0 where
  pub enabled : Bool
  pub name : Option String
  pub transport : String
  pub trust_level : String
  pub roles : List AgentRole

abbrev pub ExternalAgents : Type 0
ExternalAgents = List (String × ExternalAgentConfig)

-- `profiles.set(profile.id, profile)`: an id that is there keeps its place.
unfoldable pub register :
    List ExternalAgentProfile → ExternalAgentProfile → List ExternalAgentProfile
register [] profile = profile ∷ []
register (p ∷ rest) profile =
    let later = register rest profile in if p.id == profile.id then profile ∷ rest else p ∷ later

-- `profiles.get(id)`
unfoldable pub registered : List ExternalAgentProfile → String → Option ExternalAgentProfile
registered [] id = none
registered (p ∷ rest) id = if p.id == id then some p else registered rest id

abbrev normalize_profile : String → ExternalAgentConfig → ExternalAgentProfile
normalize_profile id item = record {
  id = id;
  name = or_else item.name id;
  transport = item.transport;
  trust_level = item.trust_level;
  allowed_roles = item.roles;
}

register_all : List ExternalAgentProfile → ExternalAgents → List ExternalAgentProfile
unfolding register
register_all profiles [] = profiles
register_all profiles ((id, item) ∷ rest) =
    register_all (if item.enabled then register profiles (normalize_profile id item) else profiles)
      rest

unfoldable pub external_agent_registry_from_config : ExternalAgents → List ExternalAgentProfile
unfolding register_all
external_agent_registry_from_config agents = register_all [] agents

-- What stands behind `external:`.
abbrev pub external_agent_id : String → Option String
external_agent_id provider = strip "external:" provider

unfoldable pub external_assignment_for : AgentRole → ExternalAgentProfile → RouteAssignment
external_assignment_for role profile = record {
  role = role;
  provider = append "external:" profile.id;
  model = profile.name;
  reason = cat (
      "external MCP agent role binding (" ∷ profile.transport ∷ "; trust=" ∷ profile.trust_level
      ∷ ")" ∷ []);
}

abbrev pub bound_to : RouteAssignment → String → Option ExternalAgentProfile → RouteAssignment
bound_to a id none = record a {
  reason = cat (a.reason ∷ "; external agent " ∷ id ∷ " is not enabled in external_agents" ∷ []);
}
bound_to a id (some profile) =
    if has_role profile.allowed_roles a.role
    then external_assignment_for a.role profile
    else record a {
      reason =
          cat
            (a.reason ∷ "; role " ∷ role_text a.role ∷ " is outside configured allowedRoles" ∷ []);
    }
