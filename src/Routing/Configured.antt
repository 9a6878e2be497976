-- ===== src/Routing/Configured.antt =====
-- `profilesFromConfig` of src/core/routing/modelProfiles.ts. The providers of a configuration are
-- listed in the order of its entries, with the fields that the profiles depend on.
pub mod Laws
use Prim.Native.Char.{Char, code}
use tomorrowedge.Prelude.{
  ℕ, String, Bool, true, false, not, ◌&&◌, ◌||◌, Option, none, some, List, [], ◌∷◌, ◌++◌, ◌==◌,
  append, includes, eqb, leb, ltb, if◌then◌else◌,
}
use tomorrowedge.ControlPlane.Workspace.{trim}
use tomorrowedge.Routing.Profiles.{ModelProfile}
use tomorrowedge.Routing.Defaults.{
  openrouter_profile, deepseek_profile, mimo_profile, openai_compatible_profile, kimi_profile,
  anthropic_profile, gemini_profile, ollama_profile, custom_profile, editable_default_profiles,
}

pub record ProviderConfig : Type 0 where
  pub enabled : Bool
  pub base_url : String
  pub model : String

abbrev pub Providers : Type 0
Providers = List (String × ProviderConfig)

-- The variables of the process, and `toUpperCase` with the tables of the engine.
pub record Environment : Type 0 where
  pub process_env : String → Option String
  pub to_upper_case : String → String

unfoldable pub provider_of : Providers → String → Option ProviderConfig
provider_of [] name = none
provider_of ((n, c) ∷ rest) name = if n == name then some c else provider_of rest name

-- `value?.trim() || other`
abbrev filled_or : String → Option String → String
filled_or other none = other
filled_or other (some value) = if trim value == "" then other else trim value

abbrev model_of : Option ProviderConfig → Option String
model_of none = none
model_of (some c) = some c.model

unfoldable pub configured_model : Environment → Providers → String → String → String → String
unfolding provider_of trim
configured_model env providers provider env_name fallback =
    filled_or (filled_or fallback (env.process_env env_name))
      (model_of (provider_of providers provider))

-- `/[^A-Z0-9_]/g` is replaced unit by unit, and a code point above 0xffff has two units.
replace_others : String → String
replace_others String.[] = ""
replace_others (String.◌∷◌ c s) =
    let rest = replace_others s in
    if leb b'A' (code c) && leb (code c) b'Z'
      || leb b'0' (code c) && leb (code c) b'9'
      || eqb (code c) b'_'
    then String.◌∷◌ c rest
    else if ltb 0xffff (code c)
    then append "__" rest
    else append "_" rest

unfoldable pub provider_model_env_name : Environment → String → String
unfolding replace_others
provider_model_env_name env provider = append (replace_others (env.to_upper_case provider)) "_MODEL"

abbrev is_enabled : Option ProviderConfig → Bool
is_enabled none = false
is_enabled (some c) = c.enabled

abbrev with_model : ModelProfile → String → ModelProfile
with_model profile model = record profile { model = model }

unfoldable pub when_enabled : Environment → Providers → String → ModelProfile → List ModelProfile
unfolding configured_model provider_of
when_enabled env providers env_name profile =
    if is_enabled (provider_of providers profile.provider)
    then with_model profile (configured_model env providers profile.provider env_name profile.model)
      ∷ []
    else []

abbrev static_profile_provider_ids : List String
static_profile_provider_ids =
    "mock" ∷ "fixture" ∷ "openrouter" ∷ "mimo" ∷ "openai_compatible" ∷ "deepseek" ∷ "kimi"
    ∷ "anthropic" ∷ "gemini" ∷ "ollama" ∷ []

unfoldable pub custom_profiles : Environment → Providers → Providers → List ModelProfile
unfolding configured_model provider_model_env_name
custom_profiles env providers [] = []
custom_profiles env providers ((provider, c) ∷ entries) =
    let rest = custom_profiles env providers entries in
    if includes static_profile_provider_ids provider || not c.enabled || c.base_url == ""
    then rest
    else with_model (custom_profile provider) (
        configured_model env providers provider (provider_model_env_name env provider)
          "configured-model")
      ∷ rest

unfoldable pub enabled_profiles : Environment → Providers → List ModelProfile
unfolding when_enabled custom_profiles
enabled_profiles env providers =
    when_enabled env providers "OPENROUTER_MODEL" openrouter_profile
    ++ when_enabled env providers "DEEPSEEK_MODEL" deepseek_profile
    ++ when_enabled env providers "MIMO_MODEL" mimo_profile
    ++ when_enabled env providers "OPENAI_COMPATIBLE_MODEL" openai_compatible_profile
    ++ when_enabled env providers "KIMI_MODEL" kimi_profile
    ++ when_enabled env providers "ANTHROPIC_MODEL" anthropic_profile
    ++ when_enabled env providers "GEMINI_MODEL" gemini_profile
    ++ when_enabled env providers "OLLAMA_MODEL" ollama_profile
    ++ custom_profiles env providers providers

unfoldable pub profiles_from_config : Environment → Providers → List ModelProfile
profiles_from_config env providers = enabled_profiles env providers ++ editable_default_profiles
