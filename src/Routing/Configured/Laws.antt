-- ===== src/Routing/Configured/Laws.antt =====
-- What every configuration has in its profiles, src/core/routing/modelProfiles.ts.
use tomorrowedge.Prelude.{refl, Memᴰ, mem-append_right}
use tomorrowedge.Routing.Defaults.{default_ollama_profile}
use tomorrowedge.Routing.Configured.{Environment, Providers, enabled_profiles, profiles_from_config}

-- The default local profile is always there, last.
pub default_ollama-listed :
    (env : Environment) (providers : Providers)
    → Memᴰ default_ollama_profile (profiles_from_config env providers)
unfolding profiles_from_config
default_ollama-listed env providers =
    mem-append_right (enabled_profiles env providers) (Memᴰ.tail (Memᴰ.tail (Memᴰ.head refl)))
