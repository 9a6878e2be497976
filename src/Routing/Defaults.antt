-- ===== src/Routing/Defaults.antt =====
-- The profiles that src/core/routing/modelProfiles.ts has for a provider by default; the model is
-- the one without a configured one.
use tomorrowedge.Prelude.{String, none, some, List, [], ◌∷◌, cat}
use tomorrowedge.Roles.{AgentRole}
use tomorrowedge.Routing.Profiles.{ModelStrength, LatencyClass, ModelProfile}

abbrev pub mock_profile : ModelProfile
mock_profile = record {
  provider = "mock";
  model = "mock-balanced";
  label = "Mock balanced offline model";
  strengths =
      ModelStrength.vision ∷ ModelStrength.ocr ∷ ModelStrength.perception ∷ ModelStrength.planning
      ∷ ModelStrength.coding ∷ ModelStrength.review ∷ ModelStrength.cheap ∷ ModelStrength.fast
      ∷ ModelStrength.reasoning ∷ [];
  context_window = some 128000;
  input_price_per_m_tok = none;
  output_price_per_m_tok = none;
  latency_class = none;
  default_roles = none;
}

abbrev pub fixture_profile : ModelProfile
fixture_profile = record {
  provider = "fixture";
  model = "fixture-scripted";
  label = "Fixture scripted offline model";
  strengths = ModelStrength.cheap ∷ ModelStrength.fast ∷ [];
  context_window = some 32000;
  input_price_per_m_tok = none;
  output_price_per_m_tok = none;
  latency_class = none;
  default_roles = none;
}

abbrev pub default_ollama_profile : ModelProfile
default_ollama_profile = record {
  provider = "ollama";
  model = "local-auto";
  label = "Local Ollama model";
  strengths = ModelStrength.local ∷ ModelStrength.privacy ∷ [];
  context_window = none;
  input_price_per_m_tok = none;
  output_price_per_m_tok = none;
  latency_class = none;
  default_roles =
      some
        (AgentRole.explorer ∷ AgentRole.coder_a ∷ AgentRole.repairer ∷ AgentRole.summarizer ∷ []);
}

abbrev pub openrouter_profile : ModelProfile
openrouter_profile = record {
  provider = "openrouter";
  model = "openai/gpt-5.2";
  label = "OpenRouter GPT-5 class model";
  strengths =
      ModelStrength.planning ∷ ModelStrength.review ∷ ModelStrength.reasoning ∷ ModelStrength.coding
      ∷ ModelStrength.long_context ∷ [];
  context_window = some 400000;
  input_price_per_m_tok = some 250;
  output_price_per_m_tok = some 1000;
  latency_class = some LatencyClass.medium;
  default_roles = some (AgentRole.planner ∷ AgentRole.reviewer ∷ AgentRole.judge ∷ []);
}

abbrev pub deepseek_profile : ModelProfile
deepseek_profile = record {
  provider = "deepseek";
  model = "deepseek-v4-pro";
  label = "DeepSeek coding/reasoning model";
  strengths =
      ModelStrength.coding ∷ ModelStrength.reasoning ∷ ModelStrength.cheap ∷ ModelStrength.fast
      ∷ ModelStrength.multilingual ∷ [];
  context_window = some 128000;
  input_price_per_m_tok = some 14;
  output_price_per_m_tok = some 28;
  latency_class = some LatencyClass.medium;
  default_roles =
      some
        (AgentRole.explorer ∷ AgentRole.coder_a ∷ AgentRole.repairer ∷ AgentRole.summarizer ∷ []);
}

abbrev pub mimo_profile : ModelProfile
mimo_profile = record {
  provider = "mimo";
  model = "mimo-v2.5-pro";
  label = "Xiaomi MiMo V2.5 model";
  strengths =
      ModelStrength.vision ∷ ModelStrength.ocr ∷ ModelStrength.perception ∷ ModelStrength.coding
      ∷ ModelStrength.cheap ∷ ModelStrength.fast ∷ ModelStrength.multilingual ∷ [];
  context_window = some 128000;
  input_price_per_m_tok = some 40;
  output_price_per_m_tok = some 160;
  latency_class = some LatencyClass.medium;
  default_roles = some (AgentRole.vision ∷ AgentRole.coder_b ∷ AgentRole.summarizer ∷ []);
}

abbrev pub openai_compatible_profile : ModelProfile
openai_compatible_profile = record {
  provider = "openai_compatible";
  model = "configured-model";
  label = "Generic OpenAI-compatible model";
  strengths =
      ModelStrength.planning ∷ ModelStrength.coding ∷ ModelStrength.review ∷ ModelStrength.reasoning
      ∷ [];
  context_window = some 128000;
  input_price_per_m_tok = some 15;
  output_price_per_m_tok = some 60;
  latency_class = some LatencyClass.medium;
  default_roles = some (AgentRole.planner ∷ AgentRole.coder_a ∷ AgentRole.reviewer ∷ []);
}

abbrev pub kimi_profile : ModelProfile
kimi_profile = record {
  provider = "kimi";
  model = "kimi-k2.6";
  label = "Kimi-compatible long-context model";
  strengths =
      ModelStrength.long_context ∷ ModelStrength.coding ∷ ModelStrength.reasoning
      ∷ ModelStrength.multilingual ∷ ModelStrength.cheap ∷ [];
  context_window = some 128000;
  input_price_per_m_tok = some 50;
  output_price_per_m_tok = some 200;
  latency_class = some LatencyClass.medium;
  default_roles = some (AgentRole.explorer ∷ AgentRole.coder_b ∷ AgentRole.summarizer ∷ []);
}

abbrev pub anthropic_profile : ModelProfile
anthropic_profile = record {
  provider = "anthropic";
  model = "claude-sonnet-4-5";
  label = "Anthropic Claude native Messages model";
  strengths =
      ModelStrength.planning ∷ ModelStrength.review ∷ ModelStrength.reasoning ∷ ModelStrength.coding
      ∷ ModelStrength.long_context ∷ ModelStrength.vision ∷ [];
  context_window = some 200000;
  input_price_per_m_tok = some 300;
  output_price_per_m_tok = some 1500;
  latency_class = some LatencyClass.medium;
  default_roles =
      some (AgentRole.core ∷ AgentRole.planner ∷ AgentRole.reviewer ∷ AgentRole.judge ∷ []);
}

abbrev pub gemini_profile : ModelProfile
gemini_profile = record {
  provider = "gemini";
  model = "gemini-2.5-pro";
  label = "Google Gemini native generateContent model";
  strengths =
      ModelStrength.vision ∷ ModelStrength.perception ∷ ModelStrength.planning
      ∷ ModelStrength.review ∷ ModelStrength.reasoning ∷ ModelStrength.long_context
      ∷ ModelStrength.multilingual ∷ [];
  context_window = some 1000000;
  input_price_per_m_tok = some 125;
  output_price_per_m_tok = some 1000;
  latency_class = some LatencyClass.medium;
  default_roles = some (AgentRole.vision ∷ AgentRole.planner ∷ AgentRole.reviewer ∷ []);
}

abbrev pub ollama_profile : ModelProfile
ollama_profile = record {
  provider = "ollama";
  model = "local-auto";
  label = "Configured local Ollama model";
  strengths = ModelStrength.local ∷ ModelStrength.privacy ∷ [];
  context_window = none;
  input_price_per_m_tok = none;
  output_price_per_m_tok = none;
  latency_class = none;
  default_roles =
      some
        (AgentRole.explorer ∷ AgentRole.coder_a ∷ AgentRole.repairer ∷ AgentRole.summarizer ∷ []);
}

-- Of a provider that has an address and none of the names above.
abbrev pub custom_profile : String → ModelProfile
custom_profile provider = record {
  provider = provider;
  model = "configured-model";
  label = cat ("Custom OpenAI-compatible model (" ∷ provider ∷ ")" ∷ []);
  strengths =
      ModelStrength.planning ∷ ModelStrength.coding ∷ ModelStrength.review ∷ ModelStrength.reasoning
      ∷ [];
  context_window = some 128000;
  input_price_per_m_tok = some 15;
  output_price_per_m_tok = some 60;
  latency_class = some LatencyClass.medium;
  default_roles =
      some (AgentRole.planner ∷ AgentRole.coder_a ∷ AgentRole.reviewer ∷ AgentRole.repairer ∷ []);
}

abbrev pub editable_default_profiles : List ModelProfile
editable_default_profiles = mock_profile ∷ fixture_profile ∷ default_ollama_profile ∷ []
