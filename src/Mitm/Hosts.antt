-- ===== src/Mitm/Hosts.antt =====
-- crates/ctxward-core/src/config.rs: host patterns and the built-in lists of hosts.
use ctxward.Prelude.{List, [], ◌∷◌, Text, bytes}

pub data HostPattern : Type 0 where
  exact_host : Text → HostPattern
  wildcard_host : Text → HostPattern
  regex_host : Text → HostPattern

pub data ProxyAction : Type 0 where
  intercept passthrough : ProxyAction

abbrev pub default_intercept_hosts : List HostPattern
default_intercept_hosts =
    exact_host (bytes "api.openai.com")
    ∷ wildcard_host (bytes "*.openai.azure.com")
    ∷ wildcard_host (bytes "*.cognitiveservices.azure.com")
    ∷ wildcard_host (bytes "*.services.ai.azure.com")
    ∷ exact_host (bytes "api.anthropic.com")
    ∷ exact_host (bytes "generativelanguage.googleapis.com")
    ∷ exact_host (bytes "aiplatform.googleapis.com")
    ∷ regex_host (bytes "^bedrock-runtime\\.[a-z0-9-]+\\.amazonaws\\.com$")
    ∷ exact_host (bytes "api.deepseek.com")
    ∷ exact_host (bytes "api.moonshot.ai")
    ∷ exact_host (bytes "api.moonshot.cn")
    ∷ exact_host (bytes "api.groq.com")
    ∷ exact_host (bytes "api.mistral.ai")
    ∷ exact_host (bytes "api.cohere.com")
    ∷ exact_host (bytes "api.x.ai")
    ∷ exact_host (bytes "openrouter.ai")
    ∷ []

abbrev pub default_signs_body_hosts : List HostPattern
default_signs_body_hosts =
    regex_host (bytes "^bedrock-runtime\\.[a-z0-9-]+\\.amazonaws\\.com$")
    ∷ regex_host (bytes "^bedrock-mantle\\.[a-z0-9-]+\\.api\\.aws$")
    ∷ []
