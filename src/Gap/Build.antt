-- ===== src/Gap/Build.antt =====
-- buildProvider and buildAuthenticator in cmd/gap/main.go. `expand` is os.ExpandEnv in the environment
-- of the process.
use go_ai_proxy.Common.{
  ℕ, Bool, true, false, not, ◌&&◌, ◌||◌, Option, none, some, List, [], ◌∷◌, ◌++◌, is_nil,
  or_default, any, if◌then◌else◌,
}
use go_ai_proxy.Common.Text.{Text, lit, text_eq}
use go_ai_proxy.Common.Int64.{is_positive}
use go_ai_proxy.Common.Json.{JsonCodec, Fields}
use go_ai_proxy.Domain.{Model, Schema}
use go_ai_proxy.Auth.RoundRobin.{ApiKey, RoundRobin, new_round_robin}
use go_ai_proxy.Provider.Errors.{other}
use go_ai_proxy.Provider.OpenAi.{Result, ok, err, ◌>>=◌, RoundTrip}
use go_ai_proxy.Provider.OpenAi.Client as Client
use go_ai_proxy.Provider.OpenAi.Client.{HttpCall, option_of}
use go_ai_proxy.Provider.LmStudio as LmStudio
use go_ai_proxy.Provider.LiteLlm as LiteLlm
use go_ai_proxy.Provider.Vllm as Vllm
use go_ai_proxy.Provider.LlamaCpp as LlamaCpp
use go_ai_proxy.Gap.{AuthConfig, VllmConfig, ProviderConfig}

pub data Authenticator : Type 0 where
  single_key : ApiKey → Authenticator
  round_robin : RoundRobin → Authenticator
  oauth : Text → Authenticator

-- The providers that buildProvider makes; of Anthropic's the name, the authenticator and the timeout.
pub data Built : Type 0 where
  openai : Client.Provider → Built
  lmstudio : LmStudio.LmStudio → Built
  litellm : LiteLlm.LiteLlm → Built
  anthropic : Text → Authenticator → Option ℕ → Built
  vllm : Vllm.Vllm → Built
  llama_cpp : LlamaCpp.LlamaCpp → Built

abbrev pub refuse {ℓ} : {A : Type ℓ} → Text → Result A
refuse why = err (other why)

abbrev pub insecure : ProviderConfig → Bool
insecure pc = or_default pc.tls false

-- The types of provider that honour tls.insecure.
abbrev pub tls_kinds : List Text
tls_kinds = lit "openai" ∷ lit "lmstudio" ∷ lit "litellm" ∷ lit "vllm" ∷ lit "llama-cpp" ∷ []

module _ (expand : Text → Text) where
  unfoldable pub expanded_keys : List Text → List Text
  expanded_keys [] = []
  expanded_keys (k ∷ ks) =
      let rest = expanded_keys ks in if is_nil (expand k) then rest else expand k ∷ rest

  abbrev by_count : List Text → Result Authenticator
  by_count [] = refuse (lit "api_key is empty")
  by_count (k ∷ []) = ok (single_key (record { key = k }))
  by_count (k ∷ l ∷ ks) = ok (round_robin (new_round_robin (k ∷ l ∷ ks)))

  abbrev default_token_file : Text
  default_token_file = lit "~/.config/go-ai-proxy/anthropic.json"

  unfoldable pub by_method : AuthConfig → Result Authenticator
  unfolding expanded_keys
  by_method a =
      if text_eq a.method (lit "api_key")
      then by_count (expanded_keys (a.api_keys ++ (a.api_key ∷ [])))
      else if text_eq a.method (lit "oauth") || is_nil a.method
      then ok (oauth (if is_nil a.token_file then default_token_file else a.token_file))
      else refuse (lit "unknown auth method")

  unfoldable pub build_authenticator : ProviderConfig → Result Authenticator
  unfolding by_method
  build_authenticator pc = elim (pc.auth) [
    | none ↦ refuse (lit "auth section is required for anthropic provider")
    | some a ↦ by_method a
  ]

  -- The expanded auth.api_key, empty without an auth section.
  abbrev pub key_of : Option AuthConfig → Text
  key_of none = []
  key_of (some a) = expand a.api_key

  abbrev pub openai_settings : ProviderConfig → List Client.Setting
  openai_settings pc =
      Client.with_name pc.name
      ∷ (option_of (not (is_nil (key_of pc.auth))) (Client.with_api_key (key_of pc.auth))
          ++ (option_of (is_positive pc.timeout) (Client.with_timeout pc.timeout)
              ++ option_of (insecure pc) (Client.with_tls_insecure true)))

  abbrev pub lmstudio_settings : ProviderConfig → List (LmStudio.LmStudio → LmStudio.LmStudio)
  lmstudio_settings pc =
      LmStudio.set_name pc.name
      ∷ (option_of (is_positive pc.timeout) (LmStudio.set_timeout pc.timeout)
          ++ option_of (insecure pc) (LmStudio.set_tls_insecure true))

  abbrev pub litellm_settings : ProviderConfig → List (LiteLlm.LiteLlm → LiteLlm.LiteLlm)
  litellm_settings pc =
      LiteLlm.set_name pc.name
      ∷ (option_of (not (is_nil (key_of pc.auth))) (LiteLlm.set_api_key (key_of pc.auth))
          ++ (option_of (is_positive pc.timeout) (LiteLlm.set_timeout pc.timeout)
              ++ option_of (insecure pc) (LiteLlm.set_tls_insecure true)))

  abbrev pub thinking_key_of : Option VllmConfig → Text
  thinking_key_of none = []
  thinking_key_of (some v) = v.thinking_key

  abbrev pub models_of : Option VllmConfig → List Text
  models_of none = []
  models_of (some v) = or_default v.models []

  abbrev pub discover_of : Option VllmConfig → Bool
  discover_of none = true
  discover_of (some v) = or_default v.discover true

  abbrev pub vllm_config : ProviderConfig → Vllm.Config
  vllm_config pc = record {
    name = pc.name;
    base_url = pc.base_url;
    api_key = key_of pc.auth;
    timeout = pc.timeout;
    tls_insecure = insecure pc;
    thinking_key = thinking_key_of pc.vllm;
    models = models_of pc.vllm;
    discover = discover_of pc.vllm;
    model_capabilities = pc.model_capabilities;
  }

  abbrev pub llama_config : ProviderConfig → LlamaCpp.Config
  llama_config pc = record {
    name = pc.name;
    base_url = pc.base_url;
    api_key = key_of pc.auth;
    timeout = pc.timeout;
    tls_insecure = insecure pc;
    model_capabilities = pc.model_capabilities;
  }

  module _ (json : JsonCodec) (schema_map : Schema → Fields) (decode : Text → Option (List Model))
      (http : HttpCall → RoundTrip) where
    abbrev pub needs_url : ProviderConfig → Result Built → Result Built
    needs_url pc built = if is_nil pc.base_url then refuse (lit "base_url is required") else built

    abbrev pub needs_capabilities : ProviderConfig → Result Built → Result Built
    needs_capabilities pc built = needs_url pc (
        if is_nil pc.model_capabilities
        then refuse (lit "model_capabilities is required")
        else built)

    -- The switch on the type of a provider.
    unfoldable pub by_kind : ProviderConfig → Result Built
    unfolding build_authenticator
    by_kind pc =
        if text_eq pc.kind (lit "openai")
        then needs_url pc (ok (openai (Client.new pc.base_url (openai_settings pc))))
        else if text_eq pc.kind (lit "lmstudio")
        then needs_url pc (ok (lmstudio (LmStudio.new pc.base_url (lmstudio_settings pc))))
        else if text_eq pc.kind (lit "litellm")
        then needs_url pc (ok (litellm (LiteLlm.new pc.base_url (litellm_settings pc))))
        else if text_eq pc.kind (lit "anthropic")
        then (do
          a ← build_authenticator pc
          ok (anthropic pc.name a (if is_positive pc.timeout then some pc.timeout else none)))
        else if text_eq pc.kind (lit "vllm")
        then needs_capabilities pc (do p ← Vllm.new json decode http (vllm_config pc); ok (vllm p))
        else if text_eq pc.kind (lit "llama-cpp")
        then needs_capabilities pc
            (do p ← LlamaCpp.new json schema_map (llama_config pc); ok (llama_cpp p))
        else refuse (lit "unknown provider type")

    unfoldable pub build_provider : ProviderConfig → Result Built
    unfolding by_kind
    build_provider pc =
        if insecure pc && not (any (λ k. text_eq pc.kind k) tls_kinds)
        then refuse (lit "tls.insecure is not supported for this provider type")
        else by_kind pc
