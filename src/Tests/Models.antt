-- ===== src/Tests/Models.antt =====
-- Providers with a list of models: vLLM before and after its first check, LiteLLM with costs, and the
-- entry that vLLM's bodies get.
use mathlib.Core.List.{map}
use go_ai_proxy.Common.{
  ◌≡◌, refl, true, false, Option, none, some, List, [], ◌∷◌, ◌++◌, keep, if◌then◌else◌,
}
use go_ai_proxy.Common.Text.{Text, lit, text_eq}
use go_ai_proxy.Common.Assoc.{lookup}
use go_ai_proxy.Common.Eq.{list_beq}
use go_ai_proxy.Common.Json.{bool, str, obj, Fields, end, field, JsonCodec}
use go_ai_proxy.Domain.{Model}
use go_ai_proxy.Provider.OpenAi.{ok, ◌>>=◌, RoundTrip, replied}
use go_ai_proxy.Provider.OpenAi.Client as Client
use go_ai_proxy.Provider.OpenAi.Client.{HttpCall}
use go_ai_proxy.Provider.Vllm as Vllm
use go_ai_proxy.Provider.Vllm.{
  bare_model, attach, declared, with_fallback, discover_models, validate, unprimed,
  with_default_key,
}
use go_ai_proxy.Provider.Vllm.Laws.{new_then_models}
use go_ai_proxy.Provider.Vllm.Inject.{kwargs_key}
use go_ai_proxy.Provider.LiteLlm as LiteLlm
use go_ai_proxy.Provider.LiteLlm.{ModelInfo, InfoEntry, enrich_with, last_entry, enrich_models}

abbrev body : Text
body = lit "{}"

abbrev root : Fields
root =
    field (lit "model") (str (lit "m"))
      (field kwargs_key (obj (field (lit "x") (bool true) end)) end)

abbrev printed : Fields → Text
printed end = []
printed (field k v fs) = k ++ printed fs

abbrev json : JsonCodec
json = record {
  unmarshal = λ t. if text_eq t body then some (some root) else none;
  marshal = printed;
}

-- The upstream's listing is the body, one model for each line of it here.
abbrev decode : Text → Option (List Model)
decode t = some (bare_model t ∷ [])

abbrev answers : Text → HttpCall → RoundTrip
answers t call = replied (record { status = 200; retry_after = []; body = t })

abbrev cfg : Vllm.Config
cfg = record {
  name = lit "v";
  base_url = lit "http://v";
  api_key = [];
  timeout = 0;
  tls_insecure = false;
  thinking_key = lit "enable_thinking";
  models = [];
  discover = true;
  model_capabilities = (lit "qwen", lit "tools" ∷ []) ∷ [];
}

abbrev started : Vllm.Vllm
started = record {
  cfg = cfg;
  inner = Client.new cfg.base_url (Vllm.inner_settings json cfg);
  primed = true;
}

new_then_models_example :
    (Vllm.models decode (answers (lit "other")) started ≡ (
      with_fallback cfg (discover_models decode (answers (lit "other")) cfg started.inner)
      >>= (λ ms. ok (map (attach cfg) (keep (declared cfg) ms)))))
    × ((ms : List Model) × (with_fallback cfg
            (discover_models decode (answers (lit "qwen")) cfg started.inner)
          ≡ ok ms)
        × (Vllm.models decode (answers (lit "qwen")) started ≡ ok (map (attach cfg) ms)))
unfolding Vllm.new Vllm.models unprimed discover_models with_fallback validate Client.models
    Client.new lookup list_beq
new_then_models_example =
    new_then_models json decode (answers (lit "qwen")) (answers (lit "other")) cfg started refl

abbrev no_info : ModelInfo
no_info = record {
  supports_vision = false;
  supports_reasoning = true;
  supports_function_calling = false;
  supports_tool_choice = true;
  supports_pdf_input = false;
  supports_response_schema = false;
  supports_web_search = false;
  supports_audio_input = false;
  supports_audio_output = false;
  supports_computer_use = false;
  supports_prompt_caching = false;
  supports_url_context = false;
  input_cost_per_token = some 7;
  output_cost_per_token = none;
}

abbrev entries : Text → Option (List InfoEntry)
entries t = some (record { model_name = t; model_info = no_info } ∷ [])

abbrev lite : LiteLlm.LiteLlm
lite = LiteLlm.new (lit "http://l") []

enrich_models_example :
    LiteLlm.models entries decode (answers (lit "gpt")) lite
    ≡ ok (
        map
          (λ m.
            enrich_with
              (last_entry m.id (record { model_name = lit "gpt"; model_info = no_info } ∷ []) none)
              m)
          (bare_model (lit "gpt") ∷ []))
unfolding Client.models
enrich_models_example =
    enrich_models entries decode (answers (lit "gpt")) lite (bare_model (lit "gpt") ∷ [])
      (record { model_name = lit "gpt"; model_info = no_info } ∷ []) refl refl
