-- ===== src/Tests/Gap.antt =====
-- A configuration with two providers: the token budget, the verification of certificates, and the audit
-- of a request.
use go_ai_proxy.Common.{
  ◌≡◌, refl, ℕ, true, false, Option, none, some, List, [], ◌∷◌, keep, or_default, if◌then◌else◌,
}
use go_ai_proxy.Common.Text.{Text, lit}
use go_ai_proxy.Common.Eq.{list_beq}
use go_ai_proxy.Common.Json.{Fields, end, JsonCodec}
use go_ai_proxy.Domain.{ProviderId, Model, Message, absent, Request, Response, EmbedRequest}
use go_ai_proxy.Provider.OpenAi.{Result, ok, RoundTrip, broken}
use go_ai_proxy.Provider.OpenAi.Client as Client
use go_ai_proxy.Provider.OpenAi.Client.{HttpCall}
use go_ai_proxy.Provider.Vllm.{bare_model}
use go_ai_proxy.Registry.{
  new_registry, refresh, build, add_entry, add_models, add_model, prepare, is_glob, register,
}
use go_ai_proxy.Server.Budget.{TokenBudgetConfig, limit_for}
use go_ai_proxy.Gap.{Config, default_config, server_options, ProviderConfig}
use go_ai_proxy.Gap.Build.{Built, openai, openai_settings, build_provider, by_kind}
use go_ai_proxy.Gap.Budgets.{
  Wiring, no_wiring, wire, wire_all, token_budget, configured_limit, listed, start_up,
}
use go_ai_proxy.Gap.Budgets.Launch.{launch, launch_limits}
use go_ai_proxy.Server.Handlers.{Server}
use go_ai_proxy.Server.Serve as Serve
use go_ai_proxy.Server.Serve.{Outside, Gate}
use go_ai_proxy.Common.Assoc.{lookup, insert}
use go_ai_proxy.Registry.Route.{provider_for}
use go_ai_proxy.Gap.Tls.{clients, AllUnchecked}
use go_ai_proxy.Gap.Tls.Build.{build_provider_tls}
use go_ai_proxy.Server.Audit.{
  is_visible, audit_chat, audit_embeddings, audit_stream_start, audit_stream_end, hide_request,
  hide_response, hide_inputs, audit_hides_content,
}

abbrev pc : ProviderConfig
pc = record {
  name = lit "local";
  kind = lit "openai";
  base_url = lit "https://local";
  timeout = 0;
  auth = none;
  token_budget = some (record { fallback = 100; models = (lit "small", 20) ∷ [] });
  max_concurrent = 0;
  queue_size = 0;
  request_timeout = 0;
  model_capabilities = [];
  model_context_length = [];
  tls = some true;
  vllm = none;
}

abbrev same_text : Text → Text
same_text t = t

abbrev built : Built
built = openai (Client.new pc.base_url (openai_settings same_text pc))

abbrev json : JsonCodec
json = record { unmarshal = λ t. none; marshal = λ m. [] }

abbrev no_schema : Text → Fields
no_schema s = end

abbrev no_models : Text → Option (List Model)
no_models t = none

abbrev down : HttpCall → RoundTrip
down call = broken []

build_provider_tls_example : AllUnchecked true (clients built)
unfolding build_provider by_kind list_beq
build_provider_tls_example =
    build_provider_tls same_text json no_schema no_models down pc built refl

abbrev reported : List Model
reported = bare_model (lit "small") ∷ bare_model (lit "large") ∷ []

abbrev always : ProviderConfig → Result Built
always c = ok built

abbrev answers : ProviderId → Option (List Model)
answers p = some reported

abbrev wiring : Wiring
wiring =
    let w : Wiring = wire 0 pc built no_wiring in record w { registry = refresh answers w.registry }

abbrev budget : Option TokenBudgetConfig
budget = token_budget wiring wiring.registry.all_models

started : start_up always answers (pc ∷ []) ≡ ok (wiring, budget)
unfolding start_up wire_all
started = refl

primary : provider_for wiring.registry (lit "small") ≡ some (some 0)
unfolding provider_for refresh build add_entry add_models add_model prepare lookup insert list_beq
    is_glob new_registry register wire
primary = refl

abbrev outside : Outside ℕ
outside = record {
  new_limiter = λ c. 0;
  allow = λ now n. (n, true);
  digest = λ t. t;
  split_host = λ t. none;
}

abbrev cfg : Config
cfg = record default_config { providers = pc ∷ [] }

abbrev launched : Gate outside × Server ℕ
launched = Serve.new outside (server_options false budget cfg.server) wiring.registry 0

launch_limits_example : limit_for launched.1.token_budget (lit "small") ≡ (
    if listed (lit "small") wiring.registry.all_models
    then or_default (configured_limit pc.token_budget (lit "small")) 0
    else 0)
unfolding launch start_up wire_all Serve.new
launch_limits_example =
    launch_limits outside always answers false cfg 0 launched.0 launched.1 (lit "small") 0 pc refl
      primary refl

abbrev message : Message
message = record {
  role = lit "user";
  content = lit "secret";
  raw_content = absent;
  tool_calls = [];
  tool_call_id = [];
}

abbrev blank : Message
blank = record message { content = [] }

abbrev request : Request
request = record {
  model = lit "small";
  messages = message ∷ [];
  tools = [];
  temperature = none;
  max_tokens = none;
  stream = false;
  budget_tokens = none;
  reasoning_effort = none;
  response_format = none;
  grammar = [];
}

abbrev response : Response
response = record {
  id = lit "1";
  model = lit "small";
  message = message;
  usage = record { prompt_tokens = 1; completion_tokens = 2; cached_tokens = 0 };
  thinking = [];
  finish_reason = lit "stop";
}

abbrev inputs : EmbedRequest
inputs = record {
  model = lit "small";
  input = lit "secret" ∷ [];
  encoding_format = [];
  dimensions = none;
}

audit_hides_content_example :
    (keep is_visible (audit_chat (some true) (lit "r") request (some response) none 5)
      ≡ keep is_visible (
          audit_chat
            (some true)
            (lit "r")
            (hide_request request)
            (some (hide_response blank response))
            none
            5))
    × (keep is_visible (audit_embeddings (some true) (lit "r") inputs none none 5)
        ≡ keep is_visible (audit_embeddings (some true) (lit "r") (hide_inputs inputs) none none 5))
    × (keep is_visible (audit_stream_start (some true) (lit "r") request)
        ≡ keep is_visible (audit_stream_start (some true) (lit "r") (hide_request request)))
    × (keep is_visible (
          audit_stream_end (some true) (lit "r") (lit "small") 5 none (lit "stop") 3 (lit "secret"))
        ≡ keep is_visible
            (audit_stream_end (some true) (lit "r") (lit "small") 5 none (lit "stop") 3 []))
audit_hides_content_example =
    audit_hides_content (some true) (lit "r") (lit "small") (lit "stop") (lit "secret") request
      response blank inputs none none 5 3 none
