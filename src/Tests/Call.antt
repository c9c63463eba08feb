-- ===== src/Tests/Call.antt =====
-- A provider for a llama.cpp server that cmd/gap/main.go builds, and a request with a grammar: the body and
-- the key that the server gets.
use go_ai_proxy.Common.{
  ◌≡◌, refl, ℕ, false, ◌⊎◌, inr, Option, none, some, List, [], ◌∷◌, ◌++◌, or_default,
}
use go_ai_proxy.Common.Text.{Text, lit}
use go_ai_proxy.Common.Eq.{list_beq}
use go_ai_proxy.Common.Json.{Fields, end, JsonCodec}
use go_ai_proxy.Domain.{
  Model, Schema, absent, Request, Response, EmbedRequest, EmbedResponse, Chunk,
}
use go_ai_proxy.Provider.OpenAi.{ok, RoundTrip, replied, status_error}
use go_ai_proxy.Provider.OpenAi.Client as Client
use go_ai_proxy.Provider.OpenAi.Client.{HttpCall, StreamReply}
use go_ai_proxy.Provider.LlamaCpp as LlamaCpp
use go_ai_proxy.Gap.{ProviderConfig}
use go_ai_proxy.Gap.Build.{Built, llama_cpp, llama_config, build_provider, by_kind}
use go_ai_proxy.Gap.ByKind.{llama_made}
use go_ai_proxy.Gap.Call.{Answers, build_provider-Answers}

abbrev pc : ProviderConfig
pc = record {
  name = lit "local";
  kind = lit "llama-cpp";
  base_url = lit "http://local";
  timeout = 0;
  auth = some (record { method = []; api_key = lit "key"; api_keys = []; token_file = [] });
  token_budget = none;
  max_concurrent = 0;
  queue_size = 0;
  request_timeout = 0;
  model_capabilities = (lit "small", lit "structured_output" ∷ []) ∷ [];
  model_context_length = [];
  tls = none;
  vllm = none;
}

abbrev same_text : Text → Text
same_text t = t

abbrev json : JsonCodec
json = record { unmarshal = λ t. some (some end); marshal = λ m. lit "with a grammar" }

abbrev no_schema : Schema → Fields
no_schema s = end

abbrev request : Request
request = record {
  model = lit "small";
  messages = [];
  tools = [];
  temperature = none;
  max_tokens = none;
  stream = false;
  budget_tokens = none;
  reasoning_effort = none;
  response_format = none;
  grammar = lit "root ::= [a-z]";
}

abbrev inputs : EmbedRequest
inputs = record {
  model = lit "small";
  input = lit "text" ∷ [];
  encoding_format = [];
  dimensions = none;
}

abbrev no_date : Text → Option ℕ
no_date t = none

abbrev encode : Request → Option Text
encode r = some (lit "chat")

abbrev encode_inputs : EmbedRequest → Option Text
encode_inputs r = some (lit "inputs")

-- A server that says what it was sent.
abbrev answer : Text → Response
answer body = record {
  id = body;
  model = lit "small";
  message = record {
    role = lit "assistant";
    content = [];
    raw_content = absent;
    tool_calls = [];
    tool_call_id = [];
  };
  usage = record { prompt_tokens = 0; completion_tokens = 0; cached_tokens = 0 };
  thinking = [];
  finish_reason = [];
}

abbrev echo : Text → Option Response
echo body = some (answer body)

abbrev no_vectors : Text → Option EmbedResponse
no_vectors body = none

abbrev no_chunk : Text → Option Chunk
no_chunk line = none

abbrev sent_to : HttpCall → Text
sent_to call = call.url ++ (or_default call.authorization [] ++ call.body)

abbrev server : HttpCall → RoundTrip
server call = replied (record { status = 200; retry_after = []; body = sent_to call })

abbrev streaming : HttpCall → Text ⊎ StreamReply
streaming call =
    inr (record { head = record { status = 200; retry_after = []; body = [] }; lines = [] })

abbrev no_models : Text → Option (List Model)
no_models t = none

abbrev built : Built
built = llama_cpp (llama_made json no_schema (llama_config same_text pc))

build_provider-Answers_example :
    Answers no_date encode encode_inputs echo no_vectors no_chunk server streaming same_text json
      no_schema pc request inputs built
unfolding build_provider by_kind LlamaCpp.new list_beq
build_provider-Answers_example =
    build_provider-Answers no_date encode encode_inputs echo no_vectors no_chunk server streaming
      same_text json no_schema no_models server pc built request inputs refl

-- The body went through the mutator, and the key went with it.
chat_echoed :
    LlamaCpp.chat no_date encode echo
      (llama_made json no_schema (llama_config same_text pc))
      server
      request
    ≡ ok (answer (lit "http://local/v1/chat/completionsBearer keywith a grammar"))
unfolding LlamaCpp.chat Client.chat Client.chat_body Client.post Client.bearer Client.new
    LlamaCpp.mutator LlamaCpp.inject_grammar list_beq status_error
chat_echoed = refl
