-- ===== src/Tests/Translator.antt =====
-- One value of each kind, there and back.
use go_ai_proxy.Common.{◌≡◌, refl, true, Option, some, none, List, [], ◌∷◌, arith}
use go_ai_proxy.Common.Text.{Text, lit, join, trim_space}
use go_ai_proxy.Domain.{Float, Model, Usage, Response, Chunk, no_chunk, absent, str, EmbedResponse}
use go_ai_proxy.Translator.Wire.{OaMessage, OaRequest}
use go_ai_proxy.Translator.ThinkTags.{
  extract_think_tags, rebuild, HasNoTags, extract_think_tags_parts,
}
use go_ai_proxy.Translator.Request.{
  request_from_openai, request_to_openai, KeepsFields, forwarded_request,
}
use go_ai_proxy.Translator.Chunk.{chunk_from_openai, chunk_to_openai, tool_chunk_lost}
use go_ai_proxy.Translator.Embeddings.{Codec}

abbrev oa_message : OaMessage
oa_message = record {
  role = lit "user";
  content = str (lit "hi");
  reasoning_content = [];
  reasoning = [];
  tool_calls = [];
  tool_call_id = [];
}

abbrev oa_request : OaRequest
oa_request = record {
  model = lit "m";
  messages = oa_message ∷ [];
  temperature = none;
  max_tokens = some 20;
  stream = true;
  tools = [];
  budget_tokens = some 5;
  reasoning_effort = some (lit "high");
  reasoning = none;
  response_format = none;
  grammar = [];
}

forwarded_request_example :
    let sent = request_to_openai (request_from_openai oa_request) in
    KeepsFields oa_request sent
    × (request_from_openai sent ≡ record (request_from_openai oa_request) {
      budget_tokens = none;
      reasoning_effort = none;
      grammar = [];
    })
forwarded_request_example = forwarded_request oa_request (refl, tt)

abbrev usage : Usage
usage = record { prompt_tokens = 3; completion_tokens = 1; cached_tokens = 2 }

abbrev response : Response
response = record {
  id = lit "r";
  model = lit "m";
  message = record {
    role = lit "assistant";
    content = lit "hi";
    raw_content = absent;
    tool_calls = [];
    tool_call_id = [];
  };
  usage = usage;
  thinking = lit "why";
  finish_reason = [];
}

abbrev text_chunk : Chunk
text_chunk = record no_chunk { delta = lit "hi" }

abbrev tool_chunk : Chunk
tool_chunk = record no_chunk {
  tool_call_index = some 0;
  tool_call_name = lit "f";
  tool_call_args = lit "{}";
}

tool_chunk_lost_example :
    ((chunk_from_openai (chunk_to_openai 7 tool_chunk)).tool_call_index ≡ none)
    × ((chunk_from_openai (chunk_to_openai 7 tool_chunk)).tool_call_name ≡ [])
    × ((chunk_from_openai (chunk_to_openai 7 tool_chunk)).tool_call_args ≡ [])
    × ((chunk_from_openai (chunk_to_openai 7 tool_chunk)).delta ≡ [])
tool_chunk_lost_example = tool_chunk_lost 7 tool_chunk 0 refl

abbrev no_float : Text → Option Float
no_float s = none

abbrev listed : Model
listed = record {
  id = lit "m";
  owned_by = lit "o";
  capabilities = lit "vision" ∷ [];
  input_cost_per_token = some 5;
  output_cost_per_token = none;
  max_model_len = 4096;
}

-- A float32 that is always zero, and bytes as their own text.
abbrev pub zero_codec : Codec
zero_codec = record {
  narrow = λ f. 0;
  widen = λ n. n;
  encode = λ bytes. bytes;
  decode = λ text. some text;
  narrow_lt = λ f. omega arith;
  decode-encode = λ bytes. refl;
}

abbrev embedded : EmbedResponse
embedded = record {
  model = lit "m";
  embeddings = record { index = 0; values = 4 ∷ [] } ∷ [];
  usage = usage;
}

extract_think_tags_parts_example :
    (ts : List Text) × (os : List Text) × (extract_think_tags (lit "<think>why</think>hi")
      ≡ some (join [] ts, trim_space (join [] os)))
    × (rebuild ts os ≡ lit "<think>why</think>hi")
    × HasNoTags ts os
extract_think_tags_parts_example = extract_think_tags_parts (lit "<think>why</think>hi")
