-- ===== src/Translator/Chunk.antt =====
-- ChunkToOpenAI and ChunkFromOpenAI of internal/translator/openai.go.
use go_ai_proxy.Common.{
  ℕ, ◌≡◌, refl, ap, Bool, false, Option, none, some, List, [], ◌∷◌, arith, is_nil, if◌then◌else◌,
  or_default,
}
use mathlib.Core.Option
use go_ai_proxy.Common.Text.{Text, lit, text_eq}
use go_ai_proxy.Common.Eq.{list_eq, nat_eq, list_beq_iff}
use go_ai_proxy.Domain.{Chunk, Usage, no_chunk}
use go_ai_proxy.Translator.Wire.{
  OaToolCall, OaDeltaMsg, OaDelta, OaChunk, usage_to_openai, usage_from_openai, first_non_empty,
}
use go_ai_proxy.Translator.Request.{function}
use go_ai_proxy.Translator.Response.{stop, usage_roundtrip, IsCounted}

abbrev pub chunk_object : Text
chunk_object = lit "chat.completion.chunk"

finish_of : Chunk → Option Text
finish_of chunk =
    if is_nil chunk.finish_reason
    then (if chunk.done then some stop else none)
    else some chunk.finish_reason

tool_delta : Chunk → ℕ → OaToolCall
tool_delta chunk i = record {
  index = some i;
  id = chunk.tool_call_id;
  kind = if is_nil chunk.tool_call_id then [] else function;
  function = record { name = chunk.tool_call_name; arguments = chunk.tool_call_args };
}

delta_of : Chunk → OaDeltaMsg
unfolding tool_delta
delta_of chunk = elim chunk.tool_call_index [
  | some i ↦ record {
    role = [];
    content = [];
    reasoning_content = [];
    reasoning = [];
    tool_calls = tool_delta chunk i ∷ [];
  }
  | none ↦ record {
    role = [];
    content = chunk.delta;
    reasoning_content = chunk.thinking_delta;
    reasoning = [];
    tool_calls = [];
  }
]

unfoldable pub chunk_to_openai : ℕ → Chunk → OaChunk
unfolding finish_of delta_of
chunk_to_openai created chunk = record {
  id = chunk.id;
  object = chunk_object;
  created = created;
  model = chunk.model;
  choices = record { index = 0; delta = delta_of chunk; finish_reason = finish_of chunk } ∷ [];
  usage = Option.map usage_to_openai chunk.usage;
}

abbrev is_stop : Option Text → Bool
is_stop none = false
is_stop (some r) = text_eq r stop

with_choice : Chunk → List OaDelta → Chunk
unfolding first_non_empty
with_choice chunk [] = chunk
with_choice chunk (choice ∷ rest) = record chunk {
  delta = choice.delta.content;
  thinking_delta = first_non_empty (choice.delta.reasoning_content ∷ choice.delta.reasoning ∷ []);
  finish_reason = or_default choice.finish_reason [];
  done = is_stop choice.finish_reason;
}

unfoldable pub chunk_from_openai : OaChunk → Chunk
unfolding with_choice
chunk_from_openai oac =
    with_choice
      (record no_chunk {
        id = oac.id;
        model = oac.model;
        usage = Option.map usage_from_openai oac.usage;
      })
      oac.choices

abbrev pub HasCounted : Option Usage → Type 0
HasCounted none = Unit
HasCounted (some u) = IsCounted u

usage_back :
    (o : Option Usage)
    → HasCounted o
    → Option.map usage_from_openai (Option.map usage_to_openai o) ≡ o
usage_back none h = refl
usage_back (some u) h = ap some (usage_roundtrip u h)

-- A text or thinking chunk read back from the wire is the chunk that was written, where `done` is the
-- finish reason "stop".
pub text_chunk_roundtrip :
    (created : ℕ) (chunk : Chunk)
    → chunk.tool_call_index ≡ none
    → (chunk.tool_call_id ≡ []) × (chunk.tool_call_name ≡ []) × (chunk.tool_call_args ≡ [])
    → chunk.done ≡ text_eq chunk.finish_reason stop
    → HasCounted chunk.usage
    → chunk_from_openai (chunk_to_openai created chunk) ≡ chunk
unfolding chunk_from_openai chunk_to_openai
text_chunk_roundtrip created chunk t empty d u =
    ground (arith, usage_back chunk.usage u, list_beq_iff chunk.finish_reason stop)

-- A tool-call chunk read back from the wire has lost its call: the parser of stream chunks does not
-- read `tool_calls`.
pub tool_chunk_lost :
    (created : ℕ) (chunk : Chunk) (i : ℕ)
    → chunk.tool_call_index ≡ some i
    → ((chunk_from_openai (chunk_to_openai created chunk)).tool_call_index ≡ none)
      × ((chunk_from_openai (chunk_to_openai created chunk)).tool_call_name ≡ [])
      × ((chunk_from_openai (chunk_to_openai created chunk)).tool_call_args ≡ [])
      × ((chunk_from_openai (chunk_to_openai created chunk)).delta ≡ [])
unfolding chunk_from_openai chunk_to_openai
tool_chunk_lost created chunk i t = ground arith
