-- ===== src/Translator/Response.antt =====
-- ResponseToOpenAI and ResponseFromOpenAI of internal/translator/openai.go.
use go_ai_proxy.Common.{
  ℕ, ◌<◌, ◌≡◌, ◌≢◌, ◌⊎◌, true, false, ◌&&◌, Option, none, some, List, [], ◌∷◌, map, arith, is_nil,
  if◌then◌else◌, or_default,
}
use go_ai_proxy.Common.Text.{Text, lit, includes}
use go_ai_proxy.Common.Int64.{half}
use go_ai_proxy.Domain.{absent, Usage, Response}
use go_ai_proxy.Translator.Wire.{
  OaMessage, OaChoice, OaResponse, raw_to_string, string_to_raw, finish_reason_or_default,
  usage_to_openai, usage_from_openai,
}
use go_ai_proxy.Translator.Request.{call_of, to_call, calls_roundtrip}
use go_ai_proxy.Translator.ThinkTags.{open_tag, extract_think_tags, extract_think_tags_parts}

abbrev pub stop : Text
stop = lit "stop"

abbrev pub chat_completion : Text
chat_completion = lit "chat.completion"

-- `created` is the clock.
unfoldable pub response_to_openai : ℕ → Response → OaResponse
response_to_openai created resp = record {
  id = resp.id;
  object = chat_completion;
  created = created;
  model = resp.model;
  choices =
      record {
        index = 0;
        message = record {
          role = resp.message.role;
          content = string_to_raw resp.message.content;
          reasoning_content = resp.thinking;
          reasoning = [];
          tool_calls = map to_call resp.message.tool_calls;
          tool_call_id = [];
        };
        finish_reason = finish_reason_or_default resp.finish_reason stop;
      }
      ∷ [];
  usage = usage_to_openai resp.usage;
}

-- The thinking text, by preference reasoning_content, reasoning, and the tags in the content.
unfoldable pub thinking_of : OaMessage → Text × Text
thinking_of m =
    let content = raw_to_string m.content in
    let explicit = if is_nil m.reasoning_content then m.reasoning else m.reasoning_content in
    if is_nil explicit && includes open_tag content
    then or_default (extract_think_tags content) ([], content)
    else (explicit, content)

response_of : OaResponse → OaChoice → Response
unfolding thinking_of
response_of oar choice =
    let m = choice.message in
    let (thinking, content) = thinking_of m in
    record {
      id = oar.id;
      model = oar.model;
      message = record {
        role = m.role;
        content = content;
        raw_content = absent;
        tool_calls = map call_of m.tool_calls;
        tool_call_id = m.tool_call_id;
      };
      usage = usage_from_openai oar.usage;
      thinking = thinking;
      finish_reason = choice.finish_reason;
    }

-- `none` is the error for a response with no choices.
first_choice : OaResponse → List OaChoice → Option Response
unfolding response_of
first_choice oar [] = none
first_choice oar (c ∷ cs) = some (response_of oar c)

unfoldable pub response_from_openai : OaResponse → Option Response
unfolding first_choice
response_from_openai oar = first_choice oar oar.choices

-- Cached tokens are none or a positive number.
abbrev pub IsCounted : Usage → Type 0
IsCounted u = u.cached_tokens < half

pub usage_roundtrip : (u : Usage) → IsCounted u → usage_from_openai (usage_to_openai u) ≡ u
unfolding usage_from_openai usage_to_openai
usage_roundtrip u h = ground arith

-- A response that a client reads from the proxy is the response that the provider returned, with the
-- finish reason "stop" where it gave none, provided that its content has no opening think tag or its
-- thinking is already apart.
pub response_roundtrip :
    (created : ℕ) (resp : Response)
    → (resp.thinking ≢ []) ⊎ (includes open_tag resp.message.content ≡ false)
    → resp.message.raw_content ≡ absent
    → resp.message.tool_call_id ≡ []
    → IsCounted resp.usage
    → response_from_openai (response_to_openai created resp)
      ≡ some (record resp { finish_reason = finish_reason_or_default resp.finish_reason stop })
unfolding response_from_openai response_to_openai raw_to_string string_to_raw
response_roundtrip created resp t raw id u =
    ground (arith, calls_roundtrip resp.message.tool_calls, usage_roundtrip resp.usage)

-- A content with think tags and no reasoning field is split by them: the tagged text becomes the
-- thinking, and a response never fails for want of fuel.
pub tagged_response :
    (oar : OaResponse) (choice : OaChoice) (rest : List OaChoice)
    → oar.choices ≡ choice ∷ rest
    → choice.message.reasoning_content ≡ []
    → choice.message.reasoning ≡ []
    → includes open_tag (raw_to_string choice.message.content) ≡ true
    → (resp : Response) × (response_from_openai oar ≡ some resp)
      × (extract_think_tags (raw_to_string choice.message.content)
          ≡ some (resp.thinking, resp.message.content))
unfolding response_from_openai
tagged_response oar choice rest c a b t =
    let (ts, os, e, whole, untagged) =
      extract_think_tags_parts (raw_to_string choice.message.content) in
    (response_of oar choice, rw c, ground (arith, e, a, b, t))
