-- ===== src/Translator/Request.antt =====
-- RequestFromOpenAI and RequestToOpenAI of internal/translator/openai.go, after json.Unmarshal and
-- before json.Marshal.
use go_ai_proxy.Common.{
  ◌≡◌, ◌≢◌, ◌⊎◌, ◌∙◌, refl, ap, true, false, ◌&&◌, Option, none, some, List, [], ◌∷◌, map, arith,
  is_nil, if◌then◌else◌, or_default,
}
use go_ai_proxy.Common.All.{All}
use go_ai_proxy.Common.Text.{Text, lit, text_eq}
use go_ai_proxy.Common.Eq.{list_beq}
use go_ai_proxy.Domain.{Raw, absent, str, ToolCall, Message, Tool, ResponseFormat, Request}
use go_ai_proxy.Translator.Wire.{
  OaJsonSchemaSpec, OaResponseFormat, OaTool, OaToolCall, OaMessage, OaRequest, raw_to_string,
  string_to_raw, is_present,
}

abbrev pub json_schema : Text
json_schema = lit "json_schema"

abbrev pub function : Text
function = lit "function"

-- The switch on reasoning_effort and reasoning.effort.
effort_of : Option Text → Option (Option Text) → Option Text
effort_of (some e) reasoning = some e
effort_of none none = none
effort_of none (some e) = e

format_of_spec : Option OaJsonSchemaSpec → Option ResponseFormat
format_of_spec none = none
format_of_spec (some spec) =
    if is_nil spec.schema
    then none
    else some
        (record { name = spec.name; schema = spec.schema; strict = or_default spec.strict false })

format_of : Option OaResponseFormat → Option ResponseFormat
unfolding format_of_spec
format_of none = none
format_of (some rf) = if text_eq rf.kind json_schema then format_of_spec rf.json_schema else none

unfoldable pub call_of : OaToolCall → ToolCall
call_of tc = record { id = tc.id; name = tc.function.name; arguments = tc.function.arguments }

unfoldable pub message_of : OaMessage → Message
unfolding call_of raw_to_string
message_of m =
    let text = raw_to_string m.content in
    record {
      role = m.role;
      content = text;
      raw_content = if is_nil text && is_present m.content then m.content else absent;
      tool_calls = map call_of m.tool_calls;
      tool_call_id = m.tool_call_id;
    }

unfoldable pub tool_of : OaTool → Tool
tool_of t = record {
  name = t.function.name;
  description = t.function.description;
  parameters = t.function.parameters;
}

unfoldable pub request_from_openai : OaRequest → Request
unfolding effort_of format_of message_of tool_of
request_from_openai oar = record {
  model = oar.model;
  messages = map message_of oar.messages;
  tools = map tool_of oar.tools;
  temperature = oar.temperature;
  max_tokens = oar.max_tokens;
  stream = oar.stream;
  budget_tokens = oar.budget_tokens;
  reasoning_effort = effort_of oar.reasoning_effort oar.reasoning;
  response_format = format_of oar.response_format;
  grammar = oar.grammar;
}

unfoldable pub to_format : Option ResponseFormat → Option OaResponseFormat
to_format none = none
to_format (some rf) = some (record {
  kind = json_schema;
  json_schema = some (record { name = rf.name; schema = rf.schema; strict = some rf.strict });
})

unfoldable pub to_call : ToolCall → OaToolCall
to_call tc = record {
  index = none;
  id = tc.id;
  kind = function;
  function = record { name = tc.name; arguments = tc.arguments };
}

unfoldable pub to_message : Message → OaMessage
unfolding to_call string_to_raw
to_message m = record {
  role = m.role;
  content = if is_present m.raw_content then m.raw_content else string_to_raw m.content;
  reasoning_content = [];
  reasoning = [];
  tool_calls = map to_call m.tool_calls;
  tool_call_id = m.tool_call_id;
}

unfoldable pub to_tool : Tool → OaTool
to_tool t = record {
  kind = function;
  function = record { name = t.name; description = t.description; parameters = t.parameters };
}

unfoldable pub request_to_openai : Request → OaRequest
unfolding to_format to_message to_tool
request_to_openai req = record {
  model = req.model;
  messages = map to_message req.messages;
  temperature = req.temperature;
  max_tokens = req.max_tokens;
  stream = req.stream;
  tools = map to_tool req.tools;
  budget_tokens = none;
  reasoning_effort = none;
  reasoning = none;
  response_format = to_format req.response_format;
  grammar = [];
}

pub calls_roundtrip : (cs : List ToolCall) → map call_of (map to_call cs) ≡ cs
unfolding call_of to_call
calls_roundtrip [] = refl
calls_roundtrip (c ∷ cs) = ap (◌∷◌ c) (calls_roundtrip cs)

-- The message has text, or keeps its content verbatim and that does not read as text.
abbrev pub IsReadable : Message → Type 0
IsReadable m =
    ((is_nil m.content ≡ false) × (m.raw_content ≡ absent))
    ⊎ ((m.content ≡ []) × (m.raw_content ≢ absent) × (raw_to_string m.raw_content ≡ []))

message_roundtrip : (m : Message) → IsReadable m → message_of (to_message m) ≡ m
unfolding message_of to_message
message_roundtrip m h = ground (arith, calls_roundtrip m.tool_calls)

messages_roundtrip :
    (ms : List Message) → All IsReadable ms → map message_of (map to_message ms) ≡ ms
messages_roundtrip [] h = refl
messages_roundtrip (m ∷ ms) h =
    ap (λ x. x ∷ map message_of (map to_message ms)) (message_roundtrip m h.0)
    ∙ ap (◌∷◌ m) (messages_roundtrip ms h.1)

tools_roundtrip : (ts : List Tool) → map tool_of (map to_tool ts) ≡ ts
unfolding tool_of to_tool
tools_roundtrip [] = refl
tools_roundtrip (t ∷ ts) = ap (◌∷◌ t) (tools_roundtrip ts)

format_roundtrip : (o : Option OaResponseFormat) → format_of (to_format (format_of o)) ≡ format_of o
unfolding format_of to_format list_beq
format_roundtrip o = ground arith

abbrev pub HasContent : OaMessage → Type 0
HasContent m = is_present m.content ≡ true

message_of-IsReadable : (m : OaMessage) → HasContent m → IsReadable (message_of m)
unfolding message_of
message_of-IsReadable m h = ground arith

messages_of-IsReadable :
    (ms : List OaMessage) → All HasContent ms → All IsReadable (map message_of ms)
messages_of-IsReadable [] h = tt
messages_of-IsReadable (m ∷ ms) h = (message_of-IsReadable m h.0, messages_of-IsReadable ms h.1)

-- What of a message goes through unread.
abbrev pub Envelope : Type 0
Envelope = Text × Raw × Text

abbrev pub envelopes : List OaMessage → List Envelope
envelopes [] = []
envelopes (m ∷ ms) = (m.role, m.content, m.tool_call_id) ∷ envelopes ms

content_kept : (m : OaMessage) → HasContent m → (to_message (message_of m)).content ≡ m.content
unfolding message_of to_message raw_to_string string_to_raw
content_kept m h = ground arith

envelopes_kept :
    (ms : List OaMessage)
    → All HasContent ms
    → envelopes (map to_message (map message_of ms)) ≡ envelopes ms
unfolding message_of to_message
envelopes_kept [] h = refl
envelopes_kept (m ∷ ms) h =
    ap (λ c. (m.role, c, m.tool_call_id) ∷ envelopes (map to_message (map message_of ms)))
      (content_kept m h.0)
    ∙ ap (◌∷◌ (m.role, m.content, m.tool_call_id)) (envelopes_kept ms h.1)

-- Of a request as it was sent and as it is sent on.
abbrev pub KeepsFields : OaRequest → OaRequest → Type 0
KeepsFields w sent =
    (sent.model ≡ w.model)
    × (envelopes sent.messages ≡ envelopes w.messages)
    × (sent.temperature ≡ w.temperature)
    × (sent.max_tokens ≡ w.max_tokens)
    × (sent.stream ≡ w.stream)

pub forwarded_request :
    (w : OaRequest)
    → All HasContent w.messages
    → let sent = request_to_openai (request_from_openai w) in
      KeepsFields w sent
      × (request_from_openai sent ≡ record (request_from_openai w) {
        budget_tokens = none;
        reasoning_effort = none;
        grammar = [];
      })
unfolding request_from_openai request_to_openai
forwarded_request w h = (
  (refl, envelopes_kept w.messages h, refl, refl, refl),
  rw (
    messages_roundtrip (map message_of w.messages) (messages_of-IsReadable w.messages h),
    tools_roundtrip (map tool_of w.tools),
    format_roundtrip w.response_format,
  ),
)

-- A message with neither text nor a content field, such as an assistant turn that only calls tools,
-- is sent with an empty string for its content, and that is read as a content of its own.
pub forwarded_empty_content :
    (m : OaMessage)
    → m.content ≡ absent
    → ((to_message (message_of m)).content ≡ str [])
      × ((message_of (to_message (message_of m))).raw_content ≡ str [])
      × ((message_of m).raw_content ≡ absent)
unfolding message_of to_message
forwarded_empty_content m h = ground arith
