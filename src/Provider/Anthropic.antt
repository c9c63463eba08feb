-- ===== src/Provider/Anthropic.antt =====
-- internal/provider/anthropic/provider.go: the translation to and from the types of the Anthropic SDK,
-- as far as the code sets or reads their fields. No step of toMessageParams can fail. JSON is outside:
-- `parse_arguments` is json.Unmarshal on a call's arguments, `marshal_input` json.Marshal on an input.
pub mod Events
pub mod Routing
pub mod Messages
pub mod Client
use go_ai_proxy.Common.{
  ℕ, Bool, true, false, ◌⊎◌, inl, inr, Option, none, some, List, [], ◌∷◌, ◌++◌, map, is_nil, ◌==◌,
  or_default, if◌then◌else◌,
}
use go_ai_proxy.Common.Text.{Text, lit, text_eq}
use go_ai_proxy.Domain.{
  Float, Schema, ToolCall, Message, absent, Tool, ResponseFormat, Request, Response, Model,
}
use go_ai_proxy.Provider.Errors.{ProviderError, rate_limit, other, parse_retry_after}
use go_ai_proxy.Provider.OpenAi.{Result, ok, err}

-- ContentBlockParamUnion: text, tool use (ID, name, input), tool result (ID, text).
pub data BlockParam : Type 0 where
  text_block : Text → BlockParam
  tool_use : Text → Text → Schema → BlockParam
  tool_result : Text → Text → BlockParam

pub data MessageParam : Type 0 where
  user_message : List BlockParam → MessageParam
  assistant_message : List BlockParam → MessageParam

-- ToolParam, whose input schema has the tool's parameters as its properties.
pub record ToolParam : Type 0 where
  pub name : Text
  pub description : Text
  pub properties : Schema

-- MessageNewParams
pub record MessageParams : Type 0 where
  pub model : Text
  pub max_tokens : ℕ
  pub messages : List MessageParam
  pub thinking : Option ℕ
  pub temperature : Option Float
  pub system : Option Text
  pub tools : List ToolParam
  pub output_schema : Option Schema

abbrev pub has_role : Text → Message → Bool
has_role role m = text_eq m.role role

abbrev pub empty_input : Schema
empty_input = lit "{}"

module _ (parse_arguments : Text → Option Schema) where
  call_blocks : List ToolCall → List BlockParam
  call_blocks [] = []
  call_blocks (c ∷ cs) =
      tool_use c.id c.name (or_default (parse_arguments c.arguments) empty_input) ∷ call_blocks cs

  -- assistantContentBlocks
  unfoldable pub assistant_content_blocks : Message → List BlockParam
  unfolding call_blocks
  assistant_content_blocks m =
      (if is_nil m.content then [] else text_block m.content ∷ []) ++ call_blocks m.tool_calls

  abbrev pub result_block : Message → BlockParam
  result_block m = tool_result m.tool_call_id m.content

  -- The inner loop: the tool results at the head.
  unfoldable pub leading_results : List Message → List BlockParam
  leading_results [] = []
  leading_results (m ∷ ms) =
      let rest = leading_results ms in if has_role (lit "tool") m then result_block m ∷ rest else []

  -- toAnthropicMessages. `grouped` says that the messages at the head have been taken by the inner
  -- loop, as long as they are tool results.
  unfoldable pub messages_from : Bool → List Message → List MessageParam
  messages_from grouped [] = []
  messages_from grouped (m ∷ ms) =
      let after_group = messages_from true ms in
      let after_other = messages_from false ms in
      if has_role (lit "user") m
      then user_message (text_block m.content ∷ []) ∷ after_other
      else if has_role (lit "assistant") m
      then assistant_message (assistant_content_blocks m) ∷ after_other
      else if has_role (lit "tool") m
      then if grouped
        then after_group
        else user_message (result_block m ∷ leading_results ms) ∷ after_group
      else after_other

  unfoldable pub to_anthropic_messages : List Message → List MessageParam
  to_anthropic_messages ms = messages_from false ms

-- The first loop of toMessageParams: the system text, from what there is of it, and the other messages.
unfoldable pub system_text : Text → List Message → Text
system_text text [] = text
system_text text (m ∷ ms) =
    system_text
      (if has_role (lit "system") m
        then (if is_nil text then m.content else text ++ (lit "\n" ++ m.content))
        else text)
      ms

unfoldable pub other_messages : List Message → List Message
other_messages [] = []
other_messages (m ∷ ms) =
    let rest = other_messages ms in if has_role (lit "system") m then rest else m ∷ rest

-- toAnthropicTools, for one tool
abbrev to_anthropic_tool : Tool → ToolParam
to_anthropic_tool t = record {
  name = t.name;
  description = t.description;
  properties = t.parameters;
}

abbrev schema_of : ResponseFormat → Schema
schema_of f = f.schema

abbrev unless : Option ℕ → Option Float → Option Float
unless none t = t
unless (some budget) t = none

abbrev some_text : Text → Option Text
some_text s = if is_nil s then none else some s

abbrev schema_opt : Option ResponseFormat → Option Schema
schema_opt none = none
schema_opt (some f) = some f.schema

-- toMessageParams
unfoldable pub to_message_params : (Text → Option Schema) → Request → MessageParams
to_message_params parse_arguments req = record {
  model = req.model;
  max_tokens = or_default req.max_tokens 4096;
  messages = to_anthropic_messages parse_arguments (other_messages req.messages);
  thinking = req.budget_tokens;
  temperature = unless req.budget_tokens req.temperature;
  system = some_text (system_text [] req.messages);
  tools = map to_anthropic_tool req.tools;
  output_schema = schema_opt req.response_format;
}

-- A content block of a response; the other kinds are passed over.
pub data Block : Type 0 where
  text : Text → Block
  thinking : Text → Block
  tool_use_block : Text → Text → Schema → Block
  other_block : Block

pub record AnMessage : Type 0 where
  pub id : Text
  pub model : Text
  pub content : List Block
  pub input_tokens : ℕ
  pub output_tokens : ℕ

-- The variables of the loop of fromMessage.
pub record Collected : Type 0 where
  pub text_content : Text
  pub thinking_content : Text
  pub tool_calls : List ToolCall

module _ (marshal_input : Schema → Option Text) where
  abbrev pub call_from : Text → Text → Schema → ToolCall
  call_from id name input = record {
    id = id;
    name = name;
    arguments = or_default (marshal_input input) empty_input;
  }

  abbrev pub collect_block : Block → Collected → Collected
  collect_block (text t) c = record c { text_content = c.text_content ++ t }
  collect_block (thinking t) c = record c { thinking_content = c.thinking_content ++ t }
  collect_block (tool_use_block id name input) c = record c {
    tool_calls = c.tool_calls ++ call_from id name input ∷ [];
  }
  collect_block other_block c = c

  unfoldable pub collect : List Block → Collected → Collected
  collect [] c = c
  collect (b ∷ bs) c = collect bs (collect_block b c)

  -- fromMessage
  unfoldable pub from_message : AnMessage → Response
  from_message msg =
      let c =
        collect msg.content
          (record { text_content = []; thinking_content = []; tool_calls = [] }) in
      record {
        id = msg.id;
        model = msg.model;
        message = record {
          role = lit "assistant";
          content = c.text_content;
          raw_content = absent;
          tool_calls = c.tool_calls;
          tool_call_id = [];
        };
        usage = record {
          prompt_tokens = msg.input_tokens;
          completion_tokens = msg.output_tokens;
          cached_tokens = 0;
        };
        thinking = c.thinking_content;
        finish_reason = [];
      }

-- An error of the SDK: one of the API, with its status and Retry-After header, or another.
pub data SdkError : Type 0 where
  api_error : ℕ → Text → SdkError
  sdk_error : Text → SdkError

-- The errors of Chat and of the first event of ChatStream.
unfoldable pub sdk_failure : (Text → Option ℕ) → SdkError → ProviderError
sdk_failure until (api_error status retry_after) =
    if status == 429
    then rate_limit (parse_retry_after until retry_after)
    else other (lit "anthropic: messages.new")
sdk_failure until (sdk_error e) = other (lit "anthropic: messages.new")

-- Chat, after the client and the parameters: the SDK's message or its error.
unfoldable pub finish_chat :
    (Text → Option ℕ) → (Schema → Option Text) → SdkError ⊎ AnMessage → Result Response
finish_chat until marshal_input (inl e) = err (sdk_failure until e)
finish_chat until marshal_input (inr msg) = ok (from_message marshal_input msg)

abbrev to_model : Text → Model
to_model id = record {
  id = id;
  owned_by = lit "anthropic";
  capabilities = [];
  input_cost_per_token = none;
  output_cost_per_token = none;
  max_model_len = 0;
}

-- Models, on the IDs of the page
unfoldable pub to_models : List Text → List Model
to_models ids = map to_model ids
