-- ===== src/Translator/Wire.antt =====
-- The wire structs of internal/translator/openai.go, and its small helpers.
use go_ai_proxy.Common.{
  ℕ, Bool, true, false, Option, none, some, List, [], ◌∷◌, is_nil, if◌then◌else◌,
}
use go_ai_proxy.Common.Text.{Text}
use go_ai_proxy.Common.Int64.{add_int, is_positive}
use go_ai_proxy.Domain.{Raw, absent, str, verbatim, Usage, Schema, Float}

pub record OaJsonSchemaSpec : Type 0 where
  pub name : Text
  pub schema : Schema
  pub strict : Option Bool

pub record OaResponseFormat : Type 0 where
  pub kind : Text
  pub json_schema : Option OaJsonSchemaSpec

pub record OaToolFunction : Type 0 where
  pub name : Text
  pub description : Text
  pub parameters : Schema

pub record OaTool : Type 0 where
  pub kind : Text
  pub function : OaToolFunction

pub record OaToolCallFunction : Type 0 where
  pub name : Text
  pub arguments : Text

pub record OaToolCall : Type 0 where
  pub index : Option ℕ
  pub id : Text
  pub kind : Text
  pub function : OaToolCallFunction

pub record OaMessage : Type 0 where
  pub role : Text
  pub content : Raw
  pub reasoning_content : Text
  pub reasoning : Text
  pub tool_calls : List OaToolCall
  pub tool_call_id : Text

-- `reasoning` is oaReasoning, a struct of the one field `effort`.
pub record OaRequest : Type 0 where
  pub model : Text
  pub messages : List OaMessage
  pub temperature : Option Float
  pub max_tokens : Option ℕ
  pub stream : Bool
  pub tools : List OaTool
  pub budget_tokens : Option ℕ
  pub reasoning_effort : Option Text
  pub reasoning : Option (Option Text)
  pub response_format : Option OaResponseFormat
  pub grammar : Text

-- `prompt_tokens_details` is a struct of the one field `cached_tokens`.
pub record OaUsage : Type 0 where
  pub prompt_tokens : ℕ
  pub completion_tokens : ℕ
  pub total_tokens : ℕ
  pub prompt_tokens_details : Option ℕ

pub record OaChoice : Type 0 where
  pub index : ℕ
  pub message : OaMessage
  pub finish_reason : Text

pub record OaResponse : Type 0 where
  pub id : Text
  pub object : Text
  pub created : ℕ
  pub model : Text
  pub choices : List OaChoice
  pub usage : OaUsage

pub record OaDeltaMsg : Type 0 where
  pub role : Text
  pub content : Text
  pub reasoning_content : Text
  pub reasoning : Text
  pub tool_calls : List OaToolCall

pub record OaDelta : Type 0 where
  pub index : ℕ
  pub delta : OaDeltaMsg
  pub finish_reason : Option Text

pub record OaChunk : Type 0 where
  pub id : Text
  pub object : Text
  pub created : ℕ
  pub model : Text
  pub choices : List OaDelta
  pub usage : Option OaUsage

-- firstNonEmpty
unfoldable pub first_non_empty : List Text → Text
first_non_empty [] = []
first_non_empty (v ∷ vs) = let rest = first_non_empty vs in if is_nil v then rest else v

-- finishReasonOrDefault
unfoldable pub finish_reason_or_default : Text → Text → Text
finish_reason_or_default reason fallback = if is_nil reason then fallback else reason

-- rawToString: null reads as the empty string, and so does what is no string.
unfoldable pub raw_to_string : Raw → Text
raw_to_string absent = []
raw_to_string (str s) = s
raw_to_string (verbatim s) = []

-- stringToRaw
unfoldable pub string_to_raw : Text → Raw
string_to_raw s = str s

-- len(raw) > 0
abbrev pub is_present : Raw → Bool
is_present absent = false
is_present _ = true

-- usageToOpenAI
unfoldable pub usage_to_openai : Usage → OaUsage
usage_to_openai u = record {
  prompt_tokens = u.prompt_tokens;
  completion_tokens = u.completion_tokens;
  total_tokens = add_int u.prompt_tokens u.completion_tokens;
  prompt_tokens_details = if is_positive u.cached_tokens then some u.cached_tokens else none;
}

abbrev or_zero : Option ℕ → ℕ
or_zero none = 0
or_zero (some n) = n

-- usageFromOpenAI
unfoldable pub usage_from_openai : OaUsage → Usage
usage_from_openai u = record {
  prompt_tokens = u.prompt_tokens;
  completion_tokens = u.completion_tokens;
  cached_tokens = or_zero u.prompt_tokens_details;
}
