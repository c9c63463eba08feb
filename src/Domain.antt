-- ===== src/Domain.antt =====
-- internal/domain/provider.go: the provider-agnostic types. A Go pointer that may be nil is an
-- `Option`, a slice a list, `int` and `*float64` values are 64-bit patterns, and a provider is known
-- by its identity (`ProviderId`), as an interface value is compared.
use go_ai_proxy.Common.{ℕ, Bool, false, Option, none, List, [], ◌||◌, ◌==◌}
use go_ai_proxy.Common.Text.{Text}

-- The identity of a value of the interface `domain.Provider`.
abbrev pub ProviderId : Type 0
ProviderId = ℕ

-- A float64 by its bits; the program only stores it and asks whether it is infinite.
abbrev pub Float : Type 0
Float = ℕ

abbrev pub inf : Float
inf = 0x7FF0000000000000

-- math.IsInf(f, 0)
abbrev pub is_inf : Float → Bool
is_inf f = f == 0x7FF0000000000000 || f == 0xFFF0000000000000

pub record Model : Type 0 where
  pub id : Text
  pub owned_by : Text
  pub capabilities : List Text
  pub input_cost_per_token : Option Float
  pub output_cost_per_token : Option Float
  pub max_model_len : ℕ

pub record Usage : Type 0 where
  pub prompt_tokens : ℕ
  pub completion_tokens : ℕ
  pub cached_tokens : ℕ

pub record ToolCall : Type 0 where
  pub id : Text
  pub name : Text
  pub arguments : Text

-- What a JSON value in `content` is to the program: absent (no bytes), a string, or another value,
-- null included, kept verbatim.
pub data Raw : Type 0 where
  absent : Raw
  str : Text → Raw
  verbatim : Text → Raw

pub record Message : Type 0 where
  pub role : Text
  pub content : Text
  pub raw_content : Raw
  pub tool_calls : List ToolCall
  pub tool_call_id : Text

-- A JSON Schema object (`map[string]any`), which the program passes through: its JSON text, empty
-- for a nil or empty map.
abbrev pub Schema : Type 0
Schema = Text

pub record Tool : Type 0 where
  pub name : Text
  pub description : Text
  pub parameters : Schema

pub record ResponseFormat : Type 0 where
  pub name : Text
  pub schema : Schema
  pub strict : Bool

pub record Request : Type 0 where
  pub model : Text
  pub messages : List Message
  pub tools : List Tool
  pub temperature : Option Float
  pub max_tokens : Option ℕ
  pub stream : Bool
  pub budget_tokens : Option ℕ
  pub reasoning_effort : Option Text
  pub response_format : Option ResponseFormat
  pub grammar : Text

pub record Response : Type 0 where
  pub id : Text
  pub model : Text
  pub message : Message
  pub usage : Usage
  pub thinking : Text
  pub finish_reason : Text

pub record Chunk : Type 0 where
  pub id : Text
  pub model : Text
  pub delta : Text
  pub thinking_delta : Text
  pub tool_call_index : Option ℕ
  pub tool_call_id : Text
  pub tool_call_name : Text
  pub tool_call_args : Text
  pub done : Bool
  pub usage : Option Usage
  pub finish_reason : Text

-- `domain.Chunk{}`
abbrev pub no_chunk : Chunk
no_chunk = record {
  id = [];
  model = [];
  delta = [];
  thinking_delta = [];
  tool_call_index = none;
  tool_call_id = [];
  tool_call_name = [];
  tool_call_args = [];
  done = false;
  usage = none;
  finish_reason = [];
}

pub record EmbedRequest : Type 0 where
  pub model : Text
  pub input : List Text
  pub encoding_format : Text
  pub dimensions : Option ℕ

pub record Embedding : Type 0 where
  pub index : ℕ
  pub values : List Float

pub record EmbedResponse : Type 0 where
  pub model : Text
  pub embeddings : List Embedding
  pub usage : Usage
