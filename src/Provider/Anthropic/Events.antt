-- ===== src/Provider/Anthropic/Events.antt =====
-- The goroutine of ChatStream in internal/provider/anthropic/provider.go, over the events of the
-- stream, while nobody cancels.
use go_ai_proxy.Common.{ℕ, ◌+◌, true, none, some, List, [], ◌∷◌}
use go_ai_proxy.Common.Text.{Text}
use go_ai_proxy.Common.Eq.{nat_eq}
use go_ai_proxy.Common.Assoc.{Assoc, lookup, insert}
use go_ai_proxy.Domain.{Chunk, no_chunk}

-- MessageStreamEventUnion, with the index of the content block where the code reads it.
pub data StreamEvent : Type 0 where
  tool_start : ℕ → Text → Text → StreamEvent
  text_delta : Text → StreamEvent
  thinking_delta : Text → StreamEvent
  input_json_delta : ℕ → Text → StreamEvent
  message_stop : StreamEvent
  other_event : StreamEvent

pub record ToolState : Type 0 where
  pub tool_call_idx : Assoc ℕ ℕ
  pub next_tool_call : ℕ

abbrev pub no_tools : ToolState
no_tools = record { tool_call_idx = []; next_tool_call = 0 }

abbrev pub done_chunk : Chunk
done_chunk = record no_chunk { done = true }

abbrev pub start_chunk : ℕ → Text → Text → Chunk
start_chunk idx id name = record no_chunk {
  tool_call_index = some idx;
  tool_call_id = id;
  tool_call_name = name;
}

abbrev pub args_chunk : ℕ → Text → Chunk
args_chunk idx args = record no_chunk { tool_call_index = some idx; tool_call_args = args }

-- processEvent, and the loop over the events, which message_stop leaves.
unfoldable pub process_events : ToolState → List StreamEvent → List Chunk
process_events s [] = []
process_events s (tool_start block id name ∷ es) =
    start_chunk s.next_tool_call id name
    ∷ process_events
        (record {
          tool_call_idx = insert block s.next_tool_call s.tool_call_idx;
          next_tool_call = s.next_tool_call + 1;
        })
        es
process_events s (text_delta t ∷ es) = record no_chunk { delta = t } ∷ process_events s es
process_events s (thinking_delta t ∷ es) =
    record no_chunk { thinking_delta = t } ∷ process_events s es
process_events s (input_json_delta block args ∷ es) = elim (lookup block s.tool_call_idx) [
  | some idx ↦ args_chunk idx args ∷ process_events s es
  | none ↦ process_events s es
]
process_events s (message_stop ∷ es) = done_chunk ∷ []
process_events s (other_event ∷ es) = process_events s es

-- ChatStream after its first call of Next: an empty stream is one Done chunk.
unfoldable pub chat_stream : List StreamEvent → List Chunk
chat_stream [] = done_chunk ∷ []
chat_stream (e ∷ es) = process_events no_tools (e ∷ es)
