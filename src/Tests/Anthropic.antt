-- ===== src/Tests/Anthropic.antt =====
-- A stream with two tool calls, a conversation with two tool results, and a response with three blocks.
use go_ai_proxy.Common.{◌≡◌, refl, true, Option, none, List, [], ◌∷◌, ◌++◌}
use go_ai_proxy.Common.Eq.{list_beq}
use go_ai_proxy.Common.Text.{Text, lit}
use go_ai_proxy.Domain.{Schema, Message, absent}
use go_ai_proxy.Provider.Anthropic.{to_anthropic_messages, text, thinking, AnMessage}
use go_ai_proxy.Provider.Anthropic.Events.{
  StreamEvent, tool_start, text_delta, input_json_delta, message_stop, chat_stream,
}
use go_ai_proxy.Provider.Anthropic.Routing.{args_at, chat_stream_args}
use go_ai_proxy.Provider.Anthropic.Messages.{
  conversation, apart, all_say, to_anthropic_messages_lem,
}

abbrev earlier : List StreamEvent
earlier = text_delta (lit "hi") ∷ tool_start 1 (lit "a") (lit "f") ∷ []

abbrev later : List StreamEvent
later =
    input_json_delta 2 (lit "{")
    ∷ input_json_delta 1 (lit "1")
    ∷ input_json_delta 2 (lit "}")
    ∷ message_stop
    ∷ []

chat_stream_args_example :
    args_at 1 (chat_stream (earlier ++ tool_start 2 (lit "b") (lit "g") ∷ later)) ≡ lit "{}"
chat_stream_args_example =
    chat_stream_args earlier later 2 (lit "b") (lit "g") (refl, (refl, tt))
      (refl, (refl, (refl, (refl, tt))))

abbrev message : Text → Text → Message
message role content = record {
  role = role;
  content = content;
  raw_content = absent;
  tool_calls = [];
  tool_call_id = [];
}

abbrev messages : List Message
messages =
    message (lit "user") (lit "q")
    ∷ message (lit "tool") (lit "1")
    ∷ message (lit "tool") (lit "2")
    ∷ []

abbrev no_json : Text → Option Schema
no_json s = none

to_anthropic_messages_lem_example :
    (conversation (to_anthropic_messages no_json messages) ≡ all_say no_json messages)
    × (apart (to_anthropic_messages no_json messages) ≡ true)
unfolding list_beq
to_anthropic_messages_lem_example = to_anthropic_messages_lem no_json messages refl

abbrev an_message : AnMessage
an_message = record {
  id = lit "r";
  model = lit "m";
  content = text (lit "a") ∷ thinking (lit "b") ∷ text (lit "c") ∷ [];
  input_tokens = 3;
  output_tokens = 1;
}
