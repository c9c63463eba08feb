-- ===== src/Provider/Anthropic/Messages.antt =====
-- What of a conversation reaches the Anthropic API, and what of a response comes back, in
-- internal/provider/anthropic/provider.go.
use go_ai_proxy.Common.{
  ◌≡◌, refl, ap, ◌∙◌, Bool, true, false, ◌&&◌, ◌||◌, not, Option, List, [], ◌∷◌, ◌++◌, arith, all,
  is_nil, if◌then◌else◌,
}
use mathlib.Core.List.{append-nil, append_assoc}
use go_ai_proxy.Common.Eq.{list_beq, list_beq_iff, nat_eq}
use go_ai_proxy.Common.Text.{Text, lit, text_eq}
use go_ai_proxy.Domain.{Schema, ToolCall, Raw, absent, str, verbatim, Message}
use go_ai_proxy.Provider.Anthropic.{
  BlockParam, text_block, tool_result, MessageParam, user_message, assistant_message, has_role,
  assistant_content_blocks, result_block, leading_results, messages_from, to_anthropic_messages,
  Block, text, thinking, tool_use_block, other_block, AnMessage, Collected, call_from, collect,
  collect_block, from_message,
}

-- A block with its side of the conversation, true for the user's.
abbrev pub Said : Type 0
Said = Bool × BlockParam

abbrev said_by : Bool → List BlockParam → List Said
said_by who [] = []
said_by who (b ∷ bs) = (who, b) ∷ said_by who bs

abbrev pub conversation : List MessageParam → List Said
conversation [] = []
conversation (user_message bs ∷ ms) = said_by true bs ++ conversation ms
conversation (assistant_message bs ∷ ms) = said_by false bs ++ conversation ms

abbrev pub is_results : MessageParam → Bool
is_results (user_message (tool_result id content ∷ bs)) = true
is_results _ = false

abbrev starts_results : List MessageParam → Bool
starts_results [] = false
starts_results (m ∷ ms) = is_results m

-- No message of tool results follows another.
abbrev pub apart : List MessageParam → Bool
apart [] = true
apart (m ∷ ms) = not (is_results m && starts_results ms) && apart ms

no_tool :
    (m : Message) (role : Text)
    → text_eq role (lit "tool") ≡ false
    → has_role role m ≡ true
    → has_role (lit "tool") m ≡ false
no_tool m role d h = let e : m.role ≡ role = (list_beq_iff m.role role).0 h in rw e d

user_tool : text_eq (lit "user") (lit "tool") ≡ false
unfolding list_beq
user_tool = refl

assistant_tool : text_eq (lit "assistant") (lit "tool") ≡ false
unfolding list_beq
assistant_tool = refl

-- Apart from the text: nothing, the empty string, or null.
abbrev pub says_nothing : Raw → Bool
says_nothing absent = true
says_nothing (str t) = is_nil t
says_nothing (verbatim t) = text_eq t (lit "null")

module _ (parse_arguments : Text → Option Schema) where
  -- What a message says, by its role alone.
  abbrev pub says : Message → List Said
  says m =
      if has_role (lit "user") m
      then said_by true (text_block m.content ∷ [])
      else if has_role (lit "assistant") m
      then said_by false (assistant_content_blocks parse_arguments m)
      else if has_role (lit "tool") m
      then said_by true (result_block parse_arguments m ∷ [])
      else []

  abbrev pub all_say : List Message → List Said
  all_say [] = []
  all_say (m ∷ ms) = says m ++ all_say ms

  abbrev pub is_known : Message → Bool
  is_known m = has_role (lit "user") m || has_role (lit "assistant") m || has_role (lit "tool") m

  -- A message with the group it starts, and then the rest, say what the messages do one by one.
  says_grouped :
      (ms : List Message)
      → (conversation (messages_from parse_arguments false ms) ≡ all_say ms)
        × (said_by true (leading_results parse_arguments ms)
              ++ conversation (messages_from parse_arguments true ms)
            ≡ all_say ms)
  unfolding messages_from leading_results
  says_grouped [] = (refl, refl)
  says_grouped (m ∷ ms) =
      let (one, group) = says_grouped ms in
      (
        ground (arith, one, group),
        ground (
          arith,
          one,
          group,
          no_tool m (lit "user") user_tool,
          no_tool m (lit "assistant") assistant_tool,
        ),
      )

  apart_grouped :
      (ms : List Message)
      → all is_known ms ≡ true
      → (apart (messages_from parse_arguments false ms) ≡ true)
        × (apart (messages_from parse_arguments true ms) ≡ true)
        × (starts_results (messages_from parse_arguments true ms) ≡ false)
  unfolding messages_from
  apart_grouped [] h = (refl, refl, refl)
  apart_grouped (m ∷ ms) h =
      let (one, group, head) = apart_grouped ms (ground (arith, h)) in
      (
        ground (arith, h, one, group, head),
        ground (arith, h, one, group, head),
        ground (arith, h, one, group, head),
      )

  -- A message whose text is all that it has of content.
  abbrev pub is_plain : Message → Bool
  is_plain m = says_nothing m.raw_content

  known_only :
      (ms : List Message) → all (λ m. is_plain m && is_known m) ms ≡ true → all is_known ms ≡ true
  known_only [] h = refl
  known_only (m ∷ ms) h = ground (arith, h, known_only ms)

  pub to_anthropic_messages_lem :
      (ms : List Message)
      → all (λ m. is_plain m && is_known m) ms ≡ true
      → (conversation (to_anthropic_messages parse_arguments ms) ≡ all_say ms)
        × (apart (to_anthropic_messages parse_arguments ms) ≡ true)
  unfolding to_anthropic_messages
  to_anthropic_messages_lem ms h = ((says_grouped ms).0, (apart_grouped ms (known_only ms h)).0)

  abbrev all_with : Raw → List Message → List Message
  all_with raw [] = []
  all_with raw (m ∷ ms) = record m { raw_content = raw } ∷ all_with raw ms

  -- A content that is no plain text is not looked at.
  raw_content_lost :
      (ms : List Message) (raw : Raw)
      → (messages_from parse_arguments false (all_with raw ms)
          ≡ messages_from parse_arguments false ms)
        × (messages_from parse_arguments true (all_with raw ms)
            ≡ messages_from parse_arguments true ms)
        × (leading_results parse_arguments (all_with raw ms) ≡ leading_results parse_arguments ms)
  unfolding messages_from leading_results assistant_content_blocks
  raw_content_lost [] raw = (refl, refl, refl)
  raw_content_lost (m ∷ ms) raw =
      let (one, group, results) = raw_content_lost ms raw in
      (ground (arith, one), ground (arith, one, group, results), ground (arith, results))

abbrev pub texts : List Block → Text
texts [] = []
texts (text t ∷ bs) = t ++ texts bs
texts (b ∷ bs) = texts bs

abbrev pub thoughts : List Block → Text
thoughts [] = []
thoughts (thinking t ∷ bs) = t ++ thoughts bs
thoughts (b ∷ bs) = thoughts bs

module _ (marshal_input : Schema → Option Text) where
  abbrev pub calls : List Block → List ToolCall
  calls [] = []
  calls (tool_use_block id name input ∷ bs) = call_from marshal_input id name input ∷ calls bs
  calls (b ∷ bs) = calls bs

  collect_lem :
      (bs : List Block) (c : Collected)
      → collect marshal_input bs c ≡ record {
        text_content = c.text_content ++ texts bs;
        thinking_content = c.thinking_content ++ thoughts bs;
        tool_calls = c.tool_calls ++ calls bs;
      }
  unfolding collect
  collect_lem [] c =
      rw (append-nil c.text_content, append-nil c.thinking_content, append-nil c.tool_calls) refl
  collect_lem (text t ∷ bs) c =
      collect_lem bs (collect_block marshal_input (text t) c)
      ∙ ap
          (λ s. record {
            text_content = s;
            thinking_content = c.thinking_content ++ thoughts bs;
            tool_calls = c.tool_calls ++ calls bs;
          })
          (append_assoc c.text_content t (texts bs))
  collect_lem (thinking t ∷ bs) c =
      collect_lem bs (collect_block marshal_input (thinking t) c)
      ∙ ap
          (λ s. record {
            text_content = c.text_content ++ texts bs;
            thinking_content = s;
            tool_calls = c.tool_calls ++ calls bs;
          })
          (append_assoc c.thinking_content t (thoughts bs))
  collect_lem (tool_use_block id name input ∷ bs) c =
      collect_lem bs (collect_block marshal_input (tool_use_block id name input) c)
      ∙ ap
          (λ s. record {
            text_content = c.text_content ++ texts bs;
            thinking_content = c.thinking_content ++ thoughts bs;
            tool_calls = s;
          })
          (append_assoc c.tool_calls (call_from marshal_input id name input ∷ []) (calls bs))
  collect_lem (other_block ∷ bs) c = collect_lem bs c

  -- The response has the text of the text blocks and of the thinking blocks, each joined in order, and
  -- the tool calls of the tool use blocks in order, whatever stands between them.
  pub from_message_lem :
      (m : AnMessage)
      → ((from_message marshal_input m).message.content ≡ texts m.content)
        × ((from_message marshal_input m).thinking ≡ thoughts m.content)
        × ((from_message marshal_input m).message.tool_calls ≡ calls m.content)
  unfolding from_message
  from_message_lem m =
      let e =
        collect_lem m.content
          (record { text_content = []; thinking_content = []; tool_calls = [] }) in
      (ap (λ c. c.text_content) e, ap (λ c. c.thinking_content) e, ap (λ c. c.tool_calls) e)
