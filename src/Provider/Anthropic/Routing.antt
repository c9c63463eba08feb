-- ===== src/Provider/Anthropic/Routing.antt =====
-- Which tool call the argument fragments of a stream reach, in the reader of
-- internal/provider/anthropic/provider.go.
use go_ai_proxy.Common.{
  ℕ, suc, ◌+◌, ◌<◌, ◌≡◌, refl, Bool, true, false, Option, none, some, List, [], ◌∷◌, ◌++◌, arith,
  ◌==◌, if◌then◌else◌, Option-cases, inl, inr,
}
use mathlib.Core.Path.{subst}
use go_ai_proxy.Common.All.{All}
use go_ai_proxy.Common.Text.{Text}
use go_ai_proxy.Common.Eq.{nat_eq}
use go_ai_proxy.Common.Assoc.{lookup, insert, lookup-insert}
use go_ai_proxy.Domain.{Chunk}
use go_ai_proxy.Provider.Anthropic.Events.{
  StreamEvent, tool_start, text_delta, thinking_delta, input_json_delta, message_stop, other_event,
  ToolState, no_tools, process_events, chat_stream,
}

abbrev is_index : ℕ → Option ℕ → Bool
is_index n none = false
is_index n (some m) = m == n

-- The arguments that the chunks give the tool call with this index.
abbrev pub args_at : ℕ → List Chunk → Text
args_at n [] = []
args_at n (c ∷ cs) =
    let rest = args_at n cs in
    if is_index n c.tool_call_index then c.tool_call_args ++ rest else rest

-- The fragments that the events have for a content block, up to message_stop.
abbrev pub block_args : ℕ → List StreamEvent → Text
block_args k [] = []
block_args k (input_json_delta j args ∷ es) =
    let rest = block_args k es in if j == k then args ++ rest else rest
block_args k (message_stop ∷ es) = []
block_args k (e ∷ es) = block_args k es

abbrev pub starts : List StreamEvent → ℕ
starts [] = 0
starts (tool_start k id name ∷ es) = suc (starts es)
starts (e ∷ es) = starts es

abbrev pub goes_on : StreamEvent → Bool
goes_on message_stop = false
goes_on e = true

abbrev pub opens : ℕ → StreamEvent → Bool
opens k (tool_start j id name) = j == k
opens k e = false

record Inv (s : ToolState) : Type 0 where
  below : (j m : ℕ) → lookup j s.tool_call_idx ≡ some m → m < s.next_tool_call
  injective :
      (i j m : ℕ) → lookup i s.tool_call_idx ≡ some m → lookup j s.tool_call_idx ≡ some m → i ≡ j

abbrev started : ℕ → ToolState → ToolState
started k s = record {
  tool_call_idx = insert k s.next_tool_call s.tool_call_idx;
  next_tool_call = s.next_tool_call + 1;
}

Inv-started : (k : ℕ) (s : ToolState) → Inv s → Inv (started k s)
Inv-started k s v = record {
  below =
      λ j m h. ground (arith, h, lookup-insert k j s.next_tool_call s.tool_call_idx, v.below j m);
  injective = λ i j m h g. ground (
    arith,
    h,
    g,
    lookup-insert k i s.next_tool_call s.tool_call_idx,
    lookup-insert k j s.next_tool_call s.tool_call_idx,
    v.below i m,
    v.below j m,
    v.injective i j m,
  );
}

Inv-no_tools : Inv no_tools
unfolding lookup
Inv-no_tools = record {
  below = λ j m h. ground (arith, h);
  injective = λ i j m h g. ground (arith, h);
}

args_at-known :
    (s : ToolState) (es : List StreamEvent) (k n : ℕ)
    → Inv s
    → lookup k s.tool_call_idx ≡ some n
    → All (λ e. opens k e ≡ false) es
    → args_at n (process_events s es) ≡ block_args k es
unfolding process_events
args_at-known s [] k n v h o = refl
args_at-known s (tool_start j id name ∷ es) k n v h (o, os) = ground (
  arith,
  h,
  o,
  v.below k n h,
  args_at-known (started j s) es k n (Inv-started j s v)
      (ground (arith, h, o, lookup-insert j k s.next_tool_call s.tool_call_idx)) os,
)
args_at-known s (text_delta t ∷ es) k n v h (o, os) = args_at-known s es k n v h os
args_at-known s (thinking_delta t ∷ es) k n v h (o, os) = args_at-known s es k n v h os
args_at-known s (input_json_delta j args ∷ es) k n v h (o, os) =
    elim (Option-cases (lookup j s.tool_call_idx)) [
      | inl e ↦ ground (arith, e, h, args_at-known s es k n v h os)
      | inr (m, e) ↦ ground (arith, e, h, v.injective j k n, args_at-known s es k n v h os)
    ]
args_at-known s (message_stop ∷ es) k n v h (o, os) = refl
args_at-known s (other_event ∷ es) k n v h (o, os) = args_at-known s es k n v h os

args_at-later :
    (s : ToolState) (pre post : List StreamEvent) (k : ℕ) (id name : Text)
    → Inv s
    → All (λ e. goes_on e ≡ true) pre
    → All (λ e. opens k e ≡ false) post
    → args_at
        (s.next_tool_call + starts pre)
        (process_events s (pre ++ tool_start k id name ∷ post))
      ≡ block_args k post
unfolding process_events
args_at-later s [] post k id name v g o = ground (
  arith,
  lookup-insert k k s.next_tool_call s.tool_call_idx,
  args_at-known (started k s) post k (s.next_tool_call + 0) (Inv-started k s v)
      (ground (arith, lookup-insert k k s.next_tool_call s.tool_call_idx)) o,
)
args_at-later s (tool_start j i nm ∷ pre) post k id name v (g, gs) o =
    let same : s.next_tool_call + 1 + starts pre ≡ s.next_tool_call + suc (starts pre) =
      omega arith in
    ground (arith, same, args_at-later (started j s) pre post k id name (Inv-started j s v) gs o)
args_at-later s (text_delta t ∷ pre) post k id name v (g, gs) o =
    args_at-later s pre post k id name v gs o
args_at-later s (thinking_delta t ∷ pre) post k id name v (g, gs) o =
    args_at-later s pre post k id name v gs o
args_at-later s (input_json_delta j args ∷ pre) post k id name v (g, gs) o =
    elim (Option-cases (lookup j s.tool_call_idx)) [
      | inl e ↦ ground (arith, e, args_at-later s pre post k id name v gs o)
      | inr (m, e) ↦ ground (arith, e, v.below j m e, args_at-later s pre post k id name v gs o)
    ]
args_at-later s (message_stop ∷ pre) post k id name v (g, gs) o = ground (arith, g)
args_at-later s (other_event ∷ pre) post k id name v (g, gs) o =
    args_at-later s pre post k id name v gs o

-- The argument fragments that a stream has for a content block after it opened as the next tool call
-- all reach the client under that call's number, counted from 0, in order, and no others do, if no
-- later block has the same index.
pub chat_stream_args :
    (pre post : List StreamEvent) (k : ℕ) (id name : Text)
    → All (λ e. goes_on e ≡ true) pre
    → All (λ e. opens k e ≡ false) post
    → args_at (starts pre) (chat_stream (pre ++ tool_start k id name ∷ post)) ≡ block_args k post
unfolding chat_stream
chat_stream_args [] post k id name g o = args_at-later no_tools [] post k id name Inv-no_tools g o
chat_stream_args (e ∷ pre) post k id name g o =
    let from_zero : no_tools.next_tool_call + starts (e ∷ pre) ≡ starts (e ∷ pre) = omega arith in
    subst
      (λ n.
        args_at n (process_events no_tools (e ∷ (pre ++ tool_start k id name ∷ post)))
        ≡ block_args k post)
      from_zero (args_at-later no_tools (e ∷ pre) post k id name Inv-no_tools g o)
