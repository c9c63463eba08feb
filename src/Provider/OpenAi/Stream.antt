-- ===== src/Provider/OpenAi/Stream.antt =====
-- The reading goroutine of ChatStream in internal/provider/openai/provider.go, over the lines of the
-- response body. `parse` is ChunkFromOpenAI on the data of a line, `none` for its error.
use go_ai_proxy.Common.{
  ◌≡◌, refl, Bool, true, false, Option, none, some, List, [], ◌∷◌, ◌++◌, arith, Option-cases,
  Bool-cases, inl, inr,
}
use go_ai_proxy.Common.Text.{Text, lit, text_eq, strip_prefix}
use go_ai_proxy.Common.Eq.{list_beq}
use go_ai_proxy.Domain.{Chunk, no_chunk}
use go_ai_proxy.Provider.OpenAi.Think.{process, process_all}

abbrev pub data_prefix : Text
data_prefix = lit "data: "

abbrev pub done_mark : Text
done_mark = lit "[DONE]"

abbrev pub done_chunk : Chunk
done_chunk = record no_chunk { done = true }

abbrev rest_is : Text → Option Text → Bool
rest_is q none = false
rest_is q (some s) = text_eq s q

text_eq-append : (p q s : Text) → text_eq s (p ++ q) ≡ rest_is q (strip_prefix p s)
unfolding strip_prefix list_beq
text_eq-append [] q s = refl
text_eq-append (c ∷ p) q [] = refl
text_eq-append (c ∷ p) q (d ∷ s) = ground (arith, text_eq-append p q s)

-- A line is the end mark if it is a data line whose payload is.
is_mark :
    (line : Text)
    → text_eq line (data_prefix ++ done_mark) ≡ rest_is done_mark (strip_prefix data_prefix line)
is_mark line = text_eq-append data_prefix done_mark line

module _ (parse : Text → Option Chunk) where
  -- The chunks that are sent while nobody cancels, in order.
  unfoldable pub read_lines : Bool → List Text → List Chunk
  read_lines in_think [] = []
  read_lines in_think (line ∷ lines) = elim (strip_prefix data_prefix line) [
    | none ↦ read_lines in_think lines
    | some payload ↦ elim (text_eq payload done_mark) [
      | true ↦ done_chunk ∷ []
      | false ↦ elim (parse payload) [
        | none ↦ read_lines in_think lines
        | some chunk ↦
            let (state, chunk') = process in_think chunk in chunk' ∷ read_lines state lines
      ]
    ]
  ]

  -- What the data lines before the end mark carry: the chunks that parse.
  unfoldable pub payloads : List Text → List Chunk
  payloads [] = []
  payloads (line ∷ lines) = elim (strip_prefix data_prefix line) [
    | none ↦ payloads lines
    | some payload ↦ elim (parse payload) [
      | none ↦ payloads lines
      | some chunk ↦ chunk ∷ payloads lines
    ]
  ]

  -- What stands before the first line with the end mark.
  abbrev pub before_mark : List Text → List Text
  before_mark [] = []
  before_mark (line ∷ lines) = elim (text_eq line (data_prefix ++ done_mark)) [
    | true ↦ []
    | false ↦ line ∷ before_mark lines
  ]

  abbrev pub end_chunks : List Text → List Chunk
  end_chunks [] = []
  end_chunks (line ∷ lines) = elim (text_eq line (data_prefix ++ done_mark)) [
    | true ↦ done_chunk ∷ []
    | false ↦ end_chunks lines
  ]

  -- The stream is what the data lines before the first end mark carry, put through the think parser in
  -- order, and then one Done chunk if there is an end mark. Lines that are no data or do not parse
  -- are skipped, and nothing after the mark is read.
  pub read_lines_lem :
      (in_think : Bool) (lines : List Text)
      → read_lines in_think lines
        ≡ process_all in_think (payloads (before_mark lines)) ++ end_chunks lines
  unfolding read_lines payloads process_all
  read_lines_lem in_think [] = refl
  read_lines_lem in_think (line ∷ lines) = elim (Option-cases (strip_prefix data_prefix line)) [
    | inl e ↦ ground (arith, e, is_mark line, read_lines_lem in_think lines)
    | inr (payload, e) ↦ elim (Bool-cases (text_eq payload done_mark)) [
      | inl d ↦ ground (arith, e, d, is_mark line)
      | inr d ↦ elim (Option-cases (parse payload)) [
        | inl n ↦ ground (arith, e, d, n, is_mark line, read_lines_lem in_think lines)
        | inr (c, n) ↦
            ground (arith, e, d, n, is_mark line, read_lines_lem (process in_think c).0 lines)
      ]
    ]
  ]
