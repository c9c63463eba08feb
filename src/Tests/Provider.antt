-- ===== src/Tests/Provider.antt =====
-- Retry-After headers, a stream with an end mark, and one with think tags.
use go_ai_proxy.Common.{
  ℕ, ◌*◌, ◌≤◌, ◌<◌, ◌≡◌, ◌⊎◌, refl, false, Option, some, none, List, [], ◌∷◌, ◌++◌, arith,
}
use go_ai_proxy.Common.Text.{Text, lit, strip_prefix, cut, trim_space}
use go_ai_proxy.Common.Int64.{is_positive}
use go_ai_proxy.Domain.{Chunk, no_chunk}
use go_ai_proxy.Provider.Errors.{atoi, second, parse_retry_after, parse_retry_after_seconds}
use go_ai_proxy.Provider.OpenAi.Think.{blank, to_thinking, process_all, process_all_lem}
use go_ai_proxy.Provider.OpenAi.Stream.{
  read_lines, payloads, before_mark, end_chunks, read_lines_lem,
}

abbrev no_date : Text → Option ℕ
no_date s = none

parse_retry_after_seconds_example :
    ((30 ≤ 9223372036) × (parse_retry_after no_date (lit "30") ≡ 30 * second))
    ⊎ ((9223372036 < 30) × (is_positive (parse_retry_after no_date (lit "30")) ≡ false))
unfolding atoi trim_space
parse_retry_after_seconds_example =
    parse_retry_after_seconds no_date (lit "30") 30 refl (omega arith) (omega arith)

abbrev text_chunk : Text → Chunk
text_chunk t = record no_chunk { delta = t }

abbrev parse_text : Text → Option Chunk
parse_text s = some (text_chunk s)

abbrev lines : List Text
lines = lit "data: a" ∷ lit ": ping" ∷ lit "data: [DONE]" ∷ lit "data: b" ∷ []

read_lines_lem_example :
    read_lines parse_text false lines
    ≡ process_all false (payloads parse_text (before_mark parse_text lines))
      ++ end_chunks parse_text lines
read_lines_lem_example = read_lines_lem parse_text false lines

process_all_lem_example :
    process_all false (
      text_chunk (lit "x")
      ∷ text_chunk (lit "<think>")
      ∷ text_chunk (lit "why")
      ∷ text_chunk (lit "</think>")
      ∷ text_chunk (lit "y")
      ∷ [])
    ≡ text_chunk (lit "x")
      ∷ blank (text_chunk (lit "<think>"))
      ∷ to_thinking (text_chunk (lit "why"))
      ∷ blank (text_chunk (lit "</think>"))
      ∷ text_chunk (lit "y")
      ∷ []
unfolding cut strip_prefix
process_all_lem_example =
    process_all_lem (text_chunk (lit "x") ∷ []) (text_chunk (lit "why") ∷ [])
      (text_chunk (lit "y") ∷ []) (text_chunk (lit "<think>")) (text_chunk (lit "</think>"))
      ((refl, refl), tt) (refl, refl) ((refl, refl), tt) (refl, refl) ((refl, refl), tt)
