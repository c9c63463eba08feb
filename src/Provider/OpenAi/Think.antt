-- ===== src/Provider/OpenAi/Think.antt =====
-- thinkParser of internal/provider/openai/think.go, which moves text between think tags from a
-- chunk's content to its thinking.
use go_ai_proxy.Common.{
  ◌≡◌, refl, ap, sym, ◌∙◌, map, Bool, true, false, not, ◌||◌, none, some, List, [], ◌∷◌, ◌++◌,
  arith, is_nil, is_some, if◌then◌else◌,
}
use mathlib.Core.List.{append-nil}
use go_ai_proxy.Common.All.{All}
use go_ai_proxy.Common.Text.{Text, lit, cut, trim_prefix, strip_prefix}
use go_ai_proxy.Domain.{Chunk}
use go_ai_proxy.Translator.ThinkTags.{open_tag, close_tag}

abbrev pub newline : Text
newline = lit "\n"

-- The chunks that go through unchanged.
abbrev pub passes : Chunk → Bool
passes c = c.done || is_some c.tool_call_index || not (is_nil c.thinking_delta)

outside : Chunk → Bool × Chunk
outside c = elim (cut open_tag c.delta) [
  | none ↦ (false, c)
  | some (before, after) ↦
      (true, record c { delta = before; thinking_delta = trim_prefix newline after })
]

inside : Chunk → Bool × Chunk
inside c = elim (cut close_tag c.delta) [
  | none ↦ (true, record c { delta = []; thinking_delta = c.delta })
  | some (before, after) ↦
      (false, record c { delta = trim_prefix newline after; thinking_delta = before })
]

-- process: the new `inThink`, and the chunk.
unfoldable pub process : Bool → Chunk → Bool × Chunk
unfolding outside inside
process in_think c = if passes c then (in_think, c) else if in_think then inside c else outside c

unfoldable pub process_all : Bool → List Chunk → List Chunk
process_all in_think [] = []
process_all in_think (c ∷ cs) = let (state, c') = process in_think c in c' ∷ process_all state cs

-- A chunk of text in which the tag does not stand.
abbrev pub Without : Text → Chunk → Type 0
Without tag c = (passes c ≡ false) × (cut tag c.delta ≡ none)

-- A chunk of text that is just the tag, as the runtimes send it.
abbrev pub IsTag : Text → Chunk → Type 0
IsTag tag c = (passes c ≡ false) × (c.delta ≡ tag)

abbrev pub to_thinking : Chunk → Chunk
to_thinking c = record c { delta = []; thinking_delta = c.delta }

abbrev pub blank : Chunk → Chunk
blank c = record c { delta = []; thinking_delta = [] }

process_outside :
    (cs rest : List Chunk)
    → All (Without open_tag) cs
    → process_all false (cs ++ rest) ≡ cs ++ process_all false rest
unfolding process_all process outside
process_outside [] rest h = refl
process_outside (c ∷ cs) rest ((p, n), h) = ground (arith, p, n, process_outside cs rest h)

process_inside :
    (cs rest : List Chunk)
    → All (Without close_tag) cs
    → process_all true (cs ++ rest) ≡ map to_thinking cs ++ process_all true rest
unfolding process_all process inside
process_inside [] rest h = refl
process_inside (c ∷ cs) rest ((p, n), h) = ground (arith, p, n, process_inside cs rest h)

process_open :
    (c : Chunk) (cs : List Chunk)
    → IsTag open_tag c
    → process_all false (c ∷ cs) ≡ blank c ∷ process_all true cs
unfolding process_all process outside cut strip_prefix
process_open c cs (p, d) =
    let e : cut open_tag c.delta ≡ some ([], []) = ap (cut open_tag) d in ground (arith, p, e)

process_close :
    (c : Chunk) (cs : List Chunk)
    → IsTag close_tag c
    → process_all true (c ∷ cs) ≡ blank c ∷ process_all false cs
unfolding process_all process inside cut strip_prefix
process_close c cs (p, d) =
    let e : cut close_tag c.delta ≡ some ([], []) = ap (cut close_tag) d in ground (arith, p, e)

-- A stream of text in which each tag is a chunk of its own: what stands between the tags comes out as
-- thinking, what stands outside them comes out unchanged, and the tags come out blank.
pub process_all_lem :
    (before between after : List Chunk) (opening closing : Chunk)
    → All (Without open_tag) before
    → IsTag open_tag opening
    → All (Without close_tag) between
    → IsTag close_tag closing
    → All (Without open_tag) after
    → process_all false (before ++ (opening ∷ (between ++ (closing ∷ after))))
      ≡ before ++ (blank opening ∷ (map to_thinking between ++ (blank closing ∷ after)))
unfolding process_all
process_all_lem before between after opening closing hb ho hm hc ha =
    let a : process_all false after ≡ after =
      ap (process_all false) (sym (append-nil after))
      ∙ (process_outside after [] ha ∙ append-nil after) in
    process_outside before (opening ∷ (between ++ (closing ∷ after))) hb
    ∙ ap (◌++◌ before) (
        process_open opening (between ++ (closing ∷ after)) ho
        ∙ ap (◌∷◌ (blank opening)) (
            process_inside between (closing ∷ after) hm
            ∙ ap (◌++◌ (map to_thinking between))
                (process_close closing after hc ∙ ap (◌∷◌ (blank closing)) a)))
