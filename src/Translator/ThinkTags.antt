-- ===== src/Translator/ThinkTags.antt =====
-- extractThinkTags of internal/translator/openai.go. The loop takes fuel: each round but the last
-- shortens the text by two tags, so that one more round than its length is enough.
use mathlib.Core.Option
use go_ai_proxy.Common.{
  ℕ, zero, suc, ◌<◌, ◌≡◌, refl, sym, ap, ◌∙◌, Option, none, some, List, [], ◌∷◌, ◌++◌, arith,
  length, length-append, Option-cases, inl, inr,
}
use go_ai_proxy.Common.All.{All}
use go_ai_proxy.Common.Text.{Text, lit, cut, cut-append, cut_before, join, trim_space, strip_prefix}

abbrev pub open_tag : Text
open_tag = lit "<think>"

abbrev pub close_tag : Text
close_tag = lit "</think>"

-- thinkParts and otherParts
abbrev pub Parts : Type 0
Parts = List Text × List Text

abbrev add_round : Text → Text → Parts → Parts
add_round inner before (ts, os) = (inner ∷ ts, before ∷ os)

after_close : (Text → Option Parts) → Text → Text → Option Parts
after_close loop before rest = elim (cut close_tag rest) [
  | none ↦ some (rest ∷ [], before ∷ [])
  | some (inner, after) ↦ Option.map (add_round inner before) (loop after)
]

-- The `for` loop; `none` where the fuel runs out.
unfoldable pub think_loop : ℕ → Text → Option Parts
unfolding after_close
think_loop zero content = none
think_loop (suc f) content = elim (cut open_tag content) [
  | none ↦ some ([], content ∷ [])
  | some (before, rest) ↦ after_close (think_loop f) before rest
]

abbrev joined : Parts → Text × Text
joined (ts, os) = (join [] ts, trim_space (join [] os))

-- The thinking text, and the rest of the content.
unfoldable pub extract_think_tags : Text → Option (Text × Text)
extract_think_tags content = Option.map joined (think_loop (suc (length content)) content)

-- The text from its parts: each thinking part stands between its tags, and a last one that was not
-- closed has no closing tag.
abbrev pub rebuild : List Text → List Text → Text
rebuild [] [] = []
rebuild [] (o ∷ os) = o
rebuild (t ∷ ts) [] = []
rebuild (t ∷ ts) (o ∷ []) = o ++ (open_tag ++ t)
rebuild (t ∷ ts) (o ∷ p ∷ os) = o ++ (open_tag ++ (t ++ (close_tag ++ rebuild ts (p ∷ os))))

shorter :
    (content before rest inner after : Text)
    → cut open_tag content ≡ some (before, rest)
    → cut close_tag rest ≡ some (inner, after)
    → length after < length content
shorter content before rest inner after e k = omega (
  arith,
  ap length (cut-append open_tag content before rest e),
  ap length (cut-append close_tag rest inner after k),
  length-append {0} before (open_tag ++ rest),
  length-append {0} inner (close_tag ++ after),
)

-- No part of the content has an opening tag in it, and no thinking part a closing one.
abbrev pub HasNoTags : List Text → List Text → Type 0
HasNoTags ts os = All (λ t. cut close_tag t ≡ none) ts × All (λ o. cut open_tag o ≡ none) os

think_loop-rebuild :
    (f : ℕ) (content : Text)
    → length content < f
    → (ts : List Text) × (o : Text) × (os : List Text) × (think_loop f content ≡ some (ts, o ∷ os))
      × (rebuild ts (o ∷ os) ≡ content)
      × HasNoTags ts (o ∷ os)
unfolding think_loop
think_loop-rebuild zero content h = elim h [ ]
think_loop-rebuild (suc f) content h = elim (Option-cases (cut open_tag content)) [
  | inl e ↦ ([], content, [], ground (arith, e), refl, (tt, (e, tt)))
  | inr ((before, rest), e) ↦
      let outside = cut_before _ _ content before rest e in
      elim (Option-cases (cut close_tag rest)) [
        | inl k ↦ (
          rest ∷ [],
          before,
          [],
          ground (arith, e, k),
          sym (cut-append open_tag content before rest e),
          ((k, tt), (outside, tt)),
        )
        | inr ((inner, after), k) ↦
            let (ts, o, os, r, b, (closed, opened)) =
              think_loop-rebuild f after
                (omega (arith, shorter content before rest inner after e k)) in
            (
              inner ∷ ts,
              before,
              o ∷ os,
              ground (arith, e, k, r),
              ap (λ a. before ++ (open_tag ++ (inner ++ (close_tag ++ a)))) b
                  ∙ ap (λ a. before ++ (open_tag ++ a))
                      (sym (cut-append close_tag rest inner after k))
                  ∙ sym (cut-append open_tag content before rest e),
              ((cut_before _ _ rest inner after k, closed), (outside, opened)),
            )
      ]
]

pub extract_think_tags_parts :
    (content : Text)
    → (ts : List Text) × (os : List Text) × (extract_think_tags content
        ≡ some (join [] ts, trim_space (join [] os)))
      × (rebuild ts os ≡ content)
      × HasNoTags ts os
unfolding extract_think_tags
extract_think_tags_parts content =
    let (ts, o, os, r, b, n) = think_loop-rebuild (suc (length content)) content (omega arith) in
    (ts, o ∷ os, rw r, b, n)

extract_tests :
    (extract_think_tags (lit "a<think>b</think> c<think>d") ≡ some (lit "bd", lit "a c"))
    × (extract_think_tags (lit " plain ") ≡ some ([], lit "plain"))
unfolding extract_think_tags think_loop cut strip_prefix join trim_space
extract_tests = (refl, refl)
