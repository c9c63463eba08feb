-- ===== src/Provider/LlamaCpp/Literal.antt =====
-- gbnfJSONString in internal/provider/llamacpp/gbnf.go against a reader of GBNF string terminals.
use mathlib.Core.List.{append_assoc}
use go_ai_proxy.Common.{
  ℕ, ◌≡◌, refl, Option, none, some, [], ◌∷◌, ◌++◌, arith, ◌==◌, if◌then◌else◌, ap, ◌∙◌,
}
use go_ai_proxy.Common.Text.{Text, lit}
use go_ai_proxy.Common.Format.{replace_all}
use go_ai_proxy.Provider.LlamaCpp.Gbnf.{gbnf_json_string}

-- What the escape `\c` stands for in a terminal.
abbrev pub escaped_char : ℕ → Option ℕ
escaped_char c =
    if c == b'n'
    then some b'\n'
    else if c == b'r'
    then some b'\r'
    else if c == b't'
    then some b'\t'
    else if c == b'\\'
    then some b'\\'
    else if c == b'"'
    then some b'"'
    else none

abbrev prepend : Option ℕ → Option (Text × Text) → Option (Text × Text)
prepend (some c) (some (s, r)) = some (c ∷ s, r)
prepend _ _ = none

-- The text that the rest of a terminal matches, up to its closing quote, and what follows it.
unfoldable pub read_terminal : Text → Option (Text × Text)
read_terminal [] = none
read_terminal (c ∷ []) = if c == b'"' then some ([], []) else none
read_terminal (c ∷ d ∷ s) =
    let plain = read_terminal (d ∷ s) in
    let after = read_terminal s in
    if c == b'"'
    then some ([], d ∷ s)
    else if c == b'\\'
    then prepend (escaped_char d) after
    else prepend (some c) plain

abbrev escape : ℕ → Text
escape c =
    if c == b'\\'
    then lit "\\\\"
    else if c == b'"'
    then lit "\\\""
    else if c == b'\n'
    then lit "\\n"
    else if c == b'\r'
    then lit "\\r"
    else if c == b'\t'
    then lit "\\t"
    else c ∷ []

unfoldable escape_all : Text → Text
escape_all [] = []
escape_all (c ∷ s) = escape c ++ escape_all s

abbrev replaced : Text → Text
replaced s = replace_all b'\t' (lit "\\t") (
    replace_all b'\r' (lit "\\r") (
      replace_all b'\n' (lit "\\n")
        (replace_all b'"' (lit "\\\"") (replace_all b'\\' (lit "\\\\") s))))

-- The five replacements, one after the other, escape each code point by itself.
replaced-escape_all : (s : Text) → replaced s ≡ escape_all s
unfolding replace_all escape_all
replaced-escape_all [] = refl
replaced-escape_all (c ∷ s) = ground (arith, replaced-escape_all s)

read_terminal-escape :
    (c : ℕ) (x s r : Text)
    → read_terminal x ≡ some (s, r)
    → read_terminal (escape c ++ x) ≡ some (c ∷ s, r)
unfolding read_terminal
read_terminal-escape c [] s r h = ground arith
read_terminal-escape c (d ∷ x) s r h = ground (arith, h)

read_terminal-quote : (r : Text) → read_terminal (b'"' ∷ r) ≡ some ([], r)
unfolding read_terminal
read_terminal-quote [] = refl
read_terminal-quote (c ∷ r) = refl

-- An escaped text reads back as the text, before what the rest reads as.
read_terminal-escape_all :
    (s t u r : Text)
    → read_terminal t ≡ some (u, r)
    → read_terminal (escape_all s ++ t) ≡ some (s ++ u, r)
unfolding escape_all
read_terminal-escape_all [] t u r h = h
read_terminal-escape_all (c ∷ s) t u r h =
    ap read_terminal (append_assoc (escape c) (escape_all s) t)
    ∙ read_terminal-escape c (escape_all s ++ t) (s ++ u) r (read_terminal-escape_all s t u r h)

-- A string terminal at the head of a text: what it matches, and the text after it.
unfoldable pub read_literal : Text → Option (Text × Text)
unfolding read_terminal
read_literal [] = none
read_literal (c ∷ s) = if c == b'"' then read_terminal s else none

-- The terminal of a string, read as GBNF, matches the string between two double quotes and nothing
-- else, whatever text follows the terminal.
pub gbnf_json_string_lem :
    (s rest : Text)
    → read_literal (gbnf_json_string s ++ rest) ≡ some (lit "\"" ++ (s ++ lit "\""), rest)
unfolding gbnf_json_string read_literal
gbnf_json_string_lem s rest =
    ap (λ e. read_terminal (b'\\' ∷ b'"' ∷ ((e ++ lit "\\\"\"") ++ rest))) (replaced-escape_all s)
    ∙ ap (λ e. read_terminal (b'\\' ∷ b'"' ∷ e)) (append_assoc (escape_all s) (lit "\\\"\"") rest)
    ∙ read_terminal-escape b'"' (escape_all s ++ (lit "\\\"\"" ++ rest)) (s ++ lit "\"") rest (
        read_terminal-escape_all s (lit "\\\"\"" ++ rest) (lit "\"") rest
          (read_terminal-escape b'"' (b'"' ∷ rest) [] rest (read_terminal-quote rest)))
