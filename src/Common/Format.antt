-- ===== src/Common/Format.antt =====
-- Go's `strconv.Itoa`, `strings.ReplaceAll` for one code point, and `sort.Strings`. The order of the
-- UTF-8 encodings of two strings is that of their code points.
use mathlib.Core.List.{Perm}
use mathlib.Core.List.Perm
use go_ai_proxy.Common.{
  ℕ, zero, suc, ◌+◌, ◌-◌, ◌/◌, ◌%◌, Bool, true, false, List, [], ◌∷◌, ◌++◌, arith, ltb, ◌==◌,
  if◌then◌else◌,
}
use go_ai_proxy.Common.Text.{Text}

-- The decimal digits of n before `rest`; n + 1 steps are enough.
unfoldable pub show_digits : ℕ → ℕ → Text → Text
show_digits zero n rest = rest
show_digits (suc fuel) n rest =
    let longer = show_digits fuel (n / 10) ((b'0' + n % 10) ∷ rest) in
    if ltb n 10 then (b'0' + n) ∷ rest else longer

-- strconv.Itoa on an int that is not negative.
abbrev pub itoa : ℕ → Text
itoa n = show_digits (suc n) n []

-- strings.ReplaceAll(s, old, new) for an `old` of one code point.
unfoldable pub replace_all : ℕ → Text → Text → Text
replace_all old new [] = []
replace_all old new (c ∷ s) =
    let rest = replace_all old new s in if c == old then new ++ rest else c ∷ rest

-- s <= t
unfoldable pub text_le : Text → Text → Bool
text_le [] t = true
text_le (c ∷ s) [] = false
text_le (c ∷ s) (d ∷ t) = if ltb c d then true else if c == d then text_le s t else false

unfoldable pub insert_string : Text → List Text → List Text
insert_string s [] = s ∷ []
insert_string s (t ∷ ts) = if text_le s t then s ∷ t ∷ ts else t ∷ insert_string s ts

-- sort.Strings: the sorted list is unique, so that insertion sort computes it.
unfoldable pub sort_strings : List Text → List Text
sort_strings [] = []
sort_strings (t ∷ ts) = insert_string t (sort_strings ts)

insert_string-perm : (s : Text) (ts : List Text) → Perm (insert_string s ts) (s ∷ ts)
unfolding insert_string
insert_string-perm s [] = Perm.refl _
insert_string-perm s (t ∷ ts) = ground (
  arith,
  Perm.refl (s ∷ t ∷ ts),
  Perm.trans (Perm.cons t (insert_string-perm s ts)) (Perm.swap s t ts),
)

pub sort_strings-perm : (ts : List Text) → Perm (sort_strings ts) ts
unfolding sort_strings
sort_strings-perm [] = Perm.refl _
sort_strings-perm (t ∷ ts) =
    Perm.trans (insert_string-perm t (sort_strings ts)) (Perm.cons t (sort_strings-perm ts))

-- A hexadecimal digit in lower case.
abbrev pub hex_digit : ℕ → ℕ
hex_digit n = if ltb n 10 then b'0' + n else b'a' + (n - 10)

-- hex.EncodeToString, and fmt's `%x` on bytes.
unfoldable pub hex : List ℕ → Text
hex [] = []
hex (b ∷ bs) = hex_digit (b / 16) ∷ hex_digit (b % 16) ∷ hex bs
