-- ===== src/Common/Text.antt =====
-- Go's strings as lists of code points, and the functions of package `strings` that the program
-- uses. Strings are taken to be valid UTF-8, so that a search by bytes finds whole code points.
use Prim.Native.Char.{code}
use mathlib.Core.Option
use go_ai_proxy.Common.{
  ℕ, ◌+◌, ◌≡◌, refl, Bool, true, false, ◌&&◌, ◌||◌, Option, none, some, List, [], ◌∷◌, ◌++◌,
  reverse, arith, leb, ◌==◌, if◌then◌else◌, String, Option-cases, inl, inr, is_some, or_default, ap,
}
use go_ai_proxy.Common.Eq.{list_eq, nat_eq, list_beq}

abbrev pub Text : Type 0
Text = List ℕ

-- The code points of a literal.
abbrev pub lit : String → Text
lit String.[] = []
lit (String.◌∷◌ c s) = code c ∷ lit s

-- s == t
abbrev pub text_eq : Text → Text → Bool
text_eq = list_beq

-- What follows the prefix, if it is there.
unfoldable pub strip_prefix : Text → Text → Option Text
strip_prefix [] s = some s
strip_prefix (p ∷ ps) [] = none
strip_prefix (p ∷ ps) (c ∷ s) = elim (p == c) [ true ↦ strip_prefix ps s | false ↦ none ]

-- strings.HasPrefix
abbrev pub has_prefix : Text → Text → Bool
has_prefix p s = is_some (strip_prefix p s)

-- strings.TrimPrefix(s, p)
abbrev pub trim_prefix : Text → Text → Text
trim_prefix p s = or_default (strip_prefix p s) s

abbrev before : ℕ → Text × Text → Text × Text
before c (a, b) = (c ∷ a, b)

-- `s[:i]` and `s[i+len(p):]` at `i = strings.Index(s, p)`, the first place where `p` stands.
unfoldable pub cut : Text → Text → Option (Text × Text)
cut p [] = Option.map (λ r. ([], r)) (strip_prefix p [])
cut p (c ∷ s) = elim (strip_prefix p (c ∷ s)) [
  | some r ↦ some ([], r)
  | none ↦ Option.map (before c) (cut p s)
]

-- strings.Contains(s, p)
abbrev pub includes : Text → Text → Bool
includes p s = is_some (cut p s)

-- unicode.IsSpace
unfoldable pub is_space : ℕ → Bool
is_space c =
    (leb 9 c && leb c 13)
    || c == 32
    || c == 0x85
    || c == 0xA0
    || c == 0x1680
    || (leb 0x2000 c && leb c 0x200a)
    || c == 0x2028
    || c == 0x2029
    || c == 0x202f
    || c == 0x205f
    || c == 0x3000

unfoldable pub trim_left : Text → Text
unfolding is_space
trim_left [] = []
trim_left (c ∷ s) = elim (is_space c) [ true ↦ trim_left s | false ↦ c ∷ s ]

-- strings.TrimSpace
unfoldable pub trim_space : Text → Text
unfolding trim_left
trim_space s = reverse (trim_left (reverse (trim_left s)))

abbrev push_first : ℕ → List Text → List Text
push_first c [] = (c ∷ []) ∷ []
push_first c (p ∷ ps) = (c ∷ p) ∷ ps

-- strings.Split at a single code point.
unfoldable pub split : ℕ → Text → List Text
split sep [] = [] ∷ []
split sep (c ∷ s) = let rest = split sep s in if c == sep then [] ∷ rest else push_first c rest

-- strings.Join
unfoldable pub join : Text → List Text → Text
join sep [] = []
join sep (p ∷ []) = p
join sep (p ∷ q ∷ ps) = p ++ (sep ++ join sep (q ∷ ps))

-- strings.ToLower on ASCII letters, which is all that the program compares.
abbrev pub lower : ℕ → ℕ
lower c = if leb b'A' c && leb c b'Z' then c + 32 else c

pub strip_prefix-append : (p s r : Text) → strip_prefix p s ≡ some r → s ≡ p ++ r
unfolding strip_prefix
strip_prefix-append [] s r h = ground arith
strip_prefix-append (p ∷ ps) [] r h = ground arith
strip_prefix-append (p ∷ ps) (c ∷ s) r h = ground (arith, strip_prefix-append ps s r)

pub strip_prefix-of_append : (p r : Text) → strip_prefix p (p ++ r) ≡ some r
unfolding strip_prefix
strip_prefix-of_append [] r = refl
strip_prefix-of_append (p ∷ ps) r = ground (arith, strip_prefix-of_append ps r)

-- The parts on both sides of the separator make up the text.
pub cut-append : (p s a b : Text) → cut p s ≡ some (a, b) → s ≡ a ++ (p ++ b)
unfolding cut
cut-append p [] a b h = ground (arith, strip_prefix-append p [] b)
cut-append p (c ∷ s) a b h = elim (Option-cases (strip_prefix p (c ∷ s))) [
  | inl e ↦ elim (Option-cases (cut p s)) [
    | inl n ↦ cc (e, n, h)
    | inr ((a', b'), q) ↦ ground (arith, e, q, h, cut-append p s a' b' q)
  ]
  | inr (r, e) ↦ ground (arith, e, strip_prefix-append p (c ∷ s) r e)
]

strip_prefix-grow :
    (p a x r : Text) → strip_prefix p a ≡ some r → strip_prefix p (a ++ x) ≡ some (r ++ x)
unfolding strip_prefix
strip_prefix-grow [] a x r h = ground (arith, h)
strip_prefix-grow (p ∷ ps) [] x r h = ground (arith, h)
strip_prefix-grow (p ∷ ps) (c ∷ a) x r h = ground (arith, h, strip_prefix-grow ps a x r)

nowhere : (p : ℕ) (ps : Text) → cut (p ∷ ps) [] ≡ none
unfolding cut strip_prefix
nowhere p ps = refl

-- A separator does not stand in the part before its first place.
pub cut_before : (p : ℕ) (ps s a b : Text) → cut (p ∷ ps) s ≡ some (a, b) → cut (p ∷ ps) a ≡ none
unfolding cut
cut_before p ps [] a b h = absurd (cc (h, nowhere p ps))
cut_before p ps (c ∷ s) a b h = elim (Option-cases (strip_prefix (p ∷ ps) (c ∷ s))) [
  | inr (r, e) ↦ ground (arith, e, h, nowhere p ps)
  | inl e ↦ elim (Option-cases (cut (p ∷ ps) s)) [
    | inl n ↦ cc (e, n, h)
    | inr ((a', b'), q) ↦
        let later : cut (p ∷ ps) a' ≡ none = cut_before p ps s a' b' q in
        let whole : c ∷ s ≡ (c ∷ a') ++ ((p ∷ ps) ++ b') =
          ap (◌∷◌ c) (cut-append (p ∷ ps) s a' b' q) in
        let first : strip_prefix (p ∷ ps) (c ∷ a') ≡ none =
          elim (Option-cases (strip_prefix (p ∷ ps) (c ∷ a'))) [
            | inl n ↦ n
            | inr (r, k) ↦
                let grown = strip_prefix-grow (p ∷ ps) (c ∷ a') ((p ∷ ps) ++ b') r k in
                absurd (cc (e, ap (strip_prefix (p ∷ ps)) whole, grown))
          ] in
        let same : a ≡ c ∷ a' = ground (arith, e, q, h) in rw same (ground (arith, first, later))
  ]
]
