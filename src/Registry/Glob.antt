-- ===== src/Registry/Glob.antt =====
-- `path.Match` of the Go library, which the registry asks whether a glob pattern matches a model
-- ID: a pattern is read into items, and a malformed pattern matches nothing. The library commits a
-- star to the leftmost place, which makes a difference only for a class that matches `/`.
use go_ai_proxy.Common.{
  ℕ, Bool, true, false, not, ◌&&◌, ◌||◌, Option, none, some, List, [], ◌∷◌, leb, ◌==◌,
  if◌then◌else◌, ◌≡◌, refl,
}
use go_ai_proxy.Common.Text.{Text, lit}

pub data Item : Type 0 where
  star any_one : Item
  one : ℕ → Item
  -- negated or not, and the ranges of the class
  one_of : Bool → List (ℕ × ℕ) → Item

-- Where the reader stands: between items, after a backslash, or inside a class, before a range (with
-- the ranges read so far) or after the lower end of one. `esc` is a backslash inside a class.
pub data Mode : Type 0 where
  between escaped class_start : Mode
  ranges : Bool → List (ℕ × ℕ) → Mode
  low_esc : Bool → List (ℕ × ℕ) → Mode
  after_low : Bool → List (ℕ × ℕ) → ℕ → Mode
  high : Bool → List (ℕ × ℕ) → ℕ → Mode
  high_esc : Bool → List (ℕ × ℕ) → ℕ → Mode

abbrev add_item : Item → Option (List Item) → Option (List Item)
add_item i none = none
add_item i (some is) = some (i ∷ is)

abbrev has_range : List (ℕ × ℕ) → Bool
has_range [] = false
has_range (r ∷ rs) = true

-- One step of the reader: the item that is finished, if one is, and the new mode; `none` for a
-- malformed pattern.
range_start : Bool → List (ℕ × ℕ) → ℕ → Option (Option Item × Mode)
range_start neg rs c =
    if c == b']' && has_range rs
    then some (some (one_of neg rs), between)
    else if c == b'-' || c == b']'
    then none
    else if c == b'\\'
    then some (none, low_esc neg rs)
    else some (none, after_low neg rs c)

read : Mode → ℕ → Option (Option Item × Mode)
unfolding range_start
read between c =
    if c == b'*'
    then some (some star, between)
    else if c == b'?'
    then some (some any_one, between)
    else if c == b'['
    then some (none, class_start)
    else if c == b'\\'
    then some (none, escaped)
    else some (some (one c), between)
read escaped c = some (some (one c), between)
read class_start c = if c == b'^' then some (none, ranges true []) else range_start false [] c
read (ranges neg rs) c = range_start neg rs c
read (low_esc neg rs) c = some (none, after_low neg rs c)
read (after_low neg rs lo) c =
    if c == b'-' then some (none, high neg rs lo) else range_start neg ((lo, lo) ∷ rs) c
read (high neg rs lo) c =
    if c == b'-' || c == b']'
    then none
    else if c == b'\\'
    then some (none, high_esc neg rs lo)
    else some (none, ranges neg ((lo, c) ∷ rs))
read (high_esc neg rs lo) c = some (none, ranges neg ((lo, c) ∷ rs))

abbrev add_read : Option Item → Option (List Item) → Option (List Item)
add_read none is = is
add_read (some i) is = add_item i is

items : Mode → Text → Option (List Item)
unfolding read
items between [] = some []
items _ [] = none
items m (c ∷ s) = elim (read m c) [ none ↦ none | some (i, m') ↦ add_read i (items m' s) ]

in_ranges : List (ℕ × ℕ) → ℕ → Bool
in_ranges [] c = false
in_ranges ((lo, hi) ∷ rs) c = (leb lo c && leb c hi) || in_ranges rs c

one_matches : Item → ℕ → Bool
unfolding in_ranges
one_matches star c = false
one_matches any_one c = not (c == b'/')
one_matches (one d) c = d == c
one_matches (one_of neg rs) c = if neg then not (in_ranges rs c) else in_ranges rs c

-- `matches is` on the texts that `*` may leave.
star_rest : (Text → Bool) → Text → Bool
star_rest k [] = k []
star_rest k (c ∷ s) = let longer = star_rest k s in k (c ∷ s) || (not (c == b'/') && longer)

first_rest : Item → (Text → Bool) → Text → Bool
unfolding one_matches
first_rest i k [] = false
first_rest i k (c ∷ s) = if one_matches i c then k s else false

matches : List Item → Text → Bool
unfolding star_rest first_rest
matches [] [] = true
matches [] (c ∷ s) = false
matches (star ∷ is) s = star_rest (matches is) s
matches (i ∷ is) s = first_rest i (matches is) s

abbrev match_items : Option (List Item) → Text → Bool
match_items none s = false
match_items (some is) s = matches is s

-- path.Match(pattern, name), the error dropped.
unfoldable pub glob_match : Text → Text → Bool
unfolding items matches
glob_match pattern name = match_items (items between pattern) name

glob_match_tests :
    (glob_match (lit "claude-*") (lit "claude-sonnet") ≡ true)
    × (glob_match (lit "claude-*") (lit "gpt-4") ≡ false)
    × (glob_match (lit "*/x[a-c]?") (lit "org/xbz") ≡ true)
    × (glob_match (lit "*") (lit "a/b") ≡ false)
    × (glob_match (lit "[a-") (lit "a") ≡ false)
unfolding glob_match
glob_match_tests = (refl, refl, refl, refl, refl)
