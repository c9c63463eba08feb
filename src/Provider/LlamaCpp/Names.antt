-- ===== src/Provider/LlamaCpp/Names.antt =====
-- internal/provider/llamacpp/gbnf.go: the names that the text of a GBNF rule refers to. A name is a run of
-- letters and dashes that stands neither in a string between quotes nor in a class between brackets; a
-- backslash takes the next character with it.
use go_ai_proxy.Common.{
  ◌≡◌, refl, ℕ, Bool, true, false, ◌&&◌, ◌||◌, List, [], ◌∷◌, ◌==◌, leb, if◌then◌else◌,
}
use go_ai_proxy.Common.All.{All}
use go_ai_proxy.Common.Text.{Text}
use go_ai_proxy.Provider.LlamaCpp.Gbnf.{
  Prim, space, char, string, integral_part, decimal_part, number, integer, boolean, prim_name,
  prim_defs, marked,
}
use go_ai_proxy.Provider.LlamaCpp.Closed.{IsClosed}

-- What the reader is in: an expression, a string or a class, the latter two with whether a backslash
-- was just read.
data Place : Type 0 where
  outside : Place
  in_string : Bool → Place
  in_class : Bool → Place

abbrev is_letter : ℕ → Bool
is_letter c = (leb 97 c && leb c 122) || (leb 65 c && leb c 90) || c == 45

-- A name, if there is one.
abbrev push : Text → List Text → List Text
push [] names = names
push (c ∷ cs) names = (c ∷ cs) ∷ names

abbrev place_after : ℕ → Place
place_after c = if c == 34 then in_string false else if c == 91 then in_class false else outside

-- The name that is being read and the names after it.
abbrev extend : ℕ → Text × List Text → Text × List Text
extend c (name, names) = (c ∷ name, names)

abbrev close : Text × List Text → Text × List Text
close (name, names) = ([], push name names)

unfoldable read : Place → Text → Text × List Text
read place [] = ([], [])
read outside (c ∷ cs) =
    let more = read outside cs in
    let rest = read (place_after c) cs in if is_letter c then extend c more else close rest
read (in_string true) (c ∷ cs) = read (in_string false) cs
read (in_string false) (c ∷ cs) =
    let escaped = read (in_string true) cs in
    let ended = read outside cs in
    let more = read (in_string false) cs in
    if c == 92 then escaped else if c == 34 then ended else more
read (in_class true) (c ∷ cs) = read (in_class false) cs
read (in_class false) (c ∷ cs) =
    let escaped = read (in_class true) cs in
    let ended = read outside cs in
    let more = read (in_class false) cs in
    if c == 92 then escaped else if c == 93 then ended else more

-- The names in a text, in order.
pub names : Text → List Text
unfolding read
names text = (close (read outside text)).1

-- Each name in the definition of a marked primitive is that of a marked primitive.
abbrev pub AreDefined : List Prim → Type 0
AreDefined ps =
    (p : Prim)
    → marked p ps ≡ true
    → All (λ name. (q : Prim) × (prim_name q ≡ name) × (marked q ps ≡ true)) (names (prim_defs p))

pub prims-AreDefined : (ps : List Prim) → IsClosed ps → AreDefined ps
unfolding names
prims-AreDefined ps h space m = ((space, refl, m), tt)
prims-AreDefined ps h char m = ((char, refl, m), tt)
prims-AreDefined ps h string m = ((string, refl, m), ((char, refl, (h string m).0), tt))
prims-AreDefined ps h integral_part m = ((integral_part, refl, m), tt)
prims-AreDefined ps h decimal_part m = ((decimal_part, refl, m), tt)
prims-AreDefined ps h number m = (
  (number, refl, m),
  (
    (integral_part, refl, (h number m).0),
    ((decimal_part, refl, (h number m).1.0), ((integral_part, refl, (h number m).0), tt)),
  ),
)
prims-AreDefined ps h integer m = ((integer, refl, m), ((integral_part, refl, (h integer m).0), tt))
prims-AreDefined ps h boolean m = ((boolean, refl, m), tt)
