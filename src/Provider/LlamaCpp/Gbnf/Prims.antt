-- ===== src/Provider/LlamaCpp/Gbnf/Prims.antt =====
-- primDefs, primDeps, primOrder and usePrim in internal/provider/llamacpp/gbnf.go. The keys of the maps
-- are an enumeration, and `prims` is the list of the marked ones.
use go_ai_proxy.Common.{ℕ, zero, suc, Bool, true, false, List, [], ◌∷◌, ◌==◌, any}
use go_ai_proxy.Common.Text.{Text, lit}

pub data Prim : Type 0 where
  space : Prim
  char : Prim
  string : Prim
  integral_part : Prim
  decimal_part : Prim
  number : Prim
  integer : Prim
  boolean : Prim

abbrev pub prim_order : List Prim
prim_order = space ∷ char ∷ string ∷ integral_part ∷ decimal_part ∷ number ∷ integer ∷ boolean ∷ []

abbrev pub prim_name : Prim → Text
prim_name space = lit "space"
prim_name char = lit "char"
prim_name string = lit "string"
prim_name integral_part = lit "integral-part"
prim_name decimal_part = lit "decimal-part"
prim_name number = lit "number"
prim_name integer = lit "integer"
prim_name boolean = lit "boolean"

abbrev pub prim_defs : Prim → Text
prim_defs space = lit "space ::= | \" \" | \"\\n\"{1,2} [ \\t]{0,20}"
prim_defs char =
    lit "char ::= [^\"\\\\\\x7F\\x00-\\x1F] | [\\\\] ([\"\\\\bfnrt] | \"u\" [0-9a-fA-F]{4})"
prim_defs string = lit "string ::= \"\\\"\" char* \"\\\"\""
prim_defs integral_part = lit "integral-part ::= [0] | [1-9] [0-9]{0,15}"
prim_defs decimal_part = lit "decimal-part ::= [0-9]{1,16}"
prim_defs number =
    lit "number ::= (\"-\"? integral-part) (\".\" decimal-part)? ([eE] [-+]? integral-part)?"
prim_defs integer = lit "integer ::= (\"-\"? integral-part)"
prim_defs boolean = lit "boolean ::= (\"true\" | \"false\")"

abbrev pub prim_deps : Prim → List Prim
prim_deps string = char ∷ []
prim_deps number = integral_part ∷ decimal_part ∷ []
prim_deps integer = integral_part ∷ []
prim_deps _ = []

abbrev pub prim_index : Prim → ℕ
prim_index space = 0
prim_index char = 1
prim_index string = 2
prim_index integral_part = 3
prim_index decimal_part = 4
prim_index number = 5
prim_index integer = 6
prim_index boolean = 7

-- prims[name]
abbrev pub marked : Prim → List Prim → Bool
marked p ps = any (λ q. prim_index q == prim_index p) ps

-- The loop over the dependencies and the marking of one name; no chain of them is longer than the
-- table of primitives.
abbrev pub use_each : (Prim → List Prim → List Prim) → List Prim → List Prim → List Prim
use_each mark [] marks = marks
use_each mark (d ∷ ds) marks = use_each mark ds (mark d marks)

unfoldable pub use_fuel : ℕ → Prim → List Prim → List Prim
use_fuel zero p marks = marks
use_fuel (suc fuel) p marks = elim (marked p marks) [
  | true ↦ marks
  | false ↦ use_each (use_fuel fuel) (prim_deps p) (p ∷ marks)
]

-- usePrim
unfoldable pub use_prim : Prim → List Prim → List Prim
unfolding use_fuel
use_prim p marks = use_fuel 8 p marks
