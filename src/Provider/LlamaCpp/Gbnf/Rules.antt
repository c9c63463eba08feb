-- ===== src/Provider/LlamaCpp/Gbnf/Rules.antt =====
-- The texts that internal/provider/llamacpp/gbnf.go formats: string terminals, alternatives, and the
-- rules of arrays and objects.
use go_ai_proxy.Common.{ℕ, Bool, true, false, List, [], ◌∷◌, ◌++◌, if◌then◌else◌}
use go_ai_proxy.Common.Text.{Text, lit, join}
use go_ai_proxy.Common.Format.{itoa, replace_all}

unfoldable pub gbnf_json_string : Text → Text
gbnf_json_string s =
    let e = replace_all b'\\' (lit "\\\\") s in
    let e1 = replace_all b'"' (lit "\\\"") e in
    let e2 = replace_all b'\n' (lit "\\n") e1 in
    let e3 = replace_all b'\r' (lit "\\r") e2 in
    let e4 = replace_all b'\t' (lit "\\t") e3 in lit "\"\\\"" ++ (e4 ++ lit "\\\"\"")

-- "(" + strings.Join(alts, " | ") + ")"
abbrev pub alternatives : List Text → Text
alternatives alts = lit "(" ++ (join (lit " | ") alts ++ lit ")")

abbrev pub array_rule : Text → Text → Text
array_rule name item =
    name
    ++ (lit " ::= \"[\" space ( "
        ++ (item ++ (lit " (\",\" space " ++ (item ++ lit ")* )? space \"]\""))))

-- The parts of an object's rule for the properties after `i` of them.
abbrev pub object_parts : List (Text × Text) → Bool → List Text
object_parts [] first = []
object_parts ((k, e) ∷ ps) first =
    let kv = gbnf_json_string k ++ (lit " space \":\" space " ++ e) in
    let rest = object_parts ps false in if first then kv ∷ rest else lit "\",\" space" ∷ kv ∷ rest

abbrev pub object_rule : Text → List (Text × Text) → Text
object_rule name ps =
    name
    ++ (lit " ::= "
        ++ join (lit " ") (lit "\"{\" space" ∷ (object_parts ps true ++ (lit "space \"}\"" ∷ []))))

abbrev pub obj_name : ℕ → Text
obj_name n = lit "obj" ++ itoa n

abbrev pub arr_name : ℕ → Text
arr_name n = lit "arr" ++ itoa n

abbrev pub lines : List Text → Text
lines [] = []
lines (l ∷ ls) = l ++ (b'\n' ∷ lines ls)
