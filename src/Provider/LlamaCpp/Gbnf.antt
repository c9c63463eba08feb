-- ===== src/Provider/LlamaCpp/Gbnf.antt =====
-- internal/provider/llamacpp/gbnf.go: JSON Schemas as grammars of llama.cpp. The primitives stand in
-- Prims, and the texts of rules in Rules.
pub mod Prims
pub mod Rules
unfoldable pub use go_ai_proxy.Provider.LlamaCpp.Gbnf.Prims.*
unfoldable pub use go_ai_proxy.Provider.LlamaCpp.Gbnf.Rules.*
use mathlib.Core.List.{map}
use go_ai_proxy.Common.{
  ℕ, zero, suc, ◌+◌, ◌≡◌, refl, Bool, true, false, Option, none, some, List, [], ◌∷◌, ◌++◌, ◌==◌,
  any, keep, is_some, if◌then◌else◌,
}
use go_ai_proxy.Common.Text.{Text, lit, join, text_eq}
use go_ai_proxy.Common.Format.{itoa, replace_all, sort_strings}
use go_ai_proxy.Common.Json.{
  Json, str, arr, cons, elements, Fields, keys, find_field, as_object, as_string, depth_fields,
}

abbrev pub unsupported_keywords : List Text
unsupported_keywords =
    lit "$ref"
    ∷ lit "$defs"
    ∷ lit "definitions"
    ∷ lit "allOf"
    ∷ lit "pattern"
    ∷ lit "format"
    ∷ lit "minimum"
    ∷ lit "maximum"
    ∷ lit "exclusiveMinimum"
    ∷ lit "exclusiveMaximum"
    ∷ lit "multipleOf"
    ∷ lit "minItems"
    ∷ lit "maxItems"
    ∷ lit "minLength"
    ∷ lit "maxLength"
    ∷ []

pub record Builder : Type 0 where
  pub rules : List Text
  pub prims : List Prim
  pub obj_count : ℕ
  pub arr_count : ℕ

-- The errors, with the names that they report. `out_of_fuel` is of the model, and never comes.
pub data GbnfError : Type 0 where
  unsupported_keyword : Text → GbnfError
  unsupported_type : Text → GbnfError
  empty_enum : GbnfError
  enum_value : GbnfError
  empty_union : GbnfError
  union_entry : GbnfError
  no_items : GbnfError
  no_properties : GbnfError
  property_schema : Text → GbnfError
  out_of_fuel : GbnfError

pub data Outcome {ℓ} (A : Type ℓ) : Type ℓ where
  done : A → Outcome A
  failed : GbnfError → Outcome A

infixl 5 ◌>>=◌
abbrev pub ◌>>=◌ {ℓ κ} : {A : Type ℓ} {B : Type κ} → Outcome A → (A → Outcome B) → Outcome B
failed why >>= next = failed why
done made >>= next = next made

-- What a conversion has gone through when it succeeds.
pub >>=-eq-done {ℓ κ} :
    {A : Type ℓ} {B : Type κ} (first : Outcome A) (next : A → Outcome B) {last : B}
    → (first >>= next) ≡ done last
    → (made : A) × (first ≡ done made) × (next made ≡ done last)
>>=-eq-done (failed why) next e = cc
>>=-eq-done (done made) next e = (made, refl, e)

pub done_injective {ℓ} : {A : Type ℓ} (a b : A) → done a ≡ done b → a ≡ b
done_injective a b h = cc h

-- A value that has to be there.
abbrev pub need {ℓ} : {A : Type ℓ} → Option A → GbnfError → Outcome A
need none e = failed e
need (some a) e = done a

-- An expression and the builder after it.
abbrev pub Emitted : Type 0
Emitted = Outcome (Text × Builder)

abbrev pub with_prim : Prim → Builder → Builder
with_prim p b = record b { prims = use_prim p b.prims }

abbrev pub alternative_keywords : List Text
alternative_keywords = lit "anyOf" ∷ lit "oneOf" ∷ []

-- firstPresent(schema, names...)
abbrev pub first_present : Fields → List Text → Option Json
first_present schema [] = none
first_present schema (n ∷ ns) = elim (find_field n schema) [
  | some v ↦ some v
  | none ↦ first_present schema ns
]

abbrev string_of : Json → Outcome Text
string_of (str s) = done s
string_of _ = failed enum_value

unfoldable pub enum_alts : List Json → Outcome (List Text)
enum_alts [] = done []
enum_alts (v ∷ vs) = do s ← string_of v; alts ← enum_alts vs; done (gbnf_json_string s ∷ alts)

-- v.([]any), which has to have an element.
abbrev pub some_elements : Json → Option (List Json)
some_elements (arr (cons x xs)) = some (x ∷ elements xs)
some_elements _ = none

unfoldable pub enum : Json → Builder → Emitted
unfolding enum_alts
enum raw b = do
  list ← need (some_elements raw) empty_enum
  alts ← enum_alts list
  done (alternatives alts, b)

-- The keyword that `value` reports: the first of the list that the schema has.
abbrev pub first_unsupported : Fields → List Text → Option Text
first_unsupported schema [] = none
first_unsupported schema (k ∷ ks) =
    if is_some (find_field k schema) then some k else first_unsupported schema ks

abbrev pub with_rule : Text → Builder → Builder
with_rule r b = record b { rules = b.rules ++ (r ∷ []) }

-- One level: `recur` is `value` on the sub-schemas.
module _ (recur : Fields → Builder → Emitted) where
  unfoldable pub union_loop : List Json → Builder → Outcome (List Text × Builder)
  union_loop [] b = done ([], b)
  union_loop (sub ∷ subs) b = do
    schema ← need (as_object (some sub)) union_entry
    (e, b') ← recur schema b
    (es, b'') ← union_loop subs b'
    done (e ∷ es, b'')

  unfoldable pub union : Json → Builder → Emitted
  unfolding union_loop
  union raw b = do
    list ← need (some_elements raw) empty_union
    (es, b') ← union_loop list b
    done (alternatives es, b')

  unfoldable pub array : Fields → Builder → Emitted
  array schema b = do
    items ← need (as_object (find_field (lit "items") schema)) no_items
    let name = arr_name b.arr_count
    (e, b') ← recur items (record b { arr_count = b.arr_count + 1 })
    done (name, with_rule (array_rule name e) (with_prim space b'))

  -- The loop over the sorted keys: the keys with the expressions of their values.
  unfoldable pub props_loop : Fields → List Text → Builder → Outcome (List (Text × Text) × Builder)
  props_loop props [] b = done ([], b)
  props_loop props (k ∷ ks) b = do
    schema ← need (as_object (find_field k props)) (property_schema k)
    (e, b') ← recur schema b
    (ps, b'') ← props_loop props ks b'
    done ((k, e) ∷ ps, b'')

  unfoldable pub object : Fields → Builder → Emitted
  unfolding props_loop
  object schema b = do
    props ← need (as_object (find_field (lit "properties") schema)) no_properties
    let name = obj_name b.obj_count
    let b' = with_prim space (record b { obj_count = b.obj_count + 1 })
    (ps, b'') ← props_loop props (sort_strings (keys props)) b'
    done (name, with_rule (object_rule name ps) b'')

  -- The switch on the type.
  unfoldable pub typed : Text → Fields → Builder → Emitted
  unfolding object array
  typed typ schema b =
      if text_eq typ (lit "string")
      then done (lit "string", with_prim string b)
      else if text_eq typ (lit "integer")
      then done (lit "integer", with_prim integer b)
      else if text_eq typ (lit "number")
      then done (lit "number", with_prim number b)
      else if text_eq typ (lit "boolean")
      then done (lit "boolean", with_prim boolean b)
      else if text_eq typ (lit "object")
      then object schema b
      else if text_eq typ (lit "array")
      then array schema b
      else failed (unsupported_type typ)

  -- schema["enum"]
  unfoldable pub by_enum : Option Json → Fields → Builder → Emitted
  unfolding enum typed
  by_enum (some raw) schema b = enum raw b
  by_enum none schema b = typed (as_string (find_field (lit "type") schema)) schema b

  -- firstPresent(schema, "anyOf", "oneOf")
  unfoldable pub by_alternatives : Option Json → Fields → Builder → Emitted
  unfolding union by_enum
  by_alternatives (some alts) schema b = union alts b
  by_alternatives none schema b = by_enum (find_field (lit "enum") schema) schema b

  unfoldable pub by_keyword : Option Text → Fields → Builder → Emitted
  unfolding by_alternatives
  by_keyword (some k) schema b = failed (unsupported_keyword k)
  by_keyword none schema b = by_alternatives (first_present schema alternative_keywords) schema b

  unfoldable pub value_step : Fields → Builder → Emitted
  unfolding by_keyword
  value_step schema b = by_keyword (first_unsupported schema unsupported_keywords) schema b

-- `value` on schemas that nest less than `fuel` deep.
unfoldable pub value : ℕ → Fields → Builder → Emitted
unfolding value_step
value zero schema b = failed out_of_fuel
value (suc fuel) schema b = value_step (value fuel) schema b

abbrev pub new_builder : Builder
new_builder = record { rules = []; prims = []; obj_count = 0; arr_count = 0 }

-- The text of a grammar: the root, the rules, and the marked primitives in their order.
abbrev pub grammar_text : Text → Builder → Text
grammar_text root b = lines (
    (lit "root ::= " ++ root)
    ∷ (b.rules ++ map prim_defs (keep (λ p. marked p b.prims) prim_order)))

unfoldable pub schema_to_gbnf : Fields → Outcome Text
unfolding value
schema_to_gbnf schema = do
  (root, b) ← value (suc (depth_fields schema)) schema new_builder
  done (grammar_text root b)
