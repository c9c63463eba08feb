-- ===== src/Provider/LlamaCpp/Total.antt =====
-- value in internal/provider/llamacpp/gbnf.go always ends: the fuel of the model is enough.
use go_ai_proxy.Common.{
  ℕ, zero, suc, ◌+◌, ◌≤◌, ◌<◌, ◌≡◌, refl, Bool, true, false, Option, none, some, List, [], ◌∷◌,
  arith, if◌then◌else◌, Option-cases, inl, inr,
}
use go_ai_proxy.Common.All.{All, All-mono}
use go_ai_proxy.Common.Text.{Text, lit, text_eq}
use go_ai_proxy.Common.Format.{sort_strings}
use go_ai_proxy.Common.Json.{
  Json, null, bool, num, str, arr, obj, Fields, nil, cons, elements, as_object, as_string,
  find_field, keys, depth, depth_fields, depth-find_field, depth-elements,
}
use go_ai_proxy.Provider.LlamaCpp.Gbnf.{
  Prim, Builder, Outcome, done, failed, GbnfError, out_of_fuel, need, ◌>>=◌, Emitted, enum,
  enum_alts, union_loop, union, array, props_loop, object, typed, by_enum, by_alternatives,
  by_keyword, value_step, value, first_unsupported, unsupported_keywords, some_elements,
  first_present, alternative_keywords, schema_to_gbnf, new_builder, empty_enum, empty_union,
  union_entry, no_items, no_properties, property_schema,
}

-- The outcome is not for want of fuel.
abbrev pub Ends {ℓ} : {A : Type ℓ} → Outcome A → Type 0
Ends (done a) = Unit
Ends (failed out_of_fuel) = ⊥
Ends (failed _) = Unit

Ends-bind {ℓ κ} :
    {A : Type ℓ} {B : Type κ} (m : Outcome A) (f : A → Outcome B)
    → Ends m
    → ((a : A) → Ends (f a))
    → Ends (m >>= f)
Ends-bind (done a) f h k = k a
Ends-bind (failed e) f h k = h

Ends-need {ℓ κ} :
    {A : Type ℓ} {B : Type κ} (o : Option A) (x : GbnfError) (f : A → Outcome B)
    → Ends {A = B} (failed x)
    → ((a : A) → o ≡ some a → Ends (f a))
    → Ends (need o x >>= f)
Ends-need none x f h k = h
Ends-need (some a) x f h k = k a refl

enum_alts-Ends : (vs : List Json) → Ends (enum_alts vs)
unfolding enum_alts
enum_alts-Ends [] = tt
enum_alts-Ends (str s ∷ vs) = Ends-bind (enum_alts vs) _ (enum_alts-Ends vs) (λ _. tt)
enum_alts-Ends (null ∷ vs) = tt
enum_alts-Ends (bool b ∷ vs) = tt
enum_alts-Ends (num n ∷ vs) = tt
enum_alts-Ends (arr xs ∷ vs) = tt
enum_alts-Ends (obj fs ∷ vs) = tt

depth-as_object :
    (v : Json) (fs : Fields) (n : ℕ)
    → as_object (some v) ≡ some fs
    → depth v ≤ n
    → depth_fields fs < n
unfolding depth
depth-as_object (obj gs) fs n h d = ground arith
depth-as_object null fs n h d = ground arith
depth-as_object (bool b) fs n h d = ground arith
depth-as_object (num t) fs n h d = ground arith
depth-as_object (str t) fs n h d = ground arith
depth-as_object (arr xs) fs n h d = ground arith

depth-member :
    (key : Text) (schema fs : Fields)
    → as_object (find_field key schema) ≡ some fs
    → depth_fields fs < depth_fields schema
depth-member key schema fs h = elim (Option-cases (find_field key schema)) [
  | inl e ↦ let g : as_object none ≡ some fs = rw e at h in cc g
  | inr (v, e) ↦
      let g : as_object (some v) ≡ some fs = rw e at h in
      depth-as_object v fs (depth_fields schema) g (depth-find_field key schema v e)
]

depth-first_present :
    (schema : Fields) (ks : List Text) (v : Json)
    → first_present schema ks ≡ some v
    → depth v ≤ depth_fields schema
depth-first_present schema [] v h = ground arith
depth-first_present schema (k ∷ ks) v h = elim (Option-cases (find_field k schema)) [
  | inl e ↦ ground (arith, e, depth-first_present schema ks v)
  | inr (w, e) ↦ ground (arith, e, depth-find_field k schema w e)
]

depth-some_elements :
    (raw : Json) (vs : List Json) → some_elements raw ≡ some vs → All (λ v. depth v ≤ depth raw) vs
depth-some_elements (arr (cons x xs)) vs h =
    let e : x ∷ elements xs ≡ vs = ground arith in rw⁻¹ e (depth-elements (cons x xs))
depth-some_elements (arr nil) vs h = cc h
depth-some_elements null vs h = cc h
depth-some_elements (bool b) vs h = cc h
depth-some_elements (num t) vs h = cc h
depth-some_elements (str t) vs h = cc h
depth-some_elements (obj fs) vs h = cc h

module _ (recur : Fields → Builder → Emitted) (n : ℕ)
    (ends : (schema : Fields) (b : Builder) → depth_fields schema < n → Ends (recur schema b)) where
  union_loop-Ends :
      (vs : List Json) (b : Builder) → All (λ v. depth v ≤ n) vs → Ends (union_loop recur vs b)
  unfolding union_loop
  union_loop-Ends [] b h = tt
  union_loop-Ends (v ∷ vs) b h = Ends-need (as_object (some v)) union_entry _ tt (λ schema e.
      Ends-bind (recur schema b) _ (ends schema b (depth-as_object v schema n e h.0))
        (λ (e, c). Ends-bind (union_loop recur vs c) _ (union_loop-Ends vs c h.1) (λ _. tt)))

  union-Ends : (raw : Json) (b : Builder) → depth raw ≤ n → Ends (union recur raw b)
  unfolding union
  union-Ends raw b h = Ends-need (some_elements raw) empty_union _ tt (λ vs e.
      Ends-bind (union_loop recur vs b) _
        (union_loop-Ends vs b (All-mono (λ v g. omega arith) vs (depth-some_elements raw vs e)))
        (λ _. tt))

  array-Ends :
      (schema : Fields) (b : Builder) → depth_fields schema ≤ n → Ends (array recur schema b)
  unfolding array
  array-Ends schema b h =
      Ends-need (as_object (find_field (lit "items") schema)) no_items _ tt (λ items e.
        Ends-bind (recur items (record b { arr_count = b.arr_count + 1 })) _
          (ends items _ (omega (arith, depth-member (lit "items") schema items e))) (λ _. tt))

  props_loop-Ends :
      (props : Fields) (ks : List Text) (b : Builder)
      → depth_fields props ≤ n
      → Ends (props_loop recur props ks b)
  unfolding props_loop
  props_loop-Ends props [] b h = tt
  props_loop-Ends props (k ∷ ks) b h =
      Ends-need (as_object (find_field k props)) (property_schema k) _ tt (λ schema e.
        Ends-bind (recur schema b) _ (ends schema b (omega (arith, depth-member k props schema e)))
          (λ (e, c).
            Ends-bind (props_loop recur props ks c) _ (props_loop-Ends props ks c h) (λ _. tt)))

  object-Ends :
      (schema : Fields) (b : Builder) → depth_fields schema ≤ n → Ends (object recur schema b)
  unfolding object
  object-Ends schema b h =
      Ends-need (as_object (find_field (lit "properties") schema)) no_properties _ tt (λ props e.
        Ends-bind (props_loop recur props (sort_strings (keys props)) _) _
          (props_loop-Ends props (sort_strings (keys props)) _
            (omega (arith, depth-member (lit "properties") schema props e)))
          (λ _. tt))

  typed-Ends :
      (typ : Text) (schema : Fields) (b : Builder)
      → depth_fields schema ≤ n
      → Ends (typed recur typ schema b)
  unfolding typed
  typed-Ends typ schema b h = if_Ends (text_eq typ (lit "string")) _ _ tt (
      if_Ends (text_eq typ (lit "integer")) _ _ tt (
        if_Ends (text_eq typ (lit "number")) _ _ tt (
          if_Ends (text_eq typ (lit "boolean")) _ _ tt (
            if_Ends (text_eq typ (lit "object")) _ _ (object-Ends schema b h)
              (if_Ends (text_eq typ (lit "array")) _ _ (array-Ends schema b h) tt)))))
    where
      if_Ends : (t : Bool) (x y : Emitted) → Ends x → Ends y → Ends (if t then x else y)
      if_Ends true x y hx hy = hx
      if_Ends false x y hx hy = hy

  by_enum-Ends :
      (o : Option Json) (schema : Fields) (b : Builder)
      → depth_fields schema ≤ n
      → Ends (by_enum recur o schema b)
  unfolding by_enum enum
  by_enum-Ends (some raw) schema b h =
      Ends-need (some_elements raw) empty_enum _ tt
        (λ vs e. Ends-bind (enum_alts vs) _ (enum_alts-Ends vs) (λ _. tt))
  by_enum-Ends none schema b h = typed-Ends (as_string (find_field (lit "type") schema)) schema b h

  by_alternatives-Ends :
      (o : Option Json) (schema : Fields) (b : Builder)
      → first_present schema alternative_keywords ≡ o
      → depth_fields schema ≤ n
      → Ends (by_alternatives recur o schema b)
  unfolding by_alternatives
  by_alternatives-Ends (some alts) schema b e h =
      union-Ends alts b (omega (arith, depth-first_present schema alternative_keywords alts e))
  by_alternatives-Ends none schema b e h = by_enum-Ends (find_field (lit "enum") schema) schema b h

  by_keyword-Ends :
      (o : Option Text) (schema : Fields) (b : Builder)
      → depth_fields schema ≤ n
      → Ends (by_keyword recur o schema b)
  unfolding by_keyword
  by_keyword-Ends (some k) schema b h = tt
  by_keyword-Ends none schema b h = by_alternatives-Ends _ schema b refl h

value-Ends :
    (fuel : ℕ) (schema : Fields) (b : Builder)
    → depth_fields schema < fuel
    → Ends (value fuel schema b)
unfolding value value_step
value-Ends zero schema b h = ground arith
value-Ends (suc fuel) schema b h =
    by_keyword-Ends (value fuel) fuel (value-Ends fuel)
      (first_unsupported schema unsupported_keywords) schema b (omega arith)

-- A conversion always ends: in a grammar, or in one of the errors of the source.
pub schema_to_gbnf-Ends : (schema : Fields) → Ends (schema_to_gbnf schema)
unfolding schema_to_gbnf
schema_to_gbnf-Ends schema =
    Ends-bind (value (suc (depth_fields schema)) schema new_builder) _
      (value-Ends (suc (depth_fields schema)) schema new_builder (omega arith)) (λ _. tt)
