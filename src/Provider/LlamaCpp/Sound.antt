-- ===== src/Provider/LlamaCpp/Sound.antt =====
-- value and schemaToGBNF in internal/provider/llamacpp/gbnf.go: what a conversion that succeeds gives.
use go_ai_proxy.Common.{
  ℕ, zero, suc, ◌+◌, ◌≡◌, refl, Bool, true, false, Option, none, some, List, [], ◌∷◌, map, arith,
  ap, sym, if◌then◌else◌,
}
use go_ai_proxy.Common.All.{All, All-mono}
use go_ai_proxy.Common.Text.{Text, lit, text_eq}
use go_ai_proxy.Common.Format.{sort_strings}
use go_ai_proxy.Common.Json.{
  Json, Fields, null, bool, num, str, arr, obj, as_object, as_string, find_field, keys,
  depth_fields,
}
use go_ai_proxy.Provider.LlamaCpp.Gbnf.{
  Prim, space, string, number, integer, boolean, Builder, done, Emitted, by_enum, by_alternatives,
  by_keyword, >>=-eq-done, done_injective, alternative_keywords, some_elements, empty_enum,
  empty_union, union_entry, property_schema, no_items, no_properties, with_prim, gbnf_json_string,
  enum_alts, enum, obj_name, arr_name, union_loop, union, array, props_loop, object, typed,
  value_step, value, first_unsupported, unsupported_keywords, first_present, schema_to_gbnf,
  new_builder, grammar_text,
}
use go_ai_proxy.Provider.LlamaCpp.Names.{AreDefined, prims-AreDefined}
use go_ai_proxy.Provider.LlamaCpp.Closed.{
  IsExpr, enum_expr, union_expr, AreExprs, no_exprs, more_exprs, is_array, is_object, IsGrammar,
  Extends, Extends-refl, Extends-trans, IsExpr-mono, IsRule-mono, Post, Post-bind, Post-need,
  Post-done, Sound, with_prim-IsGrammar, with_prim-Extends, prim-Sound, rule-Sound, use_prim-marked,
}

recount :
    (b : Builder) (m n : ℕ) → IsGrammar b → IsGrammar (record b { obj_count = m; arr_count = n })
recount b m n g = record {
  rules_ok =
      All-mono (IsRule-mono b _ (record { kept = λ r h. h; marks = λ p h. h })) b.rules g.rules_ok;
  prims_ok = g.prims_ok;
}

-- The alternatives of an enum are string terminals.
AreLiterals : List Text → Type 0
AreLiterals alts = (ss : List Text) × (alts ≡ map gbnf_json_string ss)

enum_alts-AreLiterals : (vs : List Json) → Post AreLiterals (enum_alts vs)
unfolding enum_alts AreLiterals
enum_alts-AreLiterals [] = ([], refl)
enum_alts-AreLiterals (str s ∷ vs) =
    Post-bind AreLiterals AreLiterals (enum_alts vs) _ (enum_alts-AreLiterals vs)
      (λ alts (ss, e). (s ∷ ss, ap (◌∷◌ (gbnf_json_string s)) e))
enum_alts-AreLiterals (null ∷ vs) = tt
enum_alts-AreLiterals (bool b ∷ vs) = tt
enum_alts-AreLiterals (num n ∷ vs) = tt
enum_alts-AreLiterals (arr xs ∷ vs) = tt
enum_alts-AreLiterals (obj fs ∷ vs) = tt

enum-Sound : (raw : Json) (b : Builder) → IsGrammar b → Post (Sound b) (enum raw b)
unfolding enum AreLiterals
enum-Sound raw b g = Post-need (Sound b) (some_elements raw) empty_enum _ (λ list.
    Post-bind AreLiterals (Sound b) (enum_alts list) _ (enum_alts-AreLiterals list)
      (λ alts (ss, e). (g, Extends-refl b, rw e (enum_expr ss))))

-- The list of expressions, and the list of properties, of a loop.
abbrev SoundList : Builder → List Text × Builder → Type 0
SoundList b (es, c) = IsGrammar c × Extends b c × AreExprs c es

abbrev SoundProps : Builder → List (Text × Text) × Builder → Type 0
SoundProps b (ps, c) = IsGrammar c × Extends b c × All (λ p. IsExpr c p.1) ps

module _ (recur : Fields → Builder → Emitted)
    (sound : (schema : Fields) (b : Builder) → IsGrammar b → Post (Sound b) (recur schema b)) where
  union_loop-SoundList :
      (vs : List Json) (b : Builder) → IsGrammar b → Post (SoundList b) (union_loop recur vs b)
  unfolding union_loop
  union_loop-SoundList [] b g = (g, Extends-refl b, no_exprs)
  union_loop-SoundList (v ∷ vs) b g =
      Post-need (SoundList b) (as_object (some v)) union_entry _ (λ schema.
        Post-bind (Sound b) (SoundList b) (recur schema b) _ (sound schema b g)
          (λ (e, c) (gc, x, h).
            Post-bind (SoundList c) (SoundList b) (union_loop recur vs c) _
              (union_loop-SoundList vs c gc)
              (λ (es, d) (gd, y, hs).
                (gd, Extends-trans b c d x y, more_exprs e es (IsExpr-mono c d y e h) hs))))

  union-Sound : (raw : Json) (b : Builder) → IsGrammar b → Post (Sound b) (union recur raw b)
  unfolding union
  union-Sound raw b g = Post-need (Sound b) (some_elements raw) empty_union _ (λ list.
      Post-bind (SoundList b) (Sound b) (union_loop recur list b) _ (union_loop-SoundList list b g)
        (λ (es, c) (gc, x, hs). (gc, x, union_expr es hs)))

  props_loop-SoundProps :
      (props : Fields) (ks : List Text) (b : Builder)
      → IsGrammar b
      → Post (SoundProps b) (props_loop recur props ks b)
  unfolding props_loop
  props_loop-SoundProps props [] b g = (g, Extends-refl b, tt)
  props_loop-SoundProps props (k ∷ ks) b g =
      Post-need (SoundProps b) (as_object (find_field k props)) (property_schema k) _ (λ schema.
        Post-bind (Sound b) (SoundProps b) (recur schema b) _ (sound schema b g)
          (λ (e, c) (gc, x, h).
            Post-bind (SoundProps c) (SoundProps b) (props_loop recur props ks c) _
              (props_loop-SoundProps props ks c gc)
              (λ (ps, d) (gd, y, hs). (gd, Extends-trans b c d x y, (IsExpr-mono c d y e h, hs)))))

  array-Sound :
      (schema : Fields) (b : Builder) → IsGrammar b → Post (Sound b) (array recur schema b)
  unfolding array
  array-Sound schema b g =
      Post-need (Sound b) (as_object (find_field (lit "items") schema)) no_items _ (λ items.
        let b' = record b { arr_count = b.arr_count + 1 } in
        Post-bind (Sound b') (Sound b) (recur items b') _
          (sound items b' (recount b b.obj_count (b.arr_count + 1) g))
          (λ (e, c) (gc, x, h).
            let d = with_prim space c in
            let y = with_prim-Extends space c in
            rule-Sound (arr_name b.arr_count) _ b d
              (Extends-trans b c d (record { kept = x.kept; marks = x.marks }) y)
              (with_prim-IsGrammar space c gc)
              (is_array (arr_name b.arr_count) e (IsExpr-mono c d y e h)
                (use_prim-marked space c.prims))))

  object-Sound :
      (schema : Fields) (b : Builder) → IsGrammar b → Post (Sound b) (object recur schema b)
  unfolding object
  object-Sound schema b g =
      Post-need (Sound b) (as_object (find_field (lit "properties") schema)) no_properties _
        (λ props.
          let b1 = record b { obj_count = b.obj_count + 1 } in
          let b' = with_prim space b1 in
          let y = with_prim-Extends space b1 in
          Post-bind (SoundProps b') (Sound b)
            (props_loop recur props (sort_strings (keys props)) b') _
            (props_loop-SoundProps props (sort_strings (keys props)) b'
              (with_prim-IsGrammar space b1 (recount b (b.obj_count + 1) b.arr_count g)))
            (λ (ps, c) (gc, x, h).
              rule-Sound (obj_name b.obj_count) _ b c
                (Extends-trans b b' c (record { kept = y.kept; marks = y.marks }) x) gc
                (is_object (obj_name b.obj_count) ps h
                  (x.marks space (use_prim-marked space b.prims)))))

  typed-Sound :
      (typ : Text) (schema : Fields) (b : Builder)
      → IsGrammar b
      → Post (Sound b) (typed recur typ schema b)
  unfolding typed
  typed-Sound typ schema b g = if-Sound (text_eq typ (lit "string")) _ _ (prim-Sound string b g) (
      if-Sound (text_eq typ (lit "integer")) _ _ (prim-Sound integer b g) (
        if-Sound (text_eq typ (lit "number")) _ _ (prim-Sound number b g) (
          if-Sound (text_eq typ (lit "boolean")) _ _ (prim-Sound boolean b g) (
            if-Sound (text_eq typ (lit "object")) _ _ (object-Sound schema b g)
              (if-Sound (text_eq typ (lit "array")) _ _ (array-Sound schema b g) tt)))))
    where
      if-Sound :
          (t : Bool) (x y : Emitted)
          → Post (Sound b) x
          → Post (Sound b) y
          → Post (Sound b) (if t then x else y)
      if-Sound true x y hx hy = hx
      if-Sound false x y hx hy = hy

  by_enum-Sound :
      (o : Option Json) (schema : Fields) (b : Builder)
      → IsGrammar b
      → Post (Sound b) (by_enum recur o schema b)
  unfolding by_enum
  by_enum-Sound (some raw) schema b g = enum-Sound raw b g
  by_enum-Sound none schema b g =
      typed-Sound (as_string (find_field (lit "type") schema)) schema b g

  by_alternatives-Sound :
      (o : Option Json) (schema : Fields) (b : Builder)
      → IsGrammar b
      → Post (Sound b) (by_alternatives recur o schema b)
  unfolding by_alternatives
  by_alternatives-Sound (some alts) schema b g = union-Sound alts b g
  by_alternatives-Sound none schema b g = by_enum-Sound (find_field (lit "enum") schema) schema b g

  by_keyword-Sound :
      (o : Option Text) (schema : Fields) (b : Builder)
      → IsGrammar b
      → Post (Sound b) (by_keyword recur o schema b)
  unfolding by_keyword
  by_keyword-Sound (some k) schema b g = tt
  by_keyword-Sound none schema b g =
      by_alternatives-Sound (first_present schema alternative_keywords) schema b g

pub value-Sound :
    (fuel : ℕ) (schema : Fields) (b : Builder) → IsGrammar b → Post (Sound b) (value fuel schema b)
unfolding value value_step
value-Sound zero schema b g = tt
value-Sound (suc fuel) schema b g =
    by_keyword-Sound (value fuel) (value-Sound fuel) (first_unsupported schema unsupported_keywords)
      schema b g

new_builder-IsGrammar : IsGrammar new_builder
new_builder-IsGrammar = record { rules_ok = tt; prims_ok = λ p h. ground arith }

pub schema_to_gbnf_closed :
    (schema : Fields) (text : Text)
    → schema_to_gbnf schema ≡ done text
    → (root : Text) × (b : Builder) × IsGrammar b
      × AreDefined b.prims
      × IsExpr b root
      × (text ≡ grammar_text root b)
unfolding schema_to_gbnf
schema_to_gbnf_closed schema text h =
    let run = value (suc (depth_fields schema)) schema new_builder in
    let ((root, b), e, f) = >>=-eq-done run (λ (root, b). done (grammar_text root b)) h in
    let (g, x, r) =
      Post-done (Sound new_builder) run (root, b) e
        (value-Sound (suc (depth_fields schema)) schema new_builder new_builder-IsGrammar) in
    (
      root,
      b,
      g,
      prims-AreDefined b.prims g.prims_ok,
      r,
      sym (done_injective (grammar_text root b) text f),
    )
