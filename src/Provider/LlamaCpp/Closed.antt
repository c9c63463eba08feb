-- ===== src/Provider/LlamaCpp/Closed.antt =====
-- The grammars that schemaToGBNF in internal/provider/llamacpp/gbnf.go emits refer only to rules that
-- they define.
use go_ai_proxy.Common.{◌≡◌, true, Option, none, some, List, [], ◌∷◌, ◌++◌, map, arith}
use go_ai_proxy.Common.All.{All, All-mono, All-append}
use go_ai_proxy.Common.Text.{Text, lit}
use go_ai_proxy.Provider.LlamaCpp.Gbnf.{
  ◌>>=◌, need, GbnfError, Prim, space, char, string, integral_part, decimal_part, number, integer,
  boolean, prim_name, prim_deps, marked, Builder, Outcome, done, failed, use_prim, with_prim,
  gbnf_json_string, alternatives, array_rule, object_rule, with_rule, use_fuel,
}
use go_ai_proxy.Common.Eq.{nat_eq, contains, list_eq, eq_refl}

abbrev pub definition : Text → Text → Text
definition name body = name ++ (lit " ::= " ++ body)

-- The texts that are expressions over the rules and the primitives of a builder: a marked primitive,
-- the name of one of its rules, a list of string terminals or of expressions.
mutual
  pub data IsExpr (b : Builder) : Text → Type 0 where
    prim_expr : (p : Prim) → marked p b.prims ≡ true → IsExpr b (prim_name p)
    rule_expr : (name body : Text) → contains b.rules (definition name body) ≡ true → IsExpr b name
    enum_expr : (vs : List Text) → IsExpr b (alternatives (map gbnf_json_string vs))
    union_expr : (es : List Text) → AreExprs b es → IsExpr b (alternatives es)

  pub data AreExprs (b : Builder) : List Text → Type 0 where
    no_exprs : AreExprs b []
    more_exprs : (e : Text) (es : List Text) → IsExpr b e → AreExprs b es → AreExprs b (e ∷ es)

-- A rule is an array of an expression, or an object whose properties have expressions.
pub data IsRule (b : Builder) : Text → Type 0 where
  is_array :
      (name e : Text) → IsExpr b e → marked space b.prims ≡ true → IsRule b (array_rule name e)
  is_object :
      (name : Text) (ps : List (Text × Text))
      → All (λ p. IsExpr b p.1) ps
      → marked space b.prims ≡ true
      → IsRule b (object_rule name ps)

-- With a primitive, those that its definition is said to depend on.
abbrev pub IsClosed : List Prim → Type 0
IsClosed ps = (p : Prim) → marked p ps ≡ true → All (λ d. marked d ps ≡ true) (prim_deps p)

pub record IsGrammar (b : Builder) : Type 0 where
  pub rules_ok : All (IsRule b) b.rules
  pub prims_ok : IsClosed b.prims

-- What a builder has defined stays.
pub record Extends (b c : Builder) : Type 0 where
  pub kept : (r : Text) → contains b.rules r ≡ true → contains c.rules r ≡ true
  pub marks : (p : Prim) → marked p b.prims ≡ true → marked p c.prims ≡ true

pub Extends-refl : (b : Builder) → Extends b b
Extends-refl b = record { kept = λ r h. h; marks = λ p h. h }

pub Extends-trans : (a b c : Builder) → Extends a b → Extends b c → Extends a c
Extends-trans a b c f g = record {
  kept = λ r h. g.kept r (f.kept r h);
  marks = λ p h. g.marks p (f.marks p h);
}

mutual
  pub IsExpr-mono : (b c : Builder) (x : Extends b c) (e : Text) → IsExpr b e → IsExpr c e
  IsExpr-mono b c x _ (prim_expr p h) = prim_expr p (x.marks p h)
  IsExpr-mono b c x _ (rule_expr name body m) =
      rule_expr name body (x.kept (definition name body) m)
  IsExpr-mono b c x _ (enum_expr vs) = enum_expr vs
  IsExpr-mono b c x _ (union_expr es h) = union_expr es (AreExprs-mono b c x es h)

  AreExprs-mono : (b c : Builder) (x : Extends b c) (es : List Text) → AreExprs b es → AreExprs c es
  AreExprs-mono b c x _ no_exprs = no_exprs
  AreExprs-mono b c x _ (more_exprs e es h hs) =
      more_exprs e es (IsExpr-mono b c x e h) (AreExprs-mono b c x es hs)

pub IsRule-mono : (b c : Builder) (x : Extends b c) (r : Text) → IsRule b r → IsRule c r
IsRule-mono b c x _ (is_array name e h m) =
    is_array name e (IsExpr-mono b c x e h) (x.marks space m)
IsRule-mono b c x _ (is_object name ps h m) =
    is_object name ps (All-mono (λ p g. IsExpr-mono b c x p.1 g) ps h) (x.marks space m)

contains-append :
    (rs ss : List Text) (r : Text) → contains rs r ≡ true → contains (rs ++ ss) r ≡ true
contains-append [] ss r h = ground arith
contains-append (x ∷ rs) ss r h = ground (arith, contains-append rs ss r)

pub contains-last : (rs : List Text) (r : Text) → contains (rs ++ (r ∷ [])) r ≡ true
contains-last [] r = ground (arith, eq_refl r)
contains-last (x ∷ rs) r = ground (arith, contains-last rs r)

-- Marking a primitive keeps the marks, marks it, and keeps the set closed.
pub use_prim-marks :
    (p q : Prim) (ps : List Prim) → marked q ps ≡ true → marked q (use_prim p ps) ≡ true
unfolding use_prim use_fuel
use_prim-marks space q ps h = ground arith
use_prim-marks char q ps h = ground arith
use_prim-marks string q ps h = ground arith
use_prim-marks integral_part q ps h = ground arith
use_prim-marks decimal_part q ps h = ground arith
use_prim-marks number q ps h = ground arith
use_prim-marks integer q ps h = ground arith
use_prim-marks boolean q ps h = ground arith

pub use_prim-marked : (p : Prim) (ps : List Prim) → marked p (use_prim p ps) ≡ true
unfolding use_prim use_fuel
use_prim-marked space ps = ground arith
use_prim-marked char ps = ground arith
use_prim-marked string ps = ground arith
use_prim-marked integral_part ps = ground arith
use_prim-marked decimal_part ps = ground arith
use_prim-marked number ps = ground arith
use_prim-marked integer ps = ground arith
use_prim-marked boolean ps = ground arith

abbrev DepsMarked : List Prim → Type 0
DepsMarked ps =
    (marked string ps ≡ true → marked char ps ≡ true)
    × (marked number ps ≡ true → marked integral_part ps ≡ true)
    × (marked number ps ≡ true → marked decimal_part ps ≡ true)
    × (marked integer ps ≡ true → marked integral_part ps ≡ true)

use_prim-DepsMarked : (p : Prim) (ps : List Prim) → DepsMarked ps → DepsMarked (use_prim p ps)
unfolding use_prim use_fuel
use_prim-DepsMarked space ps h = ground arith
use_prim-DepsMarked char ps h = ground arith
use_prim-DepsMarked string ps h = ground arith
use_prim-DepsMarked integral_part ps h = ground arith
use_prim-DepsMarked decimal_part ps h = ground arith
use_prim-DepsMarked number ps h = ground arith
use_prim-DepsMarked integer ps h = ground arith
use_prim-DepsMarked boolean ps h = ground arith

pub use_prim-IsClosed : (p : Prim) (ps : List Prim) → IsClosed ps → IsClosed (use_prim p ps)
use_prim-IsClosed p ps h q m =
    let old : DepsMarked ps =
      (λ x. (h string x).0, λ x. (h number x).0, λ x. (h number x).1.0, λ x. (h integer x).0) in
    closed_of q (use_prim p ps) (use_prim-DepsMarked p ps old) m
  where
    closed_of :
        (q : Prim) (ps : List Prim)
        → DepsMarked ps
        → marked q ps ≡ true
        → All (λ d. marked d ps ≡ true) (prim_deps q)
    closed_of string ps h m = (h.0 m, tt)
    closed_of number ps h m = (h.1 m, (h.2 m, tt))
    closed_of integer ps h m = (h.3 m, tt)
    closed_of space ps h m = tt
    closed_of char ps h m = tt
    closed_of integral_part ps h m = tt
    closed_of decimal_part ps h m = tt
    closed_of boolean ps h m = tt

-- What an outcome gives when it is no error.
abbrev pub Post {ℓ κ} : {A : Type ℓ} → (A → Type κ) → Outcome A → Type κ
Post P (done a) = P a
Post P (failed e) = Unit

pub Post-bind {ℓ κ μ ν} :
    {A : Type ℓ} {B : Type κ} (P : A → Type μ) (Q : B → Type ν)
    → (m : Outcome A) (f : A → Outcome B) → Post P m
    → ((a : A) → P a → Post Q (f a))
    → Post Q (m >>= f)
Post-bind P Q (done a) f h k = k a h
Post-bind P Q (failed e) f h k = tt

pub Post-done {ℓ κ} :
    {A : Type ℓ} (P : A → Type κ) (m : Outcome A) (a : A) → m ≡ done a → Post P m → P a
Post-done P m a e h = let g : Post P (done a) = rw e at h in g

-- Of a value that had to be there nothing else is known here.
pub Post-need {ℓ κ μ} :
    {A : Type ℓ} {B : Type κ} (Q : B → Type μ)
    → (o : Option A) (x : GbnfError) (f : A → Outcome B) → ((a : A) → Post Q (f a))
    → Post Q (need o x >>= f)
Post-need Q none x f k = tt
Post-need Q (some a) x f k = k a

-- A call of `value` on a grammar gives a grammar that extends it, and an expression over that.
abbrev pub Sound : Builder → Text × Builder → Type 0
Sound b (e, c) = IsGrammar c × Extends b c × IsExpr c e

pub with_prim-Extends : (p : Prim) (b : Builder) → Extends b (with_prim p b)
with_prim-Extends p b = record { kept = λ r h. h; marks = λ q h. use_prim-marks p q b.prims h }

pub with_prim-IsGrammar : (p : Prim) (b : Builder) → IsGrammar b → IsGrammar (with_prim p b)
with_prim-IsGrammar p b g = record {
  rules_ok = All-mono (IsRule-mono b (with_prim p b) (with_prim-Extends p b)) b.rules g.rules_ok;
  prims_ok = use_prim-IsClosed p b.prims g.prims_ok;
}

pub prim-Sound : (p : Prim) (b : Builder) → IsGrammar b → Sound b (prim_name p, with_prim p b)
prim-Sound p b g =
    (with_prim-IsGrammar p b g, with_prim-Extends p b, prim_expr p (use_prim-marked p b.prims))

with_rule-Extends : (r : Text) (b : Builder) → Extends b (with_rule r b)
with_rule-Extends r b = record {
  kept = λ s h. contains-append b.rules (r ∷ []) s h;
  marks = λ q h. h;
}

-- Adding a rule, whose name is then an expression.
pub rule-Sound :
    (name body : Text) (b c : Builder)
    → Extends b c
    → IsGrammar c
    → IsRule c (definition name body)
    → Sound b (name, with_rule (definition name body) c)
rule-Sound name body b c x g r =
    let y = with_rule-Extends (definition name body) c in
    (
      record {
        rules_ok =
            All-mono (IsRule-mono c _ y) _ (All-append (IsRule c) c.rules _ g.rules_ok (r, tt));
        prims_ok = g.prims_ok;
      },
      Extends-trans b c _ x y,
      rule_expr name body (contains-last c.rules (definition name body)),
    )
