-- ===== src/Common/Json.antt =====
-- What `encoding/json` decodes into an `any`: a value of one of the six kinds, an object being a map
-- with one entry for each key. A number is its text, which nothing here reads.
use Prim.Native.Nat.{max}
use go_ai_proxy.Common.{
  ℕ, suc, ◌≤◌, ◌≡◌, refl, Bool, Option, none, some, List, [], ◌∷◌, arith, if◌then◌else◌, Bool-cases,
  inl, inr, ap,
}
use go_ai_proxy.Common.All.{All, All-mono}
use go_ai_proxy.Common.Eq.{nat_eq, list_beq_iff}
use go_ai_proxy.Common.Text.{Text, text_eq}

mutual
  -- The entries of a map.
  pub data Fields : Type 0 where
    end : Fields
    field : Text → Json → Fields → Fields

  -- The elements of a slice.
  pub data Items : Type 0 where
    nil : Items
    cons : Json → Items → Items

  pub data Json : Type 0 where
    obj : Fields → Json
    arr : Items → Json
    str : Text → Json
    num : Text → Json
    bool : Bool → Json
    null : Json

-- How deep objects are nested in one another.
unfoldable mutual
  pub depth_fields : Fields → ℕ
  depth_fields (field key value rest) = max (depth value) (depth_fields rest)
  depth_fields end = 0

  pub depth_items : Items → ℕ
  depth_items (cons first rest) = max (depth first) (depth_items rest)
  depth_items nil = 0

  pub depth : Json → ℕ
  depth (obj fields) = suc (depth_fields fields)
  depth (arr items) = depth_items items
  depth _ = 0

-- The elements of a `[]any`.
abbrev pub elements : Items → List Json
elements nil = []
elements (cons x xs) = x ∷ elements xs

-- The keys of a map, in some order.
abbrev pub keys : Fields → List Text
keys end = []
keys (field k v fs) = k ∷ keys fs

-- m[k]
unfoldable pub find_field : Text → Fields → Option Json
find_field key end = none
find_field key (field k v fs) = if text_eq k key then some v else find_field key fs

-- v.(map[string]any)
abbrev pub as_object : Option Json → Option Fields
as_object (some (obj fs)) = some fs
as_object _ = none

-- s, _ := v.(string)
abbrev pub as_string : Option Json → Text
as_string (some (str s)) = s
as_string _ = []

pub depth-find_field :
    (key : Text) (fs : Fields) (v : Json) → find_field key fs ≡ some v → depth v ≤ depth_fields fs
unfolding find_field depth
depth-find_field key end v h = ground arith
depth-find_field key (field k w fs) v h = elim (Bool-cases (text_eq k key)) [
  | inl e ↦
      let found : some w ≡ some v = rw e at h in
      let same : w ≡ v = cc found in omega (arith, ap depth same)
  | inr e ↦
      let later : find_field key fs ≡ some v = rw e at h in
      omega (arith, depth-find_field key fs v later)
]

pub depth-elements : (xs : Items) → All (λ x. depth x ≤ depth (arr xs)) (elements xs)
unfolding depth
depth-elements nil = tt
depth-elements (cons x xs) =
    (omega arith, All-mono (λ y h. omega arith) (elements xs) (depth-elements xs))

-- m[key] = v
unfoldable pub set_field : Text → Json → Fields → Fields
set_field key v end = field key v end
set_field key v (field k w fs) =
    if text_eq k key then field k v fs else field k w (set_field key v fs)

-- delete(m, key)
unfoldable pub delete_field : Text → Fields → Fields
delete_field key end = end
delete_field key (field k w fs) =
    let rest = delete_field key fs in if text_eq k key then rest else field k w rest

pub find_field-set_field :
    (asked key : Text) (v : Json) (fs : Fields)
    → find_field asked (set_field key v fs)
      ≡ (if text_eq key asked then some v else find_field asked fs)
unfolding find_field set_field
find_field-set_field asked key v end = refl
find_field-set_field asked key v (field k w fs) =
    let same = list_beq_iff k key in
    let first = list_beq_iff k asked in
    let new = list_beq_iff key asked in
    ground (arith, find_field-set_field asked key v fs, same, first, new)

pub find_field-delete_field :
    (asked key : Text) (fs : Fields)
    → find_field asked (delete_field key fs)
      ≡ (if text_eq key asked then none else find_field asked fs)
unfolding find_field delete_field
find_field-delete_field asked key end = ground arith
find_field-delete_field asked key (field k w fs) =
    let same = list_beq_iff k key in
    let first = list_beq_iff k asked in
    let new = list_beq_iff key asked in
    ground (arith, find_field-delete_field asked key fs, same, first, new)

pub find_field-set_same :
    (key : Text) (v : Json) (fs : Fields) → find_field key (set_field key v fs) ≡ some v
find_field-set_same key v fs =
    ground (arith, find_field-set_field key key v fs, list_beq_iff key key)

-- encoding/json on the body of a request: `unmarshal` into a `map[string]any`, which JSON's null
-- leaves nil (`some none`), and `marshal` of such a map.
pub record JsonCodec : Type 0 where
  pub unmarshal : Text → Option (Option Fields)
  pub marshal : Fields → Text
