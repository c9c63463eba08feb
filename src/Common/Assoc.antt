-- ===== src/Common/Assoc.antt =====
-- Go's maps, as association lists with one entry for each key. The order of the entries is that of
-- the first writes; nothing that the program computes by iterating over a map depends on it.
use go_ai_proxy.Common.{
  suc, ◌≤◌, ◌≡◌, refl, Bool, Option, none, some, List, [], ◌∷◌, arith, length, if◌then◌else◌,
  is_some,
}
use go_ai_proxy.Common.Eq.{Comparable, ◌==◌}

abbrev pub Assoc {ℓ κ} : Type ℓ → Type κ → Type (ℓ ⊔ κ)
Assoc K V = List (K × V)

module _ {ℓ κ} {K : Type ℓ} {V : Type κ} ⦃e : Comparable K⦄ where
  unfoldable pub lookup : K → Assoc K V → Option V
  lookup k [] = none
  lookup k ((j, v) ∷ m) = if j == k then some v else lookup k m

  unfoldable pub insert : K → V → Assoc K V → Assoc K V
  insert k v [] = (k, v) ∷ []
  insert k v ((j, w) ∷ m) = if j == k then (j, v) ∷ m else (j, w) ∷ insert k v m

  pub lookup-insert :
      (key asked : K) (value : V) (entries : Assoc K V)
      → lookup asked (insert key value entries)
        ≡ (if key == asked then some value else lookup asked entries)
  unfolding lookup insert
  lookup-insert key asked value [] = refl
  lookup-insert key asked value ((first, other) ∷ entries) =
      let rest = lookup-insert key asked value entries in
      ground (arith, rest, e.same_iff key asked, e.same_iff first key, e.same_iff first asked)

  pub length-insert-le : (k : K) (v : V) (m : Assoc K V) → length (insert k v m) ≤ suc (length m)
  unfolding insert
  length-insert-le k v [] = omega arith
  length-insert-le k v ((j, w) ∷ m) = ground (arith, length-insert-le k v m)

  abbrev pub has_key : K → Assoc K V → Bool
  has_key k m = is_some (lookup k m)
