-- ===== src/Common/All.antt =====
-- A predicate of every element of a list.
use go_ai_proxy.Common.{List, [], ◌∷◌, ◌++◌}

module _ {ℓ κ} {A : Type ℓ} where
  abbrev pub All : (A → Type κ) → List A → Type κ
  All P [] = Unit
  All P (x ∷ xs) = P x × All P xs

module _ {ℓ κ} {A : Type ℓ} (P : A → Type κ) where
  pub All-append : (xs ys : List A) → All P xs → All P ys → All P (xs ++ ys)
  All-append [] ys hx hy = hy
  All-append (x ∷ xs) ys hx hy = (hx.0, All-append xs ys hx.1 hy)

  -- The element between two lists, and the lists without it.
  pub All-middle : (xs ys : List A) (a : A) → All P (xs ++ a ∷ ys) → P a × All P (xs ++ ys)
  All-middle [] ys a h = h
  All-middle (x ∷ xs) ys a h = let (p, rest) = All-middle xs ys a h.1 in (p, (h.0, rest))

  pub All-insert : (xs ys : List A) (a : A) → P a → All P (xs ++ ys) → All P (xs ++ a ∷ ys)
  All-insert [] ys a p h = (p, h)
  All-insert (x ∷ xs) ys a p h = (h.0, All-insert xs ys a p h.1)

module _ {ℓ κ μ} {A : Type ℓ} {P : A → Type κ} {Q : A → Type μ} where
  pub All-mono : ((a : A) → P a → Q a) → (xs : List A) → All P xs → All Q xs
  All-mono f [] h = tt
  All-mono f (x ∷ xs) h = (f x h.0, All-mono f xs h.1)
