-- ===== src/Common/In.antt =====
-- That a value is among the elements of a list, with its place kept.
use go_ai_proxy.Common.{◌≡◌, ◌⊎◌, inl, inr, List, [], ◌∷◌, ◌++◌}

module _ {A : Type 0} where
  abbrev pub In : A → List A → Type 0
  In a [] = ⊥
  In a (x ∷ xs) = (a ≡ x) ⊎ In a xs

  pub In-append_left : (a : A) (xs ys : List A) → In a xs → In a (xs ++ ys)
  In-append_left a [] ys h = absurd h
  In-append_left a (x ∷ xs) ys (inl e) = inl e
  In-append_left a (x ∷ xs) ys (inr h) = inr (In-append_left a xs ys h)

  pub In-append_right : (a : A) (xs ys : List A) → In a ys → In a (xs ++ ys)
  In-append_right a [] ys h = h
  In-append_right a (x ∷ xs) ys h = inr (In-append_right a xs ys h)

  -- An element of the list with one more at its end.
  pub In-snoc : (a b : A) (xs : List A) → In a (xs ++ b ∷ []) → In a xs ⊎ (a ≡ b)
  In-snoc a b [] (inl e) = inr e
  In-snoc a b [] (inr h) = absurd h
  In-snoc a b (x ∷ xs) (inl e) = inl (inl e)
  In-snoc a b (x ∷ xs) (inr h) = elim (In-snoc a b xs h) [ inl k ↦ inl (inr k) | inr e ↦ inr e ]
