-- ===== src/Common/Sort.antt =====
-- `sort.SliceStable` by a numeric key: the stable order is unique, so insertion sort computes it.
use mathlib.Core.List.{Perm}
use mathlib.Core.List.Perm
use go_ai_proxy.Common.{
  ℕ, ◌≤◌, ◌≡◌, refl, List, [], ◌∷◌, arith, leb, ◌==◌, keep, if◌then◌else◌, Bool-cases, inl, inr, ap,
  ◌∙◌,
}
use go_ai_proxy.Common.All.{All}

module _ {ℓ} {A : Type ℓ} (key : A → ℕ) where
  unfoldable pub insert : A → List A → List A
  insert a [] = a ∷ []
  insert a (x ∷ xs) = if leb (key a) (key x) then a ∷ x ∷ xs else x ∷ insert a xs

  unfoldable pub sort_stable : List A → List A
  unfolding insert
  sort_stable [] = []
  sort_stable (x ∷ xs) = insert x (sort_stable xs)

  abbrev pub IsSorted : List A → Type 0
  IsSorted [] = Unit
  IsSorted (x ∷ xs) = All (λ y. key x ≤ key y) xs × IsSorted xs

  insert-perm : (a : A) (xs : List A) → Perm (insert a xs) (a ∷ xs)
  unfolding insert
  insert-perm a [] = Perm.refl _
  insert-perm a (x ∷ xs) = ground (
    arith,
    Perm.refl (a ∷ x ∷ xs),
    Perm.trans (Perm.cons x (insert-perm a xs)) (Perm.swap a x xs),
  )

  -- Nothing is lost or made up.
  pub sort_stable-perm : (xs : List A) → Perm (sort_stable xs) xs
  unfolding sort_stable
  sort_stable-perm [] = Perm.refl _
  sort_stable-perm (x ∷ xs) =
      Perm.trans (insert-perm x (sort_stable xs)) (Perm.cons x (sort_stable-perm xs))

  pub All-insert {μ} : (P : A → Type μ) (a : A) (xs : List A) → P a → All P xs → All P (insert a xs)
  unfolding insert
  All-insert P a [] p h = (p, tt)
  All-insert P a (x ∷ xs) p h = elim (Bool-cases (leb (key a) (key x))) [
    | inl e ↦ rw e (p, h)
    | inr e ↦ rw e (h.0, All-insert P a xs p h.1)
  ]

  pub All-sort_stable {μ} : (P : A → Type μ) (xs : List A) → All P xs → All P (sort_stable xs)
  unfolding sort_stable
  All-sort_stable P [] h = tt
  All-sort_stable P (x ∷ xs) h = All-insert P x (sort_stable xs) h.0 (All-sort_stable P xs h.1)

  All-le : (m n : ℕ) (xs : List A) → m ≤ n → All (λ y. n ≤ key y) xs → All (λ y. m ≤ key y) xs
  All-le m n [] h a = tt
  All-le m n (x ∷ xs) h a = (omega arith, All-le m n xs h a.1)

  insert-IsSorted : (a : A) (xs : List A) → IsSorted xs → IsSorted (insert a xs)
  unfolding insert
  insert-IsSorted a [] h = (tt, tt)
  insert-IsSorted a (x ∷ xs) h = elim (Bool-cases (leb (key a) (key x))) [
    | inl e ↦ rw e ((ground arith, All-le (key a) (key x) xs (ground arith) h.0), h)
    | inr e ↦ rw e (All-insert _ a xs (ground arith) h.0, insert-IsSorted a xs h.1)
  ]

  pub sort_stable-IsSorted : (xs : List A) → IsSorted (sort_stable xs)
  unfolding sort_stable
  sort_stable-IsSorted [] = tt
  sort_stable-IsSorted (x ∷ xs) = insert-IsSorted x (sort_stable xs) (sort_stable-IsSorted xs)

  keep-insert :
      (k : ℕ) (a : A) (xs : List A)
      → keep (λ y. key y == k) (insert a xs) ≡ keep (λ y. key y == k) (a ∷ xs)
  unfolding insert
  keep-insert k a [] = refl
  keep-insert k a (x ∷ xs) = ground (arith, keep-insert k a xs)

  -- Elements of one key stay in their order.
  pub keep-sort_stable :
      (k : ℕ) (xs : List A) → keep (λ y. key y == k) (sort_stable xs) ≡ keep (λ y. key y == k) xs
  unfolding sort_stable
  keep-sort_stable k [] = refl
  keep-sort_stable k (x ∷ xs) =
      keep-insert k x (sort_stable xs)
      ∙ ap (λ l. if key x == k then x ∷ l else l) (keep-sort_stable k xs)

  All-of_insert {μ} : (P : A → Type μ) (a : A) (xs : List A) → All P (insert a xs) → P a × All P xs
  unfolding insert
  All-of_insert P a [] h = (h.0, tt)
  All-of_insert P a (x ∷ xs) h = elim (Bool-cases (leb (key a) (key x))) [
    | inl e ↦ let g : P a × All P (x ∷ xs) = rw e at h in (g.0, g.1)
    | inr e ↦
        let g : P x × All P (insert a xs) = rw e at h in
        let (pa, rest) = All-of_insert P a xs g.1 in (pa, (g.0, rest))
  ]

  pub All-of_sort_stable {μ} : (P : A → Type μ) (xs : List A) → All P (sort_stable xs) → All P xs
  unfolding sort_stable
  All-of_sort_stable P [] h = tt
  All-of_sort_stable P (x ∷ xs) h =
      let (px, rest) = All-of_insert P x (sort_stable xs) h in (px, All-of_sort_stable P xs rest)
