-- ===== src/Registry/Route/Unseen.antt =====
-- The `seen` maps of ProvidersFor and candidatesForAuto: what is appended, and that once.
use go_ai_proxy.Common.{◌≡◌, refl, false, ◌||◌, List, [], ◌∷◌, ◌++◌, arith, Bool-cases, inl, inr}
use go_ai_proxy.Common.Eq.{Comparable, contains}
use go_ai_proxy.Registry.Route.{add_unseen}

module _ {ℓ} {A : Type ℓ} ⦃e : Comparable A⦄ where
  pub contains-concat :
      (xs : List A) (p a : A) → contains (xs ++ p ∷ []) a ≡ (contains xs a || e.same p a)
  contains-concat [] p a = ground arith
  contains-concat (x ∷ xs) p a = ground (arith, contains-concat xs p a)

  pub contains-add_unseen :
      (out ps : List A) (a : A) → contains (add_unseen out ps) a ≡ (contains out a || contains ps a)
  unfolding add_unseen
  contains-add_unseen out [] a = ground arith
  contains-add_unseen out (p ∷ ps) a = elim (Bool-cases (contains out p)) [
    | inl s ↦ rw s (ground (arith, contains-add_unseen out ps a, e.same_iff p a))
    | inr s ↦
        rw s (ground (arith, contains-add_unseen (out ++ p ∷ []) ps a, contains-concat out p a))
  ]

  abbrev pub NoRepeats : List A → Type 0
  NoRepeats [] = Unit
  NoRepeats (x ∷ xs) = (contains xs x ≡ false) × NoRepeats xs

  NoRepeats-concat :
      (xs : List A) (p : A) → NoRepeats xs → contains xs p ≡ false → NoRepeats (xs ++ p ∷ [])
  NoRepeats-concat [] p h n = (refl, tt)
  NoRepeats-concat (x ∷ xs) p h n = (
    ground (arith, contains-concat xs p x, e.same_iff p x, e.same_iff x p),
    NoRepeats-concat xs p h.1 (ground arith),
  )

  pub add_unseen-NoRepeats : (out ps : List A) → NoRepeats out → NoRepeats (add_unseen out ps)
  unfolding add_unseen
  add_unseen-NoRepeats out [] h = h
  add_unseen-NoRepeats out (p ∷ ps) h = elim (Bool-cases (contains out p)) [
    | inl s ↦ rw s (add_unseen-NoRepeats out ps h)
    | inr s ↦ rw s (add_unseen-NoRepeats (out ++ p ∷ []) ps (NoRepeats-concat out p h s))
  ]
