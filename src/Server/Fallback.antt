-- ===== src/Server/Fallback.antt =====
-- The loop over the candidates in internal/server/server.go as a sequence of calls: failures, then at
-- most one answer.
use go_ai_proxy.Common.{
  ap, map, ℕ, ◌≡◌, refl, inl, inr, ◌⊎◌, Option, none, some, List, [], ◌∷◌, ◌++◌, arith,
}
use go_ai_proxy.Common.Text.{Text}
use go_ai_proxy.Domain.{ProviderId}
use go_ai_proxy.Metrics.{Metrics}
use go_ai_proxy.Provider.Errors.{ProviderError}
use go_ai_proxy.Provider.OpenAi.{Result, ok, err}
use go_ai_proxy.Registry.Route.{Candidate}
use go_ai_proxy.Server.{Fanout, fail_candidate, succeed_candidate, try_all}

-- A candidate that failed, its error and the time of the failure.
abbrev pub Failure : Type 0
Failure = Candidate × (ProviderError × ℕ)

abbrev pub candidate_of : Failure → Candidate
candidate_of (c, f) = c

abbrev pub errors_of : List Failure → List ProviderError
errors_of [] = []
errors_of ((c, (e, ms)) ∷ fs) = e ∷ errors_of fs

module _ {ℓ} {A : Type ℓ} (name : ProviderId → Text) where
  -- The variables of the loop after these failures.
  abbrev pub note_failures : List Failure → Fanout A → Fanout A
  note_failures [] f = f
  note_failures ((c, (e, ms)) ∷ fs) f = note_failures fs (fail_candidate name c e ms f)

module _ {ℓ κ} {A : Type ℓ} {W : Type κ} (name : ProviderId → Text)
    (call : Candidate → W → W × (Result A × ℕ))
    (on_success : Candidate → ℕ → A → Metrics → Metrics) where
  -- The calls of a loop: the failures in order, then the candidate that answered, if one did, with
  -- its answer and the time of it. The world goes from one call to the next.
  pub data Run
      : List Candidate → W → List Failure → W → Option (Candidate × (A × ℕ)) → Type (ℓ ⊔ κ) where
    nobody : {w : W} → Run [] w [] w none
    answered :
        {c : Candidate} {post : List Candidate} {w w' : W} {a : A} {ms : ℕ}
        → call c w ≡ (w', (ok a, ms))
        → Run (c ∷ post) w [] w' (some (c, (a, ms)))
    failed :
        {c : Candidate} {cs : List Candidate} {w w' w'' : W} {e : ProviderError} {ms : ℕ}
        {fs : List Failure} {r : Option (Candidate × (A × ℕ))}
        → call c w ≡ (w', (err e, ms))
        → Run cs w' fs w'' r
        → Run (c ∷ cs) w ((c, (e, ms)) ∷ fs) w'' r

  abbrev pub note_answer : Option (Candidate × (A × ℕ)) → Fanout A → Fanout A
  note_answer none f = f
  note_answer (some (c, (a, ms))) f = succeed_candidate name call on_success c a ms f

  -- The candidates that were called are the first ones, in order: all of them when none answered.
  abbrev pub called : List Failure → Option (Candidate × (A × ℕ)) → List Candidate
  called fs none = map candidate_of fs
  called fs (some (c, r)) = map candidate_of fs ++ c ∷ []

  pub try_all-Run :
      (cs : List Candidate) (w w' : W) (fs : List Failure) (r : Option (Candidate × (A × ℕ)))
      (f : Fanout A)
      → Run cs w fs w' r
      → try_all name call on_success cs w f ≡ (w', note_answer r (note_failures name fs f))
  unfolding try_all
  try_all-Run _ w w' _ _ f nobody = refl
  try_all-Run _ w w' _ _ f (answered {c} {post} {a} {ms} p) = ground (arith, p)
  try_all-Run _ w w' _ _ f (failed {c} {cs} {e} {ms} {fs} {r} p h) =
      ground (arith, p, try_all-Run cs _ w' fs r (fail_candidate name c e ms f) h)

  cases-of :
      {x : W × (Result A × ℕ)} (y : W × (Result A × ℕ))
      → x ≡ y
      → ((a : A) × ((ms : ℕ) × ((w' : W) × (x ≡ (w', (ok a, ms))))))
        ⊎ ((e : ProviderError) × ((ms : ℕ) × ((w' : W) × (x ≡ (w', (err e, ms))))))
  cases-of (w', (ok a, ms)) p = inl (a, (ms, (w', p)))
  cases-of (w', (err e, ms)) p = inr (e, (ms, (w', p)))

  call-cases :
      (c : Candidate) (w : W)
      → ((a : A) × ((ms : ℕ) × ((w' : W) × (call c w ≡ (w', (ok a, ms))))))
        ⊎ ((e : ProviderError) × ((ms : ℕ) × ((w' : W) × (call c w ≡ (w', (err e, ms))))))
  call-cases c w = cases-of (call c w) refl

  pub Run-total :
      (cs : List Candidate) (w : W)
      → (fs : List Failure) × ((w' : W) × ((r : Option (Candidate × (A × ℕ))) × Run cs w fs w' r))
  Run-total [] w = ([], (w, (none, nobody)))
  Run-total (c ∷ cs) w = elim (call-cases c w) [
    | inl (a, (ms, (w', p))) ↦ ([], (w', (some (c, (a, ms)), answered p)))
    | inr (e, (ms, (w', p))) ↦
        let (fs, (w'', (r, h))) = Run-total cs w' in ((c, (e, ms)) ∷ fs, (w'', (r, failed p h)))
  ]

  -- The candidates after the one that answered; where none did there are none.
  abbrev pub uncalled : Option (Candidate × (A × ℕ)) → List Candidate → List Candidate
  uncalled none post = []
  uncalled (some r) post = post

  extend-called :
      (c : Candidate) (e : ProviderError) (ms : ℕ) (fs : List Failure)
      (r : Option (Candidate × (A × ℕ))) (post : List Candidate) {cs : List Candidate}
      → cs ≡ called fs r ++ uncalled r post
      → c ∷ cs ≡ called ((c, (e, ms)) ∷ fs) r ++ uncalled r post
  extend-called c e ms fs none post q = ap (◌∷◌ c) q
  extend-called c e ms fs (some r) post q = ap (◌∷◌ c) q

  pub Run-called :
      (cs : List Candidate) (w w' : W) (fs : List Failure) (r : Option (Candidate × (A × ℕ)))
      → Run cs w fs w' r
      → (post : List Candidate) × (cs ≡ called fs r ++ uncalled r post)
  Run-called _ w w' _ _ nobody = ([], refl)
  Run-called _ w w' _ _ (answered {post} p) = (post, refl)
  Run-called _ w w' _ _ (failed {c} {cs} {e} {ms} {fs} {r} p h) =
      let (post, q) = Run-called cs _ w' fs r h in (post, extend-called c e ms fs r post q)

  -- What a loop over `cs` from `f` comes to: calls are made on the candidates in order, up to the first
  -- that answers or to the end of the list, and their outcomes are what `try_all` ends with.
  pub try_all_lem :
      (cs : List Candidate) (w : W) (f : Fanout A)
      → (fs : List Failure) × (w' : W) × (r : Option (Candidate × (A × ℕ))) × (post : List
          Candidate)
        × Run cs w fs w' r
        × (try_all name call on_success cs w f ≡ (w', note_answer r (note_failures name fs f)))
        × (cs ≡ called fs r ++ uncalled r post)
  try_all_lem cs w f =
      let (fs, (w', (r, h))) = Run-total cs w in
      let (post, q) = Run-called cs w w' fs r h in
      (fs, w', r, post, h, try_all-Run cs w w' fs r f h, q)
