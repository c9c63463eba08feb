-- ===== src/Server/Handlers/Records.antt =====
-- internal/server/server.go and audit.go: which records a request leaves in the audit log.
use mathlib.Core.List.{map}
use go_ai_proxy.Common.{
  ℕ, ◌≡◌, refl, Bool, Option, none, some, List, [], ◌∷◌, ◌++◌, keep, inl, inr, is_nil, Bool-cases,
}
use go_ai_proxy.Common.Text.{Text}
use go_ai_proxy.Domain.{ProviderId, Usage, Request, Response, EmbedRequest, EmbedResponse}
use go_ai_proxy.Metrics.{Metrics}
use go_ai_proxy.Provider.Errors.{ProviderError}
use go_ai_proxy.Provider.OpenAi.{Result, ok, err}
use go_ai_proxy.Registry.Route.{Candidate}
use go_ai_proxy.Server.{Fanout, try_all, fail_candidate, succeed_candidate}
use go_ai_proxy.Server.Audit.{
  Level, info, error, Entry, is_visible, audit_chat, audit_embeddings, audit_stream_start,
  audit_stream_end, audit_client_disconnect,
}

abbrev level_of : Entry → Level
level_of e = e.level

-- The levels of the records above debug level.
abbrev pub levels : List Entry → List Level
levels entries = map level_of (keep is_visible entries)

module _ (enabled : Bool) (id : Text) where
  pub chat-levels :
      (req : Request) (resp : Option Response) (ms : ℕ)
      → (levels (audit_chat (some enabled) id req resp none ms) ≡ info ∷ [])
        × ((e : Text) → levels (audit_chat (some enabled) id req resp (some e) ms) ≡ error ∷ [])
  unfolding audit_chat
  chat-levels req resp ms = elim (Bool-cases enabled) [
    | inl b ↦ rw b (refl, λ e. refl)
    | inr b ↦ rw b (refl, λ e. refl)
  ]

  pub embed-levels :
      (req : EmbedRequest) (resp : Option EmbedResponse) (ms : ℕ)
      → (levels (audit_embeddings (some enabled) id req resp none ms) ≡ info ∷ [])
        × ((e : Text)
            → levels (audit_embeddings (some enabled) id req resp (some e) ms) ≡ error ∷ [])
  unfolding audit_embeddings
  embed-levels req resp ms = elim (Bool-cases enabled) [
    | inl b ↦ rw b (refl, λ e. refl)
    | inr b ↦ rw b (refl, λ e. refl)
  ]

  pub stream-levels :
      (req : Request) (model reason content : Text) (ms ttft : ℕ) (usage : Option Usage)
      → levels (
          audit_stream_start (some enabled) id req
          ++ audit_stream_end (some enabled) id model ms usage reason ttft content)
        ≡ info ∷ info ∷ []
  unfolding audit_stream_start audit_stream_end
  stream-levels req model reason content ms ttft usage = elim (Bool-cases enabled) [
    | inl b ↦ elim (Bool-cases (is_nil content)) [ inl c ↦ rw (b, c) | inr c ↦ rw (b, c) ]
    | inr b ↦ rw b
  ]

  pub disconnect-levels :
      (model : Text) (ms : ℕ)
      → levels (audit_client_disconnect (some enabled) id model ms) ≡ info ∷ []
  unfolding audit_client_disconnect
  disconnect-levels model ms = refl

-- The loop has an answer or an error.
abbrev pub IsSettled : {A : Type 0} → Fanout A → Type 0
IsSettled f = f.response ≡ none → (e : ProviderError) × (f.last_err ≡ some e)

module _ {A W : Type 0} (name : ProviderId → Text) (call : Candidate → W → W × (Result A × ℕ))
    (on_success : Candidate → ℕ → A → Metrics → Metrics) where
  IsSettled-call :
      (c : Candidate) (cs : List Candidate) (f : Fanout A) (r : W × (Result A × ℕ))
      → ((w : W) (g : Fanout A) → IsSettled g → IsSettled (try_all name call on_success cs w g).1)
      → IsSettled
          (elim r.1.0 as (λ _. W × Fanout A) [
            | ok a ↦ (r.0, succeed_candidate name call on_success c a r.1.1 f)
            | err e ↦ try_all name call on_success cs r.0 (fail_candidate name c e r.1.1 f)
          ]).1
  unfolding fail_candidate succeed_candidate
  IsSettled-call c cs f (w, (ok a, ms)) later = λ h. absurd (cc h)
  IsSettled-call c cs f (w, (err e, ms)) later = later w _ (λ h. (e, refl))

  try_all-IsSettled :
      (cs : List Candidate) (w : W) (f : Fanout A)
      → IsSettled f
      → IsSettled (try_all name call on_success cs w f).1
  unfolding try_all
  try_all-IsSettled [] w f h = h
  try_all-IsSettled (c ∷ cs) w f h =
      IsSettled-call c cs f (call c w) (λ w' g i. try_all-IsSettled cs w' g i)

  pub settled :
      (c : Candidate) (cs : List Candidate) (w : W) (f : Fanout A)
      → IsSettled (try_all name call on_success (c ∷ cs) w f).1
  unfolding try_all
  settled c cs w f = IsSettled-call c cs f (call c w) (λ w' g i. try_all-IsSettled cs w' g i)
