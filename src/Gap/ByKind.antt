-- ===== src/Gap/ByKind.antt =====
-- buildProvider in cmd/gap/main.go, by the type of the provider: what each branch makes is what comes out.
use go_ai_proxy.Common.{
  ◌≡◌, Bool, true, false, not, ◌&&◌, Option, List, ℕ, is_nil, any, if◌then◌else◌,
}
use go_ai_proxy.Common.Text.{Text, lit, text_eq}
use go_ai_proxy.Common.Json.{JsonCodec, Fields}
use go_ai_proxy.Domain.{Model, Schema}
use go_ai_proxy.Provider.Errors.{other}
use go_ai_proxy.Provider.OpenAi.{Result, ok, err, ◌>>=◌, if_err-eq-ok, RoundTrip}
use go_ai_proxy.Provider.OpenAi.Client as Client
use go_ai_proxy.Provider.OpenAi.Client.{HttpCall}
use go_ai_proxy.Provider.LmStudio as LmStudio
use go_ai_proxy.Provider.LiteLlm as LiteLlm
use go_ai_proxy.Provider.Vllm as Vllm
use go_ai_proxy.Provider.LlamaCpp as LlamaCpp
use go_ai_proxy.Gap.{ProviderConfig}
use go_ai_proxy.Gap.Build.{
  Built, Authenticator, openai, lmstudio, litellm, anthropic, vllm, llama_cpp, insecure,
  build_provider, by_kind, openai_settings, lmstudio_settings, litellm_settings, vllm_config,
  llama_config, build_authenticator, tls_kinds,
}

-- What a result gives when it is no error.
abbrev Gives {ℓ κ} : {A : Type ℓ} → (A → Type κ) → Result A → Type κ
Gives P (ok a) = P a
Gives P (err e) = Unit

Gives-bind {ℓ κ μ} :
    {A : Type ℓ} {B : Type κ} (Q : B → Type μ) (m : Result A) (f : A → Result B)
    → ((a : A) → Gives Q (f a))
    → Gives Q (m >>= f)
Gives-bind Q (ok a) f k = k a
Gives-bind Q (err e) f k = tt

Gives-if {ℓ κ} :
    {A : Type ℓ} (P : A → Type κ) (t : Bool) (x y : Result A)
    → Gives P x
    → Gives P y
    → Gives P (if t then x else y)
Gives-if P true x y h k = h
Gives-if P false x y h k = k

Gives-ok {ℓ κ} : {A : Type ℓ} (P : A → Type κ) (m : Result A) (a : A) → m ≡ ok a → Gives P m → P a
Gives-ok P m a e h = let g : Gives P (ok a) = rw e at h in g

-- The provider that a constructor makes when it makes one.
abbrev pub vllm_made : JsonCodec → Vllm.Config → Vllm.Vllm
vllm_made json cfg =
    let p = Vllm.unprimed json (Vllm.with_default_key cfg) in record p { primed = true }

abbrev pub llama_made : JsonCodec → (Schema → Fields) → LlamaCpp.Config → LlamaCpp.LlamaCpp
llama_made json schema_map cfg = record {
  cfg = cfg;
  inner = Client.new cfg.base_url (LlamaCpp.inner_settings json schema_map cfg);
}

module _ (expand : Text → Text) (json : JsonCodec) (schema_map : Schema → Fields)
    (decode : Text → Option (List Model)) (http : HttpCall → RoundTrip) (pc : ProviderConfig)
    (P : Built → Type 0) where
  Gives-vllm :
      P (vllm (vllm_made json (vllm_config expand pc)))
      → Gives P (Vllm.new json decode http (vllm_config expand pc) >>= (λ p. ok (vllm p)))
  unfolding Vllm.new
  Gives-vllm h =
      let cfg = vllm_config expand pc in
      let q = Vllm.unprimed json (Vllm.with_default_key cfg) in
      after (is_nil cfg.base_url) (not cfg.discover && is_nil cfg.models)
        (Vllm.models decode http q) _ h
    where
      after :
          (s t : Bool) (ms : Result (List Model)) (p : Vllm.Vllm)
          → P (vllm p)
          → Gives P (
              (if s
                then err (other (lit "base_url is required"))
                else if t
                then err (other (lit "discover disabled and no models configured"))
                else (do l ← ms; ok p))
              >>= (λ p. ok (vllm p)))
      after true t ms p h = tt
      after false true ms p h = tt
      after false false (ok l) p h = h
      after false false (err e) p h = tt

  Gives-llama_cpp :
      P (llama_cpp (llama_made json schema_map (llama_config expand pc)))
      → Gives P (LlamaCpp.new json schema_map (llama_config expand pc) >>= (λ p. ok (llama_cpp p)))
  unfolding LlamaCpp.new
  Gives-llama_cpp h =
      let cfg = llama_config expand pc in
      after (is_nil cfg.base_url) (is_nil cfg.model_capabilities) _ h
    where
      after :
          (s t : Bool) (p : LlamaCpp.LlamaCpp)
          → P (llama_cpp p)
          → Gives P (
              (if s
                then err (other (lit "base_url is required"))
                else if t
                then err (other (lit "model_capabilities is required"))
                else ok p)
              >>= (λ p. ok (llama_cpp p)))
      after true t p h = tt
      after false true p h = tt
      after false false p h = h

  module _ (of_openai : P (openai (Client.new pc.base_url (openai_settings expand pc))))
      (of_lmstudio : P (lmstudio (LmStudio.new pc.base_url (lmstudio_settings expand pc))))
      (of_litellm : P (litellm (LiteLlm.new pc.base_url (litellm_settings expand pc))))
      (of_anthropic : (a : Authenticator) (timeout : Option ℕ) → P (anthropic pc.name a timeout))
      (of_vllm : P (vllm (vllm_made json (vllm_config expand pc))))
      (of_llama_cpp : P (llama_cpp (llama_made json schema_map (llama_config expand pc)))) where
    by_kind-Gives : Gives P (by_kind expand json schema_map decode http pc)
    unfolding by_kind
    by_kind-Gives =
        let kind = λ (k : Text). text_eq pc.kind k in
        let url = is_nil pc.base_url in
        let caps = is_nil pc.model_capabilities in
        Gives-if P (kind (lit "openai")) _ _ (Gives-if P url _ _ tt of_openai) (
          Gives-if P (kind (lit "lmstudio")) _ _ (Gives-if P url _ _ tt of_lmstudio) (
            Gives-if P (kind (lit "litellm")) _ _ (Gives-if P url _ _ tt of_litellm) (
              Gives-if P (kind (lit "anthropic")) _ _
                (Gives-bind P (build_authenticator expand pc) _ (λ a. of_anthropic a _))
                (Gives-if P (kind (lit "vllm")) _ _
                  (Gives-if P url _ _ tt (Gives-if P caps _ _ tt (Gives-vllm of_vllm)))
                  (Gives-if P (kind (lit "llama-cpp")) _ _
                    (Gives-if P url _ _ tt (Gives-if P caps _ _ tt (Gives-llama_cpp of_llama_cpp)))
                    tt)))))

    -- What holds of the provider of each branch holds of each provider that buildProvider makes.
    pub build_provider-by_kind :
        (p : Built) → build_provider expand json schema_map decode http pc ≡ ok p → P p
    unfolding build_provider
    build_provider-by_kind p h =
        let built = by_kind expand json schema_map decode http pc in
        Gives-ok P built p
          (if_err-eq-ok (insecure pc && not (any (λ k. text_eq pc.kind k) tls_kinds)) _ built p h)
          by_kind-Gives
