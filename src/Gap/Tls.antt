-- ===== src/Gap/Tls.antt =====
-- buildProvider in cmd/gap/main.go: which providers go without the verification of certificates.
pub mod Build
use go_ai_proxy.Common.{
  ℕ, ◌≡◌, refl, Bool, true, false, not, ◌&&◌, ◌||◌, Option, none, some, List, [], ◌∷◌, ◌++◌, arith,
  ◌==◌, is_nil, or_default, any, if◌then◌else◌, ap, ◌∙◌, sym, Bool-cases, inl, inr,
}
use go_ai_proxy.Common.Text.{Text, lit, text_eq}
use go_ai_proxy.Common.Eq.{list_beq}
use go_ai_proxy.Common.Int64.{is_positive}
use go_ai_proxy.Common.Json.{JsonCodec, Fields}
use go_ai_proxy.Domain.{Model, Schema}
use go_ai_proxy.Provider.Errors.{ProviderError, other}
use go_ai_proxy.Provider.OpenAi.{
  Result, ok, err, ◌>>=◌, >>=-eq-ok, if_err-eq-ok, ok_injective, RoundTrip,
}
use go_ai_proxy.Provider.OpenAi.Client as Client
use go_ai_proxy.Provider.OpenAi.Client.{
  HttpClient, default_transport, own_transport, build_http_client, HttpCall, option_of,
  apply_settings,
}
use go_ai_proxy.Provider.LmStudio as LmStudio
use go_ai_proxy.Provider.LiteLlm as LiteLlm
use go_ai_proxy.Provider.Vllm as Vllm
use go_ai_proxy.Provider.LlamaCpp as LlamaCpp
use go_ai_proxy.Gap.{ProviderConfig}
use go_ai_proxy.Gap.Build.{
  Built, openai, lmstudio, litellm, anthropic, vllm, llama_cpp, insecure, key_of, build_provider,
  by_kind, openai_settings, lmstudio_settings, litellm_settings, vllm_config, llama_config,
  needs_url, needs_capabilities, refuse, build_authenticator, tls_kinds,
}

abbrev pub unchecked : HttpClient → Bool
unchecked default_transport = false
unchecked (own_transport timeout t) = t

-- The clients that a provider calls with; the Anthropic SDK's is not set up here.
abbrev pub clients : Built → List HttpClient
clients (openai p) = p.client ∷ []
clients (lmstudio p) = p.client ∷ p.inner.client ∷ []
clients (litellm p) = p.client ∷ p.inner.client ∷ []
clients (anthropic name a timeout) = []
clients (vllm p) = p.inner.client ∷ []
clients (llama_cpp p) = p.inner.client ∷ []

-- Each client of the provider verifies certificates just if `t` is false.
abbrev pub AllUnchecked : Bool → List HttpClient → Type 0
AllUnchecked t [] = Unit
AllUnchecked t (c ∷ cs) = (unchecked c ≡ t) × AllUnchecked t cs

client_unchecked : (timeout : ℕ) (t : Bool) → unchecked (build_http_client timeout t) ≡ t
unfolding build_http_client
client_unchecked timeout true = ground arith
client_unchecked timeout false = ground arith

-- Of the optional settings only the last is about certificates.
settings_insecure :
    (a b c : Bool) (key : Text) (d : ℕ) (p : Client.Provider)
    → let q =
        apply_settings
          (option_of a (Client.with_api_key key)
            ++ (option_of b (Client.with_timeout d) ++ option_of c (Client.with_tls_insecure true)))
          p in
      q.tls_insecure ≡ (c || p.tls_insecure)
settings_insecure a b c key d p = ground arith

settings_insecure_mutator :
    (a b c : Bool) (key : Text) (d : ℕ) (m : Client.Mutator) (p : Client.Provider)
    → let q =
        apply_settings
          (option_of a (Client.with_api_key key)
            ++ (option_of b (Client.with_timeout d)
                ++ (option_of c (Client.with_tls_insecure true)
                    ++ (Client.with_request_body_mutator m ∷ []))))
          p in
      q.tls_insecure ≡ (c || p.tls_insecure)
settings_insecure_mutator a b c key d m p = ground arith

or_false : (t : Bool) → (t || false) ≡ t
or_false true = refl
or_false false = refl

abbrev bare : Text → Client.Provider
bare url = record {
  name = [];
  base_url = url;
  api_key = [];
  timeout = 0;
  tls_insecure = false;
  mutator = none;
  client = default_transport;
}

unchecked-new :
    (url : Text) (settings : List Client.Setting) (t : Bool)
    → (let q = apply_settings settings (bare url) in q.tls_insecure) ≡ (t || false)
    → unchecked (Client.new url settings).client ≡ t
unfolding Client.new
unchecked-new url settings t h =
    let q = apply_settings settings (bare url) in
    client_unchecked q.timeout q.tls_insecure ∙ h ∙ or_false t

inner_lm_unchecked :
    (url : Text) (q : LmStudio.LmStudio)
    → unchecked (Client.new url (LmStudio.lm_settings q)).client ≡ q.tls_insecure
inner_lm_unchecked url q =
    unchecked-new url (LmStudio.lm_settings q) q.tls_insecure
      (only_last (is_positive q.timeout) q.tls_insecure q.timeout _)
  where
    only_last :
        (b c : Bool) (d : ℕ) (p : Client.Provider)
        → let r =
            apply_settings
              (option_of b (Client.with_timeout d) ++ option_of c (Client.with_tls_insecure true))
              p in
          r.tls_insecure ≡ (c || p.tls_insecure)
    only_last b c d p = ground arith

inner_lite_unchecked :
    (url : Text) (q : LiteLlm.LiteLlm)
    → unchecked (Client.new url (LiteLlm.lite_settings q)).client ≡ q.tls_insecure
inner_lite_unchecked url q = unchecked-new url (LiteLlm.lite_settings q) q.tls_insecure (
    settings_insecure (not (is_nil q.api_key)) (is_positive q.timeout) q.tls_insecure q.api_key
      q.timeout _)

lm_insecure :
    (b c : Bool) (d : ℕ) (p : LmStudio.LmStudio)
    → let q =
        apply_settings
          (option_of b (LmStudio.set_timeout d) ++ option_of c (LmStudio.set_tls_insecure true))
          p in
      q.tls_insecure ≡ (c || p.tls_insecure)
lm_insecure b c d p = ground arith

lite_insecure :
    (a b c : Bool) (key : Text) (d : ℕ) (p : LiteLlm.LiteLlm)
    → let q =
        apply_settings
          (option_of a (LiteLlm.set_api_key key)
            ++ (option_of b (LiteLlm.set_timeout d) ++ option_of c (LiteLlm.set_tls_insecure true)))
          p in
      q.tls_insecure ≡ (c || p.tls_insecure)
lite_insecure a b c key d p = ground arith

module _ (expand : Text → Text) (pc : ProviderConfig) where
  pub openai-AllUnchecked :
      AllUnchecked
        (insecure pc)
        (clients (openai (Client.new pc.base_url (openai_settings expand pc))))
  openai-AllUnchecked = (
    unchecked-new pc.base_url (openai_settings expand pc) (insecure pc) (
        settings_insecure (not (is_nil (key_of expand pc.auth))) (is_positive pc.timeout)
          (insecure pc) (key_of expand pc.auth) pc.timeout _),
    tt,
  )

  pub lmstudio-AllUnchecked :
      AllUnchecked
        (insecure pc)
        (clients (lmstudio (LmStudio.new pc.base_url (lmstudio_settings expand pc))))
  unfolding LmStudio.new build_http_client
  lmstudio-AllUnchecked =
      let set =
        lm_insecure (is_positive pc.timeout) (insecure pc) pc.timeout _ ∙ or_false (insecure pc) in
      let q = apply_settings (lmstudio_settings expand pc) (LmStudio.start pc.base_url) in
      (
        client_unchecked q.timeout q.tls_insecure ∙ set,
        (inner_lm_unchecked pc.base_url q ∙ set, tt),
      )

  pub litellm-AllUnchecked :
      AllUnchecked
        (insecure pc)
        (clients (litellm (LiteLlm.new pc.base_url (litellm_settings expand pc))))
  unfolding LiteLlm.new build_http_client
  litellm-AllUnchecked =
      let set =
        lite_insecure (not (is_nil (key_of expand pc.auth))) (is_positive pc.timeout) (insecure pc)
          (key_of expand pc.auth) pc.timeout _
        ∙ or_false (insecure pc) in
      let q = apply_settings (litellm_settings expand pc) (LiteLlm.start pc.base_url) in
      (
        client_unchecked q.timeout q.tls_insecure ∙ set,
        (inner_lite_unchecked pc.base_url q ∙ set, tt),
      )

pub vllm_unchecked :
    (json : JsonCodec) (cfg : Vllm.Config)
    → unchecked (Client.new cfg.base_url (Vllm.inner_settings json cfg)).client ≡ cfg.tls_insecure
vllm_unchecked json cfg =
    unchecked-new cfg.base_url (Vllm.inner_settings json cfg) cfg.tls_insecure (
      settings_insecure_mutator (not (is_nil cfg.api_key)) (is_positive cfg.timeout)
        cfg.tls_insecure cfg.api_key cfg.timeout (Vllm.mutator json cfg) _)

pub llama_unchecked :
    (json : JsonCodec) (schema_map : Schema → Fields) (cfg : LlamaCpp.Config)
    → unchecked (Client.new cfg.base_url (LlamaCpp.inner_settings json schema_map cfg)).client
      ≡ cfg.tls_insecure
llama_unchecked json schema_map cfg =
    unchecked-new cfg.base_url (LlamaCpp.inner_settings json schema_map cfg) cfg.tls_insecure (
      settings_insecure (not (is_nil cfg.api_key)) (is_positive cfg.timeout) cfg.tls_insecure
        cfg.api_key cfg.timeout _)
