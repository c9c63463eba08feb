-- ===== src/Gap/Target.antt =====
-- buildProvider in cmd/gap/main.go: the base URL, the key and the mutator of the OpenAI-compatible provider
-- in what is made.
use go_ai_proxy.Common.{
  ℕ, ◌≡◌, refl, Bool, true, false, not, Option, none, some, List, [], ◌∷◌, ◌++◌, arith, is_nil,
  if◌then◌else◌, ap, ◌∙◌,
}
use go_ai_proxy.Common.Text.{Text}
use go_ai_proxy.Common.Int64.{is_positive}
use go_ai_proxy.Common.Json.{JsonCodec, Fields}
use go_ai_proxy.Domain.{Schema}
use go_ai_proxy.Provider.OpenAi.Client as Client
use go_ai_proxy.Provider.OpenAi.Client.{
  HttpCall, StreamReply, default_transport, build_http_client, option_of, apply_settings, bearer,
  open_stream, mutate,
}
use go_ai_proxy.Provider.LmStudio as LmStudio
use go_ai_proxy.Provider.LiteLlm as LiteLlm
use go_ai_proxy.Provider.Vllm as Vllm
use go_ai_proxy.Provider.LlamaCpp as LlamaCpp
use go_ai_proxy.Gap.{ProviderConfig}
use go_ai_proxy.Gap.Build.{insecure, key_of, openai_settings, lmstudio_settings, litellm_settings}
use go_ai_proxy.Gap.ByKind.{vllm_made, llama_made}

-- What a provider's calls depend on, apart from its HTTP client.
pub record Target : Type 0 where
  pub url : Text
  pub key : Text
  pub mutation : Option Client.Mutator

abbrev pub target : Client.Provider → Target
target p = record { url = p.base_url; key = p.api_key; mutation = p.mutator }

abbrev pub at : Text → Text → Option Client.Mutator → Target
at url key mutation = record { url = url; key = key; mutation = mutation }

abbrev bare : Text → Client.Provider
bare url = record {
  name = [];
  base_url = url;
  api_key = [];
  timeout = 0;
  tls_insecure = false;
  mutator = none;
  client = default_transport;
}

new-target :
    (url : Text) (settings : List Client.Setting)
    → target (Client.new url settings) ≡ target (apply_settings settings (bare url))
unfolding Client.new
new-target url settings = refl

kept_key : (key : Text) → (if not (is_nil key) then key else []) ≡ key
kept_key [] = refl
kept_key (c ∷ key) = refl

-- The optional settings change the key alone of the target.
settings_target :
    (a b c : Bool) (key : Text) (d : ℕ) (p : Client.Provider)
    → target (
        apply_settings
          (option_of a (Client.with_api_key key)
            ++ (option_of b (Client.with_timeout d) ++ option_of c (Client.with_tls_insecure true)))
          p)
      ≡ at p.base_url (if a then key else p.api_key) p.mutator
settings_target a b c key d p = ground arith

settings_target_mutator :
    (a b c : Bool) (key : Text) (d : ℕ) (m : Client.Mutator) (p : Client.Provider)
    → target (
        apply_settings
          (option_of a (Client.with_api_key key)
            ++ (option_of b (Client.with_timeout d)
                ++ (option_of c (Client.with_tls_insecure true)
                    ++ (Client.with_request_body_mutator m ∷ []))))
          p)
      ≡ at p.base_url (if a then key else p.api_key) (some m)
settings_target_mutator a b c key d m p = ground arith

lm_settings_target :
    (b c : Bool) (d : ℕ) (p : Client.Provider)
    → target (
        apply_settings
          (option_of b (Client.with_timeout d) ++ option_of c (Client.with_tls_insecure true))
          p)
      ≡ target p
lm_settings_target b c d p = ground arith

lite_key :
    (a b c : Bool) (key : Text) (d : ℕ) (p : LiteLlm.LiteLlm)
    → let q =
        apply_settings
          (option_of a (LiteLlm.set_api_key key)
            ++ (option_of b (LiteLlm.set_timeout d) ++ option_of c (LiteLlm.set_tls_insecure true)))
          p in
      q.api_key ≡ (if a then key else p.api_key)
lite_key a b c key d p = ground arith

module _ (expand : Text → Text) (pc : ProviderConfig) where
  pub openai_target :
      target (Client.new pc.base_url (openai_settings expand pc))
      ≡ at pc.base_url (key_of expand pc.auth) none
  openai_target =
      let key = key_of expand pc.auth in
      new-target pc.base_url (openai_settings expand pc)
      ∙ settings_target (not (is_nil key)) (is_positive pc.timeout) (insecure pc) key pc.timeout _
      ∙ ap (λ k. at pc.base_url k none) (kept_key key)

  pub lmstudio_target :
      target (LmStudio.new pc.base_url (lmstudio_settings expand pc)).inner ≡ at pc.base_url [] none
  unfolding LmStudio.new
  lmstudio_target =
      let q = apply_settings (lmstudio_settings expand pc) (LmStudio.start pc.base_url) in
      new-target pc.base_url (LmStudio.lm_settings q)
      ∙ lm_settings_target (is_positive q.timeout) q.tls_insecure q.timeout _

  pub litellm_target :
      target (LiteLlm.new pc.base_url (litellm_settings expand pc)).inner
      ≡ at pc.base_url (key_of expand pc.auth) none
  unfolding LiteLlm.new
  litellm_target =
      let q = apply_settings (litellm_settings expand pc) (LiteLlm.start pc.base_url) in
      let key = key_of expand pc.auth in
      new-target pc.base_url (LiteLlm.lite_settings q)
      ∙ settings_target (not (is_nil q.api_key)) (is_positive q.timeout) q.tls_insecure q.api_key
          q.timeout _
      ∙ ap (λ k. at pc.base_url k none)
          (kept_key q.api_key
            ∙ lite_key (not (is_nil key)) (is_positive pc.timeout) (insecure pc) key pc.timeout _
            ∙ kept_key key)

pub llama_target :
    (json : JsonCodec) (schema_map : Schema → Fields) (cfg : LlamaCpp.Config)
    → target (llama_made json schema_map cfg).inner
      ≡ at cfg.base_url cfg.api_key (some (LlamaCpp.mutator json schema_map))
llama_target json schema_map cfg =
    new-target cfg.base_url (LlamaCpp.inner_settings json schema_map cfg)
    ∙ settings_target (not (is_nil cfg.api_key)) (is_positive cfg.timeout) cfg.tls_insecure
        cfg.api_key cfg.timeout _
    ∙ ap (λ k. at cfg.base_url k (some (LlamaCpp.mutator json schema_map))) (kept_key cfg.api_key)

pub vllm_target :
    (json : JsonCodec) (cfg : Vllm.Config)
    → target (vllm_made json cfg).inner
      ≡ at cfg.base_url cfg.api_key (some (Vllm.mutator json (Vllm.with_default_key cfg)))
unfolding Vllm.unprimed
vllm_target json cfg =
    let c : Vllm.Config = Vllm.with_default_key cfg in
    let m = Vllm.mutator json c in
    new-target c.base_url (Vllm.inner_settings json c)
    ∙ settings_target_mutator (not (is_nil c.api_key)) (is_positive c.timeout) c.tls_insecure
        c.api_key c.timeout m _
    ∙ ap (λ k. at c.base_url k (some m)) (kept_key c.api_key)
    ∙ same (is_nil cfg.thinking_key)
  where
    same :
        (t : Bool)
        → (let d : Vllm.Config =
              if t then record cfg { thinking_key = Vllm.default_thinking_key } else cfg in
            at d.base_url d.api_key (some (Vllm.mutator json (Vllm.with_default_key cfg))))
          ≡ at cfg.base_url cfg.api_key (some (Vllm.mutator json (Vllm.with_default_key cfg)))
    same true = refl
    same false = refl
