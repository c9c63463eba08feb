-- ===== src/Gap/Tls/Build.antt =====
-- buildProvider in cmd/gap/main.go, by the type of the provider: whether certificates are verified.
use go_ai_proxy.Common.{◌≡◌, refl, Bool, true, false, Option, List, is_nil, if◌then◌else◌, ◌∙◌}
use go_ai_proxy.Common.Text.{Text}
use go_ai_proxy.Common.Json.{JsonCodec, Fields}
use go_ai_proxy.Domain.{Model, Schema}
use go_ai_proxy.Provider.OpenAi.{ok, RoundTrip}
use go_ai_proxy.Provider.OpenAi.Client.{HttpCall}
use go_ai_proxy.Provider.Vllm as Vllm
use go_ai_proxy.Gap.{ProviderConfig}
use go_ai_proxy.Gap.Build.{Built, insecure, build_provider, vllm_config, llama_config}
use go_ai_proxy.Gap.Tls.{
  unchecked, clients, AllUnchecked, openai-AllUnchecked, lmstudio-AllUnchecked,
  litellm-AllUnchecked, vllm_unchecked, llama_unchecked,
}
use go_ai_proxy.Gap.ByKind.{vllm_made, build_provider-by_kind}

same_tls :
    (t : Bool) (cfg : Vllm.Config)
    → (let c : Vllm.Config =
          if t then record cfg { thinking_key = Vllm.default_thinking_key } else cfg in
        c.tls_insecure)
      ≡ cfg.tls_insecure
same_tls true cfg = refl
same_tls false cfg = refl

unchecked-vllm_made :
    (json : JsonCodec) (cfg : Vllm.Config)
    → unchecked (vllm_made json cfg).inner.client ≡ cfg.tls_insecure
unfolding Vllm.unprimed
unchecked-vllm_made json cfg =
    vllm_unchecked json (Vllm.with_default_key cfg) ∙ same_tls (is_nil cfg.thinking_key) cfg

module _ (expand : Text → Text) (json : JsonCodec) (schema_map : Schema → Fields)
    (decode : Text → Option (List Model)) (http : HttpCall → RoundTrip) where
  -- Each HTTP client of a provider that buildProvider makes leaves certificates unverified exactly if the
  -- configuration says tls.insecure.
  pub build_provider_tls :
      (pc : ProviderConfig) (p : Built)
      → build_provider expand json schema_map decode http pc ≡ ok p
      → AllUnchecked (insecure pc) (clients p)
  build_provider_tls pc =
      build_provider-by_kind expand json schema_map decode http pc
        (λ p. AllUnchecked (insecure pc) (clients p)) (openai-AllUnchecked expand pc)
        (lmstudio-AllUnchecked expand pc) (litellm-AllUnchecked expand pc) (λ _ _. tt)
        (unchecked-vllm_made json (vllm_config expand pc), tt)
        (llama_unchecked json schema_map (llama_config expand pc), tt)
