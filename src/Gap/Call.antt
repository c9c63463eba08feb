-- ===== src/Gap/Call.antt =====
-- The calls of a provider that buildProvider in cmd/gap/main.go makes: where they go, with which key and
-- with which body. Anthropic's provider calls its SDK instead.
use go_ai_proxy.Common.{ℕ, ◌≡◌, refl, true, ◌⊎◌, Option, none, some, List, [], ◌++◌, ap, ◌∙◌}
use mathlib.Core.Path.{ap₂}
use go_ai_proxy.Common.Text.{Text, lit}
use go_ai_proxy.Common.Json.{JsonCodec, Fields}
use go_ai_proxy.Domain.{Model, Schema, Request, Response, EmbedRequest, EmbedResponse, Chunk}
use go_ai_proxy.Provider.OpenAi.{Result, ok, err, ◌>>=◌, RoundTrip, or_parse_error, finish_call}
use go_ai_proxy.Provider.OpenAi.Client as Client
use go_ai_proxy.Provider.OpenAi.Client.{
  HttpCall, StreamReply, default_transport, build_http_client, option_of, apply_settings, bearer,
  open_stream, mutate,
}
use go_ai_proxy.Provider.LmStudio as LmStudio
use go_ai_proxy.Provider.LiteLlm as LiteLlm
use go_ai_proxy.Provider.Vllm as Vllm
use go_ai_proxy.Provider.LlamaCpp as LlamaCpp
use go_ai_proxy.Gap.{ProviderConfig}
use go_ai_proxy.Gap.Build.{
  Built, openai, lmstudio, litellm, anthropic, vllm, llama_cpp, key_of, build_provider,
  openai_settings, lmstudio_settings, litellm_settings, vllm_config, llama_config,
}
use go_ai_proxy.Gap.ByKind.{vllm_made, llama_made, build_provider-by_kind}
use go_ai_proxy.Gap.Target.{
  Target, target, at, openai_target, lmstudio_target, litellm_target, llama_target, vllm_target,
}

>>=-assoc {ℓ κ μ} :
    {A : Type ℓ} {B : Type κ} {C : Type μ} (m : Result A) (f : A → Result B) (g : B → Result C)
    → (m >>= f) >>= g ≡ m >>= (λ a. f a >>= g)
>>=-assoc (ok a) f g = refl
>>=-assoc (err e) f g = refl

-- The POST of a body.
abbrev pub posting : Text → Text → Text → HttpCall
posting url key body = record {
  method = lit "POST";
  url = url;
  authorization = bearer key;
  body = body;
}

module _ (until : Text → Option ℕ) (encode : Request → Option Text)
    (encode_inputs : EmbedRequest → Option Text) (decode : Text → Option Response)
    (decode_vectors : Text → Option EmbedResponse) (parse : Text → Option Chunk)
    (http : HttpCall → RoundTrip) (stream : HttpCall → Text ⊎ StreamReply) where
  -- The three answers of a server at `url` that gets the key, and bodies that went through the mutation.
  abbrev pub answers :
      Text
      → Text
      → Option Client.Mutator
      → Request
      → EmbedRequest
      → Result Response × Result (List Chunk) × Result EmbedResponse
  answers url key mutation req inputs =
      let streaming : Request = record req { stream = true } in
      (
        (do
          body ← or_parse_error (encode req)
          sent ← mutate mutation body req
          finish_call until decode (http (posting (url ++ lit "/v1/chat/completions") key sent))),
        (do
          body ← or_parse_error (encode streaming)
          sent ← mutate mutation body streaming
          open_stream until encode parse
              (stream (posting (url ++ lit "/v1/chat/completions") key sent))),
        (do
          body ← or_parse_error (encode_inputs inputs)
          finish_call until decode_vectors (http (posting (url ++ lit "/v1/embeddings") key body))),
      )

  abbrev of_client :
      Client.Provider
      → Request
      → EmbedRequest
      → Result Response × Result (List Chunk) × Result EmbedResponse
  of_client p req inputs = (
    Client.chat until encode decode p http req,
    Client.chat_stream until encode parse p stream req,
    Client.embeddings until encode_inputs decode_vectors p http inputs,
  )

  of_client-answers :
      (p : Client.Provider) (req : Request) (inputs : EmbedRequest)
      → of_client p req inputs ≡ answers p.base_url p.api_key p.mutator req inputs
  unfolding Client.chat Client.chat_stream Client.embeddings Client.post Client.chat_body
  of_client-answers p req inputs =
      let streaming : Request = record req { stream = true } in
      ap₂ (λ r s. (r, s, Client.embeddings until encode_inputs decode_vectors p http inputs))
        (>>=-assoc (or_parse_error (encode req)) (λ body. mutate p.mutator body req) _)
        (>>=-assoc (or_parse_error (encode streaming)) (λ body. mutate p.mutator body streaming) _)

  of_target :
      (p : Client.Provider) (url key : Text) (mutation : Option Client.Mutator) (req : Request)
      (inputs : EmbedRequest)
      → target p ≡ at url key mutation
      → of_client p req inputs ≡ answers url key mutation req inputs
  of_target p url key mutation req inputs h =
      of_client-answers p req inputs
      ∙ ap (λ (t : Target). answers t.url t.key t.mutation req inputs) h

  -- What a provider that was made from the configuration answers: LM Studio gets no key, and only vLLM and
  -- llama.cpp have their bodies changed.
  abbrev pub Answers :
      (Text → Text)
      → JsonCodec
      → (Schema → Fields)
      → ProviderConfig
      → Request
      → EmbedRequest
      → Built
      → Type 0
  Answers expand json schema_map pc req inputs (openai p) =
      of_client p req inputs ≡ answers pc.base_url (key_of expand pc.auth) none req inputs
  Answers expand json schema_map pc req inputs (lmstudio p) =
      (
        LmStudio.chat until encode decode p http req,
        LmStudio.chat_stream until encode parse p stream req,
        LmStudio.embeddings until encode_inputs decode_vectors p http inputs,
      )
      ≡ answers pc.base_url [] none req inputs
  Answers expand json schema_map pc req inputs (litellm p) =
      (
        LiteLlm.chat until encode decode p http req,
        LiteLlm.chat_stream until encode parse p stream req,
        LiteLlm.embeddings until encode_inputs decode_vectors p http inputs,
      )
      ≡ answers pc.base_url (key_of expand pc.auth) none req inputs
  Answers expand json schema_map pc req inputs (anthropic name a timeout) = Unit
  Answers expand json schema_map pc req inputs (vllm p) =
      (
        Vllm.chat until encode decode p http req,
        Vllm.chat_stream until encode parse p stream req,
        Vllm.embeddings until encode_inputs decode_vectors p http inputs,
      )
      ≡ answers pc.base_url (key_of expand pc.auth)
          (some (Vllm.mutator json (Vllm.with_default_key (vllm_config expand pc)))) req inputs
  Answers expand json schema_map pc req inputs (llama_cpp p) =
      (
        LlamaCpp.chat until encode decode p http req,
        LlamaCpp.chat_stream until encode parse p stream req,
        LlamaCpp.embeddings until encode_inputs decode_vectors p http inputs,
      )
      ≡ answers pc.base_url (key_of expand pc.auth) (some (LlamaCpp.mutator json schema_map)) req
          inputs

  pub build_provider-Answers :
      (expand : Text → Text) (json : JsonCodec) (schema_map : Schema → Fields)
      (list : Text → Option (List Model)) (lists : HttpCall → RoundTrip) (pc : ProviderConfig)
      (p : Built) (req : Request) (inputs : EmbedRequest)
      → build_provider expand json schema_map list lists pc ≡ ok p
      → Answers expand json schema_map pc req inputs p
  unfolding LmStudio.chat LmStudio.chat_stream LmStudio.embeddings LiteLlm.chat LiteLlm.chat_stream
      LiteLlm.embeddings Vllm.chat Vllm.chat_stream Vllm.embeddings LlamaCpp.chat
      LlamaCpp.chat_stream LlamaCpp.embeddings
  build_provider-Answers expand json schema_map list lists pc p req inputs =
      let key = key_of expand pc.auth in
      let lm = LmStudio.new pc.base_url (lmstudio_settings expand pc) in
      let lite = LiteLlm.new pc.base_url (litellm_settings expand pc) in
      build_provider-by_kind expand json schema_map list lists pc
        (Answers expand json schema_map pc req inputs)
        (of_target (Client.new pc.base_url (openai_settings expand pc)) pc.base_url key none req
          inputs (openai_target expand pc))
        (of_target lm.inner pc.base_url [] none req inputs (lmstudio_target expand pc))
        (of_target lite.inner pc.base_url key none req inputs (litellm_target expand pc))
        (λ _ _. tt)
        (of_target (vllm_made json (vllm_config expand pc)).inner pc.base_url key _ req inputs
          (vllm_target json (vllm_config expand pc)))
        (of_target (llama_made json schema_map (llama_config expand pc)).inner pc.base_url key _ req
          inputs (llama_target json schema_map (llama_config expand pc)))
        p
