-- ===== src/Provider/Anthropic/Client.antt =====
-- internal/provider/anthropic/provider.go: construction, and Chat, ChatStream and Models from the token
-- on. The SDK is outside: `messages_new`, `new_streaming` and `list_models` are its calls. An
-- authenticator is its state with GetToken, `none` for an error.
use go_ai_proxy.Common.{
  ℕ, zero, suc, ◌+◌, ◌==◌, ◌%◌, ◌<◌, ◌≡◌, ◌≢◌, ◌⊎◌, inl, inr, Option, none, some, List, [], ◌∷◌,
  arith, is_nil, length, get_elem?, if◌then◌else◌, ap, ◌∙◌,
}
use go_ai_proxy.Common.Text.{Text, lit}
use go_ai_proxy.Common.Int64.{is_positive, modulus}
use go_ai_proxy.Domain.{Schema, Request, Response, Model, Chunk}
use go_ai_proxy.Auth.RoundRobin.{RoundRobin, get_token, tokens, tokens_rotate}
use go_ai_proxy.Provider.Errors.{ProviderError, rate_limit, other, parse_retry_after}
use go_ai_proxy.Provider.OpenAi.{Result, ok, err, ◌>>=◌}
use go_ai_proxy.Provider.OpenAi.Client.{apply_settings}
use go_ai_proxy.Provider.Anthropic.{
  MessageParams, AnMessage, SdkError, api_error, sdk_error, to_message_params, finish_chat,
  to_models,
}
use go_ai_proxy.Provider.Anthropic.Events as Events
use go_ai_proxy.Provider.Anthropic.Events.{StreamEvent}

pub record Anthropic : Type 0 where
  pub name : Text
  pub base_url : Text
  pub timeout : ℕ

abbrev pub set_name : Text → Anthropic → Anthropic
set_name name p = record p { name = name }

abbrev pub set_base_url : Text → Anthropic → Anthropic
set_base_url url p = record p { base_url = url }

abbrev pub set_timeout : ℕ → Anthropic → Anthropic
set_timeout d p = record p { timeout = d }

unfoldable pub new : List (Anthropic → Anthropic) → Anthropic
new settings = apply_settings settings (record { name = []; base_url = []; timeout = 0 })

-- The request options of anthropic.NewClient.
pub record SdkClient : Type 0 where
  pub api_key : Text
  pub base_url : Option Text
  pub request_timeout : Option ℕ

abbrev pub client_of : Anthropic → Text → SdkClient
client_of p token = record {
  api_key = token;
  base_url = if is_nil p.base_url then none else some p.base_url;
  request_timeout = if is_positive p.timeout then some p.timeout else none;
}

-- newClient, from what GetToken gives.
unfoldable pub new_client : Anthropic → Option Text → Result SdkClient
new_client p none = err (other (lit "anthropic: get token"))
new_client p (some token) = ok (client_of p token)

module _ (until : Text → Option ℕ) (parse_arguments : Text → Option Schema) (p : Anthropic) where
  module _ (marshal_input : Schema → Option Text)
      (messages_new : SdkClient → MessageParams → SdkError ⊎ AnMessage) where
    abbrev pub call : Request → SdkClient → Result Response
    call req client =
        finish_chat until marshal_input
          (messages_new client (to_message_params parse_arguments req))

    abbrev pub with_token : Request → Option Text → Result Response
    with_token req token = do client ← new_client p token; call req client

    module _ {A : Type 0} (get : A → A × Option Text) where
      unfoldable pub chat : Request → A → A × Result Response
      unfolding new_client finish_chat to_message_params
      chat req a = let (a', token) = get a in (a', with_token req token)

      -- Chats one after the other.
      unfoldable pub chat_all : List Request → A → A × List (Result Response)
      unfolding chat
      chat_all [] a = (a, [])
      chat_all (req ∷ reqs) a =
          let (a', r) = chat req a in let (a'', rs) = chat_all reqs a' in (a'', r ∷ rs)

  -- What ChatStream returns when the first event is not there but an error is.
  unfoldable pub stream_failure : SdkError → ProviderError
  stream_failure (api_error status retry_after) =
      if status == 429
      then rate_limit (parse_retry_after until retry_after)
      else other (lit "anthropic: stream error")
  stream_failure (sdk_error e) = other (lit "anthropic: stream error")

  -- The events, once NewStreaming has been asked for the first.
  abbrev opened : SdkError ⊎ List StreamEvent → Result (List Chunk)
  opened (inl e) = err (stream_failure e)
  opened (inr events) = ok (Events.chat_stream events)

  unfoldable pub chat_stream :
      (SdkClient → MessageParams → SdkError ⊎ List StreamEvent)
      → Request
      → Option Text
      → Result (List Chunk)
  unfolding new_client stream_failure Events.chat_stream to_message_params
  chat_stream new_streaming req token = do
    client ← new_client p token
    opened (new_streaming client (to_message_params parse_arguments req))

  abbrev listed : Option (List Text) → Result (List Model)
  listed none = err (other (lit "anthropic: models.list"))
  listed (some ids) = ok (to_models ids)

  unfoldable pub models : (SdkClient → Option (List Text)) → Option Text → Result (List Model)
  unfolding new_client to_models
  models list_models token = do client ← new_client p token; listed (list_models client)

  module _ (marshal_input : Schema → Option Text)
      (messages_new : SdkClient → MessageParams → SdkError ⊎ AnMessage) where
    chat_all-tokens :
        (reqs : List Request) (r : RoundRobin) (i : ℕ) (req : Request) (token : Option Text)
        → get_elem? reqs i ≡ some req
        → get_elem? (tokens (length reqs) r) i ≡ some token
        → get_elem? (chat_all marshal_input messages_new get_token reqs r).1 i
          ≡ some (with_token marshal_input messages_new req token)
    unfolding chat_all chat tokens
    chat_all-tokens [] r i req token h t = ground arith
    chat_all-tokens (q ∷ reqs) r zero req token h t =
        let same : q ≡ req = cc h in
        let got : (get_token r).1 ≡ token = cc t in
        ap (λ x. some (with_token marshal_input messages_new q x)) got
        ∙ ap (λ x. some (with_token marshal_input messages_new x token)) same
    chat_all-tokens (q ∷ reqs) r (suc i) req token h t =
        chat_all-tokens reqs (get_token r).0 i req token h t

    in_range :
        (reqs : List Request) (i : ℕ) (req : Request)
        → get_elem? reqs i ≡ some req
        → i < length reqs
    in_range [] i req h = ground arith
    in_range (q ∷ reqs) zero req h = omega arith
    in_range (q ∷ reqs) (suc i) req h = omega (arith, in_range reqs i req h)

    -- With keys in rotation, the chat with number i from now is made with the key at the counter plus i,
    -- modulo the number of keys, and ends as the SDK's call with that key does.
    pub chats_rotate_keys :
        (reqs : List Request) (r : RoundRobin) (i : ℕ) (req : Request)
        → r.keys ≢ []
        → get_elem? reqs i ≡ some req
        → (key : Text) × (get_elem? r.keys ((r.counter + i) % modulus % length r.keys) ≡ some key)
          × (get_elem? (chat_all marshal_input messages_new get_token reqs r).1 i
              ≡ some (call marshal_input messages_new req (client_of p key)))
    unfolding new_client
    chats_rotate_keys reqs r i req k h =
        let (key, t, e) = tokens_rotate (length reqs) r i k (in_range reqs i req h) in
        (key, e, chat_all-tokens reqs r i req (some key) h t)
