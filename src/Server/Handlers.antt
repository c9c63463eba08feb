-- ===== src/Server/Handlers.antt =====
-- The handlers of internal/server/server.go. What is outside is a `Backend`: the providers' calls
-- and the model lists that a refresh asks for, each of which may change the world `W`, and what can be
-- read off the world. Of `net/http`, a request is its method and its body; JSON is outside, too.
pub mod Chat
pub mod Other
pub mod Laws
pub mod Cancelled
pub mod Audited
pub mod Records
pub mod Fits
pub mod Logged
use go_ai_proxy.Common.{
  ◌++◌, ℕ, ◌<◌, ◌≡◌, refl, Bool, true, false, not, ◌&&◌, ◌||◌, Option, none, some, List, [], ◌∷◌,
  map, is_nil, ltb, ◌==◌, if◌then◌else◌, ◌⊎◌, inl, inr,
}
use mathlib.Core.Option
use go_ai_proxy.Common.Text.{Text, lit, text_eq}
use go_ai_proxy.Domain.{
  ProviderId, Model, Usage, Message, Request, Response, Chunk, EmbedRequest, EmbedResponse,
}
use go_ai_proxy.Metrics.{Metrics, Line, record_request, record_tokens, write_prometheus}
use go_ai_proxy.Provider.Errors.{other}
use go_ai_proxy.Provider.OpenAi.{Result, ok, err}
use go_ai_proxy.Registry.{Registry, refresh}
use go_ai_proxy.Registry.Route.{Candidate, candidates_for}
use go_ai_proxy.Translator.Wire.{OaResponse, OaChunk, OaRequest}
use go_ai_proxy.Translator.Request.{request_from_openai}
use go_ai_proxy.Translator.Response.{response_to_openai}
use go_ai_proxy.Translator.Models.{OaModelsResponse, models_to_openai}
use go_ai_proxy.Translator.Embeddings.{
  OaEmbedRequest, OaEmbedResponse, Codec, embed_request_from_openai, embed_response_to_openai,
}
use go_ai_proxy.Server.{
  HttpError, Reply, failure, closed, success, write_error, plain, too_large, unknown_model,
  over_budget, Fanout, start_fanout, try_all, exhausted,
}
use go_ai_proxy.Server.Middleware.{over_limit}
use go_ai_proxy.Server.Budget.{TokenBudgetConfig, limit_for, exceeds_budget}
use go_ai_proxy.Server.Stream.{Event, StreamLog, no_log, run_stream}

-- A body that could be read, with its size in bytes.
pub record Incoming : Type 0 where
  pub method : Text
  pub body : Option Text
  pub size : ℕ

-- The body of a response with status 200, before json.Marshal.
pub data Body : Type 0 where
  chat_body : OaResponse → Body
  event_stream : List Event → Body
  embed_body : OaEmbedResponse → Body
  models_body : OaModelsResponse → Body
  status_ok : Body
  exposition : List Line → Body
  no_content : Body

-- A stream that was accepted: what comes out of its channel, and the milliseconds at its end.
pub record Accepted : Type 0 where
  pub chunks : List (ℕ × Chunk)
  pub duration_ms : ℕ

pub record Backend (W : Type 0) : Type 0 where
  pub name : ProviderId → Text
  pub chat : ProviderId → Request → W → W × (Result Response × ℕ)
  pub chat_stream : ProviderId → Request → W → W × (Result Accepted × ℕ)
  pub embeds : ProviderId → Bool
  pub embeddings : ProviderId → EmbedRequest → W → W × (Result EmbedResponse × ℕ)
  pub models : W → W × (ProviderId → Option (List Model))
  pub active : W → ProviderId → ℕ
  pub gone : W → Bool
  pub now : W → ℕ

pub record Server (W : Type 0) : Type 0 where
  pub max_body_bytes : ℕ
  pub token_budget : Option TokenBudgetConfig
  pub registry : Registry
  pub metrics : Option Metrics
  pub world : W

-- encoding/json on what the handlers read and write.
pub record Json : Type 0 where
  pub chat_request : Text → Option OaRequest
  pub embed_request : Text → Option OaEmbedRequest
  pub marshals : Body → Bool
  pub marshals_chunk : OaChunk → Bool

abbrev pub bad_request : Text → HttpError
bad_request why = write_error 400 (lit "bad_request") (plain why)

abbrev pub not_allowed : Text → HttpError
not_allowed why = write_error 405 (lit "method_not_allowed") (plain why)

-- io.ReadAll under bodyLimitMiddleware.
unfoldable pub read_body : ℕ → Incoming → HttpError ⊎ Text
read_body limit r =
    if over_limit limit r.size
    then inl (write_error 413 (lit "request_too_large") (too_large limit))
    else (elim r.body [
      | none ↦ inl (bad_request (lit "failed to read request body"))
      | some text ↦ inr text
    ])

module _ {ℓ} {A : Type ℓ} (decode : Text → Option A) where
  -- The head of handleChatCompletions and handleEmbeddings.
  unfoldable pub read_request : ℕ → Incoming → HttpError ⊎ A
  read_request limit r =
      if text_eq r.method (lit "POST")
      then (elim (read_body limit r) [
        | inl e ↦ inl e
        | inr text ↦ elim (decode text) [
          | none ↦ inl (bad_request (lit "invalid request"))
          | some a ↦ inr a
        ]
      ])
      else inl (not_allowed (lit "only POST is supported"))

abbrev pub id_of : Model → Text
id_of m = m.id

abbrev pub unknown : Registry → Text → HttpError
unknown r model =
    write_error 400 (lit "model_not_found") (unknown_model model (map id_of r.all_models))

abbrev pub marshal : Bool → Text → Body → Reply Body
marshal true why b = success b
marshal false why b = failure (write_error 500 (lit "internal_error") (plain why))

-- The state after a loop.
abbrev pub after_loop {ℓ} : {W : Type 0} {A : Type ℓ} → Server W → W × Fanout A → Server W
after_loop s (w, f) = record s { metrics = f.metrics; world = w }

module _ {W : Type 0} (backend : Backend W) where
  abbrev pub candidates_now : Text → Server W → List Candidate
  candidates_now model s = candidates_for (backend.active s.world) s.registry model

  abbrev pub refresh_server : Server W → Server W
  refresh_server s =
      let (w, models) = backend.models s.world in
      record s { registry = refresh models s.registry; world = w }

  -- The candidates for a model; where there are none, one refresh of the tables and a second look.
  unfoldable pub find_candidates : Text → Server W → Server W × List Candidate
  find_candidates model s =
      let found = candidates_now model s in
      if is_nil found
      then (refresh_server s, candidates_now model (refresh_server s))
      else (s, found)

  abbrev pub record_success : Candidate → ℕ → Usage → Metrics → Metrics
  record_success c duration_ms usage m =
      record_tokens (backend.name c.provider) c.model_id usage.prompt_tokens usage.completion_tokens
        usage.cached_tokens
        (record_request c.model_id (backend.name c.provider) (lit "success") duration_ms m)
