-- ===== src/Server/Handlers/Audited.antt =====
-- internal/server/server.go: the handlers with their calls of internal/server/audit.go. Each gives what the
-- handler does and the records that it writes, of which `audited` says what is read off the surroundings.
use go_ai_proxy.Common.{
  ℕ, suc, ◌⊎◌, Bool, not, ◌||◌, Option, none, some, List, [], ◌∷◌, ◌++◌, is_nil, inl, inr,
  if◌then◌else◌,
}
use mathlib.Core.Option
use go_ai_proxy.Common.Text.{Text, lit}
use go_ai_proxy.Domain.{Request, Response, Chunk, EmbedRequest, EmbedResponse}
use go_ai_proxy.Provider.Errors.{ProviderError}
use go_ai_proxy.Registry.Route.{Candidate}
use go_ai_proxy.Translator.Request.{request_from_openai}
use go_ai_proxy.Translator.Embeddings.{Codec}
use go_ai_proxy.Server.{
  HttpError, Reply, failure, write_error, over_budget, Fanout, start_fanout, try_all,
}
use go_ai_proxy.Server.Audit.{
  Logger, Entry, audit_chat, audit_embeddings, audit_stream_start, audit_stream_end,
  audit_client_disconnect,
}
use go_ai_proxy.Server.Budget.{limit_for, exceeds_budget}
use go_ai_proxy.Server.Stream.{no_log, run_stream}
use go_ai_proxy.Server.Handlers.{
  Incoming, Body, Accepted, Backend, Server, Json, read_request, unknown, find_candidates,
}
use go_ai_proxy.Server.Handlers.Chat.{
  call_chat, on_chat, call_stream, on_stream, run_chat, run_chat_stream,
}
use go_ai_proxy.Server.Handlers.Other.{call_embeddings, on_embeddings, run_embeddings, decode_embed}

-- The logger, the request's ID, err.Error(), the milliseconds since the handler's start, those of a
-- stream from its first byte to its end, and those to a chunk of it, by its place.
pub record Audited (W : Type 0) : Type 0 where
  pub logger : Logger
  pub id : Text
  pub message : ProviderError → Text
  pub elapsed : W → ℕ
  pub stream_ms : ℕ
  pub arrival : ℕ → ℕ

-- A chunk that sets firstTokenAt.
abbrev pub has_token : Chunk → Bool
has_token c = not (is_nil c.delta) || not (is_nil c.thinking_delta) || not (is_nil c.tool_call_name)

-- The place of the first such chunk, up to the one that ends the stream.
unfoldable pub first_token : ℕ → List (ℕ × Chunk) → Option ℕ
first_token n [] = none
first_token n ((created, c) ∷ cs) =
    let rest = first_token (suc n) cs in
    if has_token c then some n else if c.done then none else rest

module _ {W : Type 0} (backend : Backend W) (json : Json) (a : Audited W) where
  abbrev error_text : Option ProviderError → Option Text
  error_text = Option.map a.message

  abbrev disconnected : Text → W → List Entry
  disconnected model w = audit_client_disconnect a.logger a.id model (a.elapsed w)

  -- The audit calls of handleChatCompletions after its loop.
  unfoldable pub chat_entries : Request → W → Fanout Response → List Entry
  chat_entries req w f = elim f.response [
    | none ↦
        if backend.gone w
        then disconnected f.model w
        else audit_chat a.logger a.id (record req { model = f.model }) none (error_text f.last_err)
            (a.elapsed w)
    | some (c, resp) ↦
        audit_chat a.logger a.id (record req { model = c.model_id }) (some resp) none (a.elapsed w)
  ]

  abbrev ttft : List (ℕ × Chunk) → ℕ
  ttft cs = elim (first_token 0 cs) [ none ↦ 0 | some n ↦ a.arrival n ]

  -- Those of handleStream.
  unfoldable pub stream_entries : Request → W → Fanout Accepted → List Entry
  unfolding first_token
  stream_entries req w f = elim f.response [
    | none ↦ if backend.gone w then disconnected f.model w else []
    | some (c, accepted) ↦
        let log = (run_stream json.marshals_chunk no_log accepted.chunks).1 in
        audit_stream_start a.logger a.id (record req { model = c.model_id })
        ++ audit_stream_end a.logger a.id c.model_id a.stream_ms log.last_usage
            log.last_finish_reason (ttft accepted.chunks) log.content
  ]

  unfoldable pub embed_entries : EmbedRequest → W → Fanout EmbedResponse → List Entry
  embed_entries req w f = elim f.response [
    | none ↦
        if backend.gone w
        then disconnected f.model w
        else audit_embeddings a.logger a.id (record req { model = f.model }) none
            (error_text f.last_err) (a.elapsed w)
    | some (c, resp) ↦
        audit_embeddings a.logger a.id (record req { model = c.model_id }) (some resp) none
          (a.elapsed w)
  ]

  abbrev pub Audits : Type 0
  Audits = (Server W × Reply Body) × List Entry

  unfoldable pub chat_audited : Request → List Candidate → Server W → Audits
  unfolding run_chat chat_entries
  chat_audited req cs s =
      let end =
        try_all backend.name (call_chat backend req) (on_chat backend) cs s.world
          (start_fanout s.metrics req.model cs) in
      (run_chat backend json req cs s, chat_entries req end.0 end.1)

  unfoldable pub stream_audited : Request → List Candidate → Server W → Audits
  unfolding run_chat_stream stream_entries
  stream_audited req cs s =
      let end =
        try_all backend.name (call_stream backend req) (on_stream backend) cs s.world
          (start_fanout s.metrics req.model cs) in
      (run_chat_stream backend json req cs s, stream_entries req end.0 end.1)

  unfoldable pub start_audited : Request → Candidate → List Candidate → Server W → Audits
  unfolding chat_audited stream_audited
  start_audited req c cs s =
      let streamed = stream_audited (record req { model = c.model_id }) (c ∷ cs) s in
      let whole = chat_audited (record req { model = c.model_id }) (c ∷ cs) s in
      if req.stream then streamed else whole

  unfoldable pub admit_audited : Request → Candidate → List Candidate → Server W → Audits
  unfolding start_audited
  admit_audited req c cs s = elim req.max_tokens [
    | none ↦ start_audited req c cs s
    | some tokens ↦
        if exceeds_budget s.token_budget c.model_id (some tokens)
        then (
          (
            s,
            failure (
                write_error 400 (lit "token_budget_exceeded")
                  (over_budget tokens (limit_for s.token_budget c.model_id) c.model_id)),
          ),
          [],
        )
        else start_audited req c cs s
  ]

  abbrev pub found_audited : Request → List Candidate → Server W → Audits
  found_audited req [] s = ((s, failure (unknown s.registry req.model)), [])
  found_audited req (c ∷ cs) s = admit_audited req c cs s

  abbrev pub read_audited : Server W → HttpError ⊎ Request → Audits
  read_audited s (inl e) = ((s, failure e), [])
  read_audited s (inr req) =
      let (s', found) = find_candidates backend req.model s in found_audited req found s'

  unfoldable pub handle_chat_audited : Incoming → Server W → Audits
  unfolding admit_audited
  handle_chat_audited r s = read_audited s (
      read_request (λ text. Option.map request_from_openai (json.chat_request text))
        s.max_body_bytes r)

  unfoldable pub embeddings_audited : Codec → EmbedRequest → List Candidate → Server W → Audits
  unfolding run_embeddings embed_entries
  embeddings_audited codec req cs s =
      let end =
        try_all backend.name (call_embeddings backend req) (on_embeddings backend) cs s.world
          (start_fanout s.metrics req.model cs) in
      (run_embeddings backend json codec req cs s, embed_entries req end.0 end.1)

  abbrev pub found_inputs_audited : Codec → EmbedRequest → List Candidate → Server W → Audits
  found_inputs_audited codec req [] s = ((s, failure (unknown s.registry req.model)), [])
  found_inputs_audited codec req (c ∷ cs) s = embeddings_audited codec req (c ∷ cs) s

  abbrev pub read_inputs_audited : Codec → Server W → HttpError ⊎ EmbedRequest → Audits
  read_inputs_audited codec s (inl e) = ((s, failure e), [])
  read_inputs_audited codec s (inr req) =
      let (s', found) = find_candidates backend req.model s in
      found_inputs_audited codec req found s'

  unfoldable pub handle_embeddings_audited : Codec → Incoming → Server W → Audits
  unfolding embeddings_audited
  handle_embeddings_audited codec r s =
      read_inputs_audited codec s (read_request (decode_embed backend json) s.max_body_bytes r)
