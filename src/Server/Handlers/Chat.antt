-- ===== src/Server/Handlers/Chat.antt =====
-- handleChatCompletions and handleStream of internal/server/server.go. The response writer of a
-- stream can always flush, since it is the statusWriter of internal/server/middleware.go.
use go_ai_proxy.Common.{ℕ, none, some, List, [], ◌∷◌, if◌then◌else◌, inl, inr}
use mathlib.Core.Option
use go_ai_proxy.Common.Text.{lit}
use go_ai_proxy.Domain.{Request, Response}
use go_ai_proxy.Metrics.{Metrics, record_request}
use go_ai_proxy.Provider.OpenAi.{Result}
use go_ai_proxy.Registry.Route.{Candidate}
use go_ai_proxy.Translator.Request.{request_from_openai}
use go_ai_proxy.Translator.Response.{response_to_openai}
use go_ai_proxy.Server.{
  Reply, failure, success, write_error, over_budget, Fanout, start_fanout, try_all, exhausted,
}
use go_ai_proxy.Server.Budget.{limit_for, exceeds_budget}
use go_ai_proxy.Server.Stream.{StreamLog, no_log, run_stream}
use go_ai_proxy.Server.Handlers.{
  Incoming, Body, chat_body, event_stream, Accepted, Backend, Server, Json, read_request, unknown,
  marshal, find_candidates, record_success, after_loop,
}

module _ {W : Type 0} (backend : Backend W) where
  abbrev pub call_chat : Request → Candidate → W → W × (Result Response × ℕ)
  call_chat req c w = backend.chat c.provider (record req { model = c.model_id }) w

  abbrev pub on_chat : Candidate → ℕ → Response → Metrics → Metrics
  on_chat c duration_ms resp m = record_success backend c duration_ms resp.usage m

  abbrev pub call_stream : Request → Candidate → W → W × (Result Accepted × ℕ)
  call_stream req c w = backend.chat_stream c.provider (record req { model = c.model_id }) w

  abbrev pub on_stream : Candidate → ℕ → Accepted → Metrics → Metrics
  on_stream c duration_ms a m = m

  module _ (json : Json) where
    unfoldable pub chat_reply : Server W → Fanout Response → Reply Body
    chat_reply s f = elim f.response [
      | none ↦ exhausted (backend.gone s.world) f
      | some (c, resp) ↦
          let body = chat_body (response_to_openai (backend.now s.world) resp) in
          marshal (json.marshals body) (lit "failed to encode response") body
    ]

    -- What handleChatCompletions does for a request that is not streamed, from the loop on.
    unfoldable pub run_chat : Request → List Candidate → Server W → Server W × Reply Body
    unfolding chat_reply
    run_chat req cs s =
        let end =
          try_all backend.name (call_chat req) on_chat cs s.world
            (start_fanout s.metrics req.model cs) in
        (after_loop s end, chat_reply (after_loop s end) end.1)

    -- recordStreamEnd, as far as the metrics go.
    stream_end : Candidate → ℕ → StreamLog → Metrics → Metrics
    stream_end c duration_ms log m = elim log.last_usage [
      | none ↦ record_request c.model_id (backend.name c.provider) (lit "success") duration_ms m
      | some usage ↦ record_success backend c duration_ms usage m
    ]

    unfoldable pub stream_reply : Server W → Fanout Accepted → Server W × Reply Body
    unfolding stream_end
    stream_reply s f = elim f.response [
      | none ↦ (s, exhausted (backend.gone s.world) f)
      | some (c, a) ↦
          let (events, log) = run_stream json.marshals_chunk no_log a.chunks in
          (
            record s { metrics = Option.map (stream_end c a.duration_ms log) s.metrics },
            success (event_stream events),
          )
    ]

    -- handleStream
    unfoldable pub run_chat_stream : Request → List Candidate → Server W → Server W × Reply Body
    unfolding stream_reply
    run_chat_stream req cs s =
        let end =
          try_all backend.name (call_stream req) on_stream cs s.world
            (start_fanout s.metrics req.model cs) in
        stream_reply (after_loop s end) end.1

    unfoldable pub start_chat :
        Request → Candidate → List Candidate → Server W → Server W × Reply Body
    start_chat req c cs s =
        let streamed = run_chat_stream (record req { model = c.model_id }) (c ∷ cs) s in
        let whole = run_chat (record req { model = c.model_id }) (c ∷ cs) s in
        if req.stream then streamed else whole

    -- The token budget, for the model ID of the first candidate, then the loop.
    unfoldable pub admit_chat :
        Request → Candidate → List Candidate → Server W → Server W × Reply Body
    unfolding start_chat
    admit_chat req c cs s = elim req.max_tokens [
      | none ↦ start_chat req c cs s
      | some tokens ↦
          if exceeds_budget s.token_budget c.model_id (some tokens)
          then (
            s,
            failure (
                write_error 400 (lit "token_budget_exceeded")
                  (over_budget tokens (limit_for s.token_budget c.model_id) c.model_id)),
          )
          else start_chat req c cs s
    ]

    unfoldable pub handle_chat : Incoming → Server W → Server W × Reply Body
    handle_chat r s =
        elim (read_request (λ text. Option.map request_from_openai (json.chat_request text))
          s.max_body_bytes r) [
            | inl e ↦ (s, failure e)
            | inr req ↦
                let (s', found) = find_candidates backend req.model s in
                elim found [
                  | [] ↦ (s', failure (unknown s'.registry req.model))
                  | c ∷ cs ↦ admit_chat req c cs s'
                ]
          ]
