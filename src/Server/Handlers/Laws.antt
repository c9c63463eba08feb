-- ===== src/Server/Handlers/Laws.antt =====
-- What the handlers of internal/server/server.go do on their branches, from the request to the reply.
use go_ai_proxy.Common.{
  ℕ, ◌≡◌, refl, true, false, Option, none, some, List, [], ◌∷◌, inr, arith, all,
}
use mathlib.Core.Option
use go_ai_proxy.Common.Text.{Text, lit}
use go_ai_proxy.Domain.{Request, Response}
use go_ai_proxy.Metrics.{Metrics, record_request}
use go_ai_proxy.Registry.Route.{Candidate}
use go_ai_proxy.Translator.Request.{request_from_openai}
use go_ai_proxy.Translator.Response.{response_to_openai}
use go_ai_proxy.Server.{
  failure, success, write_error, Fanout, start_fanout, fail_candidate, succeed_candidate,
  over_budget, is_rate_limit,
}
use go_ai_proxy.Server.Budget.{limit_for, exceeds_budget}
use go_ai_proxy.Server.Fallback.{Run, Failure, errors_of, note_failures, try_all-Run}
use go_ai_proxy.Server.Exhausted.{too_many, longest_wait, exhausted_lem}
use go_ai_proxy.Server.Handlers.{
  Incoming, Body, chat_body, Backend, Server, Json, read_request, find_candidates, record_success,
}
use go_ai_proxy.Server.Handlers.Chat.{call_chat, on_chat, run_chat, admit_chat, handle_chat}

module _ {W : Type 0} (backend : Backend W) where
  -- The metrics after these failures.
  abbrev pub count_failures : List Failure → Option Metrics → Option Metrics
  count_failures [] m = m
  count_failures ((c, (e, ms)) ∷ fs) m =
      count_failures fs
        (Option.map (record_request c.model_id (backend.name c.provider) (lit "error") ms) m)

  note_failures-metrics {ℓ} :
      {A : Type ℓ} (fs : List Failure) (f : Fanout A)
      → (note_failures backend.name fs f).metrics ≡ count_failures fs f.metrics
  unfolding fail_candidate
  note_failures-metrics [] f = refl
  note_failures-metrics ((c, (e, ms)) ∷ fs) f =
      note_failures-metrics fs (fail_candidate backend.name c e ms f)

  note_failures-response {ℓ} :
      {A : Type ℓ} (fs : List Failure) (f : Fanout A)
      → (note_failures backend.name fs f).response ≡ f.response
  unfolding fail_candidate
  note_failures-response [] f = refl
  note_failures-response ((c, (e, ms)) ∷ fs) f =
      note_failures-response fs (fail_candidate backend.name c e ms f)

  module _ (json : Json) where
    -- The request that handle_chat reads.
    abbrev pub chat_request : Text → Option Request
    chat_request text = Option.map request_from_openai (json.chat_request text)

    run_chat_answered :
        (req : Request) (cs : List Candidate) (s : Server W) (w : W) (fs : List Failure)
        (d : Candidate) (resp : Response) (ms : ℕ)
        → Run backend.name
            (call_chat backend req)
            (on_chat backend)
            cs
            s.world
            fs
            w
            (some (d, (resp, ms)))
        → json.marshals (chat_body (response_to_openai (backend.now w) resp)) ≡ true
        → run_chat backend json req cs s ≡ (
          record s {
            metrics =
                Option.map (record_success backend d ms resp.usage) (count_failures fs s.metrics);
            world = w;
          },
          success (chat_body (response_to_openai (backend.now w) resp)),
        )
    unfolding run_chat succeed_candidate
    run_chat_answered req cs s w fs d resp ms h hm =
        let f : Fanout Response = start_fanout s.metrics req.model cs in
        ground (
          arith,
          hm,
          try_all-Run backend.name (call_chat backend req) (on_chat backend) cs s.world w fs
              (some (d, (resp, ms))) f h,
          note_failures-metrics fs f,
        )

    -- A chat request that is read, has candidates, keeps the budget and is not streamed: when the
    -- calls on the candidates end with the answer of one, the client gets that answer, each failure
    -- before it is counted as an error and the answer as a success with its tokens.
    pub handle_chat_answered :
        (r : Incoming) (s s' : Server W) (req : Request) (c d : Candidate) (cs : List Candidate)
        (w : W) (fs : List Failure) (resp : Response) (ms : ℕ)
        → read_request chat_request s.max_body_bytes r ≡ inr req
        → find_candidates backend req.model s ≡ (s', c ∷ cs)
        → exceeds_budget s'.token_budget c.model_id req.max_tokens ≡ false
        → req.stream ≡ false
        → Run backend.name
            (call_chat backend (record req { model = c.model_id }))
            (on_chat backend)
            (c ∷ cs)
            s'.world
            fs
            w
            (some (d, (resp, ms)))
        → json.marshals (chat_body (response_to_openai (backend.now w) resp)) ≡ true
        → handle_chat backend json r s ≡ (
          record s' {
            metrics =
                Option.map (record_success backend d ms resp.usage) (count_failures fs s'.metrics);
            world = w;
          },
          success (chat_body (response_to_openai (backend.now w) resp)),
        )
    unfolding handle_chat admit_chat exceeds_budget
    handle_chat_answered r s s' req c d cs w fs resp ms hr hf hb hs h hm = ground (
      arith,
      hr,
      hf,
      hb,
      hs,
      run_chat_answered (record req { model = c.model_id }) (c ∷ cs) s' w fs d resp ms h hm,
    )

    -- A chat request whose max_tokens is over the budget of the first candidate's model is refused
    -- before any provider is asked to answer it: the server is as the look-up left it.
    pub handle_chat_over_budget :
        (r : Incoming) (s s' : Server W) (req : Request) (c : Candidate) (cs : List Candidate)
        (tokens : ℕ)
        → read_request chat_request s.max_body_bytes r ≡ inr req
        → find_candidates backend req.model s ≡ (s', c ∷ cs)
        → req.max_tokens ≡ some tokens
        → exceeds_budget s'.token_budget c.model_id (some tokens) ≡ true
        → handle_chat backend json r s ≡ (
          s',
          failure (
              write_error 400
                (lit "token_budget_exceeded")
                (over_budget tokens (limit_for s'.token_budget c.model_id) c.model_id)),
        )
    unfolding handle_chat admit_chat
    handle_chat_over_budget r s s' req c cs tokens hr hf ht hb = ground (arith, hr, hf, ht, hb)

    run_chat_rate_limited :
        (req : Request) (c : Candidate) (cs : List Candidate) (s : Server W) (w : W)
        (fs : List Failure)
        → Run backend.name (call_chat backend req) (on_chat backend) (c ∷ cs) s.world fs w none
        → backend.gone w ≡ false
        → all is_rate_limit (errors_of fs) ≡ true
        → run_chat backend json req (c ∷ cs) s ≡ (
          record s { metrics = count_failures fs s.metrics; world = w },
          failure (too_many (longest_wait 0 (errors_of fs))),
        )
    unfolding run_chat
    run_chat_rate_limited req c cs s w fs h hg ha =
        let f : Fanout Response = start_fanout s.metrics req.model (c ∷ cs) in
        let end =
          try_all-Run backend.name (call_chat backend req) (on_chat backend) (c ∷ cs) s.world w fs
            none f h in
        let reply = exhausted_lem Response {B = Body} backend.name s.metrics req.model c cs fs in
        ground (arith, hg, end, reply, note_failures-response fs f, note_failures-metrics fs f)

    -- A chat request that is read, has candidates, keeps the budget and is not streamed: when every
    -- candidate fails with a rate limit and the client is still there, it gets a 429 whose
    -- Retry-After is the longest wait, and each failure is counted as an error.
    pub handle_chat_rate_limited :
        (r : Incoming) (s s' : Server W) (req : Request) (c : Candidate) (cs : List Candidate)
        (w : W) (fs : List Failure)
        → read_request chat_request s.max_body_bytes r ≡ inr req
        → find_candidates backend req.model s ≡ (s', c ∷ cs)
        → exceeds_budget s'.token_budget c.model_id req.max_tokens ≡ false
        → req.stream ≡ false
        → Run backend.name
            (call_chat backend (record req { model = c.model_id }))
            (on_chat backend)
            (c ∷ cs)
            s'.world
            fs
            w
            none
        → backend.gone w ≡ false
        → all is_rate_limit (errors_of fs) ≡ true
        → handle_chat backend json r s ≡ (
          record s' { metrics = count_failures fs s'.metrics; world = w },
          failure (too_many (longest_wait 0 (errors_of fs))),
        )
    unfolding handle_chat admit_chat exceeds_budget
    handle_chat_rate_limited r s s' req c cs w fs hr hf hb hs h hg ha = ground (
      arith,
      hr,
      hf,
      hb,
      hs,
      run_chat_rate_limited (record req { model = c.model_id }) c cs s' w fs h hg ha,
    )
