-- ===== src/Server/Handlers/Logged.antt =====
-- internal/server/server.go and audit.go: the records of a request fit the answer that the client gets.
use go_ai_proxy.Common.{
  ◌≡◌, ◌⊎◌, refl, Bool, true, false, Option, none, some, List, [], ◌∷◌, inl, inr, Bool-cases,
  Option-cases,
}
use mathlib.Core.Option
use go_ai_proxy.Common.Text.{Text}
use go_ai_proxy.Domain.{Request, EmbedRequest}
use go_ai_proxy.Registry.Route.{Candidate}
use go_ai_proxy.Translator.Request.{request_from_openai}
use go_ai_proxy.Translator.Embeddings.{Codec}
use go_ai_proxy.Server.{HttpError, Reply, failure, start_fanout, try_all}
use go_ai_proxy.Server.Audit.{Level}
use go_ai_proxy.Server.Budget.{exceeds_budget}
use go_ai_proxy.Server.Handlers.{
  Incoming, Body, Backend, Server, Json, read_request, unknown, find_candidates, after_loop,
}
use go_ai_proxy.Server.Handlers.Chat.{handle_chat, admit_chat, start_chat}
use go_ai_proxy.Server.Handlers.Other.{
  run_embeddings, handle_embeddings, call_embeddings, on_embeddings, decode_embed,
}
use go_ai_proxy.Server.Handlers.Audited.{
  Audited, chat_audited, stream_audited, start_audited, Audits, admit_audited, found_audited,
  read_audited, found_inputs_audited, read_inputs_audited, handle_chat_audited, embeddings_audited,
  handle_embeddings_audited,
}
use go_ai_proxy.Server.Handlers.Records.{levels, settled}
use go_ai_proxy.Server.Handlers.Fits.{Fits, embed_reply-Fits, start-Fits}

module _ {W : Type 0} (backend : Backend W) (json : Json) (enabled : Bool) (a : Audited W) where
  abbrev pub logged : Audited W
  logged = record a { logger = some enabled }

  start_lem :
      (req : Request) (c : Candidate) (cs : List Candidate) (s : Server W)
      → (start_audited backend json logged req c cs s).0 ≡ start_chat backend json req c cs s
  unfolding start_audited start_chat chat_audited stream_audited
  start_lem req c cs s = elim (Bool-cases req.stream) [ inl b ↦ rw b | inr b ↦ rw b ]

  -- With a budget that is exceeded there is no record.
  abbrev pub FitsBudget : Bool → Bool → Reply Body → List Level → Type 0
  FitsBudget true streamed reply ls = ls ≡ []
  FitsBudget false streamed reply ls = Fits streamed reply ls

  -- Nor is there one without a candidate.
  abbrev pub FitsRequest : Request → Server W × List Candidate → Reply Body → List Level → Type 0
  FitsRequest req (s, []) reply ls = ls ≡ []
  FitsRequest req (s, c ∷ cs) reply ls =
      FitsBudget (exceeds_budget s.token_budget c.model_id req.max_tokens) req.stream reply ls

  abbrev FitsAll : Request → Server W × List Candidate → Audits backend json logged → Type 0
  FitsAll req found ((s, reply), entries) = FitsRequest req found reply (levels entries)

  admit-Fits :
      (req : Request) (c : Candidate) (cs : List Candidate) (s : Server W)
      → ((admit_audited backend json logged req c cs s).0 ≡ admit_chat backend json req c cs s)
        × FitsAll req (s, c ∷ cs) (admit_audited backend json logged req c cs s)
  unfolding admit_audited admit_chat exceeds_budget
  admit-Fits req c cs s = elim (Option-cases req.max_tokens) [
    | inl m ↦ rw m (
        let r = record req { max_tokens = none } in
        (start_lem r c cs s, start-Fits backend json enabled a r c cs s))
    | inr (tokens, m) ↦ elim (Bool-cases (exceeds_budget s.token_budget c.model_id (some tokens))) [
      | inl b ↦ rw (m, b) (refl, refl)
      | inr b ↦
          rw (m, b)
            (let r = record req { max_tokens = some tokens } in
              (start_lem r c cs s, start-Fits backend json enabled a r c cs s))
    ]
  ]

  abbrev pub requests : Text → Option Request
  requests text = Option.map request_from_openai (json.chat_request text)

  found-Fits :
      (req : Request) (s : Server W) (found : List Candidate)
      → let audited = found_audited backend json logged req found s in
        let plain = elim found as (λ _. Server W × Reply Body) [
          | [] ↦ (s, failure (unknown s.registry req.model))
          | c ∷ cs ↦ admit_chat backend json req c cs s
        ] in
        (audited.0 ≡ plain) × FitsAll req (s, found) audited
  found-Fits req s [] = (refl, refl)
  found-Fits req s (c ∷ cs) = admit-Fits req c cs s

  read-Fits :
      (s : Server W) (read : HttpError ⊎ Request)
      → let audited = read_audited backend json logged s read in
        (audited.0 ≡ (elim read [
          | inl e ↦ (s, failure e)
          | inr req ↦
              let (s', found) = find_candidates backend req.model s in
              elim found [
                | [] ↦ (s', failure (unknown s'.registry req.model))
                | c ∷ cs ↦ admit_chat backend json req c cs s'
              ]
        ]))
        × ((e : HttpError) → read ≡ inl e → audited.1 ≡ [])
        × ((req : Request)
            → read ≡ inr req
            → FitsRequest req (find_candidates backend req.model s) audited.0.1 (levels audited.1))
  read-Fits s (inl e) = (refl, (λ x k. refl), (λ req k. absurd (cc k)))
  read-Fits s (inr req) =
      let (s', found) = find_candidates backend req.model s in
      let (same, fits) = found-Fits req s' found in
      (same, (λ x k. absurd (cc k)), (λ req' k. let e : req ≡ req' = cc k in rw (← e) fits))

  -- With auditing on, a chat request is answered as without it. One that cannot be read leaves no
  -- record, and neither does one for which no candidate is found or whose max_tokens exceed the budget.
  -- Of the others, above debug level: an answer that is not streamed leaves one record at info level,
  -- also when it cannot be encoded, and an answered stream two; a client that is gone leaves one at info
  -- level; a stream that no candidate accepts leaves none; and a request without a stream that all
  -- candidates fail leaves one at error level.
  pub handle_chat-Fits :
      (r : Incoming) (s : Server W)
      → let audited = handle_chat_audited backend json logged r s in
        (audited.0 ≡ handle_chat backend json r s)
        × ((e : HttpError) → read_request requests s.max_body_bytes r ≡ inl e → audited.1 ≡ [])
        × ((req : Request)
            → read_request requests s.max_body_bytes r ≡ inr req
            → FitsRequest req (find_candidates backend req.model s) audited.0.1 (levels audited.1))
  unfolding handle_chat_audited handle_chat
  handle_chat-Fits r s = read-Fits s (read_request requests s.max_body_bytes r)

  abbrev pub FitsInputs : List Candidate → Reply Body → List Level → Type 0
  FitsInputs [] reply ls = ls ≡ []
  FitsInputs (c ∷ cs) reply ls = Fits false reply ls

  abbrev EmbedFits : List Candidate → Audits backend json logged → Type 0
  EmbedFits found ((s, reply), entries) = FitsInputs found reply (levels entries)

  found_inputs-Fits :
      (codec : Codec) (req : EmbedRequest) (s : Server W) (found : List Candidate)
      → let audited = found_inputs_audited backend json logged codec req found s in
        let plain = elim found as (λ _. Server W × Reply Body) [
          | [] ↦ (s, failure (unknown s.registry req.model))
          | c ∷ cs ↦ run_embeddings backend json codec req (c ∷ cs) s
        ] in
        (audited.0 ≡ plain) × EmbedFits found audited
  unfolding embeddings_audited run_embeddings
  found_inputs-Fits codec req s [] = (refl, refl)
  found_inputs-Fits codec req s (c ∷ cs) =
      let end =
        try_all backend.name (call_embeddings backend req) (on_embeddings backend) (c ∷ cs) s.world
          (start_fanout s.metrics req.model (c ∷ cs)) in
      (
        refl,
        embed_reply-Fits backend json enabled a codec req (after_loop s end) end.1 end.1.response
            refl
            (settled backend.name (call_embeddings backend req) (on_embeddings backend) c cs s.world
              _),
      )

  read_inputs-Fits :
      (codec : Codec) (s : Server W) (read : HttpError ⊎ EmbedRequest)
      → let audited = read_inputs_audited backend json logged codec s read in
        (audited.0 ≡ (elim read [
          | inl e ↦ (s, failure e)
          | inr req ↦
              let (s', found) = find_candidates backend req.model s in
              elim found [
                | [] ↦ (s', failure (unknown s'.registry req.model))
                | c ∷ cs ↦ run_embeddings backend json codec req (c ∷ cs) s'
              ]
        ]))
        × ((e : HttpError) → read ≡ inl e → audited.1 ≡ [])
        × ((req : EmbedRequest)
            → read ≡ inr req
            → FitsInputs (find_candidates backend req.model s).1 audited.0.1 (levels audited.1))
  read_inputs-Fits codec s (inl e) = (refl, (λ x k. refl), (λ req k. absurd (cc k)))
  read_inputs-Fits codec s (inr req) =
      let (s', found) = find_candidates backend req.model s in
      let (same, fits) = found_inputs-Fits codec req s' found in
      (same, (λ x k. absurd (cc k)), (λ req' k. let e : req ≡ req' = cc k in rw (← e) fits))

  abbrev pub inputs : Text → Option EmbedRequest
  inputs = decode_embed backend json

  pub handle_embeddings-Fits :
      (codec : Codec) (r : Incoming) (s : Server W)
      → let audited = handle_embeddings_audited backend json logged codec r s in
        (audited.0 ≡ handle_embeddings backend json codec r s)
        × ((e : HttpError) → read_request inputs s.max_body_bytes r ≡ inl e → audited.1 ≡ [])
        × ((req : EmbedRequest)
            → read_request inputs s.max_body_bytes r ≡ inr req
            → FitsInputs (find_candidates backend req.model s).1 audited.0.1 (levels audited.1))
  unfolding handle_embeddings_audited handle_embeddings
  handle_embeddings-Fits codec r s =
      read_inputs-Fits codec s (read_request inputs s.max_body_bytes r)
