-- ===== src/Server/Handlers/Fits.antt =====
-- internal/server/server.go and audit.go: the records that the end of a handler's loop writes fit the answer
-- that the client gets.
use go_ai_proxy.Common.{
  ◌≡◌, refl, Bool, true, false, Option, none, some, List, [], ◌∷◌, inl, inr, Bool-cases, arith,
  ◌==◌, if◌then◌else◌,
}
use go_ai_proxy.Common.Text.{Text}
use go_ai_proxy.Domain.{Request, Response, EmbedRequest, EmbedResponse}
use go_ai_proxy.Provider.Errors.{ProviderError, rate_limit, upstream, queue_full, other}
use go_ai_proxy.Registry.Route.{Candidate}
use go_ai_proxy.Translator.Embeddings.{Codec}
use go_ai_proxy.Server.{
  HttpError, Reply, failure, closed, success, Fanout, start_fanout, try_all, exhausted,
  is_queue_full, write_provider_failure,
}
use go_ai_proxy.Server.Stream.{no_log, run_stream}
use go_ai_proxy.Server.Audit.{Level, info, error, Entry}
use go_ai_proxy.Server.Handlers.{Body, Accepted, Backend, Server, Json, marshal, after_loop}
use go_ai_proxy.Server.Handlers.Chat.{
  chat_reply, stream_reply, run_chat, run_chat_stream, call_chat, on_chat, call_stream, on_stream,
}
use go_ai_proxy.Server.Handlers.Other.{embed_reply}
use go_ai_proxy.Server.Handlers.Audited.{
  Audited, chat_entries, stream_entries, embed_entries, chat_audited, stream_audited, start_audited,
  Audits,
}
use go_ai_proxy.Server.Handlers.Records.{
  levels, chat-levels, embed-levels, stream-levels, disconnect-levels, IsSettled, settled,
}

-- The levels of the records that an answer goes with after the loop over the candidates: a stream has one
-- at its start and one at its end. Of the failures only that of an answer that is not encoded has the
-- status 500, and that answer is on record.
abbrev pub Fits : Bool → Reply Body → List Level → Type 0
Fits streamed closed ls = ls ≡ info ∷ []
Fits true (success b) ls = ls ≡ info ∷ info ∷ []
Fits false (success b) ls = ls ≡ info ∷ []
Fits true (failure e) ls = ls ≡ []
Fits false (failure e) ls = ls ≡ (if e.status == 500 then info else error) ∷ []

failure_status :
    (last : Option ProviderError) → ((write_provider_failure last).status == 500) ≡ false
unfolding write_provider_failure
failure_status none = refl
failure_status (some (rate_limit wait)) = refl
failure_status (some (upstream status body)) = ground arith
failure_status (some queue_full) = refl
failure_status (some (other e)) = refl

-- Any error that a loop can end with; none has the status 500.
exhausted-Fits :
    {A : Type 0} (streamed : Bool) (f : Fanout A) (ls : List Level)
    → ((e : HttpError) → (e.status == 500) ≡ false → Fits streamed (failure e) ls)
    → Fits streamed (exhausted false f) ls
unfolding exhausted
exhausted-Fits streamed f ls h = elim (Bool-cases f.all_rate_limited) [
  | inl a ↦ rw a (h _ refl)
  | inr a ↦ elim (Bool-cases (is_queue_full f.last_err)) [
    | inl b ↦ rw (a, b) (h _ refl)
    | inr b ↦ rw (a, b) (h (write_provider_failure f.last_err) (failure_status f.last_err))
  ]
]

marshal-Fits :
    (t : Bool) (why : Text) (b : Body) (ls : List Level)
    → ls ≡ info ∷ []
    → Fits false (marshal t why b) ls
marshal-Fits true why b ls h = h
marshal-Fits false why b ls h = h

-- The end of a loop in which no candidate answered: one record of the error, or of the client's going.
all_failed-Fits :
    {A : Type 0} (f : Fanout A) (gone : Bool) (left failed : List Entry)
    → levels left ≡ info ∷ []
    → levels failed ≡ error ∷ []
    → Fits false (exhausted gone f) (levels (if gone then left else failed))
unfolding exhausted
all_failed-Fits f true left failed h k = h
all_failed-Fits f false left failed h k = exhausted-Fits false f (levels failed) (λ e n. rw n k)

no_stream-Fits :
    {A : Type 0} (f : Fanout A) (gone : Bool) (left : List Entry)
    → levels left ≡ info ∷ []
    → Fits true (exhausted gone f) (levels (if gone then left else []))
unfolding exhausted
no_stream-Fits f true left h = h
no_stream-Fits f false left h = exhausted-Fits true f [] (λ e n. refl)

module _ {W : Type 0} (backend : Backend W) (json : Json) (enabled : Bool) (a : Audited W) where
  abbrev pub logged : Audited W
  logged = record a { logger = some enabled }

  chat_reply-Fits :
      (req : Request) (s : Server W) (f : Fanout Response) (r : Option (Candidate × Response))
      → f.response ≡ r
      → IsSettled f
      → Fits false
          (chat_reply backend json s f)
          (levels (chat_entries backend json logged req s.world f))
  unfolding chat_reply chat_entries
  chat_reply-Fits req s f none e h =
      let (x, known) = h e in
      rw (e, known)
        (all_failed-Fits (record f { last_err = some x; response = none }) (backend.gone s.world) _
          _ (disconnect-levels enabled a.id f.model (a.elapsed s.world))
          ((chat-levels enabled a.id (record req { model = f.model }) none (a.elapsed s.world)).1
            (a.message x)))
  chat_reply-Fits req s f (some (c, resp)) e h = rw e (
      marshal-Fits _ _ _ _
        (chat-levels enabled a.id (record req { model = c.model_id }) (some resp)
          (a.elapsed s.world)).0)

  pub embed_reply-Fits :
      (codec : Codec) (req : EmbedRequest) (s : Server W) (f : Fanout EmbedResponse)
      (r : Option (Candidate × EmbedResponse))
      → f.response ≡ r
      → IsSettled f
      → Fits false
          (embed_reply backend json codec req s f)
          (levels (embed_entries backend json logged req s.world f))
  unfolding embed_reply embed_entries
  embed_reply-Fits codec req s f none e h =
      let (x, known) = h e in
      rw (e, known)
        (all_failed-Fits (record f { last_err = some x; response = none }) (backend.gone s.world) _
          _ (disconnect-levels enabled a.id f.model (a.elapsed s.world))
          ((embed-levels enabled a.id (record req { model = f.model }) none (a.elapsed s.world)).1
            (a.message x)))
  embed_reply-Fits codec req s f (some (c, resp)) e h = rw e (
      marshal-Fits _ _ _ _
        (embed-levels enabled a.id (record req { model = c.model_id }) (some resp)
          (a.elapsed s.world)).0)

  stream_reply-Fits :
      (req : Request) (s : Server W) (f : Fanout Accepted) (r : Option (Candidate × Accepted))
      → f.response ≡ r
      → Fits true
          (stream_reply backend json s f).1
          (levels (stream_entries backend json logged req s.world f))
  unfolding stream_reply stream_entries
  stream_reply-Fits req s f none e = rw e (
      no_stream-Fits (record f { response = none }) (backend.gone s.world) _
        (disconnect-levels enabled a.id f.model (a.elapsed s.world)))
  stream_reply-Fits req s f (some (c, accepted)) e =
      let log = (run_stream json.marshals_chunk no_log accepted.chunks).1 in
      rw e (
        stream-levels enabled a.id (record req { model = c.model_id }) c.model_id
          log.last_finish_reason log.content a.stream_ms _ log.last_usage)

  abbrev pub AuditFits : Bool → Audits backend json logged → Type 0
  AuditFits streamed ((s, reply), entries) = Fits streamed reply (levels entries)

  pub start-Fits :
      (req : Request) (c : Candidate) (cs : List Candidate) (s : Server W)
      → AuditFits req.stream (start_audited backend json logged req c cs s)
  unfolding start_audited chat_audited stream_audited run_chat run_chat_stream
  start-Fits req c cs s = elim (Bool-cases req.stream) [
    | inl b ↦ rw b (
        let r = record req { model = c.model_id; stream = true } in
        let end =
          try_all backend.name (call_stream backend r) (on_stream backend) (c ∷ cs) s.world
            (start_fanout s.metrics r.model (c ∷ cs)) in
        stream_reply-Fits r (after_loop s end) end.1 end.1.response refl)
    | inr b ↦ rw b (
        let r = record req { model = c.model_id; stream = false } in
        let end =
          try_all backend.name (call_chat backend r) (on_chat backend) (c ∷ cs) s.world
            (start_fanout s.metrics r.model (c ∷ cs)) in
        chat_reply-Fits r (after_loop s end) end.1 end.1.response refl
          (settled backend.name (call_chat backend r) (on_chat backend) c cs s.world _))
  ]
