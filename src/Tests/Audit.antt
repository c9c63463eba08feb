-- ===== src/Tests/Audit.antt =====
-- A chat that the second candidate answers, with its audit records, and the ID of a request.
use go_ai_proxy.Common.{ℕ, ◌≡◌, refl, inl, inr, true, none, [], ◌∷◌, arith}
use go_ai_proxy.Common.Text.{lit}
use go_ai_proxy.Domain.{Request}
use go_ai_proxy.Server.{HttpError}
use go_ai_proxy.Server.Handlers.{read_request, find_candidates}
use go_ai_proxy.Server.Handlers.Chat.{handle_chat}
use go_ai_proxy.Server.Handlers.Audited.{Audited, handle_chat_audited}
use go_ai_proxy.Server.Handlers.Records.{levels}
use go_ai_proxy.Server.Handlers.Logged.{logged, requests, FitsRequest, handle_chat-Fits}
use go_ai_proxy.Server.Middleware.{new_request_id, request_id, is_valid_request_id, request_id_kept}
use go_ai_proxy.Tests.Server.{backend, json, server, incoming}

abbrev audited : Audited ℕ
audited = record {
  logger = none;
  id = lit "id";
  message = λ e. lit "failed";
  elapsed = λ w. w;
  stream_ms = 0;
  arrival = λ n. n;
}

handle_chat-Fits_example :
    let r = incoming (lit "20") in
    let end = handle_chat_audited backend json (logged backend json true audited) r (server 0) in
    (end.0 ≡ handle_chat backend json r (server 0))
    × ((e : HttpError)
        → read_request (requests backend json true audited) 100 r ≡ inl e
        → end.1 ≡ [])
    × ((req : Request)
        → read_request (requests backend json true audited) 100 r ≡ inr req
        → FitsRequest backend json true audited req
            (find_candidates backend req.model (server 0))
            end.0.1
            (levels end.1))
handle_chat-Fits_example =
    handle_chat-Fits backend json true audited (incoming (lit "20")) (server 0)

request_id_kept_example :
    let id = request_id (lit "0102030405060708") (lit "no good!") in
    (is_valid_request_id id ≡ true) × (request_id (lit "other") id ≡ id)
unfolding new_request_id
request_id_kept_example =
    request_id_kept (1 ∷ 2 ∷ 3 ∷ 4 ∷ 5 ∷ 6 ∷ 7 ∷ 8 ∷ []) (lit "0102030405060708") (lit "no good!")
      (lit "other") refl (omega arith) refl
