-- ===== src/Tests/Serve.antt =====
-- Two chat requests and a health check behind one bucket of two tokens.
use go_ai_proxy.Common.{ℕ, ◌≡◌, List, [], ◌∷◌, none}
use go_ai_proxy.Common.Text.{Text, lit}
use go_ai_proxy.Server.Serve.{
  HttpRequest, Outside, Gate, global_limit, serve_all, passed, route_all, merged, serve_all_limited,
}
use go_ai_proxy.Tests.Server.{backend, json, server, incoming, headers, allow}
use go_ai_proxy.Tests.Translator.{zero_codec}

abbrev outside : Outside ℕ
outside = record { new_limiter = λ cfg. 2; allow = allow; digest = λ t. t; split_host = λ t. none }

abbrev request_to : Text → ℕ → HttpRequest
request_to path at = record {
  path = path;
  incoming = incoming (lit "20");
  headers = headers [];
  request_id_header = [];
  fresh_id = lit "0a";
  at = at;
}

abbrev requests : List HttpRequest
requests =
    request_to (lit "/v1/chat/completions") 1
    ∷ request_to (lit "/healthz") 2
    ∷ request_to (lit "/v1/chat/completions") 3
    ∷ []

abbrev gate : Gate outside
gate = global_limit 2

serve_all_limited_example :
    let answers = serve_all outside backend json zero_codec requests (gate, server 0) in
    let alone =
      route_all outside backend json zero_codec
        (passed outside backend json zero_codec requests gate)
        (server 0) in
    (answers.0.1 ≡ alone.0)
    × (answers.1 ≡ merged outside backend json zero_codec requests gate alone.1)
serve_all_limited_example =
    serve_all_limited outside backend json zero_codec requests gate (server 0)
