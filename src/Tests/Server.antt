-- ===== src/Tests/Server.antt =====
-- A server with one model, `m`, at two providers: the first is rate limited for 5 s, the second
-- answers if the world, a count of the calls, lets it. Streams end after two chunks.
use go_ai_proxy.Common.{
  ℕ, ◌+◌, ◌-◌, ◌≡◌, refl, inr, Bool, true, false, Option, some, none, List, [], ◌∷◌, ◌++◌, map, ltb,
  ◌==◌, if◌then◌else◌,
}
use mathlib.Core.Option
use go_ai_proxy.Common.Eq.{list_beq, nat_eq}
use go_ai_proxy.Common.Assoc.{lookup}
use go_ai_proxy.Common.Sort.{sort_stable}
use go_ai_proxy.Common.Text.{Text, lit, text_eq, strip_prefix}
use go_ai_proxy.Domain.{ProviderId, absent, Request, Response, Chunk, no_chunk}
use go_ai_proxy.Metrics.{new_metrics}
use go_ai_proxy.Provider.Errors.{ProviderError, rate_limit, upstream, queue_full}
use go_ai_proxy.Provider.OpenAi.{Result, ok, err}
use go_ai_proxy.Registry.{Registry}
use go_ai_proxy.Registry.Route.{Candidate, candidates_for, providers_for, serving}
use go_ai_proxy.Translator.Wire.{OaRequest}
use go_ai_proxy.Translator.Request.{request_from_openai}
use go_ai_proxy.Translator.Response.{response_to_openai}
use go_ai_proxy.Server.{failure, success, try_all, start_fanout}
use go_ai_proxy.Server.Budget.{exceeds_budget, limit_for}
use go_ai_proxy.Server.Stream.{
  run_stream, encode_chunk, no_log, done_event, somes, run_stream_events,
}
use go_ai_proxy.Server.Fallback.{
  Run, nobody, answered, failed, Failure, note_failures, note_answer, called, uncalled, try_all_lem,
}
use go_ai_proxy.Server.Exhausted.{too_many, failure_for, reply_after, exhausted_lem}
use go_ai_proxy.Server.Handlers.{
  Incoming, Body, chat_body, Backend, Server, Json, read_body, read_request, find_candidates,
  record_success,
}
use go_ai_proxy.Server.Handlers.Chat.{call_chat, on_chat, handle_chat}
use go_ai_proxy.Server.Handlers.Laws.{
  chat_request, count_failures, handle_chat_answered, handle_chat_rate_limited,
}
use go_ai_proxy.Server.Limiter.{Limiters, Headers}

abbrev pub answer : Response
answer = record {
  id = lit "r";
  model = lit "m";
  message = record {
    role = lit "assistant";
    content = lit "hi";
    raw_content = absent;
    tool_calls = [];
    tool_call_id = [];
  };
  usage = record { prompt_tokens = 3; completion_tokens = 1; cached_tokens = 0 };
  thinking = [];
  finish_reason = lit "stop";
}

abbrev pub limit_5s : ProviderError
limit_5s = rate_limit 5000000000

abbrev pub provider_name : ProviderId → Text
provider_name p = if p == 1 then lit "one" else lit "two"

-- The second provider answers in the worlds below 10.
abbrev pub chat_call : ProviderId → Request → ℕ → ℕ × (Result Response × ℕ)
chat_call p req w =
    if p == 1
    then (w + 1, (err limit_5s, 3))
    else if ltb w 10
    then (w + 1, (ok answer, 8))
    else (w + 1, (err (rate_limit 7000000000), 9))

abbrev pub backend : Backend ℕ
backend = record {
  name = provider_name;
  chat = chat_call;
  chat_stream = λ p req w. (w, (err queue_full, 0));
  embeds = λ p. false;
  embeddings = λ p req w. (w, (err queue_full, 0));
  models = λ w. (w, λ p. none);
  active = λ w p. 0;
  gone = λ w. false;
  now = λ w. 1700000000;
}

abbrev pub registry : Registry
registry = record {
  providers = [];
  tables = record {
    index = (lit "m", 1) ∷ [];
    fallbacks = (lit "m", 1 ∷ 2 ∷ []) ∷ [];
    globs = [];
    all_models = [];
  };
}

abbrev pub server : ℕ → Server ℕ
server world = record {
  max_body_bytes = 100;
  token_budget = some (record { fallback = 50; models = [] });
  registry = registry;
  metrics = some new_metrics;
  world = world;
}

abbrev pub wire_request : Option ℕ → OaRequest
wire_request max_tokens = record {
  model = lit "m";
  messages = [];
  temperature = none;
  max_tokens = max_tokens;
  stream = false;
  tools = [];
  budget_tokens = none;
  reasoning_effort = none;
  reasoning = none;
  response_format = none;
  grammar = [];
}

-- The body is `20` or another text; JSON is not parsed here.
abbrev pub json : Json
json = record {
  chat_request = λ text. some (wire_request (if text_eq text (lit "20") then some 20 else some 60));
  embed_request = λ text. none;
  marshals = λ body. true;
  marshals_chunk = λ chunk. true;
}

abbrev pub incoming : Text → Incoming
incoming body = record { method = lit "POST"; body = some body; size = 2 }

abbrev request : ℕ → Request
request tokens = request_from_openai (wire_request (some tokens))

abbrev one : Candidate
one = record { model_id = lit "m"; provider = 1 }

abbrev two : Candidate
two = record { model_id = lit "m"; provider = 2 }

reads : read_request (chat_request backend json) 100 (incoming (lit "20")) ≡ inr (request 20)
unfolding read_request read_body list_beq
reads = refl

finds : (w : ℕ) → find_candidates backend (lit "m") (server w) ≡ (server w, one ∷ two ∷ [])
unfolding find_candidates candidates_for providers_for serving lookup sort_stable list_beq
    strip_prefix
finds w = refl

Run-answered :
    Run provider_name
      (call_chat backend (request 20))
      (on_chat backend)
      (one ∷ two ∷ [])
      0
      ((one, (limit_5s, 3)) ∷ [])
      2
      (some (two, (answer, 8)))
Run-answered = failed refl (answered refl)

handle_chat_answered_example : handle_chat backend json (incoming (lit "20")) (server 0) ≡ (
  record (server 0) {
    metrics =
        Option.map
          (record_success backend two 8 answer.usage)
          (count_failures backend ((one, (limit_5s, 3)) ∷ []) (server 0).metrics);
    world = 2;
  },
  success (chat_body (response_to_openai 1700000000 answer)),
)
unfolding exceeds_budget limit_for lookup request_from_openai
handle_chat_answered_example =
    handle_chat_answered backend json (incoming (lit "20")) (server 0) (server 0) (request 20) one
      two (two ∷ []) 2 ((one, (limit_5s, 3)) ∷ []) answer 8 reads (finds 0) refl refl Run-answered
      refl

Run-limited :
    Run provider_name
      (call_chat backend (request 20))
      (on_chat backend)
      (one ∷ two ∷ [])
      10
      ((one, (limit_5s, 3)) ∷ (two, (rate_limit 7000000000, 9)) ∷ [])
      12
      none
Run-limited = failed refl (failed refl nobody)

handle_chat_rate_limited_example : handle_chat backend json (incoming (lit "20")) (server 10) ≡ (
  record (server 10) {
    metrics =
        count_failures backend
          ((one, (limit_5s, 3)) ∷ (two, (rate_limit 7000000000, 9)) ∷ [])
          (server 10).metrics;
    world = 12;
  },
  failure (too_many 7000000000),
)
unfolding exceeds_budget limit_for lookup request_from_openai
handle_chat_rate_limited_example =
    handle_chat_rate_limited backend json (incoming (lit "20")) (server 10) (server 10) (request 20)
      one (two ∷ []) 12 ((one, (limit_5s, 3)) ∷ (two, (rate_limit 7000000000, 9)) ∷ []) reads
      (finds 10) refl refl Run-limited refl refl

reads_60 : read_request (chat_request backend json) 100 (incoming (lit "60")) ≡ inr (request 60)
unfolding read_request read_body list_beq
reads_60 = refl

-- An answer of the first candidate, with a second that is not called.
try_all_lem_example :
    (fs : List Failure) × (w' : ℕ) × (r : Option (Candidate × (Response × ℕ))) × (post : List
      Candidate)
    × Run provider_name
        (call_chat backend (request 20))
        (on_chat backend)
        (two ∷ one ∷ [])
        0
        fs
        w'
        r
    × (try_all provider_name
          (call_chat backend (request 20))
          (on_chat backend)
          (two ∷ one ∷ [])
          0
          (start_fanout none (lit "m") (two ∷ one ∷ []))
        ≡ (
          w',
          note_answer provider_name
              (call_chat backend (request 20))
              (on_chat backend)
              r
              (note_failures provider_name fs (start_fanout none (lit "m") (two ∷ one ∷ []))),
        ))
    × (two ∷ one ∷ []
        ≡ called provider_name (call_chat backend (request 20)) (on_chat backend) fs r
          ++ uncalled provider_name (call_chat backend (request 20)) (on_chat backend) r post)
try_all_lem_example =
    try_all_lem provider_name (call_chat backend (request 20)) (on_chat backend) (two ∷ one ∷ []) 0
      (start_fanout none (lit "m") (two ∷ one ∷ []))

exhausted_lem_example :
    reply_after Response {B = Body} provider_name none
      (lit "m")
      (one ∷ two ∷ [])
      ((one, (limit_5s, 3)) ∷ (two, (upstream 413 (lit "too long"), 4)) ∷ [])
    ≡ failure (failure_for (limit_5s ∷ upstream 413 (lit "too long") ∷ []))
exhausted_lem_example =
    exhausted_lem Response provider_name none (lit "m") one (two ∷ [])
      ((one, (limit_5s, 3)) ∷ (two, (upstream 413 (lit "too long"), 4)) ∷ [])

abbrev chunks : List (ℕ × Chunk)
chunks =
    (1, record no_chunk { delta = lit "a" })
    ∷ (1, record no_chunk { delta = lit "b"; done = true })
    ∷ (1, record no_chunk { delta = lit "c" })
    ∷ []

run_stream_events_example :
    (run_stream json.marshals_chunk no_log chunks).0
    ≡ somes (map (encode_chunk json.marshals_chunk) ((1, record no_chunk { delta = lit "a" }) ∷ []))
      ++ done_event ∷ []
run_stream_events_example = run_stream_events json.marshals_chunk no_log chunks

abbrev pub allow : ℕ → ℕ → ℕ × Bool
allow now n = (n - 1, ltb 0 n)

abbrev limiters : Limiters ℕ 3 allow
limiters = (lit "k", (1, 5)) ∷ []

abbrev pub headers : Text → Headers
headers forwarded = record {
  authorization = [];
  forwarded_for = forwarded;
  real_ip = [];
  remote_addr = lit "10.0.0.1";
}
