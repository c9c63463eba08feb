-- ===== src/Server/Serve.antt =====
-- New and ServeHTTP of internal/server/server.go with the middleware around the routes: a request gets
-- its ID, passes the rate limiter, and is given to the handler of its path. http.ServeMux is here for
-- clean paths, and bodyLimitMiddleware stands in `read_body`.
use go_ai_proxy.Common.{
  ℕ, ◌≡◌, refl, Bool, true, false, Option, none, some, List, [], ◌∷◌, if◌then◌else◌, ap,
}
use go_ai_proxy.Common.Text.{Text, lit, text_eq}
use go_ai_proxy.Domain.{Float}
use go_ai_proxy.Metrics.{Metrics}
use go_ai_proxy.Registry.{Registry}
use go_ai_proxy.Translator.Embeddings.{Codec}
use go_ai_proxy.Server.{Reply, failure, plain, write_error}
use go_ai_proxy.Provider.OpenAi.Client.{apply_settings}
use go_ai_proxy.Server.Audit.{Logger}
use go_ai_proxy.Server.Budget.{TokenBudgetConfig}
use go_ai_proxy.Server.Limiter.{Limiters, allow_caller, Headers, caller_key}
use go_ai_proxy.Server.Middleware.{request_id}
use go_ai_proxy.Server.Handlers.{Incoming, Body, Backend, Server, Json}
use go_ai_proxy.Server.Handlers.Chat.{handle_chat}
use go_ai_proxy.Server.Handlers.Other.{
  handle_embeddings, handle_models, handle_healthz, handle_metrics,
}

pub record RateLimitConfig : Type 0 where
  pub rps : Float
  pub burst : ℕ
  pub per_caller : Bool
  pub trust_proxy : Bool

-- What the options of New set.
pub record Settings : Type 0 where
  pub max_body_bytes : ℕ
  pub audit_logger : Logger
  pub rate_limit_cfg : Option RateLimitConfig
  pub token_budget : Option TokenBudgetConfig
  pub metrics : Option Metrics

abbrev pub with_max_body_bytes : ℕ → Settings → Settings
with_max_body_bytes n s = record s { max_body_bytes = n }

abbrev pub with_audit_log : Logger → Settings → Settings
with_audit_log logger s = record s { audit_logger = logger }

abbrev pub with_metrics : Metrics → Settings → Settings
with_metrics m s = record s { metrics = some m }

abbrev pub with_rate_limit : RateLimitConfig → Settings → Settings
with_rate_limit cfg s = record s { rate_limit_cfg = some cfg }

abbrev pub with_token_budget : TokenBudgetConfig → Settings → Settings
with_token_budget cfg s = record s { token_budget = some cfg }

abbrev no_settings : Settings
no_settings = record {
  max_body_bytes = 0;
  audit_logger = none;
  rate_limit_cfg = none;
  token_budget = none;
  metrics = none;
}

-- A request as the outermost middleware sees it, with the time at which it comes and the ID that
-- newRequestID would make.
pub record HttpRequest : Type 0 where
  pub path : Text
  pub incoming : Incoming
  pub headers : Headers
  pub request_id_header : Text
  pub fresh_id : Text
  pub at : ℕ

pub data Served : Type 0 where
  not_found : Served
  answered : Reply Body → Served

-- golang.org/x/time/rate, SHA-256 and net.SplitHostPort.
pub record Outside (L : Type 0) : Type 0 where
  pub new_limiter : RateLimitConfig → L
  pub allow : ℕ → L → L × Bool
  pub digest : Text → Text
  pub split_host : Text → Option Text

module _ {L : Type 0} (o : Outside L) where
  -- What the rate limiter keeps: nothing without one, one bucket, or those of the callers.
  pub data Gate : Type 0 where
    no_limit : Gate
    global_limit : L → Gate
    caller_limit : (cfg : RateLimitConfig) → Limiters L (o.new_limiter cfg) o.allow → Gate

  -- rateLimitMiddleware
  unfoldable pub new_gate : Option RateLimitConfig → Gate
  new_gate none = no_limit
  new_gate (some cfg) =
      if cfg.per_caller then caller_limit cfg [] else global_limit (o.new_limiter cfg)

  -- New: the limiter and the server over a registry; auditing is not part of this state.
  unfoldable pub new : {W : Type 0} → List (Settings → Settings) → Registry → W → Gate × Server W
  unfolding new_gate
  new settings registry world =
      let s = apply_settings settings no_settings in
      (
        new_gate s.rate_limit_cfg,
        record {
          max_body_bytes = s.max_body_bytes;
          token_budget = s.token_budget;
          registry = registry;
          metrics = s.metrics;
          world = world;
        },
      )

  -- Whether a request may pass.
  unfoldable pub ask : HttpRequest → Gate → Gate × Bool
  unfolding allow_caller caller_key
  ask r no_limit = (no_limit, true)
  ask r (global_limit l) = let (l', b) = o.allow r.at l in (global_limit l', b)
  ask r (caller_limit cfg m) =
      let key = caller_key o.digest o.split_host cfg.trust_proxy r.headers in
      let (m', b) = allow_caller L (o.new_limiter cfg) o.allow r.at key m in
      (caller_limit cfg m', b)

  module _ {W : Type 0} (backend : Backend W) (json : Json) (codec : Codec) where
    abbrev answer : Server W × Reply Body → Server W × Served
    answer (s, reply) = (s, answered reply)

    -- The routes of the mux.
    unfoldable pub route : HttpRequest → Server W → Server W × Served
    unfolding handle_chat handle_embeddings handle_models handle_healthz handle_metrics
    route r s =
        if text_eq r.path (lit "/v1/chat/completions")
        then answer (handle_chat backend json r.incoming s)
        else if text_eq r.path (lit "/v1/embeddings")
        then answer (handle_embeddings backend json codec r.incoming s)
        else if text_eq r.path (lit "/v1/models")
        then (s, answered (handle_models backend json r.incoming s))
        else if text_eq r.path (lit "/healthz")
        then (s, answered (handle_healthz backend json r.incoming))
        else if text_eq r.path (lit "/metrics")
        then (s, answered (handle_metrics backend json r.incoming s))
        else (s, not_found)

    abbrev pub refused : Served
    refused =
        answered
          (failure (write_error 429 (lit "rate_limit_exceeded") (plain (lit "too many requests"))))

    abbrev pub limited : Bool → HttpRequest → Server W → Server W × Served
    limited true r s = route r s
    limited false r s = (s, refused)

    -- ServeHTTP: the state of the limiter and of the server, and the ID and the answer that go out.
    unfoldable pub serve_http : HttpRequest → Gate × Server W → (Gate × Server W) × (Text × Served)
    unfolding ask route request_id
    serve_http r (gate, s) =
        let (gate', allowed) = ask r gate in
        let (s', served) = limited allowed r s in
        ((gate', s'), (request_id r.fresh_id r.request_id_header, served))

    -- Requests one after the other, with the answers.
    unfoldable pub serve_all : List HttpRequest → Gate × Server W → (Gate × Server W) × List Served
    unfolding serve_http
    serve_all [] g = (g, [])
    serve_all (r ∷ rs) g =
        let (g', (id, served)) = serve_http r g in
        let (g'', answers) = serve_all rs g' in (g'', served ∷ answers)

    -- The requests that the limiter lets pass, from the limiter alone.
    abbrev pub passed : List HttpRequest → Gate → List HttpRequest
    passed [] gate = []
    passed (r ∷ rs) gate =
        let (gate', allowed) = ask r gate in
        let rest = passed rs gate' in if allowed then r ∷ rest else rest

    -- The requests that reach a server without a limiter.
    abbrev pub route_all : List HttpRequest → Server W → Server W × List Served
    route_all [] s = (s, [])
    route_all (r ∷ rs) s =
        let (s', served) = route r s in
        let (s'', answers) = route_all rs s' in (s'', served ∷ answers)

    -- The answers with a refusal for each request that does not pass.
    abbrev pub merged : List HttpRequest → Gate → List Served → List Served
    merged [] gate answers = []
    merged (r ∷ rs) gate answers =
        let (gate', allowed) = ask r gate in
        if allowed
        then (elim answers [ [] ↦ [] | a ∷ rest ↦ a ∷ merged rs gate' rest ])
        else refused ∷ merged rs gate' answers

    pub serve_all_limited :
        (rs : List HttpRequest) (gate : Gate) (s : Server W)
        → ((serve_all rs (gate, s)).0.1 ≡ (route_all (passed rs gate) s).0)
          × ((serve_all rs (gate, s)).1 ≡ merged rs gate (route_all (passed rs gate) s).1)
    unfolding serve_all serve_http
    serve_all_limited [] gate s = (refl, refl)
    serve_all_limited (r ∷ rs) gate s =
        step (λ x. serve_all_limited rs (ask r gate).0 x) (ask r gate).1
      where
        later : Gate
        later = (ask r gate).0

        step :
            ((x : Server W)
              → ((serve_all rs (later, x)).0.1 ≡ (route_all (passed rs later) x).0)
                × ((serve_all rs (later, x)).1 ≡ merged rs later (route_all (passed rs later) x).1))
            → (t : Bool)
            → let end = serve_all rs (later, (limited t r s).0) in
              let alone = route_all (if t then r ∷ passed rs later else passed rs later) s in
              (end.0.1 ≡ alone.0)
              × ((limited t r s).1 ∷ end.1 ≡ (
                  if t
                  then (elim alone.1 [ [] ↦ [] | a ∷ rest ↦ a ∷ merged rs later rest ])
                  else refused ∷ merged rs later alone.1))
        step rest true =
            let (state, answers) = rest (route r s).0 in (state, ap (◌∷◌ (route r s).1) answers)
        step rest false = let (state, answers) = rest s in (state, ap (◌∷◌ refused) answers)
