-- ===== src/Server/Audit.antt =====
-- internal/server/audit.go: the records that each function hands to the logger. A logger is whether it
-- is enabled at debug level, `none` for nil; the request's ID stands in the context, and durations are
-- milliseconds.
use mathlib.Core.List.{map}
use go_ai_proxy.Common.{
  ℕ, ◌≡◌, refl, Bool, true, false, not, ◌&&◌, Option, none, some, List, [], ◌∷◌, ◌++◌, length,
  is_nil, keep, length-map, ap, ◌∙◌, sym,
}
use go_ai_proxy.Common.Text.{Text, lit}
use go_ai_proxy.Common.Int64.{is_positive}
use go_ai_proxy.Domain.{Message, Usage, Request, Response, EmbedRequest, EmbedResponse}

pub data Level : Type 0 where
  debug : Level
  info : Level
  error : Level

-- The value of an attribute.
pub data Value : Type 0 where
  text : Text → Value
  int : ℕ → Value
  messages : List Message → Value
  texts : List Text → Value

abbrev pub Args : Type 0
Args = List (Text × Value)

-- A record of the message "audit".
pub record Entry : Type 0 where
  pub level : Level
  pub args : Args

abbrev pub Logger : Type 0
Logger = Option Bool

abbrev log : Level → Args → Entry
log l attrs = record { level = l; args = attrs }

abbrev when : Bool → Args → Args
when true attrs = attrs
when false attrs = []

abbrev pub debug_entry : Bool → Args → List Entry
debug_entry true attrs = log debug attrs ∷ []
debug_entry false attrs = []

abbrev request_id : Text → Text × Value
request_id id = (lit "request_id", text id)

abbrev model_arg : Text → Text × Value
model_arg model = (lit "model", text model)

abbrev usage_args : Usage → Args
usage_args u =
    (lit "prompt_tokens", int u.prompt_tokens)
    ∷ (lit "completion_tokens", int u.completion_tokens)
    ∷ when (is_positive u.cached_tokens) ((lit "cached_tokens", int u.cached_tokens) ∷ [])

abbrev reason_args : Text → Args
reason_args reason = when (not (is_nil reason)) ((lit "finish_reason", text reason) ∷ [])

abbrev response_args : Option Response → Args
response_args none = []
response_args (some r) = usage_args r.usage ++ reason_args r.finish_reason

abbrev content_args : Option Text → Option Response → Args
content_args none (some r) = (lit "response", text r.message.content) ∷ []
content_args _ _ = []

-- The record at error or info level, by the error.
abbrev completed : Option Text → Args → Args → Entry
completed none attrs more = log info (attrs ++ more)
completed (some e) attrs more = log error (attrs ++ ((lit "error", text e) ∷ []))

unfoldable pub audit_chat : Logger → Text → Request → Option Response → Option Text → ℕ → List Entry
audit_chat none id req resp err ms = []
audit_chat (some enabled) id req resp err ms =
    debug_entry enabled (
      request_id id
      ∷ model_arg req.model
      ∷ (lit "messages", messages req.messages)
      ∷ content_args err resp)
    ++ (completed err (request_id id ∷ model_arg req.model ∷ (lit "duration_ms", int ms) ∷ [])
          (response_args resp)
        ∷ [])

abbrev embed_args : Option EmbedResponse → Args
embed_args none = []
embed_args (some r) = (lit "prompt_tokens", int r.usage.prompt_tokens) ∷ []

unfoldable pub audit_embeddings :
    Logger → Text → EmbedRequest → Option EmbedResponse → Option Text → ℕ → List Entry
audit_embeddings none id req resp err ms = []
audit_embeddings (some enabled) id req resp err ms =
    debug_entry enabled (request_id id ∷ model_arg req.model ∷ (lit "input", texts req.input) ∷ [])
    ++ (completed err
          (request_id id
            ∷ model_arg req.model
            ∷ (lit "input_count", int (length req.input))
            ∷ (lit "duration_ms", int ms)
            ∷ [])
          (embed_args resp)
        ∷ [])

abbrev event : Text → Text × Value
event name = (lit "event", text name)

unfoldable pub audit_stream_start : Logger → Text → Request → List Entry
audit_stream_start none id req = []
audit_stream_start (some enabled) id req =
    debug_entry enabled
      (request_id id ∷ model_arg req.model ∷ (lit "messages", messages req.messages) ∷ [])
    ++ (log info (event (lit "stream_start") ∷ request_id id ∷ model_arg req.model ∷ []) ∷ [])

unfoldable pub audit_client_disconnect : Logger → Text → Text → ℕ → List Entry
audit_client_disconnect none id model ms = []
audit_client_disconnect (some enabled) id model ms =
    log info (
      event (lit "client_disconnect")
      ∷ request_id id
      ∷ model_arg model
      ∷ (lit "duration_ms", int ms)
      ∷ [])
    ∷ []

abbrev usage_opt : Option Usage → Args
usage_opt none = []
usage_opt (some u) = usage_args u

unfoldable pub audit_stream_end :
    Logger → Text → Text → ℕ → Option Usage → Text → ℕ → Text → List Entry
audit_stream_end none id model ms usage reason ttft content = []
audit_stream_end (some enabled) id model ms usage reason ttft content =
    debug_entry (enabled && not (is_nil content)) (
      event (lit "stream_end")
      ∷ request_id id
      ∷ model_arg model
      ∷ (lit "response", text content)
      ∷ [])
    ++ (log info (
          (event (lit "stream_end")
            ∷ request_id id
            ∷ model_arg model
            ∷ (lit "duration_ms", int ms)
            ∷ [])
          ++ (when (is_positive ttft) ((lit "ttft_ms", int ttft) ∷ [])
              ++ (usage_opt usage ++ reason_args reason)))
        ∷ [])

-- The records above debug level.
abbrev pub is_visible : Entry → Bool
is_visible e = elim (e.level) [ debug ↦ false | info ↦ true | error ↦ true ]

pub visible_after_debug :
    (t : Bool) (attrs : Args) (rest : List Entry)
    → keep is_visible (debug_entry t attrs ++ rest) ≡ keep is_visible rest
visible_after_debug true attrs rest = refl
visible_after_debug false attrs rest = refl

-- A request without what its messages say, and a response without its message and its thinking.
abbrev pub hide_request : Request → Request
hide_request req = record req { messages = [] }

abbrev pub hide_response : Message → Response → Response
hide_response m r = record r { message = m; thinking = [] }

abbrev pub hide_inputs : EmbedRequest → EmbedRequest
hide_inputs req = record req { input = map (λ _. []) req.input }

-- Above debug level, the audit of a chat, of embeddings and of a stream writes the same records whatever
-- the messages, the inputs and the content of the response are.
pub audit_hides_content :
    (logger : Logger) (id model reason content : Text) (req : Request) (resp : Response)
    (m : Message) (ereq : EmbedRequest) (eresp : Option EmbedResponse) (err : Option Text)
    (ms ttft : ℕ) (usage : Option Usage)
    → (keep is_visible (audit_chat logger id req (some resp) err ms)
        ≡ keep is_visible
            (audit_chat logger id (hide_request req) (some (hide_response m resp)) err ms))
      × (keep is_visible (audit_embeddings logger id ereq eresp err ms)
          ≡ keep is_visible (audit_embeddings logger id (hide_inputs ereq) eresp err ms))
      × (keep is_visible (audit_stream_start logger id req)
          ≡ keep is_visible (audit_stream_start logger id (hide_request req)))
      × (keep is_visible (audit_stream_end logger id model ms usage reason ttft content)
          ≡ keep is_visible (audit_stream_end logger id model ms usage reason ttft []))
unfolding audit_chat audit_embeddings audit_stream_start audit_stream_end
audit_hides_content none id model reason content req resp m ereq eresp err ms ttft usage =
    (refl, refl, refl, refl)
audit_hides_content (some enabled) id model reason content req resp m ereq eresp err ms ttft usage =
    (
      visible_after_debug enabled _ _ ∙ sym (visible_after_debug enabled _ _),
      visible_after_debug enabled _ _
          ∙ ap (λ n. keep is_visible (completed err (counted n) (embed_args eresp) ∷ []))
              (sym (length-map ereq.input (λ _. [])))
          ∙ sym (visible_after_debug enabled _ _),
      visible_after_debug enabled _ _ ∙ sym (visible_after_debug enabled _ _),
      visible_after_debug (enabled && not (is_nil content)) _ _
          ∙ sym (visible_after_debug (enabled && false) _ _),
    )
  where
    counted : ℕ → Args
    counted n =
        request_id id
        ∷ model_arg ereq.model
        ∷ (lit "input_count", int n)
        ∷ (lit "duration_ms", int ms)
        ∷ []
