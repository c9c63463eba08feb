-- ===== src/Provider/LlamaCpp/Laws.antt =====
-- internal/provider/llamacpp/provider.go: what a llama.cpp server gets to read.
use go_ai_proxy.Common.{
  ◌≡◌, ℕ, refl, Bool, true, false, not, Option, none, some, [], ◌++◌, is_nil, if◌then◌else◌, ap,
  ◌∙◌, sym,
}
use go_ai_proxy.Common.Text.{Text, text_eq}
use go_ai_proxy.Common.Eq.{nat_eq}
use go_ai_proxy.Common.Int64.{is_positive}
use go_ai_proxy.Common.Json.{
  JsonCodec, str, Fields, find_field, set_field, find_field-set_field, find_field-delete_field,
}
use go_ai_proxy.Domain.{Schema, Request, Response, ResponseFormat}
use go_ai_proxy.Provider.OpenAi.{
  ok, ◌>>=◌, if_err-eq-ok, ok_injective, RoundTrip, or_parse_error, finish_call,
}
use go_ai_proxy.Provider.OpenAi.Client as Client
use go_ai_proxy.Provider.OpenAi.Client.{
  Setting, with_api_key, with_timeout, with_tls_insecure, option_of, apply_settings, HttpCall, post,
  completions_path, chat, chat_body, mutate,
}
use go_ai_proxy.Provider.LlamaCpp.Gbnf.{done, schema_to_gbnf}
use go_ai_proxy.Provider.LlamaCpp.{
  Config, LlamaCpp, grammar_key, response_format_key, with_grammar, injected, inject_grammar,
  grammar_or_error, by_format, mutator, inner_settings, new,
}

-- What the server reads in the body of a request: the grammar, no response format, and else what was
-- there.
with_grammar-fields :
    (grammar : Text) (root : Fields) (asked : Text)
    → find_field asked (with_grammar grammar root) ≡ (
        if text_eq response_format_key asked
        then none
        else if text_eq grammar_key asked
        then some (str grammar)
        else find_field asked root)
with_grammar-fields grammar root asked =
    find_field-delete_field asked response_format_key (set_field grammar_key (str grammar) root)
    ∙ ap (λ o. if text_eq response_format_key asked then none else o)
        (find_field-set_field asked grammar_key (str grammar) root)

option_mutator :
    (a b c : Bool) (key : Text) (d : ℕ) (p : Client.Provider)
    → let settings =
        option_of a (with_api_key key)
        ++ (option_of b (with_timeout d) ++ option_of c (with_tls_insecure true)) in
      let q = apply_settings settings p in q.mutator ≡ p.mutator
option_mutator true true true key d p = refl
option_mutator true true false key d p = refl
option_mutator true false true key d p = refl
option_mutator true false false key d p = refl
option_mutator false true true key d p = refl
option_mutator false true false key d p = refl
option_mutator false false true key d p = refl
option_mutator false false false key d p = refl

module _ (json : JsonCodec) (schema_map : Schema → Fields) where
  new-mutator :
      (cfg : Config) (p : LlamaCpp)
      → new json schema_map cfg ≡ ok p
      → p.inner.mutator ≡ some (mutator json schema_map)
  unfolding new Client.new
  new-mutator cfg p h =
      let q : LlamaCpp = record {
        cfg = cfg;
        inner = Client.new cfg.base_url (inner_settings json schema_map cfg);
      } in
      let e =
        if_err-eq-ok (is_nil cfg.model_capabilities) _ (ok q) p
          (if_err-eq-ok (is_nil cfg.base_url) _ _ p h) in
      ap (λ (x : LlamaCpp). x.inner.mutator) (sym (ok_injective q p e))
      ∙ option_mutator (not (is_nil cfg.api_key)) (is_positive cfg.timeout) cfg.tls_insecure
          cfg.api_key cfg.timeout _

  mutator_grammar :
      (req : Request) (format : ResponseFormat) (grammar body : Text) (root : Fields)
      → json.unmarshal body ≡ some (some root)
      → req.grammar ≡ []
      → req.response_format ≡ some format
      → schema_to_gbnf (schema_map format.schema) ≡ done grammar
      → mutator json schema_map body req ≡ ok (json.marshal (with_grammar grammar root))
  unfolding mutator inject_grammar
  mutator_grammar req format grammar body root h g f s =
      let by = by_format json schema_map body in
      ap (λ x. if is_nil x then by req.response_format else inject_grammar json body x) g
      ∙ ap by f
      ∙ ap (grammar_or_error json schema_map body) s
      ∙ ap (injected json grammar) h

  -- A request for structured output with a schema that converts is sent, by a provider that New made,
  -- with the converted grammar in its body and no response format, and every other entry as it was.
  pub chat_sends_grammar :
      (until : Text → Option ℕ) (encode : Request → Option Text) (decode : Text → Option Response)
      (http : HttpCall → RoundTrip) (cfg : Config) (p : LlamaCpp) (req : Request)
      (format : ResponseFormat) (grammar body : Text) (root : Fields) (asked : Text)
      → new json schema_map cfg ≡ ok p
      → encode req ≡ some body
      → json.unmarshal body ≡ some (some root)
      → req.grammar ≡ []
      → req.response_format ≡ some format
      → schema_to_gbnf (schema_map format.schema) ≡ done grammar
      → (sent : Fields) × (chat until encode decode p.inner http req
          ≡ finish_call until decode (http (post p.inner completions_path (json.marshal sent))))
        × (find_field asked sent ≡ (
            if text_eq response_format_key asked
            then none
            else if text_eq grammar_key asked
            then some (str grammar)
            else find_field asked root))
  unfolding chat chat_body
  chat_sends_grammar until encode decode http cfg p req format grammar body root asked made e h g f
        s =
      let call = λ (b : Text). finish_call until decode (http (post p.inner completions_path b)) in
      let sent : chat_body encode p.inner req ≡ ok (json.marshal (with_grammar grammar root)) =
        ap (λ o. or_parse_error o >>= (λ b. mutate p.inner.mutator b req)) e
        ∙ ap (λ m. mutate m body req) (new-mutator cfg p made)
        ∙ mutator_grammar req format grammar body root h g f s in
      (with_grammar grammar root, ap (λ r. r >>= call) sent, with_grammar-fields grammar root asked)
