-- ===== src/Tests/LlamaCpp.antt =====
-- A schema with an enum and an array, its grammar, and the request that is sent with it.
use go_ai_proxy.Common.{
  ℕ, ◌≡◌, refl, true, false, Option, none, some, List, [], ◌∷◌, ◌++◌, if◌then◌else◌,
}
use go_ai_proxy.Common.Text.{Text, lit, text_eq, join}
use go_ai_proxy.Common.Eq.{list_beq}
use go_ai_proxy.Common.Format.{replace_all, show_digits, sort_strings, insert_string, text_le}
use go_ai_proxy.Common.Json.{
  str, arr, obj, nil, cons, Fields, end, field, find_field, depth, JsonCodec,
}
use go_ai_proxy.Domain.{Request, Response, ResponseFormat}
use go_ai_proxy.Provider.OpenAi.{RoundTrip, replied, finish_call}
use go_ai_proxy.Provider.OpenAi.Client as Client
use go_ai_proxy.Provider.OpenAi.Client.{HttpCall, post, completions_path, chat}
use go_ai_proxy.Provider.LlamaCpp.Gbnf.{
  Builder, done, gbnf_json_string, schema_to_gbnf, grammar_text, use_prim,
}
use go_ai_proxy.Provider.LlamaCpp.Closed.{IsExpr, IsGrammar}
use go_ai_proxy.Provider.LlamaCpp.Names.{AreDefined}
use go_ai_proxy.Provider.LlamaCpp.Sound.{schema_to_gbnf_closed}
use go_ai_proxy.Provider.LlamaCpp.Total.{Ends, schema_to_gbnf-Ends}
use go_ai_proxy.Provider.LlamaCpp.Literal.{read_literal, gbnf_json_string_lem}
use go_ai_proxy.Provider.LlamaCpp.{
  Config, LlamaCpp, new, inner_settings, grammar_key, response_format_key,
}
use go_ai_proxy.Provider.LlamaCpp.Laws.{chat_sends_grammar}

abbrev colours : Fields
colours = field (lit "enum") (arr (cons (str (lit "red")) (cons (str (lit "blue")) nil))) end

abbrev counts : Fields
counts =
    field (lit "type") (str (lit "array"))
      (field (lit "items") (obj (field (lit "type") (str (lit "integer")) end)) end)

abbrev sample : Fields
sample = field (lit "type") (str (lit "object")) (
    field (lit "properties")
      (obj (field (lit "n") (obj counts) (field (lit "c") (obj colours) end))) end)

abbrev grammar_lines : List Text
grammar_lines =
    lit "root ::= obj0"
    ∷ lit "arr0 ::= \"[\" space ( integer (\",\" space integer)* )? space \"]\""
    ∷ lit
        "obj0 ::= \"{\" space \"\\\"c\\\"\" space \":\" space (\"\\\"red\\\"\" | \"\\\"blue\\\"\") \",\" space \"\\\"n\\\"\" space \":\" space arr0 space \"}\""
    ∷ lit "space ::= | \" \" | \"\\n\"{1,2} [ \\t]{0,20}"
    ∷ lit "integral-part ::= [0] | [1-9] [0-9]{0,15}"
    ∷ lit "integer ::= (\"-\"? integral-part)"
    ∷ lit ""
    ∷ []

abbrev sample_grammar : Text
unfolding join
sample_grammar = join (lit "\n") grammar_lines

sample_converts : schema_to_gbnf sample ≡ done sample_grammar
unfolding schema_to_gbnf depth find_field sort_strings insert_string text_le replace_all show_digits
    list_beq join use_prim gbnf_json_string
sample_converts = refl

schema_to_gbnf_closed_example :
    (root : Text) × (b : Builder) × IsGrammar b
    × AreDefined b.prims
    × IsExpr b root
    × (sample_grammar ≡ grammar_text root b)
schema_to_gbnf_closed_example = schema_to_gbnf_closed sample sample_grammar sample_converts

schema_to_gbnf-Ends_example : Ends (schema_to_gbnf sample)
schema_to_gbnf-Ends_example = schema_to_gbnf-Ends sample

gbnf_json_string_lem_example :
    read_literal (gbnf_json_string (lit "a\"\n") ++ lit " | x")
    ≡ some (lit "\"" ++ (lit "a\"\n" ++ lit "\""), lit " | x")
gbnf_json_string_lem_example = gbnf_json_string_lem (lit "a\"\n") (lit " | x")

-- A codec that knows one body and prints the keys of a map.
abbrev body : Text
body = lit "{}"

abbrev root : Fields
root = field (lit "model") (str (lit "m")) (field response_format_key (obj end) end)

abbrev printed : Fields → Text
printed end = []
printed (field k v fs) = k ++ printed fs

abbrev json : JsonCodec
json = record {
  unmarshal = λ t. if text_eq t body then some (some root) else none;
  marshal = printed;
}

abbrev cfg : Config
cfg = record {
  name = lit "local";
  base_url = lit "http://localhost:8080";
  api_key = [];
  timeout = 0;
  tls_insecure = false;
  model_capabilities = (lit "m", lit "structured_output" ∷ []) ∷ [];
}

abbrev schema_map : Text → Fields
schema_map s = sample

abbrev format : ResponseFormat
format = record { name = lit "out"; schema = lit "{…}"; strict = true }

abbrev request : Request
request = record {
  model = lit "m";
  messages = [];
  tools = [];
  temperature = none;
  max_tokens = none;
  stream = false;
  budget_tokens = none;
  reasoning_effort = none;
  response_format = some format;
  grammar = [];
}

abbrev http : HttpCall → RoundTrip
http call = replied (record { status = 200; retry_after = []; body = call.body })

abbrev until : Text → Option ℕ
until t = none

abbrev decode : Text → Option Response
decode t = none

abbrev encode : Request → Option Text
encode r = some body

abbrev provider : LlamaCpp
provider = record {
  cfg = cfg;
  inner = Client.new cfg.base_url (inner_settings json schema_map cfg);
}

chat_sends_grammar_example :
    (sent : Fields) × (chat until encode decode provider.inner http request
      ≡ finish_call until decode (http (post provider.inner completions_path (printed sent))))
    × (find_field grammar_key sent ≡ (
        if text_eq response_format_key grammar_key
        then none
        else if text_eq grammar_key grammar_key
        then some (str sample_grammar)
        else find_field grammar_key root))
unfolding list_beq new
chat_sends_grammar_example =
    chat_sends_grammar json schema_map until encode decode http cfg provider request format
      sample_grammar body root grammar_key refl refl refl refl refl sample_converts
