-- ===== src/Testutil.antt =====
-- internal/testutil/fake_provider.go: the provider of the tests, whose functions may be set, and the
-- providers of a server that are all such.
use go_ai_proxy.Common.{true, Option, none, some, List, [], ◌∷◌, is_nil, if◌then◌else◌}
use go_ai_proxy.Common.Text.{Text, lit}
use go_ai_proxy.Domain.{
  Model, absent, Request, Response, Chunk, no_chunk, EmbedRequest, EmbedResponse,
}
use go_ai_proxy.Provider.OpenAi.{Result, ok, err}

pub record FakeProvider : Type 0 where
  pub name_val : Text
  pub chat_func : Option (Request → Result Response)
  pub stream_func : Option (Request → Result (List Chunk))
  pub models_func : Option (Result (List Model))
  pub embed_func : Option (EmbedRequest → Result EmbedResponse)

unfoldable pub name : FakeProvider → Text
name f = if is_nil f.name_val then lit "fake" else f.name_val

-- A response with no more than its message.
abbrev fake_response : Request → Response
fake_response req = record {
  id = lit "fake-id";
  model = req.model;
  message = record {
    role = lit "assistant";
    content = lit "fake response";
    raw_content = absent;
    tool_calls = [];
    tool_call_id = [];
  };
  usage = record { prompt_tokens = 0; completion_tokens = 0; cached_tokens = 0 };
  thinking = [];
  finish_reason = [];
}

abbrev given_or : {A B : Type 0} → Option (A → B) → (A → B) → A → B
given_or none fallback a = fallback a
given_or (some f) fallback a = f a

unfoldable pub chat : FakeProvider → Request → Result Response
chat f req = given_or f.chat_func (λ r. ok (fake_response r)) req

unfoldable pub chat_stream : FakeProvider → Request → Result (List Chunk)
chat_stream f req = given_or f.stream_func (λ r. ok (record no_chunk { done = true } ∷ [])) req

unfoldable pub models : FakeProvider → Result (List Model)
models f = elim f.models_func [ none ↦ ok [] | some r ↦ r ]

-- The values are 0.1, 0.2 and 0.3.
abbrev fake_embeddings : EmbedRequest → EmbedResponse
fake_embeddings req = record {
  model = req.model;
  embeddings =
      record {
        index = 0;
        values = 0x3FB999999999999A ∷ 0x3FC999999999999A ∷ 0x3FD3333333333333 ∷ [];
      }
      ∷ [];
  usage = record { prompt_tokens = 0; completion_tokens = 0; cached_tokens = 0 };
}

unfoldable pub embeddings : FakeProvider → EmbedRequest → Result EmbedResponse
embeddings f req = given_or f.embed_func (λ r. ok (fake_embeddings r)) req

unfoldable pub new_fake_provider : List Model → FakeProvider
new_fake_provider ms = record {
  name_val = [];
  chat_func = none;
  stream_func = none;
  models_func = some (ok ms);
  embed_func = none;
}

abbrev pub listed_by : Result (List Model) → Option (List Model)
listed_by (ok ms) = some ms
listed_by (err e) = none
