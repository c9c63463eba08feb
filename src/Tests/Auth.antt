-- ===== src/Tests/Auth.antt =====
-- Three keys in rotation, and an OAuth token that is still good, and one that is not.
use go_ai_proxy.Common.{
  ℕ, ◌+◌, ◌%◌, ◌≡◌, refl, ◌⊎◌, inr, true, false, Option, none, some, List, [], ◌∷◌, arith,
  get_elem?, length,
}
use go_ai_proxy.Common.Int64.{modulus}
use go_ai_proxy.Common.Text.{Text, lit}
use go_ai_proxy.Domain.{Request}
use go_ai_proxy.Auth.RoundRobin.{new_round_robin, get_token}
use go_ai_proxy.Provider.Anthropic.{MessageParams, SdkError, AnMessage}
use go_ai_proxy.Provider.Anthropic.Client as Client
use go_ai_proxy.Provider.Anthropic.Client.{
  Anthropic, SdkClient, set_name, client_of, call, chat_all, chats_rotate_keys,
}
use go_ai_proxy.Auth.OAuth.{TokenData, unreachable, Env}

abbrev keys : List Text
keys = lit "a" ∷ lit "b" ∷ lit "c" ∷ []

-- The SDK answers with the key that it was given.
abbrev echo : SdkClient → MessageParams → SdkError ⊎ AnMessage
echo client params = inr (record {
  id = client.api_key;
  model = params.model;
  content = [];
  input_tokens = 1;
  output_tokens = 1;
})

abbrev no_date : Text → Option ℕ
no_date t = none

abbrev no_json : Text → Option Text
no_json t = none

abbrev plain : Anthropic
plain = Client.new (set_name (lit "claude") ∷ [])

abbrev hello : Request
hello = record {
  model = lit "m";
  messages = [];
  tools = [];
  temperature = none;
  max_tokens = none;
  stream = false;
  budget_tokens = none;
  reasoning_effort = none;
  response_format = none;
  grammar = [];
}

chats_rotate_keys_example :
    (key : Text) × (get_elem? keys ((0 + 3) % modulus % length keys) ≡ some key)
    × (let end =
          chat_all no_date no_json plain no_json echo get_token
            (hello ∷ hello ∷ hello ∷ hello ∷ [])
            (new_round_robin keys) in
        get_elem? end.1 3
        ≡ some (call no_date no_json plain no_json echo hello (client_of plain key)))
unfolding new_round_robin
chats_rotate_keys_example =
    chats_rotate_keys no_date no_json plain no_json echo (hello ∷ hello ∷ hello ∷ hello ∷ [])
      (new_round_robin keys) 3 hello (ground arith) refl

abbrev token_data : TokenData
token_data = record { access_token = lit "t"; refresh_token = []; expires_at = 100 }

abbrev env : ℕ → Env
env now = record {
  stored = some token_data;
  now = now;
  refreshed = unreachable;
  code = true;
  authorized = unreachable;
}
