-- ===== src/Translator/Models.antt =====
-- ModelsToOpenAI and ModelsFromOpenAI of internal/translator/openai.go. strconv.ParseFloat is the
-- parameter `parse_float`, `none` for its error.
use go_ai_proxy.Common.{
  ℕ, ◌≡◌, refl, ap, ◌∙◌, ◌||◌, Option, none, some, List, [], ◌∷◌, map, arith, any, is_nil, is_some,
  if◌then◌else◌,
}
use go_ai_proxy.Common.Text.{Text, lit, text_eq, includes}
use go_ai_proxy.Domain.{Float, is_inf, Model}

pub record OaModelArchitecture : Type 0 where
  pub modality : Text
  pub input_modalities : List Text

pub record OaModelPricing : Type 0 where
  pub prompt : Text
  pub completion : Text

pub record OaModel : Type 0 where
  pub id : Text
  pub object : Text
  pub created : ℕ
  pub owned_by : Text
  pub architecture : Option OaModelArchitecture
  pub capabilities : List Text
  pub pricing : Option OaModelPricing
  pub input_cost_per_token : Option Float
  pub output_cost_per_token : Option Float
  pub max_model_len : ℕ

pub record OaModelsResponse : Type 0 where
  pub object : Text
  pub models : List OaModel

-- A cost that is there and finite.
unfoldable pub finite : Option Float → Option Float
finite none = none
finite (some f) = if is_inf f then none else some f

unfoldable pub model_to_openai : Model → OaModel
unfolding finite
model_to_openai m = record {
  id = m.id;
  object = lit "model";
  created = 0;
  owned_by = m.owned_by;
  architecture = none;
  capabilities = m.capabilities;
  pricing = none;
  input_cost_per_token = finite m.input_cost_per_token;
  output_cost_per_token = finite m.output_cost_per_token;
  max_model_len = m.max_model_len;
}

unfoldable pub models_to_openai : List Model → OaModelsResponse
models_to_openai ms = record { object = lit "list"; models = map model_to_openai ms }

abbrev pub vision : Text
vision = lit "vision"

abbrev pub image : Text
image = lit "image"

-- The set `seen` holds "vision" or nothing, so that sorting it changes nothing.
architecture_caps : OaModelArchitecture → List Text
architecture_caps a =
    if any (λ m. text_eq m image) a.input_modalities || includes image a.modality
    then vision ∷ []
    else []

caps_or : Option OaModelArchitecture → List Text
unfolding architecture_caps
caps_or none = []
caps_or (some a) = architecture_caps a

-- modelCapabilities
unfoldable pub model_capabilities : OaModel → List Text
unfolding caps_or
model_capabilities m = if is_nil m.capabilities then caps_or m.architecture else m.capabilities

abbrev both_costs : Option Float → Option Float → Option Float × Option Float
both_costs (some i) (some o) = (some i, some o)
both_costs _ _ = (none, none)

module _ (parse_float : Text → Option Float) where
  pricing_costs : Option OaModelPricing → Option Float × Option Float
  pricing_costs none = (none, none)
  pricing_costs (some p) = both_costs (parse_float p.prompt) (parse_float p.completion)

  -- modelPricing
  unfoldable pub model_pricing : OaModel → Option Float × Option Float
  unfolding pricing_costs
  model_pricing m =
      if is_some m.input_cost_per_token || is_some m.output_cost_per_token
      then (m.input_cost_per_token, m.output_cost_per_token)
      else pricing_costs m.pricing

  unfoldable pub model_from_openai : OaModel → Model
  model_from_openai m =
      let (input, output) = model_pricing m in
      record {
        id = m.id;
        owned_by = m.owned_by;
        capabilities = model_capabilities m;
        input_cost_per_token = input;
        output_cost_per_token = output;
        max_model_len = m.max_model_len;
      }

  unfoldable pub models_from_openai : OaModelsResponse → List Model
  models_from_openai r = map model_from_openai r.models

  -- The model as a client sees it: no infinite cost.
  abbrev pub published : Model → Model
  published m = record m {
    input_cost_per_token = finite m.input_cost_per_token;
    output_cost_per_token = finite m.output_cost_per_token;
  }

  model_roundtrip : (m : Model) → model_from_openai (model_to_openai m) ≡ published m
  unfolding model_from_openai model_to_openai model_pricing model_capabilities
  model_roundtrip m = ground arith

  -- Another proxy that reads this one's model list sees the same models in the same order, with their
  -- capabilities, lengths and finite costs, and an infinite cost as not reported.
  pub models_roundtrip :
      (ms : List Model) → models_from_openai (models_to_openai ms) ≡ map published ms
  unfolding models_from_openai models_to_openai
  models_roundtrip [] = refl
  models_roundtrip (m ∷ ms) =
      ap (λ x. x ∷ map model_from_openai (map model_to_openai ms)) (model_roundtrip m)
      ∙ ap (◌∷◌ (published m)) (models_roundtrip ms)
