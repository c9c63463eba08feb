-- ===== src/Translator/Embeddings.antt =====
-- internal/translator/embeddings.go. The float32 conversions and base64 are parameters: `narrow` is
-- math.Float32bits(float32(v)), `widen` float64(math.Float32frombits(bits)).
use go_ai_proxy.Common.{
  ℕ, ◌+◌, ◌*◌, ◌/◌, ◌%◌, ◌<◌, ◌≡◌, refl, Bool, Option, none, some, List, [], ◌∷◌, map, arith,
  if◌then◌else◌,
}
use mathlib.Core.Option
use go_ai_proxy.Common.Text.{Text, lit, text_eq}
use go_ai_proxy.Domain.{Float, EmbedRequest, Embedding, EmbedResponse}
use go_ai_proxy.Translator.Wire.{first_non_empty}

-- What json.Unmarshal makes of `input`: an array of strings (null gives none), a string, or neither.
pub data OaInput : Type 0 where
  strings : List Text → OaInput
  one_string : Text → OaInput
  unsupported : OaInput

pub record OaEmbedRequest : Type 0 where
  pub model : Text
  pub input : OaInput
  pub encoding_format : Text
  pub dimensions : Option ℕ

abbrev pub float : Text
float = lit "float"

abbrev pub base64 : Text
base64 = lit "base64"

-- decodeEmbedInput
unfoldable pub decode_embed_input : OaInput → Option (List Text)
decode_embed_input (strings ss) = some ss
decode_embed_input (one_string s) = some (s ∷ [])
decode_embed_input unsupported = none

unfoldable pub embed_request_from_openai : OaEmbedRequest → Option EmbedRequest
unfolding decode_embed_input first_non_empty
embed_request_from_openai oa = elim (decode_embed_input oa.input) [
  | none ↦ none
  | some input ↦ some (record {
    model = oa.model;
    input = input;
    encoding_format = first_non_empty (oa.encoding_format ∷ float ∷ []);
    dimensions = oa.dimensions;
  })
]

unfoldable pub embed_request_to_openai : EmbedRequest → OaEmbedRequest
embed_request_to_openai req = record {
  model = req.model;
  input = strings req.input;
  encoding_format = float;
  dimensions = req.dimensions;
}

-- What is sent upstream asks for floats, and for the same inputs, model and dimensions as the client.
pub forwarded_embed_request :
    (oa : OaEmbedRequest) (req : EmbedRequest)
    → embed_request_from_openai oa ≡ some req
    → embed_request_from_openai (embed_request_to_openai req)
      ≡ some (record req { encoding_format = float })
unfolding embed_request_from_openai embed_request_to_openai
forwarded_embed_request oa req h = ground arith

-- An element of an embedding array, and an embedding, as `any` holds them.
pub data OaItem : Type 0 where
  number : Float → OaItem
  no_number : OaItem

pub data OaEmbeddingValue : Type 0 where
  array : List OaItem → OaEmbeddingValue
  text : Text → OaEmbeddingValue
  neither : OaEmbeddingValue

pub record OaEmbedData : Type 0 where
  pub object : Text
  pub embedding : OaEmbeddingValue
  pub index : ℕ

pub record OaEmbedResponse : Type 0 where
  pub object : Text
  pub rows : List OaEmbedData
  pub model : Text
  pub prompt_tokens : ℕ
  pub total_tokens : ℕ

numbers : List OaItem → Option (List Float)
numbers [] = some []
numbers (no_number ∷ is) = none
numbers (number f ∷ is) = Option.map (◌∷◌ f) (numbers is)

-- binary.LittleEndian.PutUint32, before the bytes of the other values.
abbrev put_uint32 : ℕ → List ℕ → List ℕ
put_uint32 n rest = (n % 256) ∷ (n / 256 % 256) ∷ (n / 65536 % 256) ∷ (n / 16777216 % 256) ∷ rest

-- What base64 and the conversions are relied on for.
pub record Codec : Type 0 where
  pub narrow : Float → ℕ
  pub widen : ℕ → Float
  pub encode : List ℕ → Text
  pub decode : Text → Option (List ℕ)
  pub narrow_lt : (f : Float) → narrow f < 4294967296
  pub decode-encode : (bytes : List ℕ) → decode (encode bytes) ≡ some bytes

module _ (codec : Codec) where
  open codec use {narrow, widen, encode, decode}

  -- The values of whole groups of four bytes; `none` where some bytes are left over.
  unfoldable pub floats_of_bytes : List ℕ → Option (List Float)
  floats_of_bytes [] = some []
  floats_of_bytes (a ∷ b ∷ c ∷ d ∷ rest) =
      Option.map (◌∷◌ (widen (a + b * 256 + c * 65536 + d * 16777216))) (floats_of_bytes rest)
  floats_of_bytes _ = none

  unfoldable pub bytes_of_floats : List Float → List ℕ
  bytes_of_floats [] = []
  bytes_of_floats (v ∷ vs) = put_uint32 (narrow v) (bytes_of_floats vs)

  -- decodeBase64Float32 and encodeBase64Float32
  unfoldable pub decode_base64_float32 : Text → Option (List Float)
  decode_base64_float32 s = elim (decode s) [ none ↦ none | some raw ↦ floats_of_bytes raw ]

  unfoldable pub encode_base64_float32 : List Float → Text
  encode_base64_float32 vs = encode (bytes_of_floats vs)

  -- decodeEmbeddingValues
  unfoldable pub decode_embedding_values : OaEmbeddingValue → Option (List Float)
  unfolding numbers
  decode_embedding_values (array items) = numbers items
  decode_embedding_values (text s) = decode_base64_float32 s
  decode_embedding_values neither = none

  decode_rows : List OaEmbedData → Option (List Embedding)
  decode_rows [] = some []
  decode_rows (d ∷ ds) = elim (decode_embedding_values d.embedding) [
    | none ↦ none
    | some vs ↦ Option.map (◌∷◌ (record { index = d.index; values = vs })) (decode_rows ds)
  ]

  unfoldable pub embed_response_from_openai : OaEmbedResponse → Option EmbedResponse
  unfolding decode_rows
  embed_response_from_openai oa = elim (decode_rows oa.rows) [
    | none ↦ none
    | some es ↦ some (record {
      model = oa.model;
      embeddings = es;
      usage = record { prompt_tokens = oa.prompt_tokens; completion_tokens = 0; cached_tokens = 0 };
    })
  ]

  encode_row : Bool → Embedding → OaEmbedData
  encode_row base64_encoding e = record {
    object = lit "embedding";
    embedding =
        if base64_encoding
        then text (encode_base64_float32 e.values)
        else array (map number e.values);
    index = e.index;
  }

  unfoldable pub embed_response_to_openai : EmbedResponse → Text → OaEmbedResponse
  unfolding encode_row
  embed_response_to_openai resp format = record {
    object = lit "list";
    rows = map (encode_row (text_eq format base64)) resp.embeddings;
    model = resp.model;
    prompt_tokens = resp.usage.prompt_tokens;
    total_tokens = resp.usage.prompt_tokens;
  }

  floats_of_bytes_of_floats :
      (vs : List Float)
      → floats_of_bytes (bytes_of_floats vs) ≡ some (map (λ v. widen (narrow v)) vs)
  unfolding floats_of_bytes bytes_of_floats
  floats_of_bytes_of_floats [] = refl
  floats_of_bytes_of_floats (v ∷ vs) =
      let word : narrow v % 256
            + narrow v / 256 % 256 * 256
            + narrow v / 65536 % 256 * 65536
            + narrow v / 16777216 % 256 * 16777216
          ≡ narrow v =
        omega (arith, codec.narrow_lt v) in
      rw (word, floats_of_bytes_of_floats vs)

  base64_roundtrip :
      (vs : List Float)
      → decode_base64_float32 (encode_base64_float32 vs) ≡ some (map (λ v. widen (narrow v)) vs)
  unfolding decode_base64_float32 encode_base64_float32
  base64_roundtrip vs =
      ground (arith, codec.decode-encode (bytes_of_floats vs), floats_of_bytes_of_floats vs)

  numbers-map : (vs : List Float) → numbers (map number vs) ≡ some vs
  unfolding numbers
  numbers-map [] = refl
  numbers-map (v ∷ vs) = rw (numbers-map vs)

  -- The embedding as a client receives it in the format that it asked for.
  abbrev pub received : Text → Embedding → Embedding
  received format e = record e {
    values = if text_eq format base64 then map (λ v. widen (narrow v)) e.values else e.values;
  }

  row_roundtrip :
      (format : Text) (e : Embedding)
      → decode_embedding_values (encode_row (text_eq format base64) e).embedding
        ≡ some (received format e).values
  unfolding decode_embedding_values encode_row
  row_roundtrip format e = ground (arith, base64_roundtrip e.values, numbers-map e.values)

  rows_roundtrip :
      (format : Text) (es : List Embedding)
      → decode_rows (map (encode_row (text_eq format base64)) es) ≡ some (map (received format) es)
  unfolding decode_rows
  rows_roundtrip format [] = refl
  rows_roundtrip format (e ∷ es) =
      rw (row_roundtrip format e, decode_rows, rows_roundtrip format es) (unfold encode_row in refl)

  -- A response in either format reads back as the same embeddings in the same order, exact as floats
  -- and rounded to float32 as base64, with the same model and prompt tokens.
  pub embed_response_roundtrip :
      (resp : EmbedResponse) (format : Text)
      → embed_response_from_openai (embed_response_to_openai resp format)
        ≡ some (record {
          model = resp.model;
          embeddings = map (received format) resp.embeddings;
          usage = record {
            prompt_tokens = resp.usage.prompt_tokens;
            completion_tokens = 0;
            cached_tokens = 0;
          };
        })
  unfolding embed_response_from_openai embed_response_to_openai
  embed_response_roundtrip resp format = ground (arith, rows_roundtrip format resp.embeddings)
