-- ===== src/Translator.antt =====
-- internal/translator: between the OpenAI wire format and the domain types. JSON itself is outside:
-- a body that json.Unmarshal accepts is the record that it fills, and json.Marshal is handed one.
pub mod Wire
pub mod ThinkTags
pub mod Request
pub mod Response
pub mod Chunk
pub mod Models
pub mod Embeddings
