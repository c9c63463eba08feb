-- ===== src/Provider.antt =====
-- internal/provider: the errors of a provider, the bounded provider, and the OpenAI-compatible one.
pub mod Errors
pub mod Bounded
pub mod OpenAi
pub mod Anthropic
pub mod LlamaCpp
pub mod Vllm
pub mod LmStudio
pub mod LiteLlm
