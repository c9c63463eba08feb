-- ===== src/Tests.antt =====
-- Runs of the model on concrete inputs, and the theorems at concrete arguments.
mod Bounded
mod Server
mod Registry
mod Provider
mod Anthropic
mod Auth
mod Oauth
mod Live
mod Audit
mod Metrics
mod Translator
mod LlamaCpp
mod Models
mod Gap
mod Call
mod Serve
