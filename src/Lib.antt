-- ===== src/Lib.antt =====
-- go-ai-proxy: an OpenAI-compatible HTTP proxy in front of several model providers.
--
-- A request comes in at internal/server/server.go, is read by internal/translator, and is given to the
-- candidates that internal/provider/registry.go has for its model, one after the other, until one
-- answers. A candidate is a provider (internal/provider/openai and others), usually behind a
-- BoundedProvider (internal/provider/bounded.go), which limits concurrent calls and backs off after a 429.
--
-- What models what:
--  * Domain: the records of internal/domain/provider.go.
--  * Registry: the tables of the registry, Register, refresh (`refresh`), CapabilitiesFor; Registry/Glob is
--    path.Match, Registry/Selector the `auto:` selectors, Registry/Route the queries ProviderFor,
--    ProvidersFor, CandidatesFor and ResolveModel; Registry/Live is Start with its goroutine and
--    concurrent calls of Refresh as a system of steps.
--  * Provider/Errors: RateLimitError, UpstreamError, ErrQueueFull and ParseRetryAfter. Provider/Bounded: a
--    call of a BoundedProvider as a thread, one constructor of `Thread` for each place between two atomic
--    operations and one equation of `advance` for each operation; Provider/Bounded/System interleaves any
--    number of them. Provider/OpenAi: the status mapping, the stream reader and thinkParser;
--    Provider/OpenAi/Client: the options, New, and the requests of Chat, ChatStream, Embeddings and Models.
--    Provider/Anthropic: the two translations, the errors of Chat, and in Events the stream reader;
--    Provider/Anthropic/Client: New, and Chat, ChatStream and Models with the authenticator.
--    Provider/LlamaCpp: internal/provider/llamacpp/provider.go, with gbnf.go in LlamaCpp/Gbnf.
--    Provider/Vllm, Provider/LmStudio and Provider/LiteLlm: the packages of these names beside it. Each of
--    the four holds a provider of Provider/OpenAi/Client, to which Chat, ChatStream and Embeddings go.
--  * Auth: RoundRobinAuthenticator and APIKeyAuthenticator. Auth/OAuth is the token cache of
--    OAuthAuthenticator as a specification; Auth/OAuth/Files has the token file and Auth/OAuth/Flow GetToken
--    in full, with the exchange and the browser flow.
--  * Metrics: the counters of internal/metrics/metrics.go and what they print.
--  * Translator: internal/translator/openai.go (Wire, Request, Response, Chunk, Models, ThinkTags) and
--    embeddings.go (Embeddings), each function between decoded JSON and domain values.
--  * Server: the loop over the candidates and the errors after it; Server/Handlers the handlers;
--    Server/Stream the loop of handleStream; Server/Budget, Server/Limiter and Server/Middleware the files
--    tokenbudget.go, ratelimit.go and middleware.go of internal/server; Server/Audit is audit.go.
--    Server/Serve is New with its options and routes, and ServeHTTP, with the limiter in front of the
--    handlers. Server/Handlers/Audited has the handlers with their calls of the audit functions.
--  * Gap: the configuration of cmd/gap/main.go with loadConfig and the options of the server; Gap/Build is
--    buildProvider and buildAuthenticator, Gap/Budgets the loops of run that register the providers and
--    fill the token budget, Gap/Budgets/Start what run has made before the server, Gap/Budgets/Launch run up
--    to the server that it makes, Gap/Tls the HTTP clients of what was built and Gap/Call its calls, Gap/Run run from
--    its flags, and Gap/Shutdown its end.
--  * Testutil: internal/testutil/fake_provider.go.
--  * Common: texts, 64-bit integers, maps and stable sorting; Tests: runs on concrete values.
--
-- How it is modelled: `int`, `int64` and `time.Duration` are 64-bit patterns with their wrap-around written
-- out, counters of type int32 are 32-bit patterns. A text is the list of its code points. A map is an
-- association list, and nothing that is proved depends on the order in which Go walks over a map. A
-- pointer that may be nil is an Option. A provider is known by its identity. The world outside is a
-- parameter: what a provider answers (`Backend`, with a state that each call may change), encoding/json
-- (`Json`, and `JsonCodec` on bodies), float32 and base64 (`Codec`), the clock, HTTP round trips, the
-- token bucket of golang.org/x/time/rate, the Anthropic SDK, and the OAuth environment.
--
-- Fuel: extract_think_tags gives think_loop as much fuel as the content is long, which is enough since each
-- round takes a tag away. schema_to_gbnf gives value one more than the depth of the schema, and each call on
-- a sub-schema is one level down. use_prim has 8 steps for a table in which no chain of dependencies is
-- longer than two, and itoa one more than the number. All other loops are structural recursion.
--
-- Not modelled: the declaration of the command line and the decoding of YAML, which are other packages'
-- work; logging, and with it logStructuredOutputSupport; how many calls of Refresh singleflight lets through
-- together, so that what is proved holds for any number; the vendored packages.
pub mod Common
pub mod Domain
pub mod Registry
pub mod Provider
pub mod Auth
pub mod Metrics
pub mod Translator
pub mod Server
pub mod Testutil
pub mod Gap
pub mod Tests
