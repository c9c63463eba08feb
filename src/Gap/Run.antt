-- ===== src/Gap/Run.antt =====
-- run in cmd/gap/main.go, from the flags to ListenAndServe. A flag is its value where it is set, by the
-- command line or the environment; the levels of slog are signed integers.
use go_ai_proxy.Common.{ℕ, ◌-◌, Option, none, some, List, ◌∷◌, ◌++◌, if◌then◌else◌}
use go_ai_proxy.Common.Text.{Text}
use go_ai_proxy.Common.Format.{itoa}
use go_ai_proxy.Common.Int64.{modulus, le_int, lt_int}
use go_ai_proxy.Domain.{Model, ProviderId}
use go_ai_proxy.Provider.Errors.{ProviderError}
use go_ai_proxy.Provider.OpenAi.{Result, ok, err}
use go_ai_proxy.Server.Handlers.{Server}
use go_ai_proxy.Server.Serve.{Outside, Gate}
use go_ai_proxy.Gap.{ProviderConfig, Config, load_config, with_flags}
use go_ai_proxy.Gap.Build.{Built}
use go_ai_proxy.Gap.Budgets.Launch.{launch}

pub record Flags : Type 0 where
  pub config : Text
  pub host : Option Text
  pub port : Option ℕ
  pub log_level : Text

-- slog.LevelDebug, -4.
abbrev pub level_debug : ℕ
level_debug = modulus - 4

-- `%d` of an int.
abbrev pub decimal : ℕ → Text
decimal n = if lt_int n 0 then b'-' ∷ itoa (modulus - n) else itoa n

-- How run comes to its end: an error before anything listens, or the address, the limiter and the server
-- that ListenAndServe is called with.
pub data Ran (G S : Type 0) : Type 0 where
  invalid_log_level : Ran G S
  bad_config : Ran G S
  no_provider : ProviderError → Ran G S
  listening : Text → G → S → Ran G S

module _ {L W : Type 0} (o : Outside L) (parse_level : Text → Option ℕ)
    (file : Text → Config → Option Config) (build : ProviderConfig → Result Built)
    (models : ProviderId → Option (List Model)) where
  abbrev listen_on : Config → Result (Gate o × Server W) → Ran (Gate o) (Server W)
  listen_on c (err e) = no_provider e
  listen_on c (ok (gate, s)) = listening (c.server.host ++ (b':' ∷ decimal c.server.port)) gate s

  abbrev with_config : Flags → ℕ → W → Option Config → Ran (Gate o) (Server W)
  with_config flags level world none = bad_config
  with_config flags level world (some c) =
      let cfg = with_flags flags.host flags.port c in
      listen_on cfg (launch o build models (le_int level level_debug) cfg world)

  abbrev with_level : Flags → W → Option ℕ → Ran (Gate o) (Server W)
  with_level flags world none = invalid_log_level
  with_level flags world (some level) =
      with_config flags level world (load_config file flags.config)

  unfoldable pub run : Flags → W → Ran (Gate o) (Server W)
  unfolding launch load_config with_flags
  run flags world = with_level flags world (parse_level flags.log_level)
