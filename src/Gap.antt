-- ===== src/Gap.antt =====
-- cmd/gap/main.go: the configuration and its defaults, and what `run` makes of it for the server.
pub mod Build
pub mod ByKind
pub mod Call
pub mod Budgets
pub mod Run
pub mod Shutdown
pub mod Target
pub mod Tls
use mathlib.Core.Option
use go_ai_proxy.Common.{
  ℕ, Bool, true, false, ◌||◌, Option, none, some, List, [], ◌∷◌, ◌++◌, ◌==◌, is_nil, if◌then◌else◌,
}
use go_ai_proxy.Common.Text.{Text, lit}
use go_ai_proxy.Common.Assoc.{Assoc}
use go_ai_proxy.Common.Int64.{is_positive}
use go_ai_proxy.Domain.{Float}
use go_ai_proxy.Metrics.{new_metrics}
use go_ai_proxy.Provider.OpenAi.Client.{option_of}
use go_ai_proxy.Server.Budget.{TokenBudgetConfig}
use go_ai_proxy.Server.Serve.{
  RateLimitConfig, Settings, with_max_body_bytes, with_audit_log, with_metrics, with_rate_limit,
  with_token_budget,
}

pub record RateLimit : Type 0 where
  pub rps : Float
  pub burst : ℕ
  pub per_caller : Bool
  pub trust_proxy : Bool

pub record ServerConfig : Type 0 where
  pub host : Text
  pub port : ℕ
  pub refresh_interval : ℕ
  pub max_body_bytes : ℕ
  pub shutdown_timeout : ℕ
  pub audit_log : Bool
  pub metrics : Bool
  pub rate_limit : Option RateLimit

pub record AuthConfig : Type 0 where
  pub method : Text
  pub api_key : Text
  pub api_keys : List Text
  pub token_file : Text

pub record TokenBudget : Type 0 where
  pub fallback : ℕ
  pub models : Assoc Text ℕ

-- A `models` that is absent is no list, which differs from an empty one.
pub record VllmConfig : Type 0 where
  pub thinking_key : Text
  pub models : Option (List Text)
  pub discover : Option Bool

-- providerConfig; `tls` is its `insecure`.
pub record ProviderConfig : Type 0 where
  pub name : Text
  pub kind : Text
  pub base_url : Text
  pub timeout : ℕ
  pub auth : Option AuthConfig
  pub token_budget : Option TokenBudget
  pub max_concurrent : ℕ
  pub queue_size : ℕ
  pub request_timeout : ℕ
  pub model_capabilities : Assoc Text (List Text)
  pub model_context_length : Assoc Text ℕ
  pub tls : Option Bool
  pub vllm : Option VllmConfig

pub record Config : Type 0 where
  pub server : ServerConfig
  pub providers : List ProviderConfig

abbrev pub hour : ℕ
hour = 3600000000000

abbrev pub half_minute : ℕ
half_minute = 30000000000

abbrev pub default_config : Config
default_config = record {
  server = record {
    host = lit "127.0.0.1";
    port = 8090;
    refresh_interval = hour;
    max_body_bytes = 0;
    shutdown_timeout = half_minute;
    audit_log = false;
    metrics = false;
    rate_limit = none;
  };
  providers = [];
}

abbrev or_interval : ℕ → ℕ → ℕ
or_interval d given = if given == 0 then d else given

abbrev filled : Config → Config
filled c = record c {
  server = record c.server {
    refresh_interval = or_interval hour c.server.refresh_interval;
    shutdown_timeout = or_interval half_minute c.server.shutdown_timeout;
  };
}

abbrev filled_if : Option Config → Option Config
filled_if none = none
filled_if (some c) = some (filled c)

-- loadConfig; the file at a path is what decoding it over a configuration gives, `none` for an error.
unfoldable pub load_config : (Text → Config → Option Config) → Text → Option Config
load_config file path =
    if is_nil path then some default_config else filled_if (file path default_config)

-- The flags --host and --port, where they are set.
unfoldable pub with_flags : Option Text → Option ℕ → Config → Config
with_flags host port c = record c {
  server = record c.server {
    host = elim host [ none ↦ c.server.host | some h ↦ h ];
    port = elim port [ none ↦ c.server.port | some p ↦ p ];
  };
}

abbrev pub limit_of : RateLimit → RateLimitConfig
limit_of rl = record {
  rps = rl.rps;
  burst = rl.burst;
  per_caller = rl.per_caller;
  trust_proxy = rl.trust_proxy;
}

abbrev pub given {ℓ} :
    {A : Type ℓ} → Option A → (A → Settings → Settings) → List (Settings → Settings)
given none setting = []
given (some a) setting = setting a ∷ []

-- The options of server.New; whether the log level is debug is `debug`, which is also that of the
-- default logger.
unfoldable pub server_options :
    Bool → Option TokenBudgetConfig → ServerConfig → List (Settings → Settings)
server_options debug budget c =
    option_of (is_positive c.max_body_bytes) (with_max_body_bytes c.max_body_bytes)
    ++ (given budget with_token_budget
        ++ (option_of (c.audit_log || debug) (with_audit_log (some debug))
            ++ (option_of c.metrics (with_metrics new_metrics)
                ++ given (Option.map limit_of c.rate_limit) with_rate_limit)))
