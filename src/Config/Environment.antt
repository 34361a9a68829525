-- ===== src/Config/Environment.antt =====
-- internal/config/config.go: the settings of the program, from its environment. An `int` is its 64 bits.
mod Tests
use data_loader.Prelude.{
  ℕ, String, Bool, true, false, Option, none, some, List, [], ◌∷◌, if◌then◌else◌, Text, lit,
  to_lower, one_of, is_space, atoi, Error, plain, Result, ok, err,
}

-- `AppConfig`.
pub record AppConfig : Type 0 where
  pub metadata_dsn : Text
  pub sink_dsn : Text
  pub log_level : Text
  pub log_format : Text
  pub housekeeping_enabled : Bool
  pub housekeeping_cron : Text
  pub log_retention_days : ℕ
  pub load_run_retention_days : ℕ
  pub housekeeping_batch_size : ℕ
  pub housekeeping_batch_pause_ms : ℕ
  pub health_enabled : Bool
  pub health_addr : Text
  pub reload_enabled : Bool
  pub reload_interval_sec : ℕ
  pub reload_on_sighup : Bool
  pub shutdown_timeout_sec : ℕ
  pub source_pool_enabled : Bool
  pub source_pool_idle_sec : ℕ
  pub source_pool_max_age_sec : ℕ

cons_unless_blank : ℕ → Text → Text
cons_unless_blank c [] = if is_space c then [] else c ∷ []
cons_unless_blank c (d ∷ s) = c ∷ d ∷ s

-- `strings.TrimSpace` of a text, at its start and at its end.
trim_left : Text → Text
trim_left [] = []
trim_left (c ∷ s) = let rest = trim_left s in if is_space c then rest else c ∷ s

trim_right : Text → Text
unfolding cons_unless_blank
trim_right [] = []
trim_right (c ∷ s) = cons_unless_blank c (trim_right s)

-- The switch of `getEnvBool`.
bool_or : Text → Bool → Bool
bool_or [] default = default
bool_or (c ∷ cs) default =
    if one_of (c ∷ cs) ("1" ∷ "true" ∷ "yes" ∷ "on" ∷ [])
    then true
    else if one_of (c ∷ cs) ("0" ∷ "false" ∷ "no" ∷ "off" ∷ [])
    then false
    else default

int_or : Option ℕ → ℕ → ℕ
int_or none default = default
int_or (some n) default = n

set_or : Text → Text → Text
set_or [] default = default
set_or (c ∷ cs) default = c ∷ cs

module _ (getenv : Text → Text) where
  -- `getEnvBool`.
  get_env_bool : String → Bool → Bool
  unfolding trim_left trim_right bool_or
  get_env_bool k default = bool_or (to_lower (trim_right (trim_left (getenv (lit k))))) default

  -- `getEnvInt`. An empty text is no number either.
  get_env_int : String → ℕ → ℕ
  unfolding atoi int_or
  get_env_int k default = int_or (atoi (getenv (lit k))) default

  -- `getEnvDefault`.
  get_env_default : String → String → Text
  unfolding set_or
  get_env_default k default = set_or (getenv (lit k)) (lit default)

  app_config : AppConfig
  unfolding get_env_bool get_env_int get_env_default
  app_config = record {
    metadata_dsn = getenv (lit "LOADER_METADATA_DSN");
    sink_dsn = getenv (lit "LOADER_SINK_DSN");
    log_level = get_env_default "LOADER_LOG_LEVEL" "info";
    log_format = get_env_default "LOADER_LOG_FORMAT" "json";
    housekeeping_enabled = get_env_bool "LOADER_HOUSEKEEPING_ENABLED" true;
    housekeeping_cron = get_env_default "LOADER_HOUSEKEEPING_CRON" "0 2 * * *";
    log_retention_days = get_env_int "LOADER_LOG_RETENTION_DAYS" 14;
    load_run_retention_days = get_env_int "LOADER_LOAD_RUN_RETENTION_DAYS" 90;
    housekeeping_batch_size = get_env_int "LOADER_HOUSEKEEPING_BATCH_SIZE" 5000;
    housekeeping_batch_pause_ms = get_env_int "LOADER_HOUSEKEEPING_BATCH_PAUSE_MS" 100;
    health_enabled = get_env_bool "LOADER_HEALTH_ENABLED" true;
    health_addr = get_env_default "LOADER_HEALTH_ADDR" "127.0.0.1:9090";
    reload_enabled = get_env_bool "LOADER_RELOAD_ENABLED" true;
    reload_interval_sec = get_env_int "LOADER_RELOAD_INTERVAL_SEC" 60;
    reload_on_sighup = get_env_bool "LOADER_RELOAD_ON_SIGHUP" true;
    shutdown_timeout_sec = get_env_int "LOADER_SHUTDOWN_TIMEOUT_SEC" 60;
    source_pool_enabled = get_env_bool "LOADER_SOURCE_POOL" false;
    source_pool_idle_sec = get_env_int "LOADER_SOURCE_POOL_IDLE_SEC" 300;
    source_pool_max_age_sec = get_env_int "LOADER_SOURCE_POOL_MAX_AGE_SEC" 3600;
  }

  -- `FromEnv`.
  unfoldable pub from_env : Result AppConfig
  unfolding app_config
  from_env = elim (app_config.metadata_dsn) [
    | [] ↦ err (plain "LOADER_METADATA_DSN is required")
    | c ∷ cs ↦ elim (app_config.sink_dsn) [
      | [] ↦ err (plain "LOADER_SINK_DSN is required")
      | d ∷ ds ↦ ok app_config
    ]
  ]
