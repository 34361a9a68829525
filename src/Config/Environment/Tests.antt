-- ===== src/Config/Environment/Tests.antt =====
-- Runs of the reading of the environment.
use data_loader.Prelude.{
  ◌≡◌, refl, true, false, if◌then◌else◌, same_text, Text, lit, plain, err, [], atoi,
}
use data_loader.Config.Environment.{
  from_env, app_config, get_env_bool, get_env_int, trim_left, trim_right, cons_unless_blank,
  bool_or, int_or,
}

nothing_set : from_env (λ k. []) ≡ err (plain "LOADER_METADATA_DSN is required")
unfolding from_env app_config
nothing_set = refl

abbrev sample_env : Text → Text
sample_env k =
    if same_text k (lit "LOADER_SOURCE_POOL")
    then lit " Yes "
    else if same_text k (lit "LOADER_SHUTDOWN_TIMEOUT_SEC")
    then lit "1m"
    else lit "x"

pool_on : get_env_bool sample_env "LOADER_SOURCE_POOL" false ≡ true
unfolding get_env_bool trim_left trim_right cons_unless_blank bool_or same_text
pool_on = refl

not_a_number : get_env_int sample_env "LOADER_SHUTDOWN_TIMEOUT_SEC" 60 ≡ 60
unfolding get_env_int atoi int_or same_text
not_a_number = refl
