-- ===== src/Shared/Configuration.antt =====
-- accounts/conf/conf.go, scheduler/conf/conf.go, scheduler/server/env.go and the parts of
-- shared/utils/utils.go that start a service: what is read from the environment, and the connection
-- to the database. The environment, the joining of paths and the parsing of numbers and of durations
-- are an argument.
pub mod Startup
use Prim.Native.String.{String}
use scalemate.Prelude.{
  ℕ, zero, suc, ◌+◌, ◌*◌, ◌^◌, ◌-◌, ◌≤◌, ◌≡◌, ◌≢◌, refl, ◌∙◌, Bool, true, false, List, [], ◌∷◌,
  Option, none, some, if◌then◌else◌, arith, Bool-cases, inl, inr, leb, same_text, same_text→eq,
  eq→same_text,
}
use scalemate.World.{Err, fundamental, wrap, Result, Result-cases, ok, err}

pub record ProcessEnv : Type 0 where
  pub getenv : String → String  -- the empty text if the variable is not set
  pub join : String → String → String
  pub atoi : String → Result ℕ
  pub parse_duration : String → Result ℕ

-- `AppConf` of the scheduler, and the fields that the one of the accounts service shares with it.
pub record AppConf : Type 0 where
  pub nats_addr : String
  pub nats_cluster_name : String
  pub tls_cert_file : String
  pub tls_key_file : String
  pub db_url : String
  pub jwt_secret_key : String

-- The names of the variables that differ.
pub record ConfNames : Type 0 where
  pub cert_file : String
  pub key_file : String
  pub url : String
  pub cert_error : String
  pub key_error : String
  pub url_error : String

abbrev pub scheduler_names : ConfNames
scheduler_names = record {
  cert_file = "SCHEDULER_TLS_CERT_FILE";
  key_file = "SCHEDULER_TLS_KEY_FILE";
  url = "SCHEDULER_DB_URL";
  cert_error = "SCHEDULER_TLS_CERT_FILE env variable is not set";
  key_error = "SCHEDULER_TLS_KEY_FILE env variable is not set";
  url_error = "SCHEDULER_DB_URL env variable is not set";
}

abbrev pub accounts_names : ConfNames
accounts_names = record {
  cert_file = "ACCOUNTS_TLS_CERT_FILE";
  key_file = "ACCOUNTS_TLS_KEY_FILE";
  url = "ACCOUNTS_DB_URL";
  cert_error = "ACCOUNTS_TLS_CERT_FILE env variable is not set";
  key_error = "ACCOUNTS_TLS_KEY_FILE env variable is not set";
  url_error = "ACCOUNTS_DB_URL env variable is not set";
}

infixl 5 ◌then_do◌
abbrev pub ◌then_do◌ : {A B : Type 0} → Result A → (A → Result B) → Result B
ok a then_do f = f a
err e then_do f = err e

abbrev pub required : String → String → Result (Unit {0})
required value message = if same_text value "" then err (fundamental message) else ok tt

-- The directory of the tests goes before the paths of the files.
abbrev pub in_test_dir : ProcessEnv → String → String
in_test_dir env file =
    if same_text (env.getenv "TEST_SRCDIR") ""
    then file
    else env.join (env.getenv "TEST_SRCDIR") file

abbrev pub read_conf : ProcessEnv → ConfNames → AppConf
read_conf env names = record {
  nats_addr = env.getenv "NATS_ADDR";
  nats_cluster_name = env.getenv "NATS_CLUSTER";
  tls_cert_file = in_test_dir env (env.getenv names.cert_file);
  tls_key_file = in_test_dir env (env.getenv names.key_file);
  db_url = env.getenv names.url;
  jwt_secret_key = env.getenv "JWT_SECRET_KEY";
}

-- `NewAppConfFromEnv` of the scheduler, and the checks that the one of the accounts service begins with.
unfoldable pub new_app_conf_from_env : ProcessEnv → ConfNames → Result AppConf
new_app_conf_from_env env names =
    required (env.getenv "NATS_ADDR") "NATS_ADDR env variable is not set" then_do λ _.
    required (env.getenv "NATS_CLUSTER") "NATS_CLUSTER env variable is not set" then_do λ _.
    required (env.getenv names.cert_file) names.cert_error then_do λ _.
    required (env.getenv names.key_file) names.key_error then_do λ _.
    required (env.getenv names.url) names.url_error then_do λ _.
    required (env.getenv "JWT_SECRET_KEY") "JWT_SECRET_KEY env variable is not set" then_do λ _.
    ok (read_conf env names)

-- `AppConf` of the accounts service.
pub record AccountsConf : Type 0 where
  pub shared : AppConf
  pub bcrypt_cost : ℕ
  pub access_token_ttl : ℕ
  pub refresh_token_ttl : ℕ

abbrev wrap_error : {A : Type 0} → Result A → String → Result A
wrap_error (ok a) message = ok a
wrap_error (err e) message = err (wrap e message)

-- `NewAppConfFromEnv` of the accounts service.
unfoldable pub new_accounts_conf_from_env : ProcessEnv → Result AccountsConf
new_accounts_conf_from_env env = new_app_conf_from_env env accounts_names then_do λ shared.
    wrap_error (env.atoi (env.getenv "ACCOUNTS_BCRYPT_COST"))
      "strconv.Atoi failed for ACCOUNTS_BCRYPT_COST env variable"
    then_do λ cost.
        wrap_error (env.parse_duration (env.getenv "ACCOUNTS_ACCESS_TOKEN_TTL"))
          "time.ParseDuration failed for ACCOUNTS_ACCESS_TOKEN_TTL env variable"
        then_do λ access_ttl.
            wrap_error (env.parse_duration (env.getenv "ACCOUNTS_REFRESH_TOKEN_TTL"))
              "time.ParseDuration failed for ACCOUNTS_REFRESH_TOKEN_TTL env variable"
            then_do λ refresh_ttl. ok (record {
              shared = shared;
              bcrypt_cost = cost;
              access_token_ttl = access_ttl;
              refresh_token_ttl = refresh_ttl;
            })

-- `JWTClaimsInjectorFromEnv`: the key of the injector.
unfoldable pub jwt_claims_injector_from_env : ProcessEnv → String → Result String
jwt_claims_injector_from_env env secret_key_name =
    required (env.getenv secret_key_name) "JWT secret key is empty" then_do λ _.
    ok (env.getenv secret_key_name)

-- `SetLogrusLevelFromEnv`
pub data Level : Type 0 where
  debug_level info_level warn_level error_level : Level

unfoldable pub set_logrus_level_from_env : ProcessEnv → Level
set_logrus_level_from_env env =
    let lvl = env.getenv "LOG_LEVEL" in
    if same_text lvl "DEBUG"
    then debug_level
    else if same_text lvl "INFO"
    then info_level
    else if same_text lvl "WARN"
    then warn_level
    else if same_text lvl "ERROR"
    then error_level
    else info_level

-- One round: it sleeps for `i` seconds if there is no connection.
abbrev pub after_attempt : {A : Type 0} → Result A → ℕ → Result A × List ℕ → Result A × List ℕ
after_attempt (ok db) i again = (ok db, [])
after_attempt (err e) i again = (again.0, i ∷ again.1)

-- The loop of `ConnectDBFromEnv`, `for i = 1; i <= 16; i *= 2`, on fuel: `open_` is the answer of
-- `sqlx.Open` at an attempt, by its number, and the second result the seconds slept, in their order.
unfoldable pub connect_loop :
    {A : Type 0} → (ℕ → Result A) → (fuel attempt i : ℕ) → Result A × List ℕ
connect_loop open_ zero attempt i = (err (fundamental "out of fuel"), [])
connect_loop open_ (suc fuel) attempt i =
    let again = connect_loop open_ fuel (suc attempt) (i * 2) in
    if leb i 16
    then after_attempt (open_ attempt) i again
    else (err (fundamental "Could not connect to DB"), [])

-- `ConnectDBFromEnv`. Six rounds are enough.
unfoldable pub connect_db_from_env : {A : Type 0} → (ℕ → Result A) → Result A × List ℕ
connect_db_from_env open_ = connect_loop open_ 6 0 1
