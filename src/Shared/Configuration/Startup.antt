-- ===== src/Shared/Configuration/Startup.antt =====
-- When a service has its configuration and its database.
use Prim.Native.String.{String}
use scalemate.Prelude.{
  ℕ, ◌<◌, ◌≡◌, ◌≢◌, refl, [], ◌∷◌, arith, Bool-cases, ◌⊎◌, inl, inr, ◌↔◌, same_text, same_text→eq,
  eq→same_text,
}
use scalemate.World.{fundamental, Result, Result-cases, ok, err}
use scalemate.Shared.Configuration.{
  ProcessEnv, ConfNames, AppConf, ◌then_do◌, required, read_conf, new_app_conf_from_env,
  connect_loop, connect_db_from_env,
}

-- Every variable that the service needs is set.
pub record IsConfigured (env : ProcessEnv) (names : ConfNames) : Type 0 where
  pub nats_addr : env.getenv "NATS_ADDR" ≢ ""
  pub nats_cluster : env.getenv "NATS_CLUSTER" ≢ ""
  pub cert_file : env.getenv names.cert_file ≢ ""
  pub key_file : env.getenv names.key_file ≢ ""
  pub url : env.getenv names.url ≢ ""
  pub jwt_secret_key : env.getenv "JWT_SECRET_KEY" ≢ ""

required-then_do :
    {A : Type 0} (value message : String) (f : Unit {0} → Result A) (a : A)
    → (required value message then_do f) ≡ ok a
    → (value ≢ "") × (f tt ≡ ok a)
required-then_do value message f a e = elim (Bool-cases (same_text value "")) [
  | inl p ↦ absurd (ground (arith, e, p))
  | inr p ↦ ((λ same. cc (p, eq→same_text value "" same)), ground (arith, e, p))
]

required-ok : (value message : String) → value ≢ "" → required value message ≡ ok tt
required-ok value message set_ = elim (Bool-cases (same_text value "")) [
  | inl p ↦ absurd (set_ (same_text→eq value "" p))
  | inr p ↦ rw p refl
]

configured :
    (env : ProcessEnv) (names : ConfNames) (conf : AppConf)
    → new_app_conf_from_env env names ≡ ok conf
    → IsConfigured env names
unfolding new_app_conf_from_env
configured env names conf e =
    let (a, e₁) = required-then_do (env.getenv "NATS_ADDR") _ _ conf e in
    let (b, e₂) = required-then_do (env.getenv "NATS_CLUSTER") _ _ conf e₁ in
    let (c, e₃) = required-then_do (env.getenv names.cert_file) _ _ conf e₂ in
    let (d, e₄) = required-then_do (env.getenv names.key_file) _ _ conf e₃ in
    let (u, e₅) = required-then_do (env.getenv names.url) _ _ conf e₄ in
    let (v, e₆) = required-then_do (env.getenv "JWT_SECRET_KEY") _ _ conf e₅ in
    record {
      nats_addr = a;
      nats_cluster = b;
      cert_file = c;
      key_file = d;
      url = u;
      jwt_secret_key = v;
    }

accepted :
    (env : ProcessEnv) (names : ConfNames)
    → IsConfigured env names
    → new_app_conf_from_env env names ≡ ok (read_conf env names)
unfolding new_app_conf_from_env
accepted env names set_ =
    rw
      (
        required-ok (env.getenv "NATS_ADDR") "NATS_ADDR env variable is not set" set_.nats_addr,
        required-ok (env.getenv "NATS_CLUSTER") "NATS_CLUSTER env variable is not set"
            set_.nats_cluster,
        required-ok (env.getenv names.cert_file) names.cert_error set_.cert_file,
        required-ok (env.getenv names.key_file) names.key_error set_.key_file,
        required-ok (env.getenv names.url) names.url_error set_.url,
        required-ok (env.getenv "JWT_SECRET_KEY") "JWT_SECRET_KEY env variable is not set"
            set_.jwt_secret_key,
      )
      refl

-- A service gets a configuration exactly when each of its variables is set to a text that is not empty.
new_app_conf_from_env-IsConfigured :
    (env : ProcessEnv) (names : ConfNames)
    → ((conf : AppConf) × (new_app_conf_from_env env names ≡ ok conf)) ↔ IsConfigured env names
new_app_conf_from_env-IsConfigured env names = (
  (λ found. configured env names found.0 found.1),
  (λ set_. (read_conf env names, accepted env names set_)),
)

-- The connection to the database is tried five times at most: it is the one of an attempt that answers,
-- or, when none does, there is an error after sleeps of 1, 2, 4, 8 and 16 seconds.
connect_db_from_env-delays :
    {A : Type 0} (open_ : ℕ → Result A)
    → ((k : ℕ) × (db : A) × (k < 5) × (open_ k ≡ ok db) × ((connect_db_from_env open_).0 ≡ ok db))
      ⊎ (connect_db_from_env open_
          ≡ (err (fundamental "Could not connect to DB"), 1 ∷ 2 ∷ 4 ∷ 8 ∷ 16 ∷ []))
unfolding connect_db_from_env connect_loop
connect_db_from_env-delays open_ = elim (Result-cases (open_ 0)) [
  | inr (db, p) ↦ inl (0, db, omega arith, p, ground (arith, p))
  | inl (e, p) ↦ elim (Result-cases (open_ 1)) [
    | inr (db, q) ↦ inl (1, db, omega arith, q, ground (arith, p, q))
    | inl (e₁, q) ↦ elim (Result-cases (open_ 2)) [
      | inr (db, r) ↦ inl (2, db, omega arith, r, ground (arith, p, q, r))
      | inl (e₂, r) ↦ elim (Result-cases (open_ 3)) [
        | inr (db, s) ↦ inl (3, db, omega arith, s, ground (arith, p, q, r, s))
        | inl (e₃, s) ↦ elim (Result-cases (open_ 4)) [
          | inr (db, t) ↦ inl (4, db, omega arith, t, ground (arith, p, q, r, s, t))
          | inl (e₄, t) ↦ inr (ground (arith, p, q, r, s, t))
        ]
      ]
    ]
  ]
]
