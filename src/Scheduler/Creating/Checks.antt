-- ===== src/Scheduler/Creating/Checks.antt =====
-- Which jobs scheduler/server/create_job.go creates.
use Prim.Native.String.{String}
use scalemate.Prelude.{
  ℕ, ◌≤◌, ◌≡◌, ◌≢◌, refl, Bool, true, false, List, [], ◌∷◌, Option, some, none, arith, Bool-cases,
  Option-cases, inl, inr, if◌then◌else◌, same_text, same_text→eq, eq→same_text, ◌==◌,
}
use scalemate.Proto.{Event}
use scalemate.World.{Env, Err, Result-cases, run-cases, ok, History, begin}
use scalemate.Shared.Utils.{rolled_back}
use scalemate.Shared.Auth.{Claims, ContextClaims, no_claims, other_type, has_claims}
use scalemate.Scheduler.Models.{Models, NewJob, NewRunConfig}
use scalemate.Scheduler.Creating.{
  validate_relative_path, validate_paths, validate_port, validate_ports, first_error, readonly,
  is_none, left_path, right_path, as_invalid, check_config, check_new_job, create_job,
}

-- Both sides of each entry are there, and the path that the service uses is accepted.
abbrev pub AreAccepted : (String → String → String) → List (String × String) → Type 0
AreAccepted getter [] = Unit
AreAccepted getter ((left, right) ∷ paths) =
    (left ≢ "")
    × (right ≢ "")
    × (validate_relative_path (getter left right) ≡ none)
    × AreAccepted getter paths

abbrev pub ArePorts : List (ℕ × ℕ) → Type 0
ArePorts [] = Unit
ArePorts ((local, remote) ∷ ports) = (local ≤ 65535) × (remote ≤ 65535) × ArePorts ports

pub record IsValidConfig (config : NewRunConfig) : Type 0 where
  pub ports : ArePorts config.ports
  pub volumes : AreAccepted left_path config.volumes
  pub download_paths : AreAccepted left_path config.download_paths
  pub upload_paths : AreAccepted right_path config.upload_paths

pub record IsValidNewJob (claims : Claims) (r : NewJob) : Type 0 where
  pub username : claims.username ≡ r.username
  pub id : r.id ≡ 0
  pub status : r.status ≡ 0
  pub created_at : r.created_at ≡ none
  pub updated_at : r.updated_at ≡ none
  pub config : NewRunConfig
  pub run_config : r.run_config ≡ some config
  pub is_valid : IsValidConfig config

differs : (s t : String) → same_text s t ≡ false → s ≢ t
differs s t f e = cc (f, eq→same_text s t e)

first_error-none : (a b : Option Err) → first_error a b ≡ none → (a ≡ none) × (b ≡ none)
first_error-none none b e = (refl, e)
first_error-none (some x) b e = absurd (cc e)

validate_paths-AreAccepted :
    (getter : String → String → String) (paths : List (String × String))
    → validate_paths getter paths ≡ none
    → AreAccepted getter paths
unfolding validate_paths
validate_paths-AreAccepted getter [] e = tt
validate_paths-AreAccepted getter ((left, right) ∷ paths) e =
    elim (Bool-cases (same_text left "")) [
      | inl p ↦ absurd (ground (arith, e, p))
      | inr p ↦ elim (Bool-cases (same_text right "")) [
        | inl q ↦ absurd (ground (arith, e, p, q))
        | inr q ↦
            let both =
              first_error-none (validate_relative_path (getter left right))
                (validate_paths getter paths) (ground (arith, e, p, q)) in
            (
              differs left "" p,
              differs right "" q,
              both.0,
              validate_paths-AreAccepted getter paths both.1,
            )
      ]
    ]

validate_port-le : (text : ℕ → String) (p : ℕ) → validate_port text p ≡ none → p ≤ 65535
unfolding validate_port
validate_port-le text p e = ground (arith, e)

validate_ports-ArePorts :
    (text : ℕ → String) (ports : List (ℕ × ℕ)) → validate_ports text ports ≡ none → ArePorts ports
unfolding validate_ports
validate_ports-ArePorts text [] e = tt
validate_ports-ArePorts text ((local, remote) ∷ ports) e =
    let (a, rest) = first_error-none (validate_port text local) _ e in
    let (b, c) = first_error-none (validate_port text remote) (validate_ports text ports) rest in
    (
      validate_port-le text local a,
      validate_port-le text remote b,
      validate_ports-ArePorts text ports c,
    )

as_invalid-none :
    (env : Env) (message : String) (e : Option Err) → as_invalid env message e ≡ none → e ≡ none
as_invalid-none env message none h = refl
as_invalid-none env message (some x) h = absurd (cc h)

check_config-IsValidConfig :
    (env : Env) (text : ℕ → String) (config : NewRunConfig)
    → check_config env text (some config) ≡ none
    → IsValidConfig config
unfolding check_config
check_config-IsValidConfig env text config e =
    let (a, rest) = first_error-none (validate_ports text config.ports) _ e in
    let (b, rest₁) =
      first_error-none
        (as_invalid env "invalid volume paths: " (validate_paths left_path config.volumes)) _
        rest in
    let (c, d) =
      first_error-none
        (as_invalid env "invalid download paths: " (validate_paths left_path config.download_paths))
        _ rest₁ in
    record {
      ports = validate_ports-ArePorts text config.ports a;
      volumes = validate_paths-AreAccepted left_path config.volumes (as_invalid-none env _ _ b);
      download_paths =
          validate_paths-AreAccepted left_path config.download_paths (as_invalid-none env _ _ c);
      upload_paths =
          validate_paths-AreAccepted right_path config.upload_paths (as_invalid-none env _ _ d);
    }

readonly-true : (b : Bool) (message : String) → readonly b message ≡ none → b ≡ true
readonly-true true message e = refl
readonly-true false message e = absurd (cc e)

is_none-true : (o : Option ℕ) → is_none o ≡ true → o ≡ none
is_none-true none e = refl
is_none-true (some n) e = absurd (cc e)

config-IsValidConfig :
    (env : Env) (text : ℕ → String) (o : Option NewRunConfig)
    → check_config env text o ≡ none
    → (config : NewRunConfig) × (o ≡ some config) × IsValidConfig config
config-IsValidConfig env text none e = absurd (unfold check_config in cc e)
config-IsValidConfig env text (some config) e =
    (config, refl, check_config-IsValidConfig env text config e)

own_name :
    (claims : Claims) (r : NewJob) (x : Err)
    → (if same_text claims.username r.username then none else some x) ≡ none
    → claims.username ≡ r.username
own_name claims r x e = elim (Bool-cases (same_text claims.username r.username)) [
  | inl p ↦ same_text→eq claims.username r.username p
  | inr p ↦ absurd (ground (arith, e, p))
]

check_new_job-IsValidNewJob :
    (env : Env) (text : ℕ → String) (claims : Claims) (r : NewJob)
    → check_new_job env text claims r ≡ none
    → IsValidNewJob claims r
unfolding check_new_job
check_new_job-IsValidNewJob env text claims r e =
    let (a, rest) = first_error-none _ _ e in
    let (b, rest₁) = first_error-none (readonly (r.id == 0) "field Id is readonly") _ rest in
    let (c, rest₂) =
      first_error-none (readonly (r.status == 0) "field Status is readonly") _ rest₁ in
    let (d, rest₃) =
      first_error-none (readonly (is_none r.created_at) "field CreatedAt is readonly") _ rest₂ in
    let (u, rest₄) =
      first_error-none (readonly (is_none r.updated_at) "field UpdatedAt is readonly") _ rest₃ in
    let (config, is_config, is_valid) = config-IsValidConfig env text r.run_config rest₄ in
    record {
      username = own_name claims r _ a;
      id = ground (arith, readonly-true (r.id == 0) _ b);
      status = ground (arith, readonly-true (r.status == 0) _ c);
      created_at = is_none-true r.created_at (readonly-true _ _ d);
      updated_at = is_none-true r.updated_at (readonly-true _ _ u);
      config = config;
      run_config = is_config;
      is_valid = is_valid;
    }

module _ (env : Env) (models : Models) (text : ℕ → String) where
  -- What a `CreateJob` that succeeds has done, from the history before to the one after.
  pub record IsCreated (ctx : ContextClaims) (r : models.JobProto) (h h' : History)
      (m : models.JobProto) : Type 0 where
    pub claims : Claims
    pub is_known : ctx ≡ has_claims claims
    pub is_valid : IsValidNewJob claims (models.new_job_of r)
    pub requested : models.Job
    pub created : models.Job
    pub event : Event
    pub h₁ : History
    pub is_requested : models.job_from_proto r ≡ ok requested
    pub is_stored : models.create_job requested (begin ∷ h) ≡ (ok (created, event), h₁)
    pub published : models.publish_changes (event ∷ []) h₁ ≡ (ok tt, h')
    pub answer : models.job_to_proto created ≡ ok m

  -- A `CreateJob` that succeeds had a job of the user who sent it, with no field that only the service
  -- sets, with ports up to 65535 and with paths that are not empty and, on the side that the service
  -- uses, accepted; it stored this job after the begin of a transaction, then published the event of
  -- it, and it answers with the job as it was stored.
  pub create_job-IsCreated :
      (ctx : ContextClaims) (r m : models.JobProto) (h h' : History)
      → create_job env models text ctx r h ≡ (ok m, h')
      → IsCreated ctx r h h' m
  unfolding create_job rolled_back
  create_job-IsCreated no_claims r m h h' e = absurd (ground (arith, e))
  create_job-IsCreated other_type r m h h' e = absurd (ground (arith, e))
  create_job-IsCreated (has_claims c) r m h h' e =
      elim (Option-cases (check_new_job env text c (models.new_job_of r))) [
        | inr (x, p) ↦ absurd (ground (arith, e, p))
        | inl p ↦ elim (Result-cases (models.job_from_proto r)) [
          | inl (x, q) ↦ absurd (ground (arith, e, p, q))
          | inr (j, q) ↦ elim (run-cases (models.create_job j (begin ∷ h))) [
            | inl (x, h₁, s) ↦ absurd (ground (arith, e, p, q, s))
            | inr ((j', v), h₁, s) ↦ elim (run-cases (models.publish_changes (v ∷ []) h₁)) [
              | inl (x, h₂, t) ↦ absurd (ground (arith, e, p, q, s, t))
              | inr (u, h₂, t) ↦ elim (Result-cases (models.job_to_proto j')) [
                | inl (x, w) ↦ absurd (ground (arith, e, p, q, s, t, w))
                | inr (m', w) ↦ record {
                  claims = c;
                  is_known = refl;
                  is_valid = check_new_job-IsValidNewJob env text c (models.new_job_of r) p;
                  requested = j;
                  created = j';
                  event = v;
                  h₁ = h₁;
                  is_requested = q;
                  is_stored = s;
                  published = ground (arith, e, p, q, s, t, w);
                  answer = ground (arith, e, p, q, s, t, w);
                }
              ]
            ]
          ]
        ]
      ]
