-- ===== src/Scheduler/Requests/Rights.antt =====
-- Who may make the requests of scheduler/server/*.go for a job or a task.
use Prim.Native.String.{String}
use scalemate.Prelude.{
  same_text, same_text→eq, ℕ, ◌≡◌, ◌≢◌, refl, true, false, Option, arith, Bool-cases, ◌⊎◌, inl, inr,
}
use scalemate.World.{Env, Err, Result, run-cases, ok, err, History, Action, begun, ◌>>=◌, return}
use scalemate.Shared.Utils.{is_ok}
use scalemate.Shared.Auth.{Claims, ContextClaims, no_claims, has_claims, other_type}
use scalemate.Scheduler.Models.{Models, AreQuiet}
use scalemate.Scheduler.Requests.{
  known_claims, may_access, get_job, cancel_job, get_task, cancel_task,
}

-- The requests for one job or one task.
pub data Lookup : Type 0 where
  get_one_job cancel_one_job get_one_task cancel_one_task : Lookup

pub data Message (models : Models) : Type 0 where
  job_message : Option models.JobProto → Message models
  task_message : Option models.TaskProto → Message models

module _ (env : Env) (models : Models) where
  unfoldable pub look_up : Lookup → ContextClaims → ℕ → Action (Message models)
  look_up get_one_job ctx id = get_job env models ctx id >>= λ m. return (job_message m)
  look_up cancel_one_job ctx id = cancel_job env models ctx id >>= λ m. return (job_message m)
  look_up get_one_task ctx id = get_task env models ctx id >>= λ m. return (task_message m)
  look_up cancel_one_task ctx id = cancel_task env models ctx id >>= λ m. return (task_message m)

  -- The job that the request is about, as the request loads it.
  abbrev pub subject : Lookup → ℕ → Action models.Job
  subject get_one_job id = models.load_job id
  subject cancel_one_job id = models.load_job id
  subject get_one_task id = models.load_task id >>= models.load_job_of_task
  subject cancel_one_task id = models.load_task id >>= models.load_job_of_task

  pub data IsAllowed (kind : Lookup) (ctx : ContextClaims) (id : ℕ) (h : History) : Type 0 where
    allowed :
        (claims : Claims) (j : models.Job) (h₁ : History)
        → ctx ≡ has_claims claims
        → subject kind id h ≡ (ok j, h₁)
        → (models.job_username j ≡ claims.username) ⊎ (models.is_admin claims ≡ true)
        → IsAllowed kind ctx id h

  may_access-cases :
      (claims : Claims) (username : String)
      → ((username ≡ claims.username) ⊎ (models.is_admin claims ≡ true))
        ⊎ (may_access env models claims username ≡ false)
  may_access-cases claims username = elim (Bool-cases (same_text username claims.username)) [
    | inl p ↦ inl (inl (same_text→eq username claims.username p))
    | inr p ↦ elim (Bool-cases (models.is_admin claims)) [
      | inl q ↦ inl (inr q)
      | inr q ↦ inr (ground (arith, p, q))
    ]
  ]

  -- A request that was refused: it failed, and began nothing.
  abbrev IsRefused : Result (Message models) × History → History → Type 0
  IsRefused r h = (is_ok r.0 ≡ false) × (begun r.1 ≡ begun h)

  module _ (quiet : AreQuiet models) (ctx : ContextClaims) (id : ℕ) (h : History) where
    abbrev Verdict : Lookup → Type 0
    Verdict kind = IsAllowed kind ctx id h ⊎ IsRefused (look_up kind ctx id h) h

    get_job-Verdict : (claims : Claims) → ctx ≡ has_claims claims → Verdict get_one_job
    unfolding look_up get_job
    get_job-Verdict claims known = elim (run-cases (models.load_job id h)) [
      | inl (x, h₁, made) ↦
          let same = (quiet.load_job id).begins_none h in
          inr (ground (arith, known, made), ground (arith, known, made, same))
      | inr (j, h₁, made) ↦ elim (may_access-cases claims (models.job_username j)) [
        | inl may ↦ inl (allowed claims j h₁ known made may)
        | inr not_ ↦
            let same = (quiet.load_job id).begins_none h in
            inr (ground (arith, known, made, not_), ground (arith, known, made, not_, same))
      ]
    ]

    cancel_job-Verdict : (claims : Claims) → ctx ≡ has_claims claims → Verdict cancel_one_job
    unfolding look_up cancel_job
    cancel_job-Verdict claims known = elim (run-cases (models.load_job id h)) [
      | inl (x, h₁, made) ↦
          let same = (quiet.load_job id).begins_none h in
          inr (ground (arith, known, made), ground (arith, known, made, same))
      | inr (j, h₁, made) ↦ elim (may_access-cases claims (models.job_username j)) [
        | inl may ↦ inl (allowed claims j h₁ known made may)
        | inr not_ ↦
            let same = (quiet.load_job id).begins_none h in
            inr (ground (arith, known, made, not_), ground (arith, known, made, not_, same))
      ]
    ]

    get_task-Verdict : (claims : Claims) → ctx ≡ has_claims claims → Verdict get_one_task
    unfolding look_up get_task
    get_task-Verdict claims known = elim (run-cases (models.load_task id h)) [
      | inl (x, h₁, made) ↦
          let same = (quiet.load_task id).begins_none h in
          inr (ground (arith, known, made), ground (arith, known, made, same))
      | inr (t, h₁, made) ↦ elim (run-cases (models.load_job_of_task t h₁)) [
        | inl (x, h₂, found) ↦
            let same = (quiet.load_task id).begins_none h in
            let same₁ = (quiet.load_job_of_task t).begins_none h₁ in
            inr
              (ground (arith, known, made, found), ground (arith, known, made, found, same, same₁))
        | inr (j, h₂, found) ↦ elim (may_access-cases claims (models.job_username j)) [
          | inl may ↦ inl (allowed claims j h₂ known (ground (arith, made, found)) may)
          | inr not_ ↦
              let same = (quiet.load_task id).begins_none h in
              let same₁ = (quiet.load_job_of_task t).begins_none h₁ in
              inr (
                ground (arith, known, made, found, not_),
                ground (arith, known, made, found, not_, same, same₁),
              )
        ]
      ]
    ]

    cancel_task-Verdict : (claims : Claims) → ctx ≡ has_claims claims → Verdict cancel_one_task
    unfolding look_up cancel_task
    cancel_task-Verdict claims known = elim (run-cases (models.load_task id h)) [
      | inl (x, h₁, made) ↦
          let same = (quiet.load_task id).begins_none h in
          inr (ground (arith, known, made), ground (arith, known, made, same))
      | inr (t, h₁, made) ↦ elim (run-cases (models.load_job_of_task t h₁)) [
        | inl (x, h₂, found) ↦
            let same = (quiet.load_task id).begins_none h in
            let same₁ = (quiet.load_job_of_task t).begins_none h₁ in
            inr
              (ground (arith, known, made, found), ground (arith, known, made, found, same, same₁))
        | inr (j, h₂, found) ↦ elim (may_access-cases claims (models.job_username j)) [
          | inl may ↦ inl (allowed claims j h₂ known (ground (arith, made, found)) may)
          | inr not_ ↦
              let same = (quiet.load_task id).begins_none h in
              let same₁ = (quiet.load_job_of_task t).begins_none h₁ in
              inr (
                ground (arith, known, made, found, not_),
                ground (arith, known, made, found, not_, same, same₁),
              )
        ]
      ]
    ]

    look_up-Verdict : (kind : Lookup) (claims : Claims) → ctx ≡ has_claims claims → Verdict kind
    look_up-Verdict get_one_job = get_job-Verdict
    look_up-Verdict cancel_one_job = cancel_job-Verdict
    look_up-Verdict get_one_task = get_task-Verdict
    look_up-Verdict cancel_one_task = cancel_task-Verdict

  without_claims :
      (kind : Lookup) (ctx : ContextClaims) (id : ℕ) (h : History) (x : Err)
      → known_claims ctx ≡ err x
      → IsRefused (look_up kind ctx id h) h
  unfolding look_up get_job cancel_job get_task cancel_task
  without_claims get_one_job ctx id h x e = ground (arith, e)
  without_claims cancel_one_job ctx id h x e = ground (arith, e)
  without_claims get_one_task ctx id h x e = ground (arith, e)
  without_claims cancel_one_task ctx id h x e = ground (arith, e)

  verdict :
      (quiet : AreQuiet models) (kind : Lookup) (ctx : ContextClaims) (id : ℕ) (h : History)
      → IsAllowed kind ctx id h ⊎ IsRefused (look_up kind ctx id h) h
  verdict quiet kind no_claims id h = inr (without_claims kind no_claims id h _ refl)
  verdict quiet kind other_type id h = inr (without_claims kind other_type id h _ refl)
  verdict quiet kind (has_claims c) id h = look_up-Verdict quiet (has_claims c) id h kind c refl

  -- A request to get or to cancel a job or a task that succeeds, or that begins a transaction, was
  -- made with claims, by the owner of the job as it was loaded or by an admin. The condition is that
  -- the queries of the models begin no transaction themselves.
  pub look_up-IsAllowed :
      (kind : Lookup) (ctx : ContextClaims) (id : ℕ) (h : History)
      → AreQuiet models
      → (is_ok (look_up kind ctx id h).0 ≡ true) ⊎ (begun (look_up kind ctx id h).1 ≢ begun h)
      → IsAllowed kind ctx id h
  look_up-IsAllowed kind ctx id h quiet (inl succeeded) = elim (verdict quiet kind ctx id h) [
    | inl yes_ ↦ yes_
    | inr refused ↦ absurd (cc (succeeded, refused.0))
  ]
  look_up-IsAllowed kind ctx id h quiet (inr began) = elim (verdict quiet kind ctx id h) [
    | inl yes_ ↦ yes_
    | inr refused ↦ absurd (began refused.1)
  ]
