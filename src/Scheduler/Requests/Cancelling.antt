-- ===== src/Scheduler/Requests/Cancelling.antt =====
-- What scheduler/server/cancel_job.go changes.

use scalemate.Prelude.{
  ℕ, suc, ◌+◌, ◌≡◌, true, false, List, [], ◌∷◌, Option, arith, Bool-cases, inl, inr,
}
use scalemate.Proto.{Event}
use scalemate.World.{Env, Err, run-cases, ok, err, wrap, History, begin, begun, ended}
use scalemate.Shared.Utils.{rolled_back}
use scalemate.Shared.Auth.{Claims, ContextClaims, no_claims, other_type, has_claims}
use scalemate.Scheduler.Models.{Models, JobStatus, TaskStatus, AreQuiet}
use scalemate.Scheduler.Requests.{may_access, cancel_tasks, cancel_loaded_job, cancel_job}

module _ (env : Env) (models : Models) where
  -- The tasks that were cancelled one after the other, with their events: each that was not
  -- terminated, and no other.
  pub data AreCancelled : List models.Task → History → List Event → History → Type 0 where
    all_done : (h : History) → AreCancelled [] h [] h
    terminated :
        (t : models.Task) (ts : List models.Task) {h h' : History} {events : List Event}
        → models.task_is_terminated t ≡ true
        → AreCancelled ts h events h'
        → AreCancelled (t ∷ ts) h events h'
    running :
        (t t' : models.Task) (ts : List models.Task) {h h₁ h' : History} {e : Event}
        {events : List Event}
        → models.task_is_terminated t ≡ false
        → models.update_task_status t TaskStatus.cancelled h ≡ (ok (t', e), h₁)
        → AreCancelled ts h₁ events h'
        → AreCancelled (t ∷ ts) h (e ∷ events) h'

  cancel_tasks-AreCancelled :
      (ts : List models.Task) (h h' : History) (events : List Event)
      → cancel_tasks env models ts h ≡ (ok events, h')
      → AreCancelled ts h events h'
  unfolding cancel_tasks rolled_back
  cancel_tasks-AreCancelled [] h h' events e =
      let ended_ : h' ≡ h = ground (arith, e) in
      let none_ : events ≡ [] = ground (arith, e) in rw (ended_, none_) (all_done h)
  cancel_tasks-AreCancelled (t ∷ ts) h h' events e =
      elim (Bool-cases (models.task_is_terminated t)) [
        | inl p ↦
            terminated t ts p (cancel_tasks-AreCancelled ts h h' events (ground (arith, e, p)))
        | inr p ↦ elim (run-cases (models.update_task_status t TaskStatus.cancelled h)) [
          | inl (x, h₁, made) ↦ absurd (ground (arith, e, p, made))
          | inr ((t', v), h₁, made) ↦ elim (run-cases (cancel_tasks env models ts h₁)) [
            | inl (x, h₂, rest) ↦ absurd (ground (arith, e, p, made, rest))
            | inr (es, h₂, rest) ↦
                let ended_ : h' ≡ h₂ = ground (arith, e, p, made, rest) in
                let all : events ≡ v ∷ es = ground (arith, e, p, made, rest) in
                rw (ended_, all)
                  (running t t' ts p made (cancel_tasks-AreCancelled ts h₁ h₂ es rest))
          ]
        ]
      ]

  -- What a `CancelJob` that succeeds has done, from the history before to the one after.
  pub record IsCancelled (id : ℕ) (h h' : History) : Type 0 where
    pub loaded : models.Job
    pub cancelled_job : models.Job
    pub job_event : Event
    pub tasks : List models.Task
    pub task_events : List Event
    pub h₁ : History
    pub h₂ : History
    pub h₃ : History
    pub h₄ : History
    pub is_loaded : models.load_job id h ≡ (ok loaded, h₁)
    pub is_updated :
        models.update_job_status loaded JobStatus.cancelled (begin ∷ h₁)
        ≡ (ok (cancelled_job, job_event), h₂)
    pub tasks_loaded : models.load_tasks cancelled_job h₂ ≡ (ok tasks, h₃)
    pub are_cancelled : AreCancelled tasks h₃ task_events h₄
    pub published : models.publish_changes (job_event ∷ task_events) h₄ ≡ (ok tt, h')

  cancel_loaded_job-IsCancelled :
      (id : ℕ) (h h₁ h' : History) (j : models.Job) (m : Option models.JobProto)
      → models.load_job id h ≡ (ok j, h₁)
      → cancel_loaded_job env models j h₁ ≡ (ok m, h')
      → IsCancelled id h h'
  unfolding cancel_loaded_job rolled_back
  cancel_loaded_job-IsCancelled id h h₁ h' j m is_loaded e =
      elim (run-cases (models.update_job_status j JobStatus.cancelled (begin ∷ h₁))) [
        | inl (x, h₂, p) ↦ absurd (ground (arith, e, p))
        | inr ((j', v), h₂, p) ↦ elim (run-cases (models.load_tasks j' h₂)) [
          | inl (x, h₃, q) ↦ absurd (ground (arith, e, p, q))
          | inr (ts, h₃, q) ↦ elim (run-cases (cancel_tasks env models ts h₃)) [
            | inl (x, h₄, r) ↦ absurd (ground (arith, e, p, q, r))
            | inr (es, h₄, r) ↦ elim (run-cases (models.publish_changes (v ∷ es) h₄)) [
              | inl (x, h₅, s) ↦ absurd (ground (arith, e, p, q, r, s))
              | inr (u, h₅, s) ↦ record {
                loaded = j;
                cancelled_job = j';
                job_event = v;
                tasks = ts;
                task_events = es;
                h₁ = h₁;
                h₂ = h₂;
                h₃ = h₃;
                h₄ = h₄;
                is_loaded = is_loaded;
                is_updated = p;
                tasks_loaded = q;
                are_cancelled = cancel_tasks-AreCancelled ts h₃ h₄ es r;
                published = ground (arith, e, p, q, r, s);
              }
            ]
          ]
        ]
      ]

  -- A `CancelJob` that succeeds cancelled the job that it loaded, in a transaction that it began;
  -- then, in this transaction, each task of the job that was not terminated, in the order of the
  -- list, and no other; and it published the job's event first and the tasks' events in their order.
  pub cancel_job-IsCancelled :
      (ctx : ContextClaims) (id : ℕ) (h h' : History) (m : Option models.JobProto)
      → cancel_job env models ctx id h ≡ (ok m, h')
      → IsCancelled id h h'
  unfolding cancel_job
  cancel_job-IsCancelled no_claims id h h' m e = absurd (ground (arith, e))
  cancel_job-IsCancelled other_type id h h' m e = absurd (ground (arith, e))
  cancel_job-IsCancelled (has_claims c) id h h' m e = elim (run-cases (models.load_job id h)) [
    | inl (x, h₁, p) ↦ absurd (ground (arith, e, p))
    | inr (j, h₁, p) ↦ elim (Bool-cases (may_access env models c (models.job_username j))) [
      | inl q ↦ cancel_loaded_job-IsCancelled id h h₁ h' j m p (ground (arith, e, p, q))
      | inr q ↦ absurd (ground (arith, e, p, q))
    ]
  ]

  -- A `CancelJob` that can not read the tasks of the job, after it has updated the job, returns an
  -- error and leaves open the transaction that it began. The conditions are
  -- that the user may access the job and that the queries begin and end no transaction themselves.
  pub cancel_job-leaks :
      (quiet : AreQuiet models) (c : Claims) (id : ℕ) (h h₁ h₂ h₃ : History) (j j' : models.Job)
      (v : Event) (x : Err)
      → may_access env models c (models.job_username j) ≡ true
      → models.load_job id h ≡ (ok j, h₁)
      → models.update_job_status j JobStatus.cancelled (begin ∷ h₁) ≡ (ok (j', v), h₂)
      → models.load_tasks j' h₂ ≡ (err x, h₃)
      → (cancel_job env models (has_claims c) id h
          ≡ (err (wrap x "job.LoadTasksFromDB failed"), h₃))
        × (begun h₃ + ended h ≡ suc (ended h₃ + begun h))
  unfolding cancel_job cancel_loaded_job
  cancel_job-leaks quiet c id h h₁ h₂ h₃ j j' v x may p q r =
      let a = (quiet.load_job id).begins_none h in
      let a' = (quiet.load_job id).ends_none h in
      let b = (quiet.update_job_status j JobStatus.cancelled).begins_none (begin ∷ h₁) in
      let b' = (quiet.update_job_status j JobStatus.cancelled).ends_none (begin ∷ h₁) in
      let d = (quiet.load_tasks j').begins_none h₂ in
      let d' = (quiet.load_tasks j').ends_none h₂ in
      (ground (arith, may, p, q, r), ground (arith, p, q, r, a, a', b, b', d, d'))
