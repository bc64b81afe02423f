-- ===== src/Scheduler/Handlers/Processed.antt =====
-- The events that scheduler/handlers/*.go has processed: how a handler that succeeds has ended.
use Prim.Native.String.{String}
use scalemate.Prelude.{
  ℕ, zero, suc, ◌≡◌, Bool, true, false, ◌&&◌, List, ◌∷◌, Option, none, if◌then◌else◌, arith, ◌⊎◌,
  inl, inr, Option-cases,
}
use scalemate.Proto.{Node, EventType, Event}
use scalemate.World.{
  Env, Err, Result, Result-cases, run-cases, ok, err, History, Action, ErrorLib, query, rollback,
  insert_processed_event, count_processed_events, lift, return, ◌>>=◌, ◌>>◌, ◌wrapped◌, next, begin,
}
use scalemate.Shared.Utils.{rolled_back, rollback_transaction}
use scalemate.Scheduler.Nodes.{ProcessedEvent, create_processed_event, processed_event_exists}
use scalemate.Scheduler.Models.{Models}
use scalemate.Scheduler.Handlers.{
  HandlerKind, job_updated, node_updated, node_disconnected, task_terminated, SchedulerPayload,
  SchedulerEvent, job, task, node, other, unless_processed, begin_transaction, or_rollback,
  record_and_commit, no_node, schedule_on, schedule_job_of, schedule_jobs_on, fail_tasks,
  free_resources, when_terminated, handle_job_updated, handle_node_updated, is_updated, is_pending,
  is_online, is_offline, in_mask, handle_node_disconnected, handle_task_terminated, handle_payload,
  handle,
}

module _ (env : Env) (lib : ErrorLib) (models : Models) (name : String) (uuid : List ℕ) where
  -- How the transaction of a handler that succeeds has ended: the event was recorded, the last step
  -- before the commit, or a rollback came last.
  pub data Ending (h' : History) : Type 0 where
    committed :
        (events : List Event) (h₀ : History)
        → env.exec (insert_processed_event name uuid) h₀ ≡ none
        → models.commit_and_publish events (query (insert_processed_event name uuid) ∷ h₀)
          ≡ (ok tt, h')
        → Ending h'
    abandoned : (h₀ : History) → h' ≡ rollback ∷ h₀ → Ending h'

  -- What a handler that succeeds has done: nothing, only the query that found the event, or all.
  pub data HandlerOutcome (h h' : History) : Type 0 where
    skipped : h' ≡ h → HandlerOutcome h h'
    found_processed :
        (n : ℕ)
        → env.get_count (count_processed_events name uuid) h ≡ ok (suc n)
        → h' ≡ query (count_processed_events name uuid) ∷ h
        → HandlerOutcome h h'
    processed : Ending h' → HandlerOutcome h h'

  record Ends (m : Action (Unit {0})) : Type 0 where
    ending : (h h' : History) → m h ≡ (ok tt, h') → Ending h'

  record HasOutcome (m : Action (Unit {0})) : Type 0 where
    outcome : (h h' : History) → m h ≡ (ok tt, h') → HandlerOutcome h h'

  abbrev this : ProcessedEvent
  this = record { handler_name = name; uuid = uuid }

  next-Ending :
      {A : Type 0} (m : Result A × History) (k : A → Action (Unit {0})) (h' : History)
      → ((a : A) → Ends (k a))
      → next m k ≡ (ok tt, h')
      → Ending h'
  next-Ending (ok a, h) k h' p e = (p a).ending h h' e
  next-Ending (err x, h) k h' p e = cc

  Ends-begin : {k : Action (Unit {0})} → Ends k → Ends (begin_transaction >> k)
  Ends-begin p = record { ending = λ h h' e. p.ending (begin ∷ h) h' e }

  Ends-or_rollback :
      (message : String) {A : Type 0} (m : Action A) {k : A → Action (Unit {0})}
      → ((a : A) → Ends (k a))
      → Ends (or_rollback env m message >>= k)
  Ends-or_rollback message {A} m {k} p = record {
    ending = λ h h' e. next-Ending (or_rollback env m message h) k h' p e;
  }

  record_and_commit-Ends :
      (message : String) (events : List Event)
      → Ends (record_and_commit env lib models name this message events)
  unfolding record_and_commit create_processed_event rolled_back
  record_and_commit-Ends message events = record {
    ending = λ h h' e.
        let q = insert_processed_event name uuid in
        elim (Option-cases (env.exec q h)) [
          | inl none_ ↦ elim (run-cases (models.commit_and_publish events (query q ∷ h))) [
            | inl (x, h₁, made) ↦ ground (arith, e, none_, made)
            | inr (u, h₁, made) ↦ committed events h none_ (ground (arith, e, none_, made))
          ]
          | inr (x, some_) ↦ ground (arith, e, some_)
        ];
  }

  Ends-wrapped :
      (message : String) {A : Type 0} (m : Action A) {k : A → Action (Unit {0})}
      → ((a : A) → Ends (k a))
      → Ends (m wrapped message >>= k)
  Ends-wrapped message {A} m {k} p = record {
    ending = λ h h' e. next-Ending ((m wrapped message) h) k h' p e;
  }

  HasOutcome-return : HasOutcome (return {0} tt)
  HasOutcome-return = record { outcome = λ h h' e. skipped cc }

  HasOutcome-if :
      (b : Bool) {m k : Action (Unit {0})}
      → HasOutcome m
      → HasOutcome k
      → HasOutcome (if b then m else k)
  HasOutcome-if true p q = p
  HasOutcome-if false p q = q

  HasOutcome-lift :
      {A : Type 0} (r : Result A) (message : String) {k : A → Action (Unit {0})}
      → ((a : A) → HasOutcome (k a))
      → HasOutcome (lift r wrapped message >>= k)
  HasOutcome-lift (ok a) message p = p a
  HasOutcome-lift (err x) message p = record { outcome = λ h h' e. cc }

  ruleset steps = (record_and_commit-Ends, Ends-or_rollback, Ends-begin)

  fail_tasks-Ends : (id : ℕ) → Ends (fail_tasks env lib models name this id)
  unfolding fail_tasks
  fail_tasks-Ends id = search (steps)

  schedule_jobs_on-Ends : (n : Node) → Ends (schedule_jobs_on env lib models name this n)
  unfolding schedule_jobs_on
  schedule_jobs_on-Ends n = search (steps, Ends-wrapped)

  no_node-Ending :
      (x : Err) (h h' : History) → no_node env lib models name x h ≡ (ok tt, h') → Ending h'
  unfolding no_node rollback_transaction rolled_back
  no_node-Ending x h h' e = abandoned h (ground (arith, e))

  schedule_on-Ending :
      (j : models.Job) (found : Result models.NodeModel × History) (h' : History)
      → schedule_on env lib models name this j found ≡ (ok tt, h')
      → Ending h'
  unfolding schedule_on
  schedule_on-Ending j (err x, h) h' e = no_node-Ending x h h' e
  schedule_on-Ending j (ok n, h) h' e =
      (Ends-or_rollback "job.Schedule failed" (models.schedule_job j n)
          λ events. record_and_commit-Ends "events.CommitAndPublish failed" events).ending
        h h' e

  schedule_on-Ends :
      (j : models.Job)
      → Ends (λ h. schedule_on env lib models name this j (models.nodes_available j h))
  schedule_on-Ends j = record {
    ending = λ h h' e. schedule_on-Ending j (models.nodes_available j h) h' e;
  }

  schedule_job_of-Ends : (p : models.JobProto) → Ends (schedule_job_of env lib models name this p)
  unfolding schedule_job_of
  schedule_job_of-Ends p = search (steps, Ends-wrapped, schedule_on-Ends)

  free_resources-Ends : (t : models.Task) → Ends (free_resources env lib models name this t)
  unfolding free_resources
  free_resources-Ends t = search (steps, Ends-wrapped) depth 12

  unless_processed-HasOutcome :
      {rest : Action (Unit {0})}
      → Ends rest
      → HasOutcome (unless_processed env lib models name this rest)
  unfolding unless_processed processed_event_exists
  unless_processed-HasOutcome {rest} p = record {
    outcome = λ h h' e.
        after_count h h' (Result-cases (env.get_count (count_processed_events name uuid) h)) e;
  }
    where
      after_count :
          (h h' : History)
          → ((x : Err) × (env.get_count (count_processed_events name uuid) h ≡ err x))
            ⊎ ((n : ℕ) × (env.get_count (count_processed_events name uuid) h ≡ ok n))
          → unless_processed env lib models name this rest h ≡ (ok tt, h')
          → HandlerOutcome h h'
      after_count h h' (inl (x, failed)) e = absurd (ground (arith, failed, e))
      after_count h h' (inr (zero, none_)) e =
          processed
            (p.ending (query (count_processed_events name uuid) ∷ h) h' (ground (arith, none_, e)))
      after_count h h' (inr (suc n, some_)) e = found_processed n some_ (ground (arith, some_, e))

  when_terminated-HasOutcome :
      (t : models.Task) → HasOutcome (when_terminated env lib models name this t)
  unfolding when_terminated
  when_terminated-HasOutcome t =
      HasOutcome-if (models.task_is_terminated t)
        (unless_processed-HasOutcome (free_resources-Ends t)) HasOutcome-return

  handle_payload-HasOutcome :
      (kind : HandlerKind) (t : EventType) (mask : Option (List String))
      (p : SchedulerPayload models)
      → HasOutcome (handle_payload env lib models name kind uuid t mask p)
  unfolding handle_payload handle_job_updated handle_node_updated handle_node_disconnected
      handle_task_terminated
  handle_payload-HasOutcome job_updated t mask (job x) =
      HasOutcome-if (is_updated t)
        (HasOutcome-if (is_pending (models.job_proto_status x))
          (unless_processed-HasOutcome (schedule_job_of-Ends x)) HasOutcome-return)
        HasOutcome-return
  handle_payload-HasOutcome job_updated t mask (task x) = HasOutcome-return
  handle_payload-HasOutcome job_updated t mask (node x) = HasOutcome-return
  handle_payload-HasOutcome job_updated t mask other = HasOutcome-return
  handle_payload-HasOutcome node_updated t mask (job x) = HasOutcome-return
  handle_payload-HasOutcome node_updated t mask (task x) = HasOutcome-return
  handle_payload-HasOutcome node_updated t mask (node x) =
      HasOutcome-if (is_updated t && in_mask "status" mask && is_online x.status)
        (unless_processed-HasOutcome (schedule_jobs_on-Ends x)) HasOutcome-return
  handle_payload-HasOutcome node_updated t mask other = HasOutcome-return
  handle_payload-HasOutcome node_disconnected t mask (job x) = HasOutcome-return
  handle_payload-HasOutcome node_disconnected t mask (task x) = HasOutcome-return
  handle_payload-HasOutcome node_disconnected t mask (node x) =
      HasOutcome-if (is_updated t && in_mask "status" mask && is_offline x.status)
        (unless_processed-HasOutcome (fail_tasks-Ends x.id)) HasOutcome-return
  handle_payload-HasOutcome node_disconnected t mask other = HasOutcome-return
  handle_payload-HasOutcome task_terminated t mask (job x) = HasOutcome-return
  handle_payload-HasOutcome task_terminated t mask (task x) =
      HasOutcome-if (is_updated t && in_mask "status" mask)
        (HasOutcome-lift (models.task_from_proto x) "task.FromProto failed"
          when_terminated-HasOutcome)
        HasOutcome-return
  handle_payload-HasOutcome task_terminated t mask (node x) = HasOutcome-return
  handle_payload-HasOutcome task_terminated t mask other = HasOutcome-return

pub handle-HandlerOutcome :
    (env : Env) (lib : ErrorLib) (models : Models) (name : String) (kind : HandlerKind)
    (e : SchedulerEvent models) (h h' : History)
    → handle env lib models name kind e h ≡ (ok tt, h')
    → HandlerOutcome env lib models name e.uuid h h'
handle-HandlerOutcome env lib models name kind e h h' run =
    (handle_payload-HasOutcome env lib models name e.uuid kind e.event_type e.payload_mask
        e.payload).outcome
      h h' run
