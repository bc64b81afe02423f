-- ===== src/Scheduler/Handlers/Balanced.antt =====
-- The transactions of scheduler/handlers/*.go.
use Prim.Native.String.{String}
use scalemate.Prelude.{
  ℕ, suc, ◌+◌, ◌≡◌, refl, ap, ◌∙◌, Bool, true, false, ◌&&◌, List, ◌∷◌, Option, if◌then◌else◌, arith,
}
use scalemate.Proto.{Node, EventType, Event}
use scalemate.World.{
  Env, Err, wrap, Result, ok, err, History, Action, begun, ended, ErrorLib, query,
  insert_processed_event, count_processed_events, lift, return, ◌>>=◌, ◌>>◌, ◌wrapped◌, next,
  recover, begin, fail,
}
use scalemate.Shared.Utils.{rolled_back, rollback_transaction}
use scalemate.Scheduler.Nodes.{ProcessedEvent, create_processed_event, processed_event_exists}
use scalemate.Scheduler.Models.{Models, IsQuiet, EndsOne, IsBalanced, AreQuiet}
use scalemate.Scheduler.Handlers.{
  HandlerKind, job_updated, node_updated, node_disconnected, task_terminated, SchedulerPayload,
  SchedulerEvent, job, task, node, other, unless_processed, or_rollback, record_and_commit,
  begin_transaction, no_node, schedule_on, schedule_job_of, schedule_jobs_on, fail_tasks,
  free_resources, when_terminated, handle_job_updated, handle_node_updated,
  handle_node_disconnected, handle_task_terminated, handle_payload, handle, is_updated, is_pending,
  is_online, is_offline, in_mask,
}

IsBalanced-return : IsBalanced {A = Unit {0}} (return {0} tt)
IsBalanced-return = record { balance = λ h. omega arith }

next-balance :
    {A : Type 0} (message : String) (m : Result A × History) (k : A → Action (Unit {0}))
    → ((a : A) → IsBalanced (k a))
    → begun (next (recover m (λ e. fail (wrap e message))) k).1 + ended m.1
      ≡ ended (next (recover m (λ e. fail (wrap e message))) k).1 + begun m.1
next-balance message (ok a, h) k p = (p a).balance h
next-balance message (err e, h) k p = omega arith

-- Quiet work outside of a transaction.
IsBalanced-quiet :
    {A : Type 0} {m : Action A} (message : String) {k : A → Action (Unit {0})}
    → IsQuiet m
    → ((a : A) → IsBalanced (k a))
    → IsBalanced (m wrapped message >>= k)
IsBalanced-quiet {A} {m} message {k} quiet p = record {
  balance =
      λ h. omega (arith, next-balance message (m h) k p, quiet.begins_none h, quiet.ends_none h);
}

IsBalanced-if :
    (b : Bool) {m k : Action (Unit {0})}
    → IsBalanced m
    → IsBalanced k
    → IsBalanced (if b then m else k)
IsBalanced-if true p q = p
IsBalanced-if false p q = q

module _ {A : Type 0} where
  IsBalanced-lift :
      (r : Result A) (message : String) {k : A → Action (Unit {0})}
      → ((a : A) → IsBalanced (k a))
      → IsBalanced (lift r wrapped message >>= k)
  IsBalanced-lift (ok a) message p = p a
  IsBalanced-lift (err e) message p = record { balance = λ h. omega arith }

  next-begun :
      (env : Env) (message : String) (m : Result A × History) (k : A → Action (Unit {0}))
      → ((a : A) → EndsOne (k a))
      → begun (next (recover m (λ e. rolled_back env (wrap e message))) k).1 ≡ begun m.1
  unfolding rolled_back
  next-begun env message (ok a, h₁) k p = (p a).begins_none h₁
  next-begun env message (err e, h₁) k p = refl

  next-ended :
      (env : Env) (message : String) (m : Result A × History) (k : A → Action (Unit {0}))
      → ((a : A) → EndsOne (k a))
      → ended (next (recover m (λ e. rolled_back env (wrap e message))) k).1 ≡ suc (ended m.1)
  unfolding rolled_back
  next-ended env message (ok a, h₁) k p = (p a).ends_one h₁
  next-ended env message (err e, h₁) k p = refl

  -- In a transaction: quiet work, undone by a rollback if it fails, then the rest.
  or_rollback-EndsOne :
      (env : Env) (message : String) {m : Action A} {k : A → Action (Unit {0})}
      → IsQuiet m
      → ((a : A) → EndsOne (k a))
      → EndsOne (or_rollback env m message >>= k)
  or_rollback-EndsOne env message {m} {k} quiet p = record {
    begins_none = λ h. next-begun env message (m h) k p ∙ quiet.begins_none h;
    ends_one = λ h. next-ended env message (m h) k p ∙ ap suc (quiet.ends_none h);
  }

IsBalanced-begin : {k : Action (Unit {0})} → EndsOne k → IsBalanced (begin_transaction >> k)
IsBalanced-begin {k} p = record {
  balance = λ h. omega (arith, p.begins_none (begin ∷ h), p.ends_one (begin ∷ h));
}

module _ (env : Env) (lib : ErrorLib) (models : Models) (quiet : AreQuiet models)
    (name : String) where
  record_and_commit-EndsOne :
      (e : ProcessedEvent) (message : String) (events : List Event)
      → EndsOne (record_and_commit env lib models name e message events)
  unfolding record_and_commit create_processed_event rolled_back
  record_and_commit-EndsOne e message events =
      let committed = quiet.commit_and_publish events in
      record {
        begins_none = λ h. ground (
          arith,
          committed.begins_none (query (insert_processed_event e.handler_name e.uuid) ∷ h),
        );
        ends_one = λ h.
            ground (
              arith,
              committed.ends_one (query (insert_processed_event e.handler_name e.uuid) ∷ h),
            );
      }

  unless_processed-IsBalanced :
      (e : ProcessedEvent) {rest : Action (Unit {0})}
      → IsBalanced rest
      → IsBalanced (unless_processed env lib models name e rest)
  unfolding unless_processed processed_event_exists
  unless_processed-IsBalanced e p = record {
    balance =
        λ h. ground (arith, p.balance (query (count_processed_events e.handler_name e.uuid) ∷ h));
  }

  ruleset steps =
      (record_and_commit-EndsOne, or_rollback-EndsOne, IsBalanced-begin, IsBalanced-lift)

  schedule_jobs_on-IsBalanced :
      (e : ProcessedEvent) (n : Node) → IsBalanced (schedule_jobs_on env lib models name e n)
  unfolding schedule_jobs_on
  schedule_jobs_on-IsBalanced e n =
      search (steps, quiet.load_node_for_update, quiet.schedule_pending_jobs)

  fail_tasks-IsBalanced :
      (e : ProcessedEvent) (id : ℕ) → IsBalanced (fail_tasks env lib models name e id)
  unfolding fail_tasks
  fail_tasks-IsBalanced e id = search (steps, quiet.fail_tasks_of_node)

  no_node-begun : (x : Err) (h : History) → begun (no_node env lib models name x h).1 ≡ begun h
  unfolding no_node rollback_transaction rolled_back
  no_node-begun x h = ground arith

  no_node-ended :
      (x : Err) (h : History) → ended (no_node env lib models name x h).1 ≡ suc (ended h)
  unfolding no_node rollback_transaction rolled_back
  no_node-ended x h = ground arith

  schedule_job-EndsOne :
      (e : ProcessedEvent) (j : models.Job) (n : models.NodeModel)
      → EndsOne (
          or_rollback env (models.schedule_job j n) "job.Schedule failed" >>= λ events.
          record_and_commit env lib models name e "events.CommitAndPublish failed" events)
  schedule_job-EndsOne e j n = search (steps, quiet.schedule_job)

  schedule_on-begun :
      (e : ProcessedEvent) (j : models.Job) (found : Result models.NodeModel × History)
      → begun (schedule_on env lib models name e j found).1 ≡ begun found.1
  unfolding schedule_on
  schedule_on-begun e j (err x, h) = no_node-begun x h
  schedule_on-begun e j (ok n, h) = (schedule_job-EndsOne e j n).begins_none h

  schedule_on-ended :
      (e : ProcessedEvent) (j : models.Job) (found : Result models.NodeModel × History)
      → ended (schedule_on env lib models name e j found).1 ≡ suc (ended found.1)
  unfolding schedule_on
  schedule_on-ended e j (err x, h) = no_node-ended x h
  schedule_on-ended e j (ok n, h) = (schedule_job-EndsOne e j n).ends_one h

  schedule_on-EndsOne :
      (e : ProcessedEvent) (j : models.Job)
      → EndsOne (λ h. schedule_on env lib models name e j (models.nodes_available j h))
  schedule_on-EndsOne e j = record {
    begins_none = λ h.
        schedule_on-begun e j (models.nodes_available j h)
        ∙ (quiet.nodes_available j).begins_none h;
    ends_one = λ h.
        schedule_on-ended e j (models.nodes_available j h)
        ∙ ap suc ((quiet.nodes_available j).ends_none h);
  }

  schedule_job_of-IsBalanced :
      (e : ProcessedEvent) (p : models.JobProto)
      → IsBalanced (schedule_job_of env lib models name e p)
  unfolding schedule_job_of
  schedule_job_of-IsBalanced e p = search (steps, quiet.load_job_for_update, schedule_on-EndsOne)

  free_resources-IsBalanced :
      (e : ProcessedEvent) (t : models.Task) → IsBalanced (free_resources env lib models name e t)
  unfolding free_resources
  free_resources-IsBalanced e t =
      search
        (
          steps, IsBalanced-quiet, quiet.reload_task, quiet.load_job_of_task_for_update,
          quiet.update_job_status, quiet.update_node,
        )
        depth 12

  when_terminated-IsBalanced :
      (e : ProcessedEvent) (t : models.Task) → IsBalanced (when_terminated env lib models name e t)
  unfolding when_terminated
  when_terminated-IsBalanced e t =
      IsBalanced-if (models.task_is_terminated t)
        (unless_processed-IsBalanced e (free_resources-IsBalanced e t)) IsBalanced-return

  handle_job_updated-IsBalanced :
      (uuid : List ℕ) (t : EventType) (p : models.JobProto)
      → IsBalanced (handle_job_updated env lib models name uuid t p)
  unfolding handle_job_updated
  handle_job_updated-IsBalanced uuid t p =
      let e : ProcessedEvent = record { handler_name = name; uuid = uuid } in
      IsBalanced-if (is_updated t)
        (IsBalanced-if (is_pending (models.job_proto_status p))
          (unless_processed-IsBalanced e (schedule_job_of-IsBalanced e p)) IsBalanced-return)
        IsBalanced-return

  handle_node_updated-IsBalanced :
      (uuid : List ℕ) (t : EventType) (mask : Option (List String)) (n : Node)
      → IsBalanced (handle_node_updated env lib models name uuid t mask n)
  unfolding handle_node_updated
  handle_node_updated-IsBalanced uuid t mask n =
      let e : ProcessedEvent = record { handler_name = name; uuid = uuid } in
      IsBalanced-if (is_updated t && in_mask "status" mask && is_online n.status)
        (unless_processed-IsBalanced e (schedule_jobs_on-IsBalanced e n)) IsBalanced-return

  handle_node_disconnected-IsBalanced :
      (uuid : List ℕ) (t : EventType) (mask : Option (List String)) (n : Node)
      → IsBalanced (handle_node_disconnected env lib models name uuid t mask n)
  unfolding handle_node_disconnected
  handle_node_disconnected-IsBalanced uuid t mask n =
      let e : ProcessedEvent = record { handler_name = name; uuid = uuid } in
      IsBalanced-if (is_updated t && in_mask "status" mask && is_offline n.status)
        (unless_processed-IsBalanced e (fail_tasks-IsBalanced e n.id)) IsBalanced-return

  handle_task_terminated-IsBalanced :
      (uuid : List ℕ) (t : EventType) (mask : Option (List String)) (p : models.TaskProto)
      → IsBalanced (handle_task_terminated env lib models name uuid t mask p)
  unfolding handle_task_terminated
  handle_task_terminated-IsBalanced uuid t mask p =
      let e : ProcessedEvent = record { handler_name = name; uuid = uuid } in
      IsBalanced-if (is_updated t && in_mask "status" mask)
        (IsBalanced-lift (models.task_from_proto p) "task.FromProto failed"
          (when_terminated-IsBalanced e))
        IsBalanced-return

  handle_payload-IsBalanced :
      (kind : HandlerKind) (uuid : List ℕ) (t : EventType) (mask : Option (List String))
      (p : SchedulerPayload models)
      → IsBalanced (handle_payload env lib models name kind uuid t mask p)
  unfolding handle_payload
  handle_payload-IsBalanced job_updated uuid t mask (job x) = handle_job_updated-IsBalanced uuid t x
  handle_payload-IsBalanced job_updated uuid t mask (task x) = IsBalanced-return
  handle_payload-IsBalanced job_updated uuid t mask (node x) = IsBalanced-return
  handle_payload-IsBalanced job_updated uuid t mask other = IsBalanced-return
  handle_payload-IsBalanced node_updated uuid t mask (job x) = IsBalanced-return
  handle_payload-IsBalanced node_updated uuid t mask (task x) = IsBalanced-return
  handle_payload-IsBalanced node_updated uuid t mask (node x) =
      handle_node_updated-IsBalanced uuid t mask x
  handle_payload-IsBalanced node_updated uuid t mask other = IsBalanced-return
  handle_payload-IsBalanced node_disconnected uuid t mask (job x) = IsBalanced-return
  handle_payload-IsBalanced node_disconnected uuid t mask (task x) = IsBalanced-return
  handle_payload-IsBalanced node_disconnected uuid t mask (node x) =
      handle_node_disconnected-IsBalanced uuid t mask x
  handle_payload-IsBalanced node_disconnected uuid t mask other = IsBalanced-return
  handle_payload-IsBalanced task_terminated uuid t mask (job x) = IsBalanced-return
  handle_payload-IsBalanced task_terminated uuid t mask (task x) =
      handle_task_terminated-IsBalanced uuid t mask x
  handle_payload-IsBalanced task_terminated uuid t mask (node x) = IsBalanced-return
  handle_payload-IsBalanced task_terminated uuid t mask other = IsBalanced-return

  -- A handler ends each transaction that it begins, whatever the event and whatever fails: the
  -- transactions that it leaves open are those that were open before. The condition is that the
  -- queries of the models neither begin nor end one, and that `CommitAndPublish` ends one.
  pub handle-IsBalanced :
      (kind : HandlerKind) (e : SchedulerEvent models) (h : History)
      → begun (handle env lib models name kind e h).1 + ended h
        ≡ ended (handle env lib models name kind e h).1 + begun h
  handle-IsBalanced kind e h =
      (handle_payload-IsBalanced kind e.uuid e.event_type e.payload_mask e.payload).balance h
