-- ===== src/Scheduler/Handlers/Again.antt =====
-- The delivery of an event that scheduler/handlers/*.go has processed already.
use Prim.Native.String.{String}
use scalemate.Prelude.{
  ℕ, suc, ◌≡◌, refl, ap, ◌∙◌, Bool, true, false, ◌&&◌, List, ◌∷◌, Option, none, if◌then◌else◌,
  arith, ◌⊎◌, inl, inr,
}
use scalemate.Proto.{EventType, Event}
use scalemate.World.{
  Env, Call, Result, ok, err, History, Action, ErrorLib, query, rollback, insert_processed_event,
  count_processed_events, lift, return, ◌>>=◌, ◌wrapped◌,
}
use scalemate.Scheduler.Nodes.{ProcessedEvent, processed_event_exists}
use scalemate.Scheduler.Models.{Models}
use scalemate.Scheduler.Handlers.{
  HandlerKind, job_updated, node_updated, node_disconnected, task_terminated, SchedulerPayload,
  SchedulerEvent, job, task, node, other, unless_processed, is_updated, is_pending, is_online,
  is_offline, in_mask, schedule_job_of, schedule_jobs_on, fail_tasks, free_resources,
  when_terminated, handle_job_updated, handle_node_updated, handle_node_disconnected,
  handle_task_terminated, handle_payload, handle,
}
use scalemate.Scheduler.Handlers.Processed.{
  HandlerOutcome, skipped, found_processed, processed, committed, abandoned, handle-HandlerOutcome,
}

module _ (env : Env) (lib : ErrorLib) (models : Models) (name : String) (uuid : List ℕ) where
  abbrev count_query : Call
  count_query = query (count_processed_events name uuid)

  -- With the event counted, the action makes no call, or only the count and then succeeds.
  record StandsBack (m : Action (Unit {0})) : Type 0 where
    stands_back :
        (h : History) (n : ℕ)
        → env.get_count (count_processed_events name uuid) h ≡ ok (suc n)
        → ((m h).1 ≡ h) ⊎ (m h ≡ (ok tt, count_query ∷ h))

  abbrev this : ProcessedEvent
  this = record { handler_name = name; uuid = uuid }

  StandsBack-return : StandsBack (return {0} tt)
  StandsBack-return = record { stands_back = λ h n counted. inl refl }

  StandsBack-if :
      (b : Bool) {m k : Action (Unit {0})}
      → StandsBack m
      → StandsBack k
      → StandsBack (if b then m else k)
  StandsBack-if true p q = p
  StandsBack-if false p q = q

  StandsBack-lift :
      {A : Type 0} (r : Result A) (message : String) {k : A → Action (Unit {0})}
      → ((a : A) → StandsBack (k a))
      → StandsBack (lift r wrapped message >>= k)
  StandsBack-lift (ok a) message p = p a
  StandsBack-lift (err x) message p = record { stands_back = λ h n counted. inl refl }

  unless_processed-StandsBack :
      (rest : Action (Unit {0})) → StandsBack (unless_processed env lib models name this rest)
  unfolding unless_processed processed_event_exists
  unless_processed-StandsBack rest = record {
    stands_back = λ h n counted. inr (ground (arith, counted));
  }

  when_terminated-StandsBack :
      (t : models.Task) → StandsBack (when_terminated env lib models name this t)
  unfolding when_terminated
  when_terminated-StandsBack t =
      StandsBack-if (models.task_is_terminated t)
        (unless_processed-StandsBack (free_resources env lib models name this t)) StandsBack-return

  handle_payload-StandsBack :
      (kind : HandlerKind) (t : EventType) (mask : Option (List String))
      (p : SchedulerPayload models)
      → StandsBack (handle_payload env lib models name kind uuid t mask p)
  unfolding handle_payload handle_job_updated handle_node_updated handle_node_disconnected
      handle_task_terminated
  handle_payload-StandsBack job_updated t mask (job x) =
      StandsBack-if (is_updated t)
        (StandsBack-if (is_pending (models.job_proto_status x))
          (unless_processed-StandsBack (schedule_job_of env lib models name this x))
          StandsBack-return)
        StandsBack-return
  handle_payload-StandsBack job_updated t mask (task x) = StandsBack-return
  handle_payload-StandsBack job_updated t mask (node x) = StandsBack-return
  handle_payload-StandsBack job_updated t mask other = StandsBack-return
  handle_payload-StandsBack node_updated t mask (job x) = StandsBack-return
  handle_payload-StandsBack node_updated t mask (task x) = StandsBack-return
  handle_payload-StandsBack node_updated t mask (node x) =
      StandsBack-if (is_updated t && in_mask "status" mask && is_online x.status)
        (unless_processed-StandsBack (schedule_jobs_on env lib models name this x))
        StandsBack-return
  handle_payload-StandsBack node_updated t mask other = StandsBack-return
  handle_payload-StandsBack node_disconnected t mask (job x) = StandsBack-return
  handle_payload-StandsBack node_disconnected t mask (task x) = StandsBack-return
  handle_payload-StandsBack node_disconnected t mask (node x) =
      StandsBack-if (is_updated t && in_mask "status" mask && is_offline x.status)
        (unless_processed-StandsBack (fail_tasks env lib models name this x.id)) StandsBack-return
  handle_payload-StandsBack node_disconnected t mask other = StandsBack-return
  handle_payload-StandsBack task_terminated t mask (job x) = StandsBack-return
  handle_payload-StandsBack task_terminated t mask (task x) =
      StandsBack-if (is_updated t && in_mask "status" mask)
        (StandsBack-lift (models.task_from_proto x) "task.FromProto failed"
          when_terminated-StandsBack)
        StandsBack-return
  handle_payload-StandsBack task_terminated t mask (node x) = StandsBack-return
  handle_payload-StandsBack task_terminated t mask other = StandsBack-return

-- What the database keeps: a record that was committed is counted, also after another count.
pub record Remembers (env : Env) (models : Models) (name : String) (uuid : List ℕ) : Type 0 where
  pub keeps_committed :
      (events : List Event) (h₀ h' : History)
      → env.exec (insert_processed_event name uuid) h₀ ≡ none
      → models.commit_and_publish events (query (insert_processed_event name uuid) ∷ h₀)
        ≡ (ok tt, h')
      → (n : ℕ) × (env.get_count (count_processed_events name uuid) h' ≡ ok (suc n))
  pub keeps_counted :
      (h : History) (n : ℕ)
      → env.get_count (count_processed_events name uuid) h ≡ ok (suc n)
      → env.get_count
          (count_processed_events name uuid)
          (query (count_processed_events name uuid) ∷ h)
        ≡ ok (suc n)

module _ (env : Env) (lib : ErrorLib) (models : Models) (name : String) (kind : HandlerKind)
    (e : SchedulerEvent models) where
  -- The handler of an event that is counted as processed changes nothing: it makes no call at all,
  -- or it makes the count, no other call, and succeeds.
  handle-processed :
      (h : History) (n : ℕ)
      → env.get_count (count_processed_events name e.uuid) h ≡ ok (suc n)
      → ((handle env lib models name kind e h).1 ≡ h)
        ⊎ (handle env lib models name kind e h
            ≡ (ok tt, query (count_processed_events name e.uuid) ∷ h))
  handle-processed h n counted =
      (handle_payload-StandsBack env lib models name e.uuid kind e.event_type e.payload_mask
          e.payload).stands_back
        h n counted

  -- The second delivery, once the event is counted.
  counted_again :
      (h' : History)
      → ((n : ℕ) × (env.get_count (count_processed_events name e.uuid) h' ≡ ok (suc n)))
      → ((handle env lib models name kind e h').1 ≡ h')
        ⊎ (handle env lib models name kind e h'
            ≡ (ok tt, query (count_processed_events name e.uuid) ∷ h'))
        ⊎ ((h₀ : History) × (h' ≡ rollback ∷ h₀))
  counted_again h' (n, counted) = elim (handle-processed h' n counted) [
    | inl same ↦ inl same
    | inr asked ↦ inr (inl asked)
  ]

  again :
      (h h' : History)
      → Remembers env models name e.uuid
      → handle env lib models name kind e h ≡ (ok tt, h')
      → HandlerOutcome env lib models name e.uuid h h'
      → ((handle env lib models name kind e h').1 ≡ h')
        ⊎ (handle env lib models name kind e h'
            ≡ (ok tt, query (count_processed_events name e.uuid) ∷ h'))
        ⊎ ((h₀ : History) × (h' ≡ rollback ∷ h₀))
  again h h' memory run (skipped same) = inl (rw same (ap (λ r. r.1) run ∙ same))
  again h h' memory run (found_processed n counted asked) =
      counted_again h' (n, rw asked (memory.keeps_counted h n counted))
  again h h' memory run (processed (committed events h₀ added done)) =
      counted_again h' (memory.keeps_committed events h₀ h' added done)
  again h h' memory run (processed (abandoned h₀ undone)) = inr (inr (h₀, undone))

  -- An event that is delivered twice is processed once. When a handler has succeeded and gets the
  -- same event again, it makes no call, or only the count, unless it had rolled back, for a job
  -- that fits no node. The condition is that the database counts a record that was committed.
  pub handle-handle :
      (h h' : History)
      → Remembers env models name e.uuid
      → handle env lib models name kind e h ≡ (ok tt, h')
      → ((handle env lib models name kind e h').1 ≡ h')
        ⊎ (handle env lib models name kind e h'
            ≡ (ok tt, query (count_processed_events name e.uuid) ∷ h'))
        ⊎ ((h₀ : History) × (h' ≡ rollback ∷ h₀))
  handle-handle h h' memory run =
      again h h' memory run (handle-HandlerOutcome env lib models name kind e h h' run)
