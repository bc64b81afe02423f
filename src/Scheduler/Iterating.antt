-- ===== src/Scheduler/Iterating.antt =====
-- scheduler/server/iterate_tasks.go, handle_job_terminated.go and handle_task_created.go: the channels
-- of tasks for the clients that watch a job. A channel is a number.
pub mod Steps
pub mod Lost
pub mod Panics
use Prim.Native.String.{String, ◌++◌}
use scalemate.Prelude.{
  ℕ, suc, Bool, true, false, List, [], ◌∷◌, Option, none, some, if◌then◌else◌, same_text,
}
use scalemate.World.{
  Err, status, wrap, Result, ok, err, Action, permission_denied, unavailable, internal, return,
  lift, guard, ◌>>=◌, ◌>>◌, ◌wrapped◌, fail, History,
}
use scalemate.Shared.Auth.{Claims, ContextClaims}
use scalemate.Scheduler.Models.{Models}
use scalemate.Scheduler.Requests.{known_claims}
use scalemate.Scheduler.Streams.{
  NodeStreams, with_entry, Delivery, no_channel, panics, waits_for, send_on, send_to_node,
}

-- `tasksForClients` and which channels are closed. Channels from `next` on are not made yet.
pub record ClientStreams : Type 0 where
  pub channel_of : ℕ → Option ℕ
  pub is_closed : ℕ → Bool
  pub next : ℕ

-- The entry of a job gets a new channel, in place of the one that it had.
abbrev pub watch_job : ℕ → ClientStreams → ClientStreams
watch_job id s = record s {
  channel_of = with_entry s.channel_of id (some s.next);
  next = suc s.next;
}

-- The deferred function of `IterateTasks`.
abbrev pub unwatch_job : ℕ → ClientStreams → ClientStreams
unwatch_job id s = record s { channel_of = with_entry s.channel_of id none }

module _ (models : Models) where
  open models use {Job, Task, JobProto, TaskProto}

  -- Only the owner, also if the user is an admin.
  abbrev pub owner_error : Claims → String → Option Err
  owner_error c username =
      if same_text username c.username
      then none
      else some (
          status permission_denied (
            "Container username '" ++ username ++ "' does not match currently authenticated user: '"
            ++ c.username ++ "'"))

  -- The loop over the tasks that there are; `send_task` is `stream.Send`.
  unfoldable pub send_existing : (TaskProto → Action (Unit {0})) → List Task → Action (Unit {0})
  send_existing send_task [] = return tt
  send_existing send_task (t ∷ ts) =
      let rest = send_existing send_task ts in
      do
        proto ← lift (models.task_to_proto t) wrapped "task.ToProto failed"
        send_task proto wrapped "failed to stream a Task"
        rest

  -- Tasks that can not be read are left out, with no error.
  abbrev pub send_loaded :
      (TaskProto → Action (Unit {0})) → Result (List Task) × History → Result (Unit {0}) × History
  send_loaded send_task (err e, h) = (ok tt, h)
  send_loaded send_task (ok ts, h) = send_existing send_task ts h

  -- `IterateTasks`, until it makes its channel: whether it does, since the job is not terminated.
  unfoldable pub open_iteration :
      (TaskProto → Action (Unit {0})) → ContextClaims → ℕ → Bool → Action Bool
  open_iteration send_task ctx job_id include_existing = do
    claims ← lift (known_claims ctx)
    job ← models.load_job job_id
    guard (owner_error claims (models.job_username job))
    (if include_existing then (λ h. send_loaded send_task (models.load_tasks job h)) else return tt)
    return (if models.job_is_terminated job then false else true)

  -- What the loops of the streams wait for.
  pub data Incoming : Type 0 where
    cancelled_by_client : Err → Incoming
    new_task : TaskProto → Incoming
    channel_closed stopping : Incoming

  -- The loop over what comes in; none as long as it waits for more.
  unfoldable pub iterate :
      (TaskProto → Action (Unit {0})) → List Incoming → Action (Option (Unit {0}))
  iterate send_task [] = return none
  iterate send_task (cancelled_by_client e ∷ incoming) =
      fail (wrap e "Tasks iteration is cancelled by client")
  iterate send_task (channel_closed ∷ incoming) = return (some tt)
  iterate send_task (stopping ∷ incoming) = fail (status unavailable "service is shutting down")
  iterate send_task (new_task t ∷ incoming) =
      let rest = iterate send_task incoming in
      (send_task t wrapped "failed to stream a Task") >> rest

  -- The loop of `IterateTasksForNode` over what comes in for the node.
  unfoldable pub iterate_for_node :
      (TaskProto → Action (Unit {0})) → List Incoming → Action (Option (Unit {0}))
  iterate_for_node send_task [] = return none
  iterate_for_node send_task (cancelled_by_client e ∷ incoming) = fail e
  iterate_for_node send_task (channel_closed ∷ incoming) =
      fail (status internal "tasks channel is unexpectedly closed")
  iterate_for_node send_task (stopping ∷ incoming) =
      fail (status unavailable "service is shutting down")
  iterate_for_node send_task (new_task t ∷ incoming) =
      let rest = iterate_for_node send_task incoming in
      (send_task t wrapped "failed to send a Task to the Tasks stream") >> rest

  -- A handler panics, or it returns an error or nil, with the channels afterwards.
  pub data TerminationHandled : Type 0 where
    panics_on_close : TerminationHandled
    returns_error : Option Err → ClientStreams → TerminationHandled

  abbrev pub close_found : ClientStreams → Option ℕ → TerminationHandled
  close_found s none = returns_error none s
  close_found s (some c) =
      if s.is_closed c
      then panics_on_close
      else returns_error none (record s { is_closed = with_entry s.is_closed c true })

  abbrev pub close_terminated : (Job → ℕ) → ClientStreams → Result Job → TerminationHandled
  close_terminated id_of s (err e) = returns_error (some (wrap e "job.FromProto failed")) s
  close_terminated id_of s (ok j) =
      if models.job_is_terminated j
      then close_found s (s.channel_of (id_of j))
      else returns_error none s

  -- `HandleJobTerminated`; none is an event with no job, whose error is nil.
  unfoldable pub handle_job_terminated :
      (Job → ℕ) → ClientStreams → Option JobProto → TerminationHandled
  handle_job_terminated id_of s none = returns_error none s
  handle_job_terminated id_of s (some p) = close_terminated id_of s (models.job_from_proto p)

-- `HandleTaskCreated` of a task: the send to its node and then, unless that panics, the one to the
-- clients of its job.
unfoldable pub handle_task_created :
    NodeStreams → ClientStreams → (node job : ℕ) → Delivery × Option Delivery
handle_task_created nodes clients node_id job_id = elim (send_to_node nodes node_id) [
  | panics ↦ (panics, none)
  | no_channel ↦ (no_channel, some (send_on clients.is_closed (clients.channel_of job_id)))
  | waits_for c ↦ (waits_for c, some (send_on clients.is_closed (clients.channel_of job_id)))
]
