-- ===== src/Scheduler/Streams.antt =====
-- scheduler/server/iterate_tasks_for_node.go and handle_task_created.go: the channels of tasks for
-- the nodes that are connected. The streams run beside one another; what one does while it holds the
-- lock, or in one operation on a channel, is one step. A channel is a number.
pub mod Steps
pub mod Stuck
use Prim.Native.String.{String}
use scalemate.Prelude.{
  ℕ, suc, ◌==◌, Bool, true, false, List, [], ◌∷◌, Option, none, some, if◌then◌else◌, same_text,
}
use scalemate.Proto.{Event, online, offline}
use scalemate.World.{
  Env, Err, status, wrap, text, number, Result, ok, err, History, Action, failed_precondition,
  permission_denied, unauthenticated, not_found, begin, now,
}
use scalemate.Shared.Auth.{Claims, ContextClaims, no_claims, has_claims, other_type}
use scalemate.Shared.Utils.{rolled_back}
use scalemate.Scheduler.Nodes.{node_status_number}
use scalemate.Scheduler.Models.{Models, NodeValue, value}

-- A map with one entry set.
abbrev pub with_entry {ℓ} : {A : Type ℓ} → (ℕ → A) → ℕ → A → ℕ → A
with_entry f k v j = if j == k then v else f j

-- A stream reads its channel, or it has closed it and is about to delete the entry of its node.
pub data Phase : Type 0 where
  reading closing : Phase

-- `tasksForNodes`, which channels are closed, and the streams that are connected, by their channels,
-- with their nodes. Channels from `next` on are not made yet.
pub record NodeStreams : Type 0 where
  pub channel_of : ℕ → Option ℕ
  pub is_closed : ℕ → Bool
  pub stream_of : ℕ → Option (ℕ × Phase)
  pub next : ℕ

-- The server when it starts.
abbrev pub no_streams : NodeStreams
no_streams = record {
  channel_of = λ n. none;
  is_closed = λ c. false;
  stream_of = λ c. none;
  next = 0;
}

-- `ErrNodeAlreadyConnected`
abbrev pub node_already_connected : Err
node_already_connected = status failed_precondition "Node is already connected"

-- The entry of a node gets a new channel.
abbrev pub register_node : ℕ → NodeStreams → NodeStreams
register_node node s = record s {
  channel_of = with_entry s.channel_of node (some s.next);
  next = suc s.next;
}

-- The stream goes on with its new channel. It looks the channel up again under the lock for readers, a
-- step that is left out: only the deferred function of this stream deletes the entry.
abbrev pub with_stream : ℕ → NodeStreams → NodeStreams
with_stream node s = record (register_node node s) {
  stream_of = with_entry s.stream_of s.next (some (node, reading));
}

abbrev pub connecting : ℕ → List (String × NodeValue)
connecting time =
    ("connected_at", value (number time))
    ∷ ("status", value (number (node_status_number online)))
    ∷ []

abbrev pub disconnecting : ℕ → List (String × NodeValue)
disconnecting time =
    ("disconnected_at", value (number time))
    ∷ ("status", value (number (node_status_number offline)))
    ∷ []

-- What the stream gets, the channels afterwards, and the calls.
abbrev pub Connected : Type 0
Connected = Result (Unit {0}) × NodeStreams × History

abbrev pub after_publish : ℕ → NodeStreams → Result (Unit {0}) × History → Connected
after_publish node s (ok _, h) = (ok tt, with_stream node s, h)
after_publish node s (err e, h) =
    (err (wrap e "events.CommitAndPublish failed"), register_node node s, h)

abbrev pub after_update : Models → ℕ → NodeStreams → Result Event × History → Connected
after_update models node s (err e, h) = (err (wrap e "node.Update failed"), s, h)
after_update models node s (ok event, h) =
    after_publish node s (models.publish_changes (event ∷ []) h)

abbrev pub when_free : Env → Models → ℕ → NodeStreams → History → Option ℕ → Connected
when_free env models node s h (some _) = (err node_already_connected, s, begin ∷ h)
when_free env models node s h none =
    after_update models node s
      (models.update_node node (connecting (env.time (begin ∷ h))) (now ∷ begin ∷ h))

-- The goroutine of `IterateTasksForNode` that marks the node as online, under the lock.
unfoldable pub connect_node : Env → Models → ℕ → NodeStreams → History → Connected
connect_node env models node s h = when_free env models node s h (s.channel_of node)

abbrev pub close_channel : ℕ → ℕ → NodeStreams → NodeStreams
close_channel node c s = record s {
  is_closed = with_entry s.is_closed c true;
  stream_of = with_entry s.stream_of c (some (node, closing));
}

abbrev pub leave : ℕ → NodeStreams → NodeStreams
leave c s = record s { stream_of = with_entry s.stream_of c none }

-- The first part of the deferred function of a stream of a node: it marks the node as offline and
-- closes the channel. The answer is the event to publish, if it goes on.
abbrev pub after_offline :
    Env → ℕ → ℕ → NodeStreams → Result Event × History → Option Event × NodeStreams × History
after_offline env node c s (err e, h) = (none, leave c s, (rolled_back {A = Unit {0}} env e h).1)
after_offline env node c s (ok event, h) = (some event, close_channel node c s, h)

unfoldable pub disconnect_node :
    Env → Models → ℕ → ℕ → NodeStreams → History → Option Event × NodeStreams × History
disconnect_node env models node c s h =
    after_offline env node c s
      (models.update_node node (disconnecting (env.time (begin ∷ h))) (now ∷ begin ∷ h))

-- The second part, under the lock.
unfoldable pub delete_entry : ℕ → ℕ → NodeStreams → NodeStreams
delete_entry node c s = record (leave c s) { channel_of = with_entry s.channel_of node none }

-- What a send of a task does: nothing without a channel; on a closed one it panics; else it waits for
-- a reader of the channel.
pub data Delivery : Type 0 where
  no_channel panics : Delivery
  waits_for : ℕ → Delivery

abbrev pub send_on : (ℕ → Bool) → Option ℕ → Delivery
send_on is_closed none = no_channel
send_on is_closed (some c) = if is_closed c then panics else waits_for c

-- The first send of `HandleTaskCreated`, to the node of the task.
unfoldable pub send_to_node : NodeStreams → ℕ → Delivery
send_to_node s node = send_on s.is_closed (s.channel_of node)

-- The claims of `IterateTasksForNode`.
unfoldable pub node_claims : ContextClaims → Result Claims
node_claims no_claims = err (status unauthenticated "no JWT claims found")
node_claims other_type = err (status unauthenticated "unknown JWT claims type")
node_claims (has_claims c) =
    if same_text c.node_name ""
    then err (
        status permission_denied
          "node name is missing in JWT. Authenticate as a Node, not as a client")
    else ok c

module _ (env : Env) (models : Models) where
  -- The node is known, and was not online when it was read.
  abbrev pub connect_known : NodeStreams → Result models.NodeModel × History → Connected
  connect_known s (err e, h) = (err (status not_found "node with name '%!s(MISSING)' "), s, h)
  connect_known s (ok node, h) =
      if models.node_is_online node
      then (err (status failed_precondition "this Node is already online (receiving Tasks)"), s, h)
      else connect_node env models (models.node_id node) s h

  abbrev pub connect_claimed : NodeStreams → History → Result Claims → Connected
  connect_claimed s h (err e) = (err e, s, h)
  connect_claimed s h (ok c) = connect_known s (models.get_node c.username c.node_name h)

  -- `IterateTasksForNode`, until the stream reads its channel.
  unfoldable pub iterate_tasks_for_node : ContextClaims → NodeStreams → History → Connected
  iterate_tasks_for_node ctx s h = connect_claimed s h (node_claims ctx)
