-- ===== src/Tests/Nodes.antt =====
-- A node from its creation in the scheduler to its authentication at the accounts service.
use Prim.Native.String.{String}
use scalemate.Prelude.{
  ℕ, ◌≡◌, ◌↔◌, refl, Bool, true, List, [], ◌∷◌, Option, none, ◌==◌, ◌&&◌, if◌then◌else◌, arith, inl,
  inr, Bool-cases, same_text, same_text→eq, same_bytes, same_bytes→eq,
}
use scalemate.Proto.{Node, Event, created, scheduler, scheduler_node}
use scalemate.World.{
  Err, foreign, Result, ok, err, AccountNode, Query, History, Env, begin, commit, query, now,
  new_uuid, insert_node, insert_account_node, select_account_node,
}
use scalemate.Shared.Broker.{
  Message, nats_send, handle_message, marshal_all, send_messages, publish_all, run_handlers,
  finish_message, acknowledge,
}
use scalemate.Shared.Events.{new_event}
use scalemate.Scheduler.Nodes.{
  NodeMasks, zero_node, node_to_proto, create_node, create_node_labels, insert_node_columns,
}
use scalemate.Accounts.Users.{create_node as create_account_node}
use scalemate.Accounts.Server.{
  PasswordAuthRequest, node_auth, check_node, handle_node_created, store_node, commit_or_undo,
}
use scalemate.System.Nodes.{
  known_node, IsStored, stored, later, StoresNode, KeepsNodes, node_handler,
  handle_message-StoresNode,
}
use scalemate.System.Fingerprints.{check_node-stored}
use scalemate.Tests.Fixture.{test_env}
use scalemate.Tests.Accounts.{errors}

abbrev rig : Node
rig = record zero_node { id = 4; username = "ann"; name = "rig"; fingerprint = 7 ∷ [] }

abbrev rig_row : AccountNode
rig_row = known_node rig

abbrev is_rig : AccountNode → Bool
is_rig a =
    (a.id == 4)
    && same_text a.username "ann"
    && same_text a.name "rig"
    && same_bytes a.fingerprint (7 ∷ [])

-- A database that stores this node only.
abbrev answer_rig : Query → Result AccountNode
answer_rig (insert_account_node a) = if is_rig a then ok rig_row else err (foreign "refused")
answer_rig (select_account_node username name) =
    if same_text username "ann" && same_text name "rig" then ok rig_row else err (foreign "no rows")
answer_rig _ = err (foreign "refused")

abbrev rig_env : Env
rig_env = record test_env { get_account_node = λ q h. answer_rig q; get_node = λ q h. ok rig }

is_rig→eq : (a : AccountNode) → is_rig a ≡ true → a ≡ rig_row
is_rig→eq a e =
    let id : a.id ≡ 4 = ground (arith, e) in
    let user : a.username ≡ "ann" = same_text→eq a.username "ann" (ground (arith, e)) in
    let name : a.name ≡ "rig" = same_text→eq a.name "rig" (ground (arith, e)) in
    let bytes : a.fingerprint ≡ 7 ∷ [] = same_bytes→eq a.fingerprint (7 ∷ []) (ground (arith, e)) in
    ground (arith, id, user, name, bytes)

IsStored-rig : (a : AccountNode) (h : History) → IsStored rig_env a h → a ≡ rig_row
IsStored-rig a _ (stored h row inserted committed) = elim (Bool-cases (is_rig a)) [
  | inl p ↦ is_rig→eq a p
  | inr p ↦ absurd (ground (arith, inserted, p))
]
IsStored-rig a _ (later h c is) = IsStored-rig a h is

rig_env-KeepsNodes : KeepsNodes rig_env
rig_env-KeepsNodes a h is = rw (IsStored-rig a h is) refl

abbrev rig_event : Event
rig_event = record {
  uuid = 9 ∷ [];
  event_type = created;
  service = scheduler;
  payload = scheduler_node rig;
  payload_mask = none;
  created_at = 100;
}

abbrev node_masks : NodeMasks
node_masks = record { mask_from_paths = λ paths. none; struct_to_struct = λ paths n m. ok m }

abbrev insert_calls : History → History
insert_calls h = now ∷ new_uuid ∷ query (insert_node (insert_node_columns rig)) ∷ h

rig_created : create_node rig_env node_masks rig [] ≡ (ok (rig, rig_event), insert_calls [])
unfolding create_node create_node_labels new_event node_to_proto
rig_created = refl

abbrev text : Event → String
text e = "event"

abbrev marshal : Event → Result Message
marshal e = ok (1 ∷ [])

abbrev unmarshal : Message → Result Event
unmarshal m = ok rig_event

abbrev publish : List Message → Message → Option Err
publish sent m = none

rig_sent : nats_send text marshal publish (rig_event ∷ []) ≡ (none, (1 ∷ []) ∷ [])
unfolding nats_send marshal_all send_messages publish_all
rig_sent = refl

abbrev stored_calls : History
stored_calls = commit ∷ query (insert_account_node rig_row) ∷ begin ∷ []

rig_acknowledged :
    (handle_message unmarshal none (node_handler rig_env errors ∷ []) (1 ∷ []) []).acknowledged
    ≡ true
unfolding handle_message run_handlers finish_message acknowledge handle_node_created store_node
    commit_or_undo create_account_node
rig_acknowledged = refl

handle_message-StoresNode_example :
    StoresNode rig_env rig_row []
      (handle_message unmarshal none (node_handler rig_env errors ∷ []) (1 ∷ []) []).world
handle_message-StoresNode_example =
    handle_message-StoresNode rig_env rig_env errors node_masks text marshal publish unmarshal none
      rig rig rig_event (1 ∷ []) [] (insert_calls []) [] rig_created rig_sent (λ x e. refl)
      rig_acknowledged

abbrev other_bytes : List ℕ
other_bytes = 8 ∷ []

abbrev rig_request : PasswordAuthRequest
rig_request = node_auth "ann" "correct horse" "rig" other_bytes

check_node-stored_example :
    ((check_node rig_env rig_request stored_calls).0 ≡ ok tt) ↔ (other_bytes ≡ rig_row.fingerprint)
check_node-stored_example =
    check_node-stored rig_env rig_row rig_request stored_calls rig_env-KeepsNodes
      (stored [] rig_row refl refl) refl refl (λ e. absurd cc)
