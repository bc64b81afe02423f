-- ===== src/System/Nodes.antt =====
-- scheduler/models/node.go, shared/events/producer.go, shared/events/consumer.go,
-- accounts/handlers/scheduler_node_created.go and accounts/server/password_auth.go together: a node
-- from its creation in the scheduler to its authentication at the accounts service.
use Prim.Native.String.{String}
use scalemate.Prelude.{
  ◌≡◌, ◌∙◌, sym, ap, true, List, [], ◌∷◌, Option, none, some, arith, inl, inr, Bool-cases,
  Option-cases,
}
use scalemate.Proto.{Node, Event, created, scheduler_node}
use scalemate.World.{
  Err, status, with_stack, Code, not_found, internal, has_code, Result, Result-cases, ok, err,
  AccountNode, Call, History, Env, ErrorLib, begin, commit, rollback, query, insert_node,
  insert_account_node, select_account_node, run-cases,
}
use scalemate.Shared.Utils.{
  contains, is_no_rows, handle_db_error, rolled_back, rollback_transaction,
}
use scalemate.Shared.Events.{new_event}
use scalemate.Shared.Broker.{
  Message, Handler, marshal_all, nats_send, send_messages, publish_all, run_handlers, acknowledge,
  finish_message, handle_message,
}
use scalemate.Scheduler.Nodes.{
  NodeMasks, node_to_proto, create_node_labels, insert_node_columns,
  create_node as create_scheduler_node,
}
use scalemate.Accounts.Users.{new_node_from_scheduler_proto, create_node}
use scalemate.Accounts.Server.{commit_or_undo, store_node, handle_node_created, is_already_exists}

-- What the accounts service is to know of a node.
abbrev pub known_node : Node → AccountNode
known_node p = record {
  id = p.id;
  username = p.username;
  name = p.name;
  fingerprint = p.fingerprint;
}

-- A node that was inserted in a transaction which was committed.
pub data IsStored (env : Env) (a : AccountNode) : History → Type 0 where
  stored :
      (h : History) (row : AccountNode)
      → env.get_account_node (insert_account_node a) (begin ∷ h) ≡ ok row
      → env.on_commit (query (insert_account_node a) ∷ begin ∷ h) ≡ none
      → IsStored env a (commit ∷ query (insert_account_node a) ∷ begin ∷ h)
  later : (h : History) (c : Call) → IsStored env a h → IsStored env a (c ∷ h)

-- What the handler of a node that was created does if it returns no error: it stores the node, or the
-- database answers that there is one already.
pub data StoresNode (env : Env) (a : AccountNode) (h : History) : History → Type 0 where
  stores :
      IsStored env a (commit ∷ query (insert_account_node a) ∷ begin ∷ h)
      → StoresNode env a h (commit ∷ query (insert_account_node a) ∷ begin ∷ h)
  finds_one :
      (e : Err)
      → env.get_account_node (insert_account_node a) (begin ∷ h) ≡ err e
      → contains (env.error_text e) "duplicate" ≡ true
      → StoresNode env a h (rollback ∷ query (insert_account_node a) ∷ begin ∷ h)

module _ (env : Env) (lib : ErrorLib) where
  status_of : Code → String → Option Code
  status_of code text = lib.code_of (lib.cause (with_stack (status code text)))

  status_of-code : (code : Code) (text : String) → status_of code text ≡ some code
  unfolding status_of
  status_of-code code text =
      ap lib.code_of (lib.cause-with_stack (status code text) ∙ lib.cause-status code text)
      ∙ lib.code_of-status code text

  -- An error of the database with the code for what exists already has a text for duplicates.
  handle_db_error-duplicate :
      (x : Err)
      → has_code is_already_exists (lib.code_of (lib.cause (handle_db_error env x))) ≡ true
      → contains (env.error_text x) "duplicate" ≡ true
  unfolding handle_db_error status_of
  handle_db_error-duplicate x e = elim (Bool-cases (is_no_rows x)) [
    | inl p ↦ absurd (ground (arith, e, p, status_of-code not_found (env.error_text x)))
    | inr p ↦ elim (Bool-cases (contains (env.error_text x) "duplicate")) [
      | inl q ↦ q
      | inr q ↦ absurd (ground (arith, e, p, q, status_of-code internal (env.error_text x)))
    ]
  ]

  handle_node_created-StoresNode :
      (p : Node) (h h' : History)
      → handle_node_created env lib created (scheduler_node p) h ≡ (ok tt, h')
      → StoresNode env (known_node p) h h'
  unfolding handle_node_created store_node commit_or_undo create_node rolled_back
      rollback_transaction handle_db_error
  handle_node_created-StoresNode p h h' e =
      let a : AccountNode = new_node_from_scheduler_proto p in
      elim (Option-cases (env.on_begin h)) [
        | inr (x, q) ↦ absurd (ground (arith, e, q))
        | inl q ↦ elim (Result-cases (env.get_account_node (insert_account_node a) (begin ∷ h))) [
          | inr (row, r) ↦
              elim (Option-cases (env.on_commit (query (insert_account_node a) ∷ begin ∷ h))) [
                | inr (x, c) ↦ absurd (ground (arith, e, q, r, c))
                | inl c ↦
                    let done : h' ≡ commit ∷ query (insert_account_node a) ∷ begin ∷ h =
                      ground (arith, e, q, r, c) in
                    rw done (stores (stored h row r c))
              ]
          | inl (x, r) ↦
              elim (Bool-cases
                (has_code is_already_exists (lib.code_of (lib.cause (handle_db_error env x))))) [
                  | inr n ↦ absurd (ground (arith, e, q, r, n))
                  | inl d ↦
                      let done : h' ≡ rollback ∷ query (insert_account_node a) ∷ begin ∷ h =
                        ground (arith, e, q, r, d) in
                      rw done (finds_one x r (handle_db_error-duplicate x d))
                ]
        ]
      ]

-- The handler as one of a consumer, whose world is the calls of the service.
abbrev pub node_handler : Env → ErrorLib → Handler History
node_handler env lib event h =
    let run = handle_node_created env lib event.event_type event.payload h in
    (elim run.0 [ ok done ↦ none | err e ↦ some e ], run.1)

-- A created node and its event.
create_scheduler_node-event :
    (env : Env) (masks : NodeMasks) (n saved : Node) (event : Event) (h h' : History)
    → create_scheduler_node env masks n h ≡ (ok (saved, event), h')
    → (event.event_type ≡ created) × (event.payload ≡ scheduler_node saved)
unfolding create_scheduler_node new_event node_to_proto
create_scheduler_node-event env masks n saved event h h' e =
    elim (Result-cases (env.get_node (insert_node (insert_node_columns n)) h)) [
      | inl (x, p) ↦ absurd (ground (arith, e, p))
      | inr (row, p) ↦
          elim (run-cases (
            create_node_labels env row.id n.labels
              (query (insert_node (insert_node_columns n)) ∷ h))) [
                | inl (x, h₁, q) ↦ absurd (ground (arith, e, p, q))
                | inr (done, h₁, q) ↦ (ground (arith, e, p, q), ground (arith, e, p, q))
              ]
    ]

nats_send-one :
    (text : Event → String) (marshal : Event → Result Message)
    (publish : List Message → Message → Option Err) (event : Event) (m : Message)
    → nats_send text marshal publish (event ∷ []) ≡ (none, m ∷ [])
    → marshal event ≡ ok m
unfolding nats_send send_messages marshal_all publish_all
nats_send-one text marshal publish event m e = elim (Result-cases (marshal event)) [
  | inl (x, p) ↦ absurd (ground (arith, e, p))
  | inr (m', p) ↦ elim (Option-cases (publish [] m')) [
    | inl q ↦ ground (arith, e, p, q)
    | inr (x, q) ↦ absurd (ground (arith, e, p, q))
  ]
]

handle_message-one :
    (env : Env) (lib : ErrorLib) (unmarshal : Message → Result Event) (ack : Option Err)
    (m : Message) (event : Event) (h : History)
    → unmarshal m ≡ ok event
    → (handle_message unmarshal ack (node_handler env lib ∷ []) m h).acknowledged ≡ true
    → handle_node_created env lib event.event_type event.payload h
      ≡ (ok tt, (handle_message unmarshal ack (node_handler env lib ∷ []) m h).world)
unfolding handle_message run_handlers finish_message acknowledge
handle_message-one env lib unmarshal ack m event h u e =
    elim (run-cases (handle_node_created env lib event.event_type event.payload h)) [
      | inl (x, h', p) ↦ absurd (ground (arith, e, u, p))
      | inr (done, h', p) ↦ elim (Option-cases ack) [
        | inl q ↦ ground (arith, e, u, p, q)
        | inr (x, q) ↦ ground (arith, e, u, p, q)
      ]
    ]

-- When the scheduler has created a node, its event was published as the message m, protobuf reads this
-- message as the event that it was made of, and the accounts service acknowledges the message, then
-- this service has stored a node with the identifier, the user, the name and the fingerprint of the
-- one that was created, in a transaction that it committed, or the database answered that there is
-- one already and the transaction was rolled back.
pub handle_message-StoresNode :
    (scheduler_env accounts_env : Env) (lib : ErrorLib) (masks : NodeMasks) (text : Event → String)
    (marshal : Event → Result Message) (publish : List Message → Message → Option Err)
    (unmarshal : Message → Result Event) (ack : Option Err) (n saved : Node) (event : Event)
    (m : Message) (h h' w : History)
    → create_scheduler_node scheduler_env masks n h ≡ (ok (saved, event), h')
    → nats_send text marshal publish (event ∷ []) ≡ (none, m ∷ [])
    → ((x : Message) → marshal event ≡ ok x → unmarshal x ≡ ok event)
    → (handle_message unmarshal ack (node_handler accounts_env lib ∷ []) m w).acknowledged ≡ true
    → StoresNode accounts_env
        (known_node saved)
        w
        (handle_message unmarshal ack (node_handler accounts_env lib ∷ []) m w).world
handle_message-StoresNode scheduler_env accounts_env lib masks text marshal publish unmarshal ack n
      saved event m h h' w made sent reads acknowledged =
    let (type, payload) = create_scheduler_node-event scheduler_env masks n saved event h h' made in
    let read : unmarshal m ≡ ok event = reads m (nats_send-one text marshal publish event m sent) in
    let run = handle_message-one accounts_env lib unmarshal ack m event w read acknowledged in
    handle_node_created-StoresNode accounts_env lib saved w _ (rw (sym type, sym payload) run)

-- The database of the accounts service answers with a node that was stored: the table has one node
-- for a user and a name, and no code of the repository changes or deletes it.
abbrev pub KeepsNodes : Env → Type 0
KeepsNodes env =
    (a : AccountNode) (h : History)
    → IsStored env a h
    → env.get_account_node (select_account_node a.username a.name) h ≡ ok a
