-- ===== src/Accounts/Serving.antt =====
-- accounts/server/options.go, accounts/server/server.go, accounts/cmd/up.go and
-- accounts/cmd/handle_events.go: how the service of accounts is put together and started, and the
-- process that handles its events. What the calls answer is an argument; a pointer is an option.
use Prim.Native.String.{String}
use scalemate.Prelude.{
  ℕ, ◌≡◌, ◌⊎◌, inl, inr, Bool, true, false, List, [], ◌∷◌, ◌++◌, Option, none, some, arith,
  Option-cases, Bool-cases,
}
use scalemate.World.{Err, Result, Result-cases, ok, err}
use scalemate.Shared.Startup.{
  ServerOption, apply_options, UpCall, opens, closes, logs, serves, stops_server, exits, database,
  broker, subscription, left_open,
}
use scalemate.Shared.Consumers.{
  set_manual_ack_mode, other_option, NatsQueueConsumer, new_nats_consumer, new_nats_queue_consumer,
  Subscribe, consume_queue,
}

-- The types of what the server is made of.
pub record AccountsParts : Type 1 where
  pub Logger : Type 0
  pub Db : Type 0
  pub Injector : Type 0
  pub Producer : Type 0

pub record AccountsServer (parts : AccountsParts) : Type 0 where
  pub db : Option parts.Db
  pub claims_injector : Option parts.Injector
  pub producer : Option parts.Producer
  pub bcrypt_cost : ℕ
  pub access_token_ttl : ℕ
  pub refresh_token_ttl : ℕ
  pub jwt_secret_key : List ℕ
  pub logger : Option parts.Logger

module _ (parts : AccountsParts) where
  unfoldable pub with_accounts_logger : parts.Logger → ServerOption (AccountsServer parts)
  with_accounts_logger logger s = ok (record s { logger = some logger })

  unfoldable pub with_bcrypt_cost : ℕ → ServerOption (AccountsServer parts)
  with_bcrypt_cost cost s = ok (record s { bcrypt_cost = cost })

  unfoldable pub with_access_token_ttl : ℕ → ServerOption (AccountsServer parts)
  with_access_token_ttl ttl s = ok (record s { access_token_ttl = ttl })

  unfoldable pub with_refresh_token_ttl : ℕ → ServerOption (AccountsServer parts)
  with_refresh_token_ttl ttl s = ok (record s { refresh_token_ttl = ttl })

  unfoldable pub with_jwt_secret_key : List ℕ → ServerOption (AccountsServer parts)
  with_jwt_secret_key key s = ok (record s { jwt_secret_key = key })

  unfoldable pub with_accounts_injector : parts.Injector → ServerOption (AccountsServer parts)
  with_accounts_injector injector s = ok (record s { claims_injector = some injector })

  unfoldable pub with_accounts_producer : parts.Producer → ServerOption (AccountsServer parts)
  with_accounts_producer producer s = ok (record s { producer = some producer })

  unfoldable pub with_accounts_db : parts.Db → ServerOption (AccountsServer parts)
  with_accounts_db db s = ok (record s { db = some db })

  -- `NewAccountsServer`
  unfoldable pub new_accounts_server :
      List (ServerOption (AccountsServer parts)) → Result (AccountsServer parts)
  new_accounts_server options = apply_options options (record {
    db = none;
    claims_injector = none;
    producer = none;
    bcrypt_cost = 0;
    access_token_ttl = 0;
    refresh_token_ttl = 0;
    jwt_secret_key = [];
    logger = none;
  })

-- What the calls of `scalemate-accounts up` answer.
pub record AccountsUpEnv : Type 0 where
  pub on_credentials : Option Err
  pub on_database : Option Err
  pub on_broker : Option Err
  pub on_server : Option Err
  pub context_done : Bool  -- the context is done, before the server fails

-- `Fatal` and `Fatalf` of the logger; the text of the error is left out.
abbrev pub fatal : String → List UpCall
fatal message = logs message ∷ exits ∷ []

abbrev or_fatal : String → Option Err → List UpCall → List UpCall
or_fatal message (some e) rest = fatal message
or_fatal message none rest = rest

-- `AccountsServer.Serve`, up to its end.
abbrev pub accounts_serve : Bool → List UpCall
accounts_serve true =
    serves
    ∷ logs "Gracefully stopping gRPC server..."
    ∷ stops_server
    ∷ logs "gRPC server is stopped."
    ∷ []
accounts_serve false =
    serves ∷ logs "gRPC server unexpectedly failed." ∷ logs "gRPC server is stopped." ∷ []

module _ (env : AccountsUpEnv) where
  abbrev accounts_up_with_broker : List UpCall
  accounts_up_with_broker =
      or_fatal "Failed to start gRPC server: %+v\n" env.on_server
        (accounts_serve env.context_done ++ closes broker ∷ closes database ∷ [])

  -- `upCmd` of the service of accounts. `Fatal` exits, so that nothing deferred is called then.
  unfoldable pub accounts_up : List UpCall
  accounts_up = or_fatal "utils.NewServerTLSCredentialsFromFile failed" env.on_credentials (
      or_fatal "utils.ConnectDBFromEnv failed" env.on_database (
        opens database
        ∷ or_fatal "stan.Connect failed" env.on_broker (opens broker ∷ accounts_up_with_broker)))

-- The consumer of `handle_events`, on the subject of the scheduler.
unfoldable pub events_consumer : NatsQueueConsumer
events_consumer =
    new_nats_queue_consumer "scheduler" "accounts-events-handlers-queue"
      (other_option "DurableName(accounts-events-handlers)" ∷ other_option "AckWait(5s)" ∷ [])

module _ {S : Type 0} (on_database on_broker : Option Err) (subscribe : Subscribe S) where
  abbrev pub with_subscription : Result S → List UpCall
  with_subscription (err e) = fatal "consumer.Consume failed"
  with_subscription (ok s) =
      opens subscription
      ∷ logs "Started handling events..."
      ∷ logs "Stopped handling events."
      ∷ closes subscription
      ∷ closes broker
      ∷ closes database
      ∷ []

  -- `handleEventsCmd`, up to a signal to end.
  unfoldable pub handle_events : List UpCall
  handle_events = or_fatal "Failed to connect to database" on_database (
      opens database
      ∷ or_fatal "stan.Connect failed" on_broker
          (opens broker ∷ with_subscription (consume_queue subscribe events_consumer)))

abbrev pub exited : List UpCall → Bool
exited [] = false
exited (exits ∷ calls) = true
exited (_ ∷ calls) = exited calls

-- The command `up` of the service of accounts exits at once, or closes each resource that it has
-- opened, the last one first.
accounts_up-closes :
    (env : AccountsUpEnv)
    → (exited (accounts_up env) ≡ true) ⊎ (left_open (accounts_up env) [] ≡ some [])
unfolding accounts_up
accounts_up-closes env = elim (Option-cases env.on_credentials) [
  | inr (x, p) ↦ inl (ground (arith, p))
  | inl p ↦ elim (Option-cases env.on_database) [
    | inr (x, q) ↦ inl (ground (arith, p, q))
    | inl q ↦ elim (Option-cases env.on_broker) [
      | inr (x, r) ↦ inl (ground (arith, p, q, r))
      | inl r ↦ elim (Option-cases env.on_server) [
        | inr (x, t) ↦ inl (ground (arith, p, q, r, t))
        | inl t ↦ elim (Bool-cases env.context_done) [
          | inl u ↦ inr (ground (arith, p, q, r, t, u))
          | inr u ↦ inr (ground (arith, p, q, r, t, u))
        ]
      ]
    ]
  ]
]

-- What `handle_events` has when it handles events: the database, the connection, and a subscription to
-- the subject of the scheduler with the name of its queue, durable and with messages that the handler
-- acknowledges; at the end it has closed all of them, the last one first.
pub handle_events-closes :
    {S : Type 0} (on_database on_broker : Option Err) (subscribe : Subscribe S)
    → exited (handle_events on_database on_broker subscribe) ≡ false
    → (on_database ≡ none)
      × (on_broker ≡ none)
      × ((s : S) × (subscribe "scheduler" (some "accounts-events-handlers-queue") (
              other_option "DurableName(accounts-events-handlers)"
              ∷ other_option "AckWait(5s)"
              ∷ set_manual_ack_mode
              ∷ [])
            ≡ ok s))
      × (left_open (handle_events on_database on_broker subscribe) [] ≡ some [])
unfolding handle_events events_consumer consume_queue new_nats_queue_consumer new_nats_consumer
handle_events-closes on_database on_broker subscribe e = elim (Option-cases on_database) [
  | inr (x, p) ↦ absurd (ground (arith, e, p))
  | inl p ↦ elim (Option-cases on_broker) [
    | inr (x, q) ↦ absurd (ground (arith, e, p, q))
    | inl q ↦
        elim (Result-cases (
          subscribe "scheduler" (some "accounts-events-handlers-queue") (
            other_option "DurableName(accounts-events-handlers)"
            ∷ other_option "AckWait(5s)"
            ∷ set_manual_ack_mode
            ∷ []))) [
              | inl (x, r) ↦ absurd (ground (arith, e, p, q, r))
              | inr (s, r) ↦ (p, q, (s, r), ground (arith, p, q, r))
            ]
  ]
]
