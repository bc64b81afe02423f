-- ===== src/Scheduler/Serving.antt =====
-- scheduler/server/server.go, scheduler/server/options.go and scheduler/cmd/up.go: how the scheduler is
-- put together, started and closed. Loggers, connections and consumers are of any types; the name of
-- the exchange and what the broker answers are arguments.
pub mod Ready
pub mod Closing
use Prim.Native.String.{String, ◌++◌}
use scalemate.Prelude.{Bool, true, false, List, [], ◌∷◌, ◌++◌ as ◌+++◌, map, Option, none, some}
use scalemate.World.{Err, wrap, Result, ok, err}
use scalemate.Shared.Startup.{
  ServerOption, apply_options, UpCall, logs, opens, closes, serves, stops_streams, database, broker,
  server, starts_consumers, stops_server,
}
use scalemate.Scheduler.Streams.{NodeStreams, no_streams}
use scalemate.Scheduler.Iterating.Steps.{ClientSystem, no_clients}

-- The methods of the server that consumers call.
pub data EventMethod : Type 0 where
  on_job_pending on_job_terminated on_node_connected : EventMethod
  on_node_disconnected on_task_created on_task_terminated : EventMethod

-- The arguments of `events.NewAMQPConsumer`.
pub record ConsumerSpec : Type 0 where
  pub exchange : String
  pub queue : String
  pub key : String
  pub method : EventMethod

-- The types of what a server is made of.
pub record Parts : Type 1 where
  pub Logger : Type 0
  pub Db : Type 0
  pub Injector : Type 0
  pub Producer : Type 0
  pub Consumer : Type 0

-- `SchedulerServer`; the maps of channels are in the states of the streams.
pub record SchedulerServer (parts : Parts) : Type 0 where
  pub logger : Option parts.Logger
  pub db : Option parts.Db
  pub claims_injector : Option parts.Injector
  pub producer : Option parts.Producer
  pub consumers : List parts.Consumer
  pub tasks_for_nodes : NodeStreams
  pub tasks_for_clients : ClientSystem

-- The consumers of `WithAMQPConsumers`, by the names of their variables.
abbrev pub consumer_specs : String → List (String × ConsumerSpec)
consumer_specs exchange =
    (
      "jobStatusUpdatedToPendingConsumer",
      record {
        exchange = exchange;
        queue = "scheduler_job_pending";
        key = "scheduler.job.updated.#.status.#";
        method = on_job_pending;
      },
    )
    ∷ (
      "jobTerminatedConsumer",
      record {
        exchange = exchange;
        queue = "";
        key = "scheduler.job.updated.#.status.#";
        method = on_job_terminated;
      },
    )
    ∷ (
      "nodeConnectedConsumer",
      record {
        exchange = exchange;
        queue = "scheduler_node_connected";
        key = "scheduler.node.updated.#.connected_at.#";
        method = on_node_connected;
      },
    )
    ∷ (
      "nodeDisconnectedConsumer",
      record {
        exchange = exchange;
        queue = "scheduler_node_disconnected";
        key = "scheduler.node.updated.#.disconnected_at.#";
        method = on_node_disconnected;
      },
    )
    ∷ (
      "taskCreatedConsumer",
      record {
        exchange = exchange;
        queue = "";
        key = "scheduler.task.created";
        method = on_task_created;
      },
    )
    ∷ (
      "taskTerminatedConsumer",
      record {
        exchange = exchange;
        queue = "scheduler_task_terminated";
        key = "scheduler.task.updated.#.status.#";
        method = on_task_terminated;
      },
    )
    ∷ []

-- What the broker answers.
pub record AmqpConnection (Consumer : Type 0) : Type 0 where
  pub exchange_name : String
  pub on_channel : Option Err
  pub on_declare : String → Option Err
  pub on_consumer : ConsumerSpec → Result Consumer

module _ {Consumer : Type 0} where
  abbrev pub cons_consumer : Consumer → Result (List Consumer) → Result (List Consumer)
  cons_consumer c (ok cs) = ok (c ∷ cs)
  cons_consumer c (err e) = err e

  abbrev pub add_consumer :
      String → Result Consumer → Result (List Consumer) → Result (List Consumer)
  add_consumer name (err e) rest = err (wrap e ("events.NewAMQPRawConsumer failed for " ++ name))
  add_consumer name (ok c) rest = cons_consumer c rest

  -- The consumers, one after the other.
  unfoldable pub make_consumers :
      (ConsumerSpec → Result Consumer) → List (String × ConsumerSpec) → Result (List Consumer)
  make_consumers make [] = ok []
  make_consumers make ((name, spec) ∷ specs) =
      add_consumer name (make spec) (make_consumers make specs)

  -- The loop of `Close`: its error, and the consumers whose `Close` was called.
  unfoldable pub close_consumers :
      (Consumer → Option Err) → List Consumer → Option Err × List Consumer
  close_consumers close [] = (none, [])
  close_consumers close (c ∷ cs) =
      let rest = close_consumers close cs in
      elim (close c) [
        | some e ↦ (some (wrap e "consumer.Close failed"), c ∷ [])
        | none ↦ (rest.0, c ∷ rest.1)
      ]

-- The end of `Close`, with the answer of the producer; whether the producer was closed.
abbrev pub close_producer : Option Err → Option Err → Option Err × Bool
close_producer (some e) answer = (some e, false)
close_producer none none = (none, true)
close_producer none (some e) = (some (wrap e "SchedulerServer.producer.Close failed"), true)

module _ (parts : Parts) where
  unfoldable pub with_logger : parts.Logger → ServerOption (SchedulerServer parts)
  with_logger logger s = ok (record s { logger = some logger })

  unfoldable pub with_db_connection : parts.Db → ServerOption (SchedulerServer parts)
  with_db_connection db s = ok (record s { db = some db })

  unfoldable pub with_claims_injector : parts.Injector → ServerOption (SchedulerServer parts)
  with_claims_injector injector s = ok (record s { claims_injector = some injector })

  unfoldable pub with_producer : parts.Producer → ServerOption (SchedulerServer parts)
  with_producer producer s = ok (record s { producer = some producer })

  abbrev pub set_consumers :
      (SchedulerServer parts) → Result (List parts.Consumer) → Result (SchedulerServer parts)
  set_consumers s (ok cs) = ok (record s { consumers = cs })
  set_consumers s (err e) = err e

  -- `WithAMQPConsumers`. That it closes the channel at the end is left out.
  unfoldable pub with_amqp_consumers :
      AmqpConnection parts.Consumer → ServerOption (SchedulerServer parts)
  with_amqp_consumers conn s = elim conn.on_channel [
    | some e ↦ err (wrap e "failed to open a new AMQP channel")
    | none ↦ elim (conn.on_declare conn.exchange_name) [
      | some e ↦ err (wrap e ("failed to declare AMQP exchange " ++ conn.exchange_name))
      | none ↦ set_consumers s (make_consumers conn.on_consumer (consumer_specs conn.exchange_name))
    ]
  ]

  -- The server to which `NewSchedulerServer` applies its options.
  abbrev pub empty_server : SchedulerServer parts
  empty_server = record {
    logger = none;
    db = none;
    claims_injector = none;
    producer = none;
    consumers = [];
    tasks_for_nodes = no_streams;
    tasks_for_clients = no_clients;
  }

  -- `NewSchedulerServer`
  unfoldable pub new_scheduler_server :
      List (ServerOption (SchedulerServer parts)) → Result (SchedulerServer parts)
  new_scheduler_server options = apply_options options empty_server

  -- `Close`: the error, the consumers whose `Close` was called, and whether that of the producer was.
  unfoldable pub close_server :
      (parts.Consumer → Option Err)
      → Option Err
      → SchedulerServer parts
      → Option Err × List parts.Consumer × Bool
  close_server close answer s =
      let run = close_consumers close s.consumers in
      let end = close_producer run.0 answer in (end.0, run.1, end.1)

-- What the calls of `scalemate-scheduler up` answer.
pub record UpEnv : Type 0 where
  pub on_database : Option Err
  pub on_broker : Option Err
  pub on_producer : Option Err
  pub on_injector : Option Err
  pub on_server : Option Err
  pub context_done : Bool  -- the context is done, before the server fails

-- `Serve`, up to its end.
abbrev pub serve_calls : Bool → List UpCall
serve_calls true =
    serves
    ∷ starts_consumers
    ∷ logs "Gracefully stopping gRPC server..."
    ∷ stops_streams
    ∷ stops_server
    ∷ logs "gRPC server is stopped."
    ∷ []
serve_calls false =
    serves
    ∷ starts_consumers
    ∷ logs "gRPC server unexpectedly failed"
    ∷ logs "gRPC server is stopped."
    ∷ []

module _ (env : UpEnv) where
  abbrev or_log : String → Option Err → List UpCall → List UpCall
  or_log message (some e) rest = logs message ∷ []
  or_log message none rest = rest

  abbrev pub up_with_server : List UpCall
  up_with_server =
      or_log "server.NewSchedulerServer failed" env.on_server
        (opens server ∷ (serve_calls env.context_done +++ closes server ∷ []))

  abbrev pub up_with_broker : List UpCall
  up_with_broker =
      or_log "events.NewAMQPProducer failed" env.on_producer
        (or_log "server.JWTClaimsInjectorFromEnv failed" env.on_injector up_with_server)

  abbrev pub up_with_database : List UpCall
  up_with_database =
      or_log "utils.ConnectAMQPFromEnv failed" env.on_broker
        (opens broker ∷ (up_with_broker +++ closes broker ∷ []))

  -- `upCmd` of the scheduler; what it defers is called at the end.
  unfoldable pub scheduler_up : List UpCall
  scheduler_up =
      or_log "utils.ConnectDBFromEnv failed" env.on_database
        (opens database ∷ (up_with_database +++ closes database ∷ []))
