-- ===== src/Scheduler/Serving/Ready.antt =====
-- What a scheduler that starts has: scheduler/server/options.go with scheduler/cmd/up.go.
use Prim.Native.String.{String}
use scalemate.Prelude.{◌≡◌, refl, List, [], ◌∷◌, none, some, arith, inl, inr, Option-cases}
use scalemate.World.{Result, Result-cases, ok}
use scalemate.Shared.Startup.{apply_options, ServerOption}
use scalemate.Scheduler.Streams.{no_streams}
use scalemate.Scheduler.Iterating.Steps.{no_clients}
use scalemate.Scheduler.Serving.{
  Parts, ConsumerSpec, SchedulerServer, consumer_specs, AmqpConnection, with_logger,
  with_db_connection, with_claims_injector, with_producer, make_consumers, with_amqp_consumers,
  new_scheduler_server,
}

module _ {Consumer : Type 0} where
  -- The consumers were made in this order.
  abbrev pub AreMade :
      (ConsumerSpec → Result Consumer) → List (String × ConsumerSpec) → List Consumer → Type 0
  AreMade make [] [] = Unit
  AreMade make ((name, spec) ∷ specs) (c ∷ cs) = (make spec ≡ ok c) × AreMade make specs cs
  AreMade make _ _ = ⊥

  make_consumers-AreMade :
      (make : ConsumerSpec → Result Consumer) (specs : List (String × ConsumerSpec))
      (cs : List Consumer)
      → make_consumers make specs ≡ ok cs
      → AreMade make specs cs
  unfolding make_consumers
  make_consumers-AreMade make [] [] e = tt
  make_consumers-AreMade make [] (c ∷ cs) e = absurd (ground (arith, e))
  make_consumers-AreMade make ((name, spec) ∷ specs) cs e = elim (Result-cases (make spec)) [
    | inl (x, p) ↦ absurd (ground (arith, e, p))
    | inr (c, p) ↦ elim (Result-cases (make_consumers make specs)) [
      | inl (x, q) ↦ absurd (ground (arith, e, p, q))
      | inr (rest, q) ↦
          let eq : cs ≡ c ∷ rest = ground (arith, e, p, q) in
          rw eq (p, make_consumers-AreMade make specs rest q)
    ]
  ]

module _ (parts : Parts) where
  -- The options of `upCmd`.
  unfoldable pub up_options :
      parts.Logger
      → parts.Db
      → parts.Producer
      → AmqpConnection parts.Consumer
      → parts.Injector
      → List (ServerOption (SchedulerServer parts))
  up_options logger db producer conn injector =
      with_logger parts logger
      ∷ with_db_connection parts db
      ∷ with_producer parts producer
      ∷ with_amqp_consumers parts conn
      ∷ with_claims_injector parts injector
      ∷ []

  abbrev ready_server :
      parts.Logger
      → parts.Db
      → parts.Producer
      → parts.Injector
      → List parts.Consumer
      → SchedulerServer parts
  ready_server logger db producer injector cs = record {
    logger = some logger;
    db = some db;
    claims_injector = some injector;
    producer = some producer;
    consumers = cs;
    tasks_for_nodes = no_streams;
    tasks_for_clients = no_clients;
  }

  -- The server of these options: it has them all, and a consumer for each queue.
  pub record IsReady (logger : parts.Logger) (db : parts.Db) (producer : parts.Producer)
      (conn : AmqpConnection parts.Consumer) (injector : parts.Injector) (s : SchedulerServer parts)
      : Type 0 where
    pub with_its_logger : s.logger ≡ some logger
    pub with_its_db : s.db ≡ some db
    pub with_its_producer : s.producer ≡ some producer
    pub with_its_injector : s.claims_injector ≡ some injector
    pub channel_opened : conn.on_channel ≡ none
    pub exchange_declared : conn.on_declare conn.exchange_name ≡ none
    pub consumers_made : AreMade conn.on_consumer (consumer_specs conn.exchange_name) s.consumers
    pub no_node_streams : s.tasks_for_nodes ≡ no_streams
    pub no_client_streams : s.tasks_for_clients ≡ no_clients

  -- If `NewSchedulerServer` succeeds with the options of the command `up`, the server has its logger,
  -- its database, its producer and its injector of claims; the channel was opened, the exchange declared,
  -- and a consumer made for each of the six queues, which are the server's consumers in this order; and
  -- no stream is connected.
  pub new_scheduler_server-IsReady :
      (logger : parts.Logger) (db : parts.Db) (producer : parts.Producer)
      (conn : AmqpConnection parts.Consumer) (injector : parts.Injector) (s : SchedulerServer parts)
      → new_scheduler_server parts (up_options logger db producer conn injector) ≡ ok s
      → IsReady logger db producer conn injector s
  unfolding new_scheduler_server up_options apply_options with_logger with_db_connection
      with_producer with_amqp_consumers with_claims_injector
  new_scheduler_server-IsReady logger db producer conn injector s e =
      elim (Option-cases conn.on_channel) [
        | inr (x, p) ↦ absurd (ground (arith, e, p))
        | inl p ↦ elim (Option-cases (conn.on_declare conn.exchange_name)) [
          | inr (x, q) ↦ absurd (ground (arith, e, p, q))
          | inl q ↦
              elim (Result-cases
                (make_consumers conn.on_consumer (consumer_specs conn.exchange_name))) [
                  | inl (x, r) ↦ absurd (ground (arith, e, p, q, r))
                  | inr (cs, r) ↦
                      let eq : s ≡ ready_server logger db producer injector cs =
                        ground (arith, e, p, q, r) in
                      rw eq (record {
                        with_its_logger = refl;
                        with_its_db = refl;
                        with_its_producer = refl;
                        with_its_injector = refl;
                        channel_opened = p;
                        exchange_declared = q;
                        consumers_made =
                            make_consumers-AreMade conn.on_consumer
                              (consumer_specs conn.exchange_name) cs r;
                        no_node_streams = refl;
                        no_client_streams = refl;
                      })
                ]
        ]
      ]
