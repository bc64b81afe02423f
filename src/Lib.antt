-- ===== src/Lib.antt =====
-- Scalemate: a marketplace of computing resources. Users rent containers on the nodes of other users.
-- The accounts service keeps users and issues tokens; the scheduler service keeps containers, their
-- limits and nodes; the services tell each other what happened by events in a message broker; a
-- client carries tokens with its requests.
--
-- Files and the code that they model, with paths from the repository's root:
--   Proto: the messages of scheduler/scheduler_proto/scheduler.proto,
--     accounts/accounts_proto/accounts.proto and shared/events_proto/events.proto.
--   World: errors as values, the calls to the database, the broker, the clock and the generator of
--     UUIDs, and the actions that make them. The outside world is a parameter, an `Env`, whose answers
--     may depend on all the calls before; an action maps the history of calls to a result and a longer
--     history, so the order of the calls is what a theorem can speak about. A query is data that holds
--     what the source puts into its text and arguments. Building the text of a query does not fail here.
--   BitArray: shared/utils/bitarray/bitarray.go. `set_bit` is SetBit, and so on; a call that indexes
--     out of range panics, a value of `Go`. BitArray/Bits and Count are on the bits of a word, Model on
--     the set that an array stands for, Union on Or, Listing on SetBits.
--   Limits: scheduler/models/limits_selector.go. `select_limits_from` is selectLimits, with the cache
--     passed along. Limits/Spec is what the best selection is, Best how it comes from the best of the
--     tail, Memo what the cache holds, Arrays, With and Combine the steps, Select the whole.
--   Shared: shared/utils/utils.go (Utils), shared/events/*.go (Events, Broker, Delivery, Consumers),
--     shared/auth/claims.go (Auth), shared/auth/credentials.go (Credentials), shared/auth/tokens.go
--     (TokenFile), shared/middleware/errors.go (Middleware), and accounts/conf/conf.go and
--     scheduler/conf/conf.go with the connection to the database (Configuration, with Startup). Startup is
--     the loop over the options of a server, and the resources that the commands of the services open.
--     Expectations and Fakes are what the tests of the services use of shared/events and shared/auth.
--   Scheduler: scheduler/models/container.go: the operations (Container), the statuses and their
--     changes (Lifecycle), lists of containers (Listing); scheduler/models/node.go and
--     scheduler/models/processed_event.go (Nodes); what creation writes (Saved).
--     scheduler/handlers/*.go (Handlers: Balanced on transactions, Processed on how a handler
--     ends, Again on a second delivery). scheduler/server/*.go: the requests on jobs, tasks and
--     nodes (Requests, with Rights and Cancelling), new jobs (Creating, with Paths and Checks),
--     the lists of hardware (Hardware), the channels of tasks for nodes (Streams, with Steps and
--     Stuck) and for clients (Iterating, with Steps, Lost and Panics). Models holds the
--     parameters. scheduler/models/limit.go (LimitMessage). scheduler/server/options.go,
--     scheduler/server/server.go and scheduler/cmd/up.go: how a server is made, started and
--     closed (Serving, with Ready and Closing).
--   Accounts: accounts/models/*.go (Users) and accounts/server/*.go with
--     accounts/handlers/scheduler_node_created.go (Server); what a success of a request proves of its
--     sender (Sessions), transactions on every path (Transactions), the calls of a request that
--     succeeds (Order). accounts/server/options.go, accounts/cmd/up.go and
--     accounts/cmd/handle_events.go (Serving).
--   Client: client/scheduler/flags.go: the parsing of flags (Flags), the texts that they are to
--     be (Numerals), the flag for ports (Ports), the job that the flags describe (Jobs) and the
--     requests for lists (Lists); the commands of client/accounts/controllers.go and the messages
--     of shared/client/views.go (Controllers); the commands of client/scheduler/controllers.go
--     (Requests, with Own). Commands: client/cmd/*.go, from the arguments of a command to its
--     controller: `execute` is the check of the number of arguments with the function Run
--     (Arguments, Accepted and InRange on the arguments), the flags of jobs create (JobFlags,
--     with Given) and of the lists (ListFlags, with Given), both by FlagSets, what tasks iter
--     shows (Iterating), and the commands on accounts with their prompts and
--     client/accounts/views.go (Accounts, with Login and Password). Program: a run of the client,
--     by client/main.go, client/cmd/root.go and shared/client/client.go, from the flags of the
--     root command through the configuration and the connections to a controller (Returning on
--     its parts, Calls on the whole).
--   System: the parts together. Session follows the tokens of accounts/models/user.go through the calls
--     of the client to scheduler/server/auth.go, Refresh a refresh token. Nodes follows a node from
--     scheduler/models/node.go through the broker to accounts/handlers/scheduler_node_created.go,
--     Fingerprints to accounts/server/password_auth.go.
--   Prelude: names of the libraries, Boolean tests, lists with native indices, calls that may panic.
--   Tests: runs on concrete inputs, with an environment, and the theorems at these inputs.
--
-- Numbers are natural numbers; uint16 and uint32 arithmetic that can wrap is written out (`u16`,
-- `u32`, `sub32`). Loops are by recursion on lists, but for three that take fuel: the loop of
-- positiveBits gets 64 rounds and the recursion of selectLimits one call for each limit and one more.
-- The loop of ConnectDBFromEnv gets six rounds, since its counter doubles from 1 to 16. Their theorems
-- show that this is enough: the call returns, and `runs_out` is not reached.
--
-- Parameters, for code outside the repository: jwt-go (`Jwt`, with the law that a signed token
-- parses until it expires), bcrypt (`Bcrypt`, a password compares with its hashes),
-- fieldmask-utils (`Masks`), cobra and pflag (`Cobra`, with its documented checks as
-- `IsDocumented`, and what a repeated flag adds to an array), the terminal (`Terminal`), what a
-- run of the client finds on its host (`Host`), the causes and codes of errors (`ErrorLib`),
-- protobuf's serialisation, ozzo-validation, and the database and the broker (`Env`). The
-- scheduler's handlers and requests call models of jobs, tasks and nodes, and a
-- CommitAndPublish, that the repository does not hold: these are the record `Models`, with
-- `AreQuiet` as a hypothesis, that the queries neither begin nor end a transaction and the
-- CommitAndPublish of the handlers, which takes the transaction, ends one. Three facts about
-- PostgreSQL are named hypotheses: `Stores`, the row that an UPDATE returns is the one that it
-- stores, `HonoursLimit`, on LIMIT, and `Remembers`, a record that was committed is counted.
-- `KeepsNodes` is that the database answers with a node that was stored. `ReadsTokens` is what
-- jwt-go and the middleware for bearer tokens are documented to do with a signed token.
--
-- Not modelled: the migrations, the registration of commands, what the configuration file of the
-- client holds, which no code reads, and the gRPC servers, which are input and output or calls
-- of libraries; the connection of the commands on accounts; the helpers of tests in
-- shared/testutils; code that is commented out, which is most of scheduler/models/node.go from
-- line 138 on and the end of scheduler/models/container.go before its lists.
pub mod Prelude
pub mod Proto
pub mod World
pub mod BitArray
pub mod Limits
pub mod Shared
pub mod Scheduler
pub mod Accounts
pub mod Client
pub mod System
pub mod Tests
