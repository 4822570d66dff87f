-- ===== src/Lib.antt =====
-- A model of pyth-agent, which publishes prices to Solana networks, and theorems about it.
--
-- The program. A publisher's programs talk to the websocket API (src/agent/pythd/api.rs). The adapter
-- (src/agent/pythd/adapter.rs) answers them: it writes prices to the local store
-- (src/agent/store/local.rs), and reads the accounts on chain from the global store
-- (src/agent/store/global.rs), which tells it of each change. Each network has an oracle and an
-- exporter (src/agent/solana). The oracle reads the accounts from a node and sends them to the global
-- store, and the permissions of publishers to the exporter; the exporter publishes the prices of the
-- local store. The remote keypair loader (src/agent/remote_keypair_loader.rs) hands an exporter the
-- keypair that was uploaded. Each of these is a task that owns its state and takes one message after
-- the other from its channels.
--
-- How a task is modelled. Its state is a record, a handler a function from a message and the state to
-- an output and the new state, and a run takes a list of messages. Where the code waits in select! for
-- one of several things, the one that came is an explicit event. What a task sends is part of the
-- output. Whether the other end of a channel is open, what a node or another task answers, and a clock
-- reading are arguments. anyhow::Result is Result with an Error of each component, and the text of an
-- error is left out, as is logging. A HashMap is an association list; insert keeps one entry per key.
-- The order of its entries is not specified in the program; here it is that of the list.
--
-- Numbers. u64, usize and public keys are native ℕ; i64 and i32 are ℤ of Prelude/Int. Where i64 values
-- are subtracted or added, where a u64 is cast to i64, and where u32 or u64 values are multiplied, the
-- result wraps around (sub_i64, as_i64, wrap_i64, % 2 ^ 32, % 2 ^ 64) as in a release build.
--
-- What the libraries do is a parameter: Env (Solana.antt) has the text and the parser of a key, floats,
-- and keypairs with their bytes; Chain (Exporter/Instruction.antt) has the encoding of a command and
-- program addresses; Files (KeyStore.antt) the file system; Node (Oracle/Poller.antt) the node and the
-- reading of accounts; Jrpc (Pythd/Rpc.antt) has JSON and Format (Dashboard/Rows.antt) the texts of the
-- dashboard; Shadow (Oracle/Subscriber.antt) is the subscription; Runtime (Startup/Tasks.antt) has the capacities and the periods that tokio takes.
-- ParsesBack and DecodesBack say that parsing undoes printing and that
-- decoding undoes encoding; a theorem that needs one has it as a hypothesis.
--
-- The files.
--   Prelude: Booleans, Result, lists, i64, association lists.
--   Solana: the values taken from libraries. Samples: an instance of them for examples.
--   Metrics: the gauges and counters of src/agent/metrics.rs.
--   MetricsServer: the registry of src/agent/metrics.rs and the two pages of its server; proofs in Shown.
--   Store/Price, Store/Local: PriceInfo and the local store, Store::update, handle, run as update,
--     handle, run; proofs in Local/Outcome, Local/Newest and Local/Sync.
--   Store/Global: the global store; handle_next is by event; proofs in Global/Data, Global/Metadata, Global/Gauges.
--   KeyStore: key_store of src/agent/solana.rs.
--   Exporter: the exporter of src/agent/solana/exporter.rs. publish_updates is cut into the filters
--     (Exporter: is_newer, is_recent, is_due), the keypair, the permissions, the batches and the record
--     (Exporter/Publish), publish_batch (Exporter/Batch) and the instructions (Exporter/Instruction);
--     Exporter/Monitor is the transaction monitor. Proofs in Selection, Batch/Chunks,
--     Batch/Building, Batch/Transactions, Batch/Sending, Instruction/Accumulator, Publish/Finish,
--     Publish/Record, Publish/Permission, Publish/Sources, Publish/Delivery, Monitor/Window.
--   Pythd/Api, Pythd/Status, Pythd/Views, Pythd/Adapter: the values of the API, the texts of a status,
--     the answers about products, the adapter. A turn of its loop drops closed subscriptions and then
--     handles one event; Adapter/Messages has its messages, and Adapter/Registry its tables of
--     subscriptions. Proofs in Views/Agreement, Adapter/Accounts, Notify, Entries, Tables, Numbers, Delivery.
--   Pythd/Rpc: the JSON RPC side of src/agent/pythd/api.rs. Rpc has the requests, the responses, Jrpc,
--     which is what the JSON library does, and AdapterPort, which is the adapter as a connection sees
--     it; Rpc/Dispatch is dispatch_and_catch_error with its handlers, Rpc/Connection is parse, handle,
--     handle_next and consume, and Rpc/Backend fills the port with the adapter of Pythd/Adapter.
--     Rpc/Server makes a connection of each websocket. Proofs in Connection/Answers, Connection/Client,
--     Backend/Requests, Backend/Subscriptions, Server/Connections.
--   Dashboard: build_dashboard_data of src/agent/dashboard.rs; Dashboard/Rows is render_dashboard.
--     Proofs in Sets, Products, Products/Pending, Products/Table, Products/Origin, Rows/Listing.
--   Agent: the tasks that a price passes through, as src/agent.rs connects them, with the channel of
--     the local store, as a step relation; proofs in Client, Updates, Provenance. Agent/Reading is the other
--     way, from the oracle through the global store and the adapter to the clients; proofs in
--     Reading/Origin, Asked, Notices, History.
--   Startup: how the program starts. Config has the configurations and defaults; Tasks the tasks with
--     their channels, and the actions of which the start is made; Network is spawn_network of
--     src/agent/solana.rs with spawn_oracle and spawn_exporter; Program is Agent::spawn and start of
--     src/agent.rs, and Main is main of src/bin/agent.rs; Ends says what goes through the channels of a task.
--     Proofs in Parts, Conditions, Wiring, Failure.
--   KeypairLoader: uploads and requests; proofs in Uploads, History, Requests.
--   Oracle, Oracle/Poller, Oracle/Tasks, Oracle/Subscriber: the oracle, one poll, the loops of the
--     oracle and the poller, and the subscriber; proofs in Delivery, Poller/Permissions, Poller/Chain,
--     Poller/OneBatch, Poller/Listing, Tasks/Arrival, Subscriber/Arrival.
--   Examples, in several folders: runs, and the theorems at concrete inputs.
--
-- Fuel. Cutting a list into chunks has the list's length as fuel, and a chunk takes at least one
-- element. The walks of the poller have their fuel as an argument and report out_of_fuel, since they
-- do not end where accounts refer back to earlier ones.
--
-- Not modelled: the reading of the arguments and of the configuration file, the set-up of logging
-- (src/bin/agent.rs), timers and the pauses between batches, the encoding of JSON, the routes of the HTTP servers, the HTML of the dashboard's page.
pub mod Prelude
pub mod Solana
pub mod Metrics
pub mod Store
pub mod Samples
pub mod Exporter
pub mod KeyStore
pub mod Pythd
pub mod KeypairLoader
pub mod Oracle
pub mod Agent
pub mod Dashboard
pub mod Startup
pub mod MetricsServer
