-- ===== src/Startup/Tasks.antt =====
-- The tasks with the ends of the channels that they are given, and the actions of which the start is
-- made. A channel is a number, which stands for both of its ends.
use pyth_agent.Prelude.{
  ℕ, suc, Bool, true, false, List, [], ◌∷◌, ◌++◌, Option, String, Result, ok, err,
}
use pyth_agent.Solana.{CommitmentLevel, Pubkey}
use pyth_agent.KeyStore as Keys
use pyth_agent.KeyStore.{KeyStore}
use pyth_agent.KeypairLoader as KeypairLoader
use pyth_agent.Exporter as Exporter
use pyth_agent.Exporter.{Duration, MonitorConfig}
use pyth_agent.Startup.Config.{AdapterConfig, ServerConfig}

abbrev pub Channel : Type 0
Channel = ℕ

-- The tasks of one network.
pub data NetworkTask (Keypair : Type 0) : Type 0 where
  subscriber :
      (rpc_url wss_url : String) (rpc_timeout : Duration) (commitment : CommitmentLevel)
      (account_key : Pubkey) (updates_tx : Channel)
      → NetworkTask Keypair
  poller :
      (data_tx publisher_permissions_tx : Channel) (rpc_url : String) (rpc_timeout : Duration)
      (commitment : CommitmentLevel) (poll_interval_duration : Duration) (max_lookup_batch_size : ℕ)
      (mapping_key : Pubkey)
      → NetworkTask Keypair
  oracle : (data_rx updates_rx global_store_tx : Channel) → NetworkTask Keypair
  network_state_querier :
      (rpc_url : String) (rpc_timeout query_interval : Duration) (network_state_tx : Channel)
      → NetworkTask Keypair
  transaction_monitor :
      (config : MonitorConfig) (rpc_url : String) (rpc_timeout : Duration)
      (transactions_rx : Channel)
      → NetworkTask Keypair
  exporter :
      (config : Exporter.Config) (rpc_url : String) (rpc_timeout : Duration)
      (key_store : KeyStore Keypair)
      (local_store_tx network_state_rx inflight_transactions_tx publisher_permissions_rx
        keypair_request_tx : Channel)
      → NetworkTask Keypair

-- A network's task knows by its logger whether the network is the primary one.
pub data Task (Keypair : Type 0) : Type 0 where
  network : (primary : Bool) → NetworkTask Keypair → Task Keypair
  global_store :
      (lookup_rx primary_updates_rx secondary_updates_rx pythd_adapter_tx : Channel) → Task Keypair
  local_store : (rx : Channel) → Task Keypair
  adapter :
      (config : AdapterConfig)
      (message_rx global_store_lookup_tx local_store_tx shutdown_rx : Channel)
      → Task Keypair
  api_server : (config : ServerConfig) (adapter_tx shutdown_rx : Channel) → Task Keypair
  metrics_server :
      (bind_address : String) (local_store_tx global_store_lookup_tx : Channel) → Task Keypair
  keypair_requests :
      (primary_requests_rx secondary_requests_rx : Channel) (primary_rpc_url : String)
      (secondary_rpc_url : Option String) (config : KeypairLoader.Config)
      → Task Keypair
  keypair_uploads : (bind_address : String) → Task Keypair

-- How many channels there are, and the tasks that have been started, in order.
pub record World (Keypair : Type 0) : Type 0 where
  pub next : Channel
  pub tasks : List (Task Keypair)

abbrev pub nothing_started : {Keypair : Type 0} → World Keypair
nothing_started = record { next = 0; tasks = [] }

pub data Error : Type 0 where
  key_store : Keys.Error → Error
  panicked : Error

-- What the runtime takes: an `mpsc` or a `broadcast` channel of some capacity and a timer of some period are refused by a
-- panic. Tokio refuses zero.
pub record Runtime : Type 0 where
  pub takes_capacity : ℕ → Bool
  pub takes_broadcast_capacity : ℕ → Bool
  pub takes_period : Duration → Bool

-- A task that was started goes on when a later action fails.
abbrev pub Spawn : (Keypair A : Type 0) → Type 0
Spawn Keypair A = World Keypair → Result Error A × World Keypair

infixl 5 ◌>>=◌ ◌>>◌
abbrev pub ◌>>=◌ : {K A B : Type 0} → Spawn K A → (A → Spawn K B) → Spawn K B
◌>>=◌ m f w = let (r, w') = m w in elim r [ ok a ↦ f a w' | err e ↦ (err e, w') ]

abbrev pub ◌>>◌ : {K B : Type 0} → Spawn K (Unit {0}) → Spawn K B → Spawn K B
m >> k = m >>= λ _. k

module _ {K : Type 0} where
  -- `?` on a result of the key store.
  unfoldable pub lift : {A : Type 0} → Result Keys.Error A → Spawn K A
  lift (ok a) w = (ok a, w)
  lift (err e) w = (err (key_store e), w)

  unfoldable pub new_channel : Spawn K Channel
  new_channel w = (ok w.next, record w { next = suc w.next })

  unfoldable pub require : Bool → Spawn K (Unit {0})
  require true w = (ok tt, w)
  require false w = (err panicked, w)

  unfoldable pub start : Task K → Spawn K (Unit {0})
  start t w = (ok tt, record w { tasks = w.tasks ++ t ∷ [] })

  unfoldable pub when : Bool → Spawn K (Unit {0}) → Spawn K (Unit {0})
  when true m w = m w
  when false m w = (ok tt, w)

module _ {K : Type 0} (runtime : Runtime) where
  -- `mpsc::channel`; `watch::channel` is `new_channel`.
  unfoldable pub channel : (capacity : ℕ) → Spawn K Channel
  unfolding require new_channel
  channel capacity = require (runtime.takes_capacity capacity) >> new_channel

  -- `broadcast::channel`.
  unfoldable pub broadcast : (capacity : ℕ) → Spawn K Channel
  unfolding require new_channel
  broadcast capacity = require (runtime.takes_broadcast_capacity capacity) >> new_channel

  -- `time::interval`.
  unfoldable pub interval : (period : Duration) → Spawn K (Unit {0})
  unfolding require
  interval period = require (runtime.takes_period period)
