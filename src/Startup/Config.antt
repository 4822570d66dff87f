-- ===== src/Startup/Config.antt =====
-- The configuration of the agent and its parts, with the defaults. Text, paths and addresses are
-- strings, durations are nanoseconds. Reading the file is left to the library.
use pyth_agent.Prelude.{ℕ, Bool, true, Option, none, String}
use pyth_agent.Solana.{CommitmentLevel, confirmed}
use pyth_agent.KeyStore as Keys
use pyth_agent.KeypairLoader as KeypairLoader
use pyth_agent.Exporter as Exporter
use pyth_agent.Exporter.{Duration, secs}

pub record OracleConfig : Type 0 where
  pub commitment : CommitmentLevel
  pub poll_interval_duration : Duration
  pub subscriber_enabled : Bool
  pub updates_channel_capacity : ℕ
  pub data_channel_capacity : ℕ
  pub max_lookup_batch_size : ℕ

abbrev pub default_oracle : OracleConfig
default_oracle = record {
  commitment = confirmed;
  poll_interval_duration = secs 120;
  subscriber_enabled = true;
  updates_channel_capacity = 10000;
  data_channel_capacity = 10000;
  max_lookup_batch_size = 100;
}

pub record NetworkConfig : Type 0 where
  pub rpc_url : String
  pub wss_url : String
  pub rpc_timeout : Duration
  pub key_store : Keys.Config
  pub oracle : OracleConfig
  pub exporter : Exporter.Config

abbrev pub default_network : NetworkConfig
default_network = record {
  rpc_url = "http://localhost:8899";
  wss_url = "ws://localhost:8900";
  rpc_timeout = secs 10;
  key_store = Keys.default_config;
  oracle = default_oracle;
  exporter = Exporter.default_config;
}

pub record AdapterConfig : Type 0 where
  pub notify_price_sched_interval_duration : Duration

abbrev pub default_adapter : AdapterConfig
default_adapter = record { notify_price_sched_interval_duration = secs 1 }

pub record ServerConfig : Type 0 where
  pub listen_address : String
  pub notify_price_tx_buffer : ℕ
  pub notify_price_sched_tx_buffer : ℕ

abbrev pub default_server : ServerConfig
default_server = record {
  listen_address = "127.0.0.1:8910";
  notify_price_tx_buffer = 10000;
  notify_price_sched_tx_buffer = 10000;
}

pub record MetricsConfig : Type 0 where
  pub bind_address : String

abbrev pub default_bind_address : String
default_bind_address = "127.0.0.1:8888"

abbrev pub default_metrics : MetricsConfig
default_metrics = record { bind_address = default_bind_address }

pub record ChannelCapacities : Type 0 where
  pub shutdown : ℕ
  pub primary_oracle_updates : ℕ
  pub secondary_oracle_updates : ℕ
  pub global_store_lookup : ℕ
  pub local_store_lookup : ℕ
  pub local_store : ℕ
  pub pythd_adapter : ℕ
  pub logger_buffer : ℕ

abbrev pub default_capacities : ChannelCapacities
default_capacities = record {
  shutdown = 10000;
  primary_oracle_updates = 10000;
  secondary_oracle_updates = 10000;
  global_store_lookup = 10000;
  local_store_lookup = 10000;
  local_store = 10000;
  pythd_adapter = 10000;
  logger_buffer = 10000;
}

pub record AgentConfig : Type 0 where
  pub channel_capacities : ChannelCapacities
  pub primary_network : NetworkConfig
  pub secondary_network : Option NetworkConfig
  pub pythd_adapter : AdapterConfig
  pub pythd_api_server : ServerConfig
  pub metrics_server : MetricsConfig
  pub remote_keypair_loader : KeypairLoader.Config

-- `#[derive(Default)]`.
abbrev pub default_agent : AgentConfig
default_agent = record {
  channel_capacities = default_capacities;
  primary_network = default_network;
  secondary_network = none;
  pythd_adapter = default_adapter;
  pythd_api_server = default_server;
  metrics_server = default_metrics;
  remote_keypair_loader = KeypairLoader.default_config;
}
