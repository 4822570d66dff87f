-- ===== src/Startup/Network.antt =====
-- `spawn_network` of src/agent/solana.rs, with `spawn_oracle` and `spawn_exporter`. A constructor that
-- makes a timer does so before its task is started. The files are taken not to change meanwhile.
use pyth_agent.Prelude.{Bool, String}
use pyth_agent.Solana.{Env}
use pyth_agent.KeyStore as Keys
use pyth_agent.KeyStore.{KeyStore, Files}
use pyth_agent.Exporter as Exporter
use pyth_agent.Exporter.{Duration}
use pyth_agent.Startup.Config.{OracleConfig, NetworkConfig}
use pyth_agent.Startup.Tasks.{
  Channel, network, subscriber, poller, oracle, network_state_querier, transaction_monitor,
  exporter, Runtime, Spawn, ◌>>=◌, ◌>>◌, lift, new_channel, start, when, channel, interval,
}

module _ {K : Type 0} (runtime : Runtime) (primary : Bool) where
  unfoldable pub spawn_oracle :
      (config : OracleConfig) (rpc_url wss_url : String) (rpc_timeout : Duration)
      (global_store_update_tx publisher_permissions_tx : Channel)
      → KeyStore K
      → Spawn K (Unit {0})
  unfolding start when channel interval
  spawn_oracle config rpc_url wss_url rpc_timeout global_store_update_tx publisher_permissions_tx
        keys =
      do
        updates ← channel runtime config.updates_channel_capacity
        when config.subscriber_enabled (
            start (
              network primary (
                subscriber rpc_url wss_url rpc_timeout config.commitment keys.program_key updates)))
        polled ← channel runtime config.data_channel_capacity
        interval runtime config.poll_interval_duration
        start (
            network primary (
              poller polled publisher_permissions_tx rpc_url rpc_timeout config.commitment
                config.poll_interval_duration config.max_lookup_batch_size keys.mapping_key))
        start (network primary (oracle polled updates global_store_update_tx))

  unfoldable pub spawn_exporter :
      (config : Exporter.Config) (rpc_url : String) (rpc_timeout : Duration)
      (publisher_permissions_rx : Channel)
      → KeyStore K
      → (local_store_tx keypair_request_tx : Channel) → Spawn K (Unit {0})
  unfolding start new_channel channel interval
  spawn_exporter config rpc_url rpc_timeout permissions_rx keys local_store_tx keypair_request_tx =
      do
        network_state ← new_channel
        interval runtime config.refresh_network_state_interval_duration
        start (
            network primary (
              network_state_querier rpc_url rpc_timeout
                config.refresh_network_state_interval_duration network_state))
        transactions ← channel runtime config.inflight_transactions_channel_capacity
        interval runtime config.transaction_monitor.poll_interval_duration
        start (
            network primary
              (transaction_monitor config.transaction_monitor rpc_url rpc_timeout transactions))
        interval runtime config.publish_interval_duration
        start (
            network primary (
              exporter config rpc_url rpc_timeout keys local_store_tx network_state transactions
                permissions_rx keypair_request_tx))

module _ ⦃env : Env⦄ (files : Files env.Keypair) (runtime : Runtime) where
  -- The keys are read twice, once for the oracle and once for the exporter.
  unfoldable pub spawn_network :
      (primary : Bool) (config : NetworkConfig)
      (local_store_tx global_store_update_tx keypair_request_tx : Channel)
      → Spawn env.Keypair (Unit {0})
  unfolding lift channel
  spawn_network primary config local_store_tx global_store_update_tx keypair_request_tx = do
    permissions ← channel runtime config.oracle.updates_channel_capacity
    oracle_keys ← lift (Keys.new files config.key_store)
    spawn_oracle runtime primary config.oracle config.rpc_url config.wss_url config.rpc_timeout
        global_store_update_tx permissions oracle_keys
    exporter_keys ← lift (Keys.new files config.key_store)
    spawn_exporter runtime primary config.exporter config.rpc_url config.rpc_timeout permissions
        exporter_keys local_store_tx keypair_request_tx
