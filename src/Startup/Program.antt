-- ===== src/Startup/Program.antt =====
-- `Agent::spawn` and `Agent::start` of src/agent.rs. Logging is left out. What a task does first in its
-- own turn, such as making the adapter's timer, is not a part of the start.
use pyth_agent.Prelude.{true, false, Option, none, some, ok, err}
use pyth_agent.Solana.{Env}
use pyth_agent.KeyStore.{Files}
use pyth_agent.Startup.Config.{NetworkConfig, AgentConfig}
use pyth_agent.Startup.Tasks.{
  Channel, global_store, local_store, adapter, api_server, metrics_server, keypair_requests,
  keypair_uploads, key_store, panicked, Runtime, Spawn, ◌>>=◌, ◌>>◌, start, channel, broadcast,
}
use pyth_agent.Startup.Network.{spawn_network}
use mathlib.Core.Option as Option

-- The channels between the components of the agent.
pub record Channels : Type 0 where
  pub shutdown : Channel
  pub primary_oracle_updates : Channel
  pub secondary_oracle_updates : Channel
  pub global_store_lookup : Channel
  pub local_store : Channel
  pub pythd_adapter : Channel
  pub primary_keypair_loader : Channel
  pub secondary_keypair_loader : Channel

module _ ⦃env : Env⦄ (files : Files env.Keypair) (runtime : Runtime) where
  -- The secondary network is started only where one is configured.
  unfoldable pub spawn_secondary :
      Option NetworkConfig
      → (local_store_tx global_store_update_tx keypair_request_tx : Channel)
      → Spawn env.Keypair (Unit {0})
  spawn_secondary none local_store_tx global_store_update_tx keypair_request_tx w = (ok tt, w)
  spawn_secondary (some config) local_store_tx global_store_update_tx keypair_request_tx w =
      spawn_network files runtime false config local_store_tx global_store_update_tx
        keypair_request_tx w

  -- The loader starts the task that hands keypairs out and the one that takes uploads.
  unfoldable pub spawn_loader :
      (config : AgentConfig) (primary_requests_rx secondary_requests_rx : Channel)
      → Spawn env.Keypair (Unit {0})
  unfolding start
  spawn_loader config primary_requests_rx secondary_requests_rx = do
    start (
        keypair_requests primary_requests_rx secondary_requests_rx config.primary_network.rpc_url
          (Option.map (λ c. c.rpc_url) config.secondary_network) config.remote_keypair_loader)
    start (keypair_uploads config.remote_keypair_loader.bind_address)

  unfoldable pub open_channels : AgentConfig → Spawn env.Keypair Channels
  unfolding channel broadcast
  open_channels config = do
    shutdown ← broadcast runtime config.channel_capacities.shutdown
    primary_oracle_updates ← channel runtime config.channel_capacities.primary_oracle_updates
    secondary_oracle_updates ← channel runtime config.channel_capacities.secondary_oracle_updates
    global_store_lookup ← channel runtime config.channel_capacities.global_store_lookup
    local_store_messages ← channel runtime config.channel_capacities.local_store
    pythd_adapter ← channel runtime config.channel_capacities.pythd_adapter
    primary_keypair_loader ← channel runtime 10
    secondary_keypair_loader ← channel runtime 10
    λ w. (
      ok (record {
        shutdown = shutdown;
        primary_oracle_updates = primary_oracle_updates;
        secondary_oracle_updates = secondary_oracle_updates;
        global_store_lookup = global_store_lookup;
        local_store = local_store_messages;
        pythd_adapter = pythd_adapter;
        primary_keypair_loader = primary_keypair_loader;
        secondary_keypair_loader = secondary_keypair_loader;
      }),
      w,
    )

  unfoldable pub spawn_components : AgentConfig → Channels → Spawn env.Keypair (Unit {0})
  unfolding start spawn_loader
  spawn_components config ch = do
    start (
        global_store ch.global_store_lookup ch.primary_oracle_updates ch.secondary_oracle_updates
          ch.pythd_adapter)
    start (local_store ch.local_store)
    start (
        adapter config.pythd_adapter ch.pythd_adapter ch.global_store_lookup ch.local_store
          ch.shutdown)
    start (api_server config.pythd_api_server ch.pythd_adapter ch.shutdown)
    start (metrics_server config.metrics_server.bind_address ch.local_store ch.global_store_lookup)
    spawn_loader config ch.primary_keypair_loader ch.secondary_keypair_loader

  -- The networks come first: a task of theirs can run before the stores do.
  unfoldable pub spawn_tasks : AgentConfig → Channels → Spawn env.Keypair (Unit {0})
  spawn_tasks config ch = do
    spawn_network files runtime true config.primary_network ch.local_store ch.primary_oracle_updates
        ch.primary_keypair_loader
    spawn_secondary config.secondary_network ch.local_store ch.secondary_oracle_updates
        ch.secondary_keypair_loader
    spawn_components config ch

  unfoldable pub spawn : AgentConfig → Spawn env.Keypair (Unit {0})
  spawn config = do ch ← open_channels config; spawn_tasks config ch

  -- `Agent::start` logs an error of `spawn` and returns; a panic goes through.
  unfoldable pub start_agent : AgentConfig → Spawn env.Keypair (Unit {0})
  start_agent config w =
      let (r, w') = spawn config w in
      (elim r [ ok _ ↦ ok tt | err (key_store _) ↦ ok tt | err panicked ↦ err panicked ], w')
