-- ===== src/Startup/Failure.antt =====
-- What the process reports when it cannot start.
use pyth_agent.Prelude.{ok, true, ◌≡◌, refl, ◌∙◌, [], some, err}
use pyth_agent.Solana.{Env}
use pyth_agent.KeyStore as Keys
use pyth_agent.KeyStore.{KeyStore, Files}
use pyth_agent.Startup.Config.{AgentConfig, NetworkConfig}
use pyth_agent.Startup.Tasks.{
  World, nothing_started, key_store, Runtime, ◌>>◌, new_channel, require, channel, lift,
}
use pyth_agent.Startup.Network.{spawn_network}
use pyth_agent.Startup.Program.{
  start_agent, spawn, spawn_tasks, spawn_secondary, spawn_components, open_channels,
}
use pyth_agent.Startup.Main.{success, main}
use pyth_agent.Startup.Parts.{bind-ok_at, OracleRuns, ExporterRuns, after_network, spawn_network_ok}
use pyth_agent.Startup.Conditions.{ChannelsOpen, channels, opened, open_channels_ok}

module _ ⦃env : Env⦄ (files : Files env.Keypair) (runtime : Runtime) (config : AgentConfig) where
  spawn-keys_unread :
      (e : Keys.Error)
      → ChannelsOpen runtime config
      → runtime.takes_capacity config.primary_network.oracle.updates_channel_capacity ≡ true
      → Keys.new files config.primary_network.key_store ≡ err e
      → spawn files runtime config nothing_started
        ≡ (err (key_store e), record { next = 9; tasks = [] })
  unfolding spawn spawn_tasks spawn_network channel require new_channel lift
  spawn-keys_unread e open_ cap unread =
      bind-ok_at (open_channels files runtime config) (spawn_tasks files runtime config)
        nothing_started channels opened (open_channels_ok files runtime config open_)
      ∙ rw (cap, unread) refl

  -- The tasks of the primary network, which are started before the secondary network's key store is read.
  abbrev pub primary_tasks : KeyStore env.Keypair → World env.Keypair
  primary_tasks keys =
      after_network files runtime true config.primary_network channels.local_store
        channels.primary_oracle_updates channels.primary_keypair_loader keys opened

  spawn-secondary_unread :
      (c : NetworkConfig) (keys : KeyStore env.Keypair) (e : Keys.Error)
      → ChannelsOpen runtime config
      → Keys.new files config.primary_network.key_store ≡ ok keys
      → OracleRuns runtime config.primary_network.oracle
      → ExporterRuns runtime config.primary_network.exporter
      → config.secondary_network ≡ some c
      → runtime.takes_capacity c.oracle.updates_channel_capacity ≡ true
      → Keys.new files c.key_store ≡ err e
      → spawn files runtime config nothing_started
        ≡ (err (key_store e), record { next = 14; tasks = (primary_tasks keys).tasks })
  unfolding spawn spawn_tasks spawn_secondary spawn_network channel require new_channel lift
  spawn-secondary_unread c keys e open_ read o x configured cap unread =
      bind-ok_at (open_channels files runtime config) (spawn_tasks files runtime config)
        nothing_started channels opened (open_channels_ok files runtime config open_)
      ∙ bind-ok_at
          (spawn_network files runtime true config.primary_network channels.local_store
            channels.primary_oracle_updates channels.primary_keypair_loader)
          (λ _.
            spawn_secondary files runtime config.secondary_network channels.local_store
              channels.secondary_oracle_updates channels.secondary_keypair_loader
            >> spawn_components files runtime config channels)
          opened tt _
          (spawn_network_ok files runtime true config.primary_network channels.local_store
            channels.primary_oracle_updates channels.primary_keypair_loader opened keys read o x)
      ∙ rw (configured, spawn_secondary, cap, unread) refl

  -- Where the runtime takes the capacities and the primary network's key store cannot be read, no task
  -- is started, and the process reports success all the same.
  pub main-keys_unread :
      (e : Keys.Error)
      → ChannelsOpen runtime config
      → runtime.takes_capacity config.primary_network.oracle.updates_channel_capacity ≡ true
      → Keys.new files config.primary_network.key_store ≡ err e
      → main files runtime true (some config) true ≡ (success, record { next = 9; tasks = [] })
  unfolding main start_agent
  main-keys_unread e open_ cap unread = rw (spawn-keys_unread e open_ cap unread) refl

  -- Where the secondary network's key store cannot be read, the primary network's tasks have been
  -- started and no others, and the process reports success too.
  pub main-secondary_unread :
      (c : NetworkConfig) (keys : KeyStore env.Keypair) (e : Keys.Error)
      → ChannelsOpen runtime config
      → Keys.new files config.primary_network.key_store ≡ ok keys
      → OracleRuns runtime config.primary_network.oracle
      → ExporterRuns runtime config.primary_network.exporter
      → config.secondary_network ≡ some c
      → runtime.takes_capacity c.oracle.updates_channel_capacity ≡ true
      → Keys.new files c.key_store ≡ err e
      → main files runtime true (some config) true
        ≡ (success, record { next = 14; tasks = (primary_tasks keys).tasks })
  unfolding main start_agent
  main-secondary_unread c keys e open_ read o x configured cap unread =
      rw (spawn-secondary_unread c keys e open_ read o x configured cap unread) refl
