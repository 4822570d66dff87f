-- ===== src/Startup/Conditions.antt =====
-- When the agent starts, and what it has started then.
use pyth_agent.Prelude.{true, false, [], ◌≡◌, refl, ap, ◌∙◌, ◌↔◌, Option, none, some, ok, arith}
use pyth_agent.Solana.{Env}
use pyth_agent.KeyStore.{Files}
use pyth_agent.Startup.Config.{NetworkConfig, AgentConfig}
use pyth_agent.Startup.Tasks.{
  Channel, World, nothing_started, Runtime, ◌>>◌, new_channel, require, start, channel, broadcast,
}
use pyth_agent.Startup.Network.{spawn_network}
use pyth_agent.Startup.Program.{
  Channels, spawn_secondary, spawn_loader, open_channels, spawn_components, spawn_tasks, spawn,
}
use pyth_agent.Startup.Parts.{
  NetworkRuns, after_network, spawn_network_ok, spawn_network_runs, bind-ok_at, bind-runs,
}

-- The channels as they are numbered.
abbrev pub channels : Channels
channels = record {
  shutdown = 0;
  primary_oracle_updates = 1;
  secondary_oracle_updates = 2;
  global_store_lookup = 3;
  local_store = 4;
  pythd_adapter = 5;
  primary_keypair_loader = 6;
  secondary_keypair_loader = 7;
}

abbrev pub opened : {K : Type 0} → World K
opened = record { next = 8; tasks = [] }

abbrev pub ChannelsOpen : Runtime → AgentConfig → Type 0
ChannelsOpen runtime config =
    (runtime.takes_broadcast_capacity config.channel_capacities.shutdown ≡ true)
    × (runtime.takes_capacity config.channel_capacities.primary_oracle_updates ≡ true)
    × (runtime.takes_capacity config.channel_capacities.secondary_oracle_updates ≡ true)
    × (runtime.takes_capacity config.channel_capacities.global_store_lookup ≡ true)
    × (runtime.takes_capacity config.channel_capacities.local_store ≡ true)
    × (runtime.takes_capacity config.channel_capacities.pythd_adapter ≡ true)
    × (runtime.takes_capacity 10 ≡ true)

module _ ⦃env : Env⦄ (files : Files env.Keypair) (runtime : Runtime) where
  abbrev pub SecondaryRuns : Option NetworkConfig → Type 0
  SecondaryRuns none = Unit
  SecondaryRuns (some c) = NetworkRuns files runtime c

  -- The runtime takes the capacities and the periods, and the key stores of the networks can be read.
  abbrev pub Starts : AgentConfig → Type 0
  Starts config =
      ChannelsOpen runtime config
      × NetworkRuns files runtime config.primary_network
      × SecondaryRuns config.secondary_network

  abbrev pub after_secondary :
      (secondary : Option NetworkConfig)
      → SecondaryRuns secondary
      → World env.Keypair
      → World env.Keypair
  after_secondary none h w = w
  after_secondary (some c) h w =
      after_network files runtime false c channels.local_store channels.secondary_oracle_updates
        channels.secondary_keypair_loader h.0.0 w

  pub open_channels_ok :
      (config : AgentConfig)
      → ChannelsOpen runtime config
      → open_channels files runtime config nothing_started ≡ (ok channels, opened)
  unfolding open_channels channel broadcast require new_channel
  open_channels_ok config (a, b, c, d, e, f, g) = rw (a, b, c, d, e, f, g) refl

  open_channels_runs :
      (config : AgentConfig) (ch : Channels)
      → (open_channels files runtime config nothing_started).0 ≡ ok ch
      → ChannelsOpen runtime config
  unfolding open_channels channel broadcast require new_channel
  open_channels_runs config ch h = ground arith

  spawn_secondary_ok :
      (secondary : Option NetworkConfig) (h : SecondaryRuns secondary) (w : World env.Keypair)
      → spawn_secondary files runtime secondary channels.local_store
          channels.secondary_oracle_updates channels.secondary_keypair_loader w
        ≡ (ok tt, after_secondary secondary h w)
  unfolding spawn_secondary
  spawn_secondary_ok none h w = refl
  spawn_secondary_ok (some c) ((keys, e), o, x) w =
      spawn_network_ok files runtime false c channels.local_store channels.secondary_oracle_updates
        channels.secondary_keypair_loader w keys e o x

  spawn_secondary_runs :
      (secondary : Option NetworkConfig) (local prices keypairs : Channel) (w : World env.Keypair)
      → (spawn_secondary files runtime secondary local prices keypairs w).0 ≡ ok tt
      → SecondaryRuns secondary
  unfolding spawn_secondary
  spawn_secondary_runs none local prices keypairs w h = tt
  spawn_secondary_runs (some c) local prices keypairs w h =
      spawn_network_runs files runtime false c local prices keypairs w h

  -- The state after the networks, and at the end.
  abbrev pub after_networks : (config : AgentConfig) → Starts config → World env.Keypair
  after_networks config starts = after_secondary config.secondary_network starts.2 (
      after_network files runtime true config.primary_network channels.local_store
        channels.primary_oracle_updates channels.primary_keypair_loader starts.1.0.0 opened)

  abbrev pub after_spawn : (config : AgentConfig) → Starts config → World env.Keypair
  after_spawn config starts =
      (spawn_components files runtime config channels (after_networks config starts)).1

  pub spawn_ok :
      (config : AgentConfig) (starts : Starts config)
      → spawn files runtime config nothing_started ≡ (ok tt, after_spawn config starts)
  unfolding spawn spawn_tasks spawn_components start spawn_loader
  spawn_ok config (open_, ((keys, e), o, x), secondary) =
      bind-ok_at (open_channels files runtime config) (spawn_tasks files runtime config)
        nothing_started channels opened (open_channels_ok config open_)
      ∙ bind-ok_at
          (spawn_network files runtime true config.primary_network channels.local_store
            channels.primary_oracle_updates channels.primary_keypair_loader)
          (λ _.
            spawn_secondary files runtime config.secondary_network channels.local_store
              channels.secondary_oracle_updates channels.secondary_keypair_loader
            >> spawn_components files runtime config channels)
          opened tt _
          (spawn_network_ok files runtime true config.primary_network channels.local_store
            channels.primary_oracle_updates channels.primary_keypair_loader opened keys e o x)
      ∙ bind-ok_at
          (spawn_secondary files runtime config.secondary_network channels.local_store
            channels.secondary_oracle_updates channels.secondary_keypair_loader)
          (λ _. spawn_components files runtime config channels) _ tt _
          (spawn_secondary_ok config.secondary_network secondary _)

  pub spawn_runs :
      (config : AgentConfig)
      → (spawn files runtime config nothing_started).0 ≡ ok tt
      → Starts config
  unfolding spawn spawn_tasks
  spawn_runs config h =
      let (ch, made, tasks) =
        bind-runs (open_channels files runtime config) (spawn_tasks files runtime config)
          nothing_started h in
      let w = (open_channels files runtime config nothing_started).1 in
      let first =
        bind-runs
          (spawn_network files runtime true config.primary_network ch.local_store
            ch.primary_oracle_updates ch.primary_keypair_loader)
          (λ _.
            spawn_secondary files runtime config.secondary_network ch.local_store
              ch.secondary_oracle_updates ch.secondary_keypair_loader
            >> spawn_components files runtime config ch)
          w tasks in
      let second =
        bind-runs
          (spawn_secondary files runtime config.secondary_network ch.local_store
            ch.secondary_oracle_updates ch.secondary_keypair_loader)
          (λ _. spawn_components files runtime config ch) _ first.2 in
      (
        open_channels_runs config ch made,
        spawn_network_runs files runtime true config.primary_network ch.local_store
            ch.primary_oracle_updates ch.primary_keypair_loader w first.1,
        spawn_secondary_runs config.secondary_network ch.local_store ch.secondary_oracle_updates
            ch.secondary_keypair_loader _ second.1,
      )

  -- The agent starts exactly if the runtime takes the capacities and periods of the configuration and
  -- the key stores of its networks can be read.
  pub spawn-ok_iff :
      (config : AgentConfig)
      → ((spawn files runtime config nothing_started).0 ≡ ok tt) ↔ Starts config
  spawn-ok_iff config = (spawn_runs config, λ starts. ap (λ r. r.0) (spawn_ok config starts))
