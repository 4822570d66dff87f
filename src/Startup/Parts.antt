-- ===== src/Startup/Parts.antt =====
-- When the parts of the start of a network succeed, and what they have started then.
use pyth_agent.Prelude.{
  suc, Bool, true, ◌≡◌, refl, ap, ◌∙◌, [], ◌∷◌, ◌++◌, Result, ok, err, String, arith, inl, inr,
  if◌then◌else◌, Bool-cases, Result-cases,
}
use pyth_agent.Solana.{Env}
use pyth_agent.KeyStore as Keys
use pyth_agent.KeyStore.{KeyStore, Files}
use pyth_agent.Exporter as Exporter
use pyth_agent.Exporter.{Duration}
use pyth_agent.Startup.Config.{OracleConfig, NetworkConfig}
use pyth_agent.Startup.Tasks.{
  Channel, network, subscriber, poller, oracle, network_state_querier, transaction_monitor,
  exporter, Task, World, Error, Runtime, Spawn, ◌>>=◌, lift, new_channel, require, start, when,
  channel, interval,
}
use pyth_agent.Startup.Network.{spawn_oracle, spawn_exporter, spawn_network}

abbrev pub OracleRuns : Runtime → OracleConfig → Type 0
OracleRuns runtime config =
    (runtime.takes_capacity config.updates_channel_capacity ≡ true)
    × (runtime.takes_capacity config.data_channel_capacity ≡ true)
    × (runtime.takes_period config.poll_interval_duration ≡ true)

module _ {K : Type 0} (primary : Bool) where
  -- What `spawn_oracle` makes of the state.
  abbrev pub after_oracle :
      (config : OracleConfig) (rpc_url wss_url : String) (rpc_timeout : Duration)
      (global_store_update_tx publisher_permissions_tx : Channel)
      → KeyStore K
      → World K
      → World K
  after_oracle config rpc_url wss_url rpc_timeout prices permissions keys w =
      let updates = w.next in
      let polled = suc w.next in
      let t : Task K =
        network primary
          (subscriber rpc_url wss_url rpc_timeout config.commitment keys.program_key updates) in
      record {
        next = suc (suc w.next);
        tasks =
            ((if config.subscriber_enabled then w.tasks ++ t ∷ [] else w.tasks)
              ++ network primary (
                  poller polled permissions rpc_url rpc_timeout config.commitment
                    config.poll_interval_duration config.max_lookup_batch_size keys.mapping_key)
                ∷ [])
            ++ network primary (oracle polled updates prices) ∷ [];
      }

module _ {K : Type 0} (runtime : Runtime) (primary : Bool) (config : OracleConfig)
    (rpc_url wss_url : String) (rpc_timeout : Duration) (prices permissions : Channel)
    (keys : KeyStore K) (w : World K) where
  pub spawn_oracle_ok :
      OracleRuns runtime config
      → spawn_oracle runtime primary config rpc_url wss_url rpc_timeout prices permissions keys w
        ≡ (ok tt, after_oracle primary config rpc_url wss_url rpc_timeout prices permissions keys w)
  unfolding spawn_oracle channel require new_channel when interval start
  spawn_oracle_ok (a, b, c) = elim (Bool-cases config.subscriber_enabled) [
    | inl d ↦ rw (a, b, c, d) refl
    | inr d ↦ rw (a, b, c, d) refl
  ]

  pub spawn_oracle_runs :
      (spawn_oracle runtime primary config rpc_url wss_url rpc_timeout prices permissions keys w).0
        ≡ ok tt
      → OracleRuns runtime config
  unfolding spawn_oracle channel require new_channel when interval start
  spawn_oracle_runs h = ground arith

abbrev pub ExporterRuns : Runtime → Exporter.Config → Type 0
ExporterRuns runtime config =
    (runtime.takes_period config.refresh_network_state_interval_duration ≡ true)
    × (runtime.takes_capacity config.inflight_transactions_channel_capacity ≡ true)
    × (runtime.takes_period config.transaction_monitor.poll_interval_duration ≡ true)
    × (runtime.takes_period config.publish_interval_duration ≡ true)

module _ {K : Type 0} (primary : Bool) where
  -- What `spawn_exporter` makes of the state.
  abbrev pub after_exporter :
      (config : Exporter.Config) (rpc_url : String) (rpc_timeout : Duration) (permissions : Channel)
      → KeyStore K
      → (local keypairs : Channel) → World K
      → World K
  after_exporter config rpc_url rpc_timeout permissions keys local keypairs w = record {
    next = suc (suc w.next);
    tasks =
        ((w.tasks
            ++ network primary (
                network_state_querier rpc_url rpc_timeout
                  config.refresh_network_state_interval_duration w.next)
              ∷ [])
          ++ network primary
              (transaction_monitor config.transaction_monitor rpc_url rpc_timeout (suc w.next))
            ∷ [])
        ++ network primary (
            exporter config rpc_url rpc_timeout keys local w.next (suc w.next) permissions keypairs)
          ∷ [];
  }

module _ {K : Type 0} (runtime : Runtime) (primary : Bool) (config : Exporter.Config)
    (rpc_url : String) (rpc_timeout : Duration) (permissions : Channel) (keys : KeyStore K)
    (local keypairs : Channel) (w : World K) where
  pub spawn_exporter_ok :
      ExporterRuns runtime config
      → spawn_exporter runtime primary config rpc_url rpc_timeout permissions keys local keypairs w
        ≡ (
          ok tt,
          after_exporter primary config rpc_url rpc_timeout permissions keys local keypairs w,
        )
  unfolding spawn_exporter channel require new_channel interval start
  spawn_exporter_ok (a, b, c, d) = rw (a, b, c, d) refl

  pub spawn_exporter_runs :
      (spawn_exporter runtime primary config rpc_url rpc_timeout permissions keys local keypairs
          w).0
        ≡ ok tt
      → ExporterRuns runtime config
  unfolding spawn_exporter channel require new_channel interval start
  spawn_exporter_runs h = ground arith

module _ {K A : Type 0} (m : Spawn K A) (k : A → Spawn K (Unit {0})) (w : World K) where
  -- What is done after a first part that succeeds.
  pub bind-ok_at : (a : A) (mid : World K) → m w ≡ (ok a, mid) → (m >>= k) w ≡ k a mid
  bind-ok_at a mid e =
      ap
        (λ (r : Result Error A × World K).
          let y : Result Error (Unit {0}) × World K = elim r.0 [
            | ok a ↦ k a r.1
            | err y ↦ (err y, r.1)
          ] in
          y)
        e

  pub bind-runs : ((m >>= k) w).0 ≡ ok tt → (a : A) × ((m w).0 ≡ ok a) × ((k a (m w).1).0 ≡ ok tt)
  bind-runs h = by_result (m w).0 refl h
    where
      by_result :
          (r : Result Error A)
          → (m w).0 ≡ r
          → (let y : Result Error (Unit {0}) × World K = elim r [
            | ok a ↦ k a (m w).1
            | err y ↦ (err y, (m w).1)
          ] in
              y).0
            ≡ ok tt
          → (a : A) × ((m w).0 ≡ ok a) × ((k a (m w).1).0 ≡ ok tt)
      by_result (ok a) e h = (a, e, h)
      by_result (err x) e h = cc

module _ ⦃env : Env⦄ (files : Files env.Keypair) (runtime : Runtime) where
  abbrev pub NetworkRuns : NetworkConfig → Type 0
  NetworkRuns config =
      ((keys : KeyStore env.Keypair) × (Keys.new files config.key_store ≡ ok keys))
      × OracleRuns runtime config.oracle
      × ExporterRuns runtime config.exporter

  abbrev pub after_network :
      (primary : Bool) (config : NetworkConfig) (local prices keypairs : Channel)
      → KeyStore env.Keypair
      → World env.Keypair
      → World env.Keypair
  after_network primary config local prices keypairs keys w =
      after_exporter primary config.exporter config.rpc_url config.rpc_timeout w.next keys local
        keypairs
        (after_oracle primary config.oracle config.rpc_url config.wss_url config.rpc_timeout prices
          w.next keys (record w { next = suc w.next }))

module _ ⦃env : Env⦄ (files : Files env.Keypair) (runtime : Runtime) (primary : Bool)
    (config : NetworkConfig) (local prices keypairs : Channel) (w : World env.Keypair) where
  pub spawn_network_ok :
      (keys : KeyStore env.Keypair)
      → Keys.new files config.key_store ≡ ok keys
      → OracleRuns runtime config.oracle
      → ExporterRuns runtime config.exporter
      → spawn_network files runtime primary config local prices keypairs w
        ≡ (ok tt, after_network files runtime primary config local prices keypairs keys w)
  unfolding spawn_network lift channel require new_channel
  spawn_network_ok keys e o x =
      let opened : World env.Keypair = record w { next = suc w.next } in
      rw (o.0, e)
        (bind-ok_at
            (spawn_oracle runtime primary config.oracle config.rpc_url config.wss_url
              config.rpc_timeout prices w.next keys)
            (λ _. lift (ok keys) >>= λ exporter_keys.
              spawn_exporter runtime primary config.exporter config.rpc_url config.rpc_timeout
                w.next exporter_keys local keypairs)
            opened tt _
            (spawn_oracle_ok runtime primary config.oracle config.rpc_url config.wss_url
              config.rpc_timeout prices w.next keys opened o)
          ∙ spawn_exporter_ok runtime primary config.exporter config.rpc_url config.rpc_timeout
              w.next keys local keypairs _ x)

  pub spawn_network_runs :
      (spawn_network files runtime primary config local prices keypairs w).0 ≡ ok tt
      → NetworkRuns files runtime config
  unfolding spawn_network lift channel require new_channel
  spawn_network_runs h = elim (Result-cases (Keys.new files config.key_store)) [
    | inl (keys, e) ↦
        elim (Bool-cases (runtime.takes_capacity config.oracle.updates_channel_capacity)) [
          | inl a ↦
              let opened : World env.Keypair = record w { next = suc w.next } in
              let both =
                bind-runs
                  (spawn_oracle runtime primary config.oracle config.rpc_url config.wss_url
                    config.rpc_timeout prices w.next keys)
                  (λ _. lift (ok keys) >>= λ exporter_keys.
                    spawn_exporter runtime primary config.exporter config.rpc_url config.rpc_timeout
                      w.next exporter_keys local keypairs)
                  opened (rw (a, e) at h) in
              (
                (keys, e),
                spawn_oracle_runs runtime primary config.oracle config.rpc_url config.wss_url
                    config.rpc_timeout prices w.next keys opened both.1,
                spawn_exporter_runs runtime primary config.exporter config.rpc_url
                    config.rpc_timeout w.next keys local keypairs _ both.2,
              )
          | inr bad ↦ ground arith
        ]
    | inr (x, e) ↦ ground arith
  ]
