-- ===== src/Startup/Main.antt =====
-- The main function of src/bin/agent.rs. The arguments and the configuration file are read by
-- libraries, and the set-up of logging is left out.
use pyth_agent.Prelude.{Bool, true, false, Option, none, some, ok, err}
use pyth_agent.Solana.{Env}
use pyth_agent.KeyStore.{Files}
use pyth_agent.Startup.Config.{AgentConfig}
use pyth_agent.Startup.Tasks.{World, nothing_started, key_store, panicked, Runtime}
use pyth_agent.Startup.Program.{start_agent}

-- How the process ends: `main` returns `Ok` or an error, or panics. Where the agent has started, that
-- is when all its tasks have ended.
pub data Exit : Type 0 where
  success failure panic : Exit

module _ ⦃env : Env⦄ (files : Files env.Keypair) (runtime : Runtime) where
  -- `main`: whether the file exists, what it holds as a configuration, and whether the working
  -- directory can be told.
  unfoldable pub main :
      (config_exists : Bool) (config : Option AgentConfig) (has_current_dir : Bool)
      → Exit × World env.Keypair
  unfolding start_agent
  main false config has_current_dir = (failure, nothing_started)
  main true none has_current_dir = (failure, nothing_started)
  main true (some c) false = (failure, nothing_started)
  main true (some c) true =
      let (r, w) = start_agent files runtime c nothing_started in
      (elim r [ ok _ ↦ success | err (key_store _) ↦ failure | err panicked ↦ panic ], w)
