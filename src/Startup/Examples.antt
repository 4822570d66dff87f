-- ===== src/Startup/Examples.antt =====
-- The start at concrete configurations, with a runtime that refuses zero and a file system that holds
-- one text in every file.
use pyth_agent.Prelude.{
  ℕ, true, false, not, ◌==◌, ◌≡◌, refl, ◌↔◌, [], Option, none, some, String, ok, err, length,
}
use pyth_agent.Samples.{sample_env, letters}
use pyth_agent.KeyStore as Keys
use pyth_agent.KeyStore.{KeyStore, Files}
use pyth_agent.Startup.Config.{default_agent, default_network, AgentConfig, default_capacities}
use pyth_agent.Startup.Tasks.{
  nothing_started, Runtime, new_channel, require, start, channel, broadcast,
}
use pyth_agent.Startup.Program.{start_agent, spawn, spawn_components, spawn_loader, open_channels}
use pyth_agent.Startup.Main.{success, panic, main}
use pyth_agent.Startup.Conditions.{Starts, after_spawn, spawn_ok, spawn-ok_iff}
use pyth_agent.Startup.Wiring.{IsWired, spawn-IsWired}
use pyth_agent.Startup.Failure.{main-keys_unread}

abbrev files_with : Option String → Files ℕ
files_with text = record {
  join = λ dir file. file;
  read_keypair_file = λ path. none;
  read_to_string = λ path. text;
  trim = λ s. s;
}

abbrev tokio : Runtime
tokio = record {
  takes_capacity = λ n. not (n == 0);
  takes_broadcast_capacity = λ n. not (n == 0);
  takes_period = λ d. not (d == 0);
}

-- Both networks, the secondary one without a subscriber.
abbrev two_networks : AgentConfig
two_networks = record default_agent {
  secondary_network = some (record default_network {
    oracle = record default_network.oracle { subscriber_enabled = false };
  });
}

abbrev readable : Files ℕ
readable = files_with (some "key")

abbrev sample_keys : KeyStore ℕ
sample_keys = record {
  publish_keypair = none;
  program_key = 3;
  mapping_key = 3;
  accumulator_key = none;
}

starts : Starts readable tokio two_networks
unfolding Keys.new Keys.pubkey_from_path Keys.read_accumulator_key letters
starts = (
  (refl, refl, refl, refl, refl, refl, refl),
  ((sample_keys, refl), (refl, refl, refl), (refl, refl, refl, refl)),
  ((sample_keys, refl), (refl, refl, refl), (refl, refl, refl, refl)),
)

spawn-ok_iff_example :
    ((spawn readable tokio two_networks nothing_started).0 ≡ ok tt)
    ↔ Starts readable tokio two_networks
spawn-ok_iff_example = spawn-ok_iff readable tokio two_networks

spawn-IsWired_example : IsWired two_networks (after_spawn readable tokio two_networks starts).tasks
spawn-IsWired_example =
    spawn-IsWired readable tokio two_networks (after_spawn readable tokio two_networks starts)
      (spawn_ok readable tokio two_networks starts)

unread :
    Keys.new (files_with none) default_agent.primary_network.key_store ≡ err Keys.Error.program_key
unfolding Keys.new Keys.pubkey_from_path Keys.read_accumulator_key
unread = refl

main-keys_unread_example :
    main (files_with none) tokio true (some default_agent) true
    ≡ (success, record { next = 9; tasks = [] })
main-keys_unread_example =
    main-keys_unread (files_with none) tokio default_agent Keys.Error.program_key
      (refl, refl, refl, refl, refl, refl, refl) refl unread

-- A secondary network adds five tasks, its subscriber being off.
tasks_of_two_networks : length (after_spawn readable tokio two_networks starts).tasks ≡ 18
unfolding starts spawn_components start spawn_loader
tasks_of_two_networks = refl

-- A capacity of zero ends the process by a panic.
no_capacity :
    (main readable tokio true
      (some (record default_agent {
        channel_capacities = record default_capacities { local_store = 0 };
      }))
      true).0
    ≡ panic
unfolding main start_agent spawn open_channels channel broadcast require new_channel
no_capacity = refl
