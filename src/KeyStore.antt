-- ===== src/KeyStore.antt =====
-- The `key_store` of src/agent/solana.rs: the keys that a network's tasks work with, read from files.
use pyth_agent.Prelude.{Option, none, some, String, Result, ok, ok_or, ◌>>=◌}
use pyth_agent.Solana.{Pubkey, Env}

-- The paths of the configuration.
pub record Config : Type 0 where
  pub root_path : String
  pub publish_keypair_path : String
  pub program_key_path : String
  pub mapping_key_path : String
  pub accumulator_key_path : Option String

abbrev pub default_config : Config
default_config = record {
  root_path = "";
  publish_keypair_path = "publish_key_pair.json";
  program_key_path = "program_key.json";
  mapping_key_path = "mapping_key.json";
  accumulator_key_path = none;
}

pub record KeyStore (Keypair : Type 0) : Type 0 where
  pub publish_keypair : Option Keypair
  pub program_key : Pubkey
  pub mapping_key : Pubkey
  pub accumulator_key : Option Pubkey

-- Which key could not be read.
pub data Error : Type 0 where
  accumulator_key program_key mapping_key : Error

-- The file system as the libraries show it: joining paths, reading a keypair file, reading a text
-- file, and trimming a text.
pub record Files (Keypair : Type 0) : Type 0 where
  pub join : String → String → String
  pub read_keypair_file : String → Option Keypair
  pub read_to_string : String → Option String
  pub trim : String → String

module _ ⦃env : Env⦄ (files : Files env.Keypair) where
  unfoldable pub pubkey_from_path : String → Option Pubkey
  pubkey_from_path path = elim (files.read_to_string path) [
    | none ↦ none
    | some contents ↦ env.parse (files.trim contents)
  ]

  unfoldable pub read_accumulator_key : String → Option String → Result Error (Option Pubkey)
  unfolding pubkey_from_path
  read_accumulator_key root none = ok none
  read_accumulator_key root (some path) =
      ok_or (pubkey_from_path (files.join root path)) accumulator_key >>= λ k. ok (some k)

  -- A keypair that cannot be read is left out; the other keys are required.
  unfoldable pub new : Config → Result Error (KeyStore env.Keypair)
  unfolding pubkey_from_path read_accumulator_key
  new config = do
    let publish_keypair =
        files.read_keypair_file (files.join config.root_path config.publish_keypair_path)
    accumulator ← read_accumulator_key config.root_path config.accumulator_key_path
    program ←
        ok_or (pubkey_from_path (files.join config.root_path config.program_key_path)) program_key
    mapping ←
        ok_or (pubkey_from_path (files.join config.root_path config.mapping_key_path)) mapping_key
    ok (record {
      publish_keypair = publish_keypair;
      program_key = program;
      mapping_key = mapping;
      accumulator_key = accumulator;
    })
