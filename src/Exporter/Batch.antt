-- ===== src/Exporter/Batch.antt =====
-- One batch of exporter.rs: `publish_batch`, which reads the local store again, builds a transaction
-- and sends it. What the other tasks and the network do meanwhile is in `BatchInputs`.
pub mod Chunks
pub mod Building
pub mod Transactions
pub mod Sending
use pyth_agent.Prelude.{
  ℕ, zero, suc, ◌+◌, ◌*◌, ◌%◌, ◌^◌, Bool, true, false, List, [], ◌∷◌, ◌++◌, map, Option, none, some,
  Result, ok, err, ok_or, ◌>>=◌, length, take, drop, if◌then◌else◌,
}
use pyth_agent.Prelude.Int.{ℤ, ltb_ℤ, sub_i64, as_i64}
use pyth_agent.Prelude.Maps.{lookup, nat_key}
use pyth_agent.Solana.{Pubkey, Identifier, Env}
use pyth_agent.KeyStore.{KeyStore}
use pyth_agent.Store.Price.{PriceInfo}
use pyth_agent.Store.Local.{Prices}
use pyth_agent.Exporter.{Config, as_secs}
use pyth_agent.Exporter.Instruction.{
  Instruction, Chain, Error, local_store_closed, price_not_found, rpc_failed, monitor_closed,
  create_instruction_without_accumulator, create_instruction_with_accumulator,
}

-- A block's hash and a transaction's signature, as the numbers that their bytes spell.
abbrev pub Hash : Type 0
Hash = ℕ

abbrev pub Signature : Type 0
Signature = ℕ

pub record NetworkState : Type 0 where
  pub blockhash : Hash
  pub current_slot : ℕ

-- An instruction of the transaction: an update, or one of the two of the compute budget program.
pub data TxInstruction : Type 0 where
  upd_price : Instruction → TxInstruction
  set_compute_unit_limit : ℕ → TxInstruction
  set_compute_unit_price : ℕ → TxInstruction

pub record Transaction (Keypair : Type 0) : Type 0 where
  pub instructions : List TxInstruction
  pub payer : Pubkey
  pub signers : List Keypair
  pub blockhash : Hash

-- What the batch meets: the local store's answer, the network state, the clock at each price of the
-- batch, the signature that the network returns, and whether the monitor listens.
pub record BatchInputs : Type 0 where
  pub local_store_contents : Option Prices
  pub network_state : NetworkState
  pub clock : ℕ → ℤ
  pub signature : Option Signature
  pub monitor_open : Bool

-- The result, the transaction that was handed to the network, and the signature that was handed to
-- the monitor.
pub record BatchOutput (Keypair : Type 0) : Type 0 where
  pub result : Result Error (Unit {0})
  pub sent : Option (Transaction Keypair)
  pub monitored : Option Signature

-- `slice::chunks` for a size that is not 0, with fuel: the length of the list is enough.
unfoldable pub chunks_fuel : {A : Type 0} → ℕ → ℕ → List A → List (List A)
chunks_fuel zero size xs = []
chunks_fuel (suc fuel) size [] = []
chunks_fuel (suc fuel) size (x ∷ xs) =
    take size (x ∷ xs) ∷ chunks_fuel fuel size (drop size (x ∷ xs))

unfoldable pub chunks : {A : Type 0} → ℕ → List A → List (List A)
unfolding chunks_fuel
chunks size xs = chunks_fuel (length xs) size xs

unfoldable pub stale_price : Config → ℤ → PriceInfo → Bool
stale_price config now price_info =
    ltb_ℤ (as_i64 (as_secs config.staleness_threshold)) (sub_i64 now price_info.timestamp)

module _ ⦃env : Env⦄ (chain : Chain) (config : Config) (key_store : KeyStore env.Keypair) where
  unfoldable pub create_instruction : Pubkey → Identifier → PriceInfo → ℕ → Result Error Instruction
  unfolding create_instruction_without_accumulator create_instruction_with_accumulator
  create_instruction publish_pubkey identifier price_info slot = elim key_store.accumulator_key [
    | some accumulator ↦
        create_instruction_with_accumulator chain key_store.program_key publish_pubkey identifier
          price_info slot accumulator
    | none ↦
        create_instruction_without_accumulator chain key_store.program_key publish_pubkey identifier
          price_info slot
  ]

  -- The loop over the batch. The price of the local store counts, not the one of the batch.
  unfoldable pub build :
      Pubkey → Prices → ℕ → (clock : ℕ → ℤ) → ℕ → Prices → Result Error (List Instruction)
  unfolding stale_price create_instruction
  build publish_pubkey contents slot clock i [] = ok []
  build publish_pubkey contents slot clock i ((identifier, _) ∷ batch) =
      let rest = build publish_pubkey contents slot clock (suc i) batch in
      ok_or (lookup identifier contents) (price_not_found identifier) >>= λ price_info.
      if stale_price config (clock i) price_info
      then rest
      else (create_instruction publish_pubkey identifier price_info slot >>= λ instruction.
          rest >>= λ instructions. ok (instruction ∷ instructions))

  -- The compute unit limit is a product of `u32`s.
  unfoldable pub compute_budget : ℕ → List TxInstruction
  compute_budget count =
      set_compute_unit_limit ((config.compute_unit_limit * count) % 2 ^ 32)
      ∷ elim config.compute_unit_price_micro_lamports [
        | some micro_lamports ↦ set_compute_unit_price micro_lamports ∷ []
        | none ↦ []
      ]

  unfoldable pub transaction : env.Keypair → Hash → List Instruction → Transaction env.Keypair
  unfolding compute_budget
  transaction publish_keypair blockhash instructions = record {
    instructions = map upd_price instructions ++ compute_budget (length instructions);
    payer = env.pubkey publish_keypair;
    signers = publish_keypair ∷ [];
    blockhash = blockhash;
  }

  -- The transaction is sent first; then the monitor is told its signature.
  unfoldable pub submit : BatchInputs → Transaction env.Keypair → BatchOutput env.Keypair
  submit inputs tx = elim inputs.signature [
    | none ↦ record { result = err rpc_failed; sent = some tx; monitored = none }
    | some signature ↦
        if inputs.monitor_open
        then record { result = ok tt; sent = some tx; monitored = some signature }
        else record { result = err monitor_closed; sent = some tx; monitored = none }
  ]

  abbrev failed : Error → BatchOutput env.Keypair
  failed e = record { result = err e; sent = none; monitored = none }

  unfoldable pub publish_built :
      env.Keypair → BatchInputs → Result Error (List Instruction) → BatchOutput env.Keypair
  unfolding transaction submit
  publish_built publish_keypair inputs (err e) = failed e
  publish_built publish_keypair inputs (ok instructions) =
      submit inputs (transaction publish_keypair inputs.network_state.blockhash instructions)

  -- With the local store's answer.
  unfoldable pub publish_refreshed :
      env.Keypair → BatchInputs → Prices → Option Prices → BatchOutput env.Keypair
  unfolding build publish_built
  publish_refreshed publish_keypair inputs batch none = failed local_store_closed
  publish_refreshed publish_keypair inputs batch (some contents) =
      publish_built publish_keypair inputs (
        build (env.pubkey publish_keypair) contents inputs.network_state.current_slot inputs.clock 0
          batch)

  unfoldable pub publish_batch : env.Keypair → BatchInputs → Prices → BatchOutput env.Keypair
  unfolding publish_refreshed
  publish_batch publish_keypair inputs batch =
      publish_refreshed publish_keypair inputs batch inputs.local_store_contents
