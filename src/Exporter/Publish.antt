-- ===== src/Exporter/Publish.antt =====
-- `publish_updates` of exporter.rs, one round of the exporter.
pub mod Finish
pub mod Record
pub mod Permission
pub mod Sources
pub mod Delivery
use pyth_agent.Prelude.{
  ℕ, zero, suc, Bool, true, false, List, [], ◌∷◌, Option, none, some, Result, ok, err, ok_or, ◌>>=◌,
  if◌then◌else◌, ◌==◌,
}
use pyth_agent.Prelude.Int.{ℤ}
use pyth_agent.Prelude.Maps.{extend, nat_key}
use pyth_agent.Solana.{Pubkey, Env}
use pyth_agent.KeyStore.{KeyStore}
use pyth_agent.Store.Local.{Prices}
use pyth_agent.Exporter.{
  Config, Permissions, State, fresh_updates, update_our_prices, permissioned_updates,
}
use pyth_agent.Exporter.Instruction.{
  Chain, Error, local_store_closed, keypair_unavailable, chunk_size_zero,
}
use pyth_agent.Exporter.Batch.{BatchInputs, BatchOutput, chunks, publish_batch}

-- What a round meets: the local store's answer, the clock, the remote loader's answer to a request for
-- a keypair, the messages in the permissions channel, and the inputs of each batch.
pub record Inputs (Keypair : Type 0) : Type 0 where
  pub local_store_contents : Option Prices
  pub now : ℤ
  pub remote_keypair : Option Keypair
  pub permissions : List Permissions
  pub batch : ℕ → BatchInputs

pub record Output (Keypair : Type 0) : Type 0 where
  pub result : Result Error (Unit {0})
  pub batches : List (BatchOutput Keypair)
  pub state : State

-- `collect::<Result<Vec<_>>>` keeps the first error.
unfoldable pub collect : {K : Type 0} → List (BatchOutput K) → Result Error (Unit {0})
collect [] = ok tt
collect (o ∷ os) = o.result >>= λ _. collect os

-- The entries of all batches in one map.
unfoldable pub batch_state : Prices → List Prices → Prices
batch_state acc [] = acc
batch_state acc (b ∷ bs) = batch_state (extend acc b) bs

-- The batches went out: their entries count as published if all batches succeeded.
unfoldable pub finish : {K : Type 0} → State → List Prices → List (BatchOutput K) → Output K
unfolding collect batch_state
finish s batches outputs = elim (collect outputs) [
  | ok _ ↦ record {
    result = ok tt;
    batches = outputs;
    state = record s {
      last_published_state = extend s.last_published_state (batch_state [] batches);
    };
  }
  | err e ↦ record { result = err e; batches = outputs; state = s }
]

module _ ⦃env : Env⦄ (chain : Chain) (config : Config) (key_store : KeyStore env.Keypair) where
  -- The configured keypair, copied through its bytes, or else the remote loader's.
  unfoldable pub publish_keypair : Inputs env.Keypair → Result Error env.Keypair
  publish_keypair inputs = elim key_store.publish_keypair [
    | some kp ↦ ok_or (env.from_bytes (env.to_bytes kp)) keypair_unavailable
    | none ↦ ok_or inputs.remote_keypair keypair_unavailable
  ]

  unfoldable pub publish_batches :
      env.Keypair → (ℕ → BatchInputs) → ℕ → List Prices → List (BatchOutput env.Keypair)
  publish_batches kp inputs i [] = []
  publish_batches kp inputs i (b ∷ bs) =
      publish_batch chain config key_store kp (inputs i) b ∷ publish_batches kp inputs (suc i) bs

  -- `chunks` panics on the size 0.
  unfoldable pub publish_all :
      Inputs env.Keypair → env.Keypair → State → Prices → Output env.Keypair
  unfolding publish_batches finish chunks
  publish_all inputs kp s [] = record { result = ok tt; batches = []; state = s }
  publish_all inputs kp s (u ∷ us) =
      if config.max_batch_size == 0
      then record { result = err chunk_size_zero; batches = []; state = s }
      else (let batches = chunks config.max_batch_size (u ∷ us) in
          finish s batches (publish_batches kp inputs.batch 0 batches))

  -- The known permissions are brought up to date before the prices are filtered by them.
  unfoldable pub publish_with :
      Inputs env.Keypair → Prices → State → Result Error env.Keypair → Output env.Keypair
  unfolding publish_all update_our_prices permissioned_updates
  publish_with inputs fresh s (err e) = record { result = err e; batches = []; state = s }
  publish_with inputs fresh s (ok kp) =
      let ours = update_our_prices (env.pubkey kp) inputs.permissions s.our_prices in
      publish_all inputs kp (record s { our_prices = ours }) (permissioned_updates ours fresh)

  unfoldable pub publish_updates : Inputs env.Keypair → State → Output env.Keypair
  unfolding publish_with publish_keypair fresh_updates
  publish_updates inputs s = elim inputs.local_store_contents [
    | none ↦ record { result = err local_store_closed; batches = []; state = s }
    | some contents ↦
        publish_with inputs (fresh_updates config s.last_published_state inputs.now contents) s
          (publish_keypair inputs)
  ]
