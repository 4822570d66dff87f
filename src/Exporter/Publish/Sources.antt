-- ===== src/Exporter/Publish/Sources.antt =====
-- Where the transactions of a round of `publish_updates` in exporter.rs come from.
use pyth_agent.Prelude.{
  ℕ, suc, ◌≡◌, inl, inr, List, [], ◌∷◌, some, Result, ok, err, In, Bool-cases, Option-cases, ◌==◌,
}
use pyth_agent.Solana.{Env}
use pyth_agent.KeyStore.{KeyStore}
use pyth_agent.Store.Local.{Prices}
use pyth_agent.Exporter.{Config, State, permissioned_updates, update_our_prices}
use pyth_agent.Exporter.Instruction.{Chain, Error}
use pyth_agent.Exporter.Batch.{BatchInputs, BatchOutput, Transaction, chunks}
use pyth_agent.Exporter.Batch.Transactions.{SentFor, publish_batch-SentFor}
use pyth_agent.Exporter.Publish.{
  Inputs, publish_batches, publish_all, publish_with, publish_updates,
}
use pyth_agent.Exporter.Publish.Permission.{finish-batches}

module _ ⦃env : Env⦄ (chain : Chain) (config : Config) (key_store : KeyStore env.Keypair) where
  -- The transaction is the one that some batch of the round hands over.
  pub record IsOfBatch (inputs : ℕ → BatchInputs) (tx : Transaction env.Keypair) : Type 0 where
    pub keypair : env.Keypair
    pub number : ℕ
    pub batch : Prices
    pub sent_for : SentFor chain config key_store keypair (inputs number) batch tx

  AreOfBatches : (ℕ → BatchInputs) → List (BatchOutput env.Keypair) → Type 0
  AreOfBatches inputs outputs =
      (o : BatchOutput env.Keypair) (tx : Transaction env.Keypair)
      → In o outputs
      → o.sent ≡ some tx
      → IsOfBatch inputs tx

  publish_batches-AreOfBatches :
      (kp : env.Keypair) (inputs : ℕ → BatchInputs) (i : ℕ) (batches : List Prices)
      → AreOfBatches inputs (publish_batches chain config key_store kp inputs i batches)
  unfolding publish_batches AreOfBatches
  publish_batches-AreOfBatches kp inputs i [] o tx m e = absurd m
  publish_batches-AreOfBatches kp inputs i (b ∷ bs) o tx (inl same) e = record {
    keypair = kp;
    number = i;
    batch = b;
    sent_for = publish_batch-SentFor chain config key_store kp (inputs i) b tx (rw same e);
  }
  publish_batches-AreOfBatches kp inputs i (b ∷ bs) o tx (inr m) e =
      publish_batches-AreOfBatches kp inputs (suc i) bs o tx m e

  publish_all-AreOfBatches :
      (inputs : Inputs env.Keypair) (kp : env.Keypair) (s : State) (updates : Prices)
      → AreOfBatches inputs.batch (publish_all chain config key_store inputs kp s updates).batches
  unfolding publish_all AreOfBatches
  publish_all-AreOfBatches inputs kp s [] = λ o tx m e. absurd m
  publish_all-AreOfBatches inputs kp s (u ∷ us) = elim (Bool-cases (config.max_batch_size == 0)) [
    | inl zero ↦ rw (zero, publish_all) (λ o tx m e. absurd m)
    | inr more ↦
        let batches = chunks config.max_batch_size (u ∷ us) in
        let outputs = publish_batches chain config key_store kp inputs.batch 0 batches in
        rw (more, publish_all)
          (rw ((finish-batches s batches outputs).0)
            (publish_batches-AreOfBatches kp inputs.batch 0 batches))
  ]

  publish_with-AreOfBatches :
      (inputs : Inputs env.Keypair) (fresh : Prices) (s : State) (r : Result Error env.Keypair)
      → AreOfBatches inputs.batch (publish_with chain config key_store inputs fresh s r).batches
  unfolding publish_with AreOfBatches
  publish_with-AreOfBatches inputs fresh s (err e) = λ o tx m h. absurd m
  publish_with-AreOfBatches inputs fresh s (ok kp) =
      let ours = update_our_prices (env.pubkey kp) inputs.permissions s.our_prices in
      publish_all-AreOfBatches inputs kp (record s { our_prices = ours })
        (permissioned_updates ours fresh)

  -- Each transaction that a round sends is the one of a batch.
  pub publish_updates-IsOfBatch :
      (inputs : Inputs env.Keypair) (s : State) (o : BatchOutput env.Keypair)
      (tx : Transaction env.Keypair)
      → In o (publish_updates chain config key_store inputs s).batches
      → o.sent ≡ some tx
      → IsOfBatch inputs.batch tx
  unfolding publish_updates AreOfBatches
  publish_updates-IsOfBatch inputs s = elim (Option-cases inputs.local_store_contents) [
    | inl e ↦ rw (e, publish_updates) (λ o tx m h. absurd m)
    | inr (prices, e) ↦ rw (e, publish_updates) (publish_with-AreOfBatches inputs _ s _)
  ]
