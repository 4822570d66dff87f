-- ===== src/Exporter/Batch/Transactions.antt =====
-- The transaction of one batch.
use pyth_agent.Prelude.{
  ◌≤◌, ◌≡◌, refl, sym, subst, ◌∙◌, List, [], ◌∷◌, ◌++◌, map, Option, none, some, Result, ok, err,
  arith, All, length,
}
use pyth_agent.Prelude.Maps.{nat_key}
use pyth_agent.Solana.{Env}
use pyth_agent.KeyStore.{KeyStore}
use pyth_agent.Store.Local.{Prices}
use pyth_agent.Exporter.{Config}
use pyth_agent.Exporter.Instruction.{Chain, Error, Instruction}
use pyth_agent.Exporter.Batch.{
  BatchInputs, Transaction, upd_price, build, compute_budget, transaction, submit, publish_built,
  publish_refreshed, publish_batch,
}
use pyth_agent.Exporter.Batch.Building.{MadeFor, build-MadeFor}

module _ ⦃env : Env⦄ (chain : Chain) (config : Config) (key_store : KeyStore env.Keypair) where
  -- The transaction that a batch hands to the network.
  pub record SentFor (kp : env.Keypair) (inputs : BatchInputs) (batch : Prices)
      (tx : Transaction env.Keypair) : Type 0 where
    pub contents : Prices
    pub refreshed : inputs.local_store_contents ≡ some contents
    pub updates : List Instruction
    pub instructions :
        tx.instructions
        ≡ map upd_price updates ++ compute_budget chain config key_store (length updates)
    pub made_for :
        All
          (MadeFor chain config key_store
            (env.pubkey kp)
            contents
            inputs.network_state.current_slot
            inputs.clock
            0
            batch)
          updates
    pub at_most : length updates ≤ length batch
    pub signed :
        (tx.payer ≡ env.pubkey kp)
        × (tx.signers ≡ kp ∷ [])
        × (tx.blockhash ≡ inputs.network_state.blockhash)

  pub submit-sent :
      (inputs : BatchInputs) (tx : Transaction env.Keypair)
      → (submit chain config key_store inputs tx).sent ≡ some tx
  unfolding submit
  submit-sent inputs tx = ground arith

  publish_refreshed-sent :
      (kp : env.Keypair) (inputs : BatchInputs) (batch : Prices) (answer : Option Prices)
      (tx : Transaction env.Keypair)
      → (publish_refreshed chain config key_store kp inputs batch answer).sent ≡ some tx
      → (contents : Prices) × (answer ≡ some contents)
        × ((publish_built chain config key_store kp inputs (
              build chain config key_store
                (env.pubkey kp)
                contents
                inputs.network_state.current_slot
                inputs.clock
                0
                batch)).sent
            ≡ some tx)
  unfolding publish_refreshed
  publish_refreshed-sent kp inputs batch none tx e = cc
  publish_refreshed-sent kp inputs batch (some contents) tx e = (contents, refl, e)

  publish_built-sent :
      (kp : env.Keypair) (inputs : BatchInputs) (r : Result Error (List Instruction))
      (tx : Transaction env.Keypair)
      → (publish_built chain config key_store kp inputs r).sent ≡ some tx
      → (xs : List Instruction) × (r ≡ ok xs)
        × (transaction chain config key_store kp inputs.network_state.blockhash xs ≡ tx)
  unfolding publish_built
  publish_built-sent kp inputs (err x) tx e = cc
  publish_built-sent kp inputs (ok xs) tx e = (
    xs,
    refl,
    some_inj (
        sym (
          submit-sent inputs
            (transaction chain config key_store kp inputs.network_state.blockhash xs))
        ∙ e),
  )
    where
      some_inj : {a b : Transaction env.Keypair} → some a ≡ some b → a ≡ b
      some_inj h = cc

  transaction-SentFor :
      (kp : env.Keypair) (inputs : BatchInputs) (batch contents : Prices) (xs : List Instruction)
      → inputs.local_store_contents ≡ some contents
      → build chain config key_store
          (env.pubkey kp)
          contents
          inputs.network_state.current_slot
          inputs.clock
          0
          batch
        ≡ ok xs
      → SentFor kp inputs batch
          (transaction chain config key_store kp inputs.network_state.blockhash xs)
  unfolding transaction
  transaction-SentFor kp inputs batch contents xs f g =
      let r =
        build-MadeFor chain config key_store (env.pubkey kp) contents
          inputs.network_state.current_slot inputs.clock 0 batch xs g in
      record {
        contents = contents;
        refreshed = f;
        updates = xs;
        instructions = refl;
        made_for = r.0;
        at_most = r.1;
        signed = (refl, refl, refl);
      }

  pub publish_batch-SentFor :
      (kp : env.Keypair) (inputs : BatchInputs) (batch : Prices) (tx : Transaction env.Keypair)
      → (publish_batch chain config key_store kp inputs batch).sent ≡ some tx
      → SentFor kp inputs batch tx
  unfolding publish_batch
  publish_batch-SentFor kp inputs batch tx e =
      let (contents, f, sent) =
        publish_refreshed-sent kp inputs batch inputs.local_store_contents tx e in
      let (xs, g, same) = publish_built-sent kp inputs _ tx sent in
      subst (SentFor kp inputs batch) same (transaction-SentFor kp inputs batch contents xs f g)
