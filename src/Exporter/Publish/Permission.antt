-- ===== src/Exporter/Publish/Permission.antt =====
-- The exporter sends updates of permitted prices only.
use pyth_agent.Prelude.{
  ℕ, suc, ◌≡◌, inl, inr, subst, true, List, [], ◌∷◌, ◌++◌, map, some, Result, ok, err, arith, In,
  All, All-mono, In-retain, In-append_left, In-append_right, Bool-cases, Option-cases, ◌==◌, length,
}
use mathlib.Core.List.{flatten}
use pyth_agent.Prelude.Maps.{contains, nat_key}
use pyth_agent.Solana.{Pubkey, Identifier, Env}
use pyth_agent.KeyStore.{KeyStore}
use pyth_agent.Store.Price.{PriceInfo}
use pyth_agent.Store.Local.{Prices}
use pyth_agent.Exporter.{Config, State, permissioned_updates, update_our_prices}
use pyth_agent.Exporter.Instruction.{Chain, Error, Instruction}
use pyth_agent.Exporter.Batch.{
  BatchInputs, BatchOutput, Transaction, upd_price, compute_budget, create_instruction, chunks,
}
use pyth_agent.Exporter.Batch.Chunks.{chunks_partition}
use pyth_agent.Exporter.Batch.Building.{MadeFor-In}
use pyth_agent.Exporter.Batch.Transactions.{publish_batch-SentFor}
use pyth_agent.Exporter.Publish.{
  Inputs, finish, publish_batches, publish_all, publish_with, publish_updates,
}

pub finish-batches :
    {K : Type 0} (s : State) (batches : List Prices) (outputs : List (BatchOutput K))
    → ((finish s batches outputs).batches ≡ outputs)
      × ((finish s batches outputs).state.our_prices ≡ s.our_prices)
unfolding finish
finish-batches s batches outputs = ground arith

module _ ⦃env : Env⦄ (chain : Chain) (config : Config) (key_store : KeyStore env.Keypair) where
  -- The instruction publishes some price for one of the keys `ours`.
  pub record IsPermitted (ours : List Pubkey) (ins : Instruction) : Type 0 where
    pub identifier : Identifier
    pub permitted : contains identifier ours ≡ true
    pub publisher : Pubkey
    pub price_info : PriceInfo
    pub slot : ℕ
    pub made :
        create_instruction chain config key_store publisher identifier price_info slot ≡ ok ins

  -- A transaction is made of permitted updates and the compute budget for their number.
  pub record PermittedOnly (ours : List Pubkey) (tx : Transaction env.Keypair) : Type 0 where
    pub updates : List Instruction
    pub instructions :
        tx.instructions
        ≡ map upd_price updates ++ compute_budget chain config key_store (length updates)
    pub permitted : All (IsPermitted ours) updates

  abbrev pub Obeys : List Pubkey → List (BatchOutput env.Keypair) → Type 0
  Obeys ours outputs =
      (o : BatchOutput env.Keypair) (tx : Transaction env.Keypair)
      → In o outputs
      → o.sent ≡ some tx
      → PermittedOnly ours tx

  publish_batches-Obeys :
      (kp : env.Keypair) (inputs : ℕ → BatchInputs) (i : ℕ) (ours : List Pubkey)
      (batches : List Prices)
      → ((e : Identifier × PriceInfo) → In e (flatten batches) → contains e.0 ours ≡ true)
      → Obeys ours (publish_batches chain config key_store kp inputs i batches)
  unfolding publish_batches flatten
  publish_batches-Obeys kp inputs i ours [] h o tx m e = absurd m
  publish_batches-Obeys kp inputs i ours (b ∷ bs) h o tx (inl same) e =
      let sent = publish_batch-SentFor chain config key_store kp (inputs i) b tx (rw same e) in
      record {
        updates = sent.updates;
        instructions = sent.instructions;
        permitted =
            All-mono sent.updates
              (λ ins made. record {
                identifier = made.identifier;
                permitted =
                    h (made.identifier, made.given)
                      (In-append_left _ b (flatten bs)
                        (MadeFor-In chain config key_store _ _ _ _ _ b ins made));
                publisher = env.pubkey kp;
                price_info = made.price_info;
                slot = (inputs i).network_state.current_slot;
                made = made.made;
              })
              sent.made_for;
      }
  publish_batches-Obeys kp inputs i ours (b ∷ bs) h o tx (inr m) e =
      publish_batches-Obeys kp inputs (suc i) ours bs
        (λ x n. h x (In-append_right x b (flatten bs) n)) o tx m e

  publish_all-Obeys :
      (inputs : Inputs env.Keypair) (kp : env.Keypair) (s : State) (updates : Prices)
      → ((e : Identifier × PriceInfo) → In e updates → contains e.0 s.our_prices ≡ true)
      → let out = publish_all chain config key_store inputs kp s updates in
        Obeys out.state.our_prices out.batches
  unfolding publish_all
  publish_all-Obeys inputs kp s [] h = λ o tx m e. absurd m
  publish_all-Obeys inputs kp s (u ∷ us) h = elim (Bool-cases (config.max_batch_size == 0)) [
    | inl zero ↦ rw (zero, publish_all) (λ o tx m e. absurd m)
    | inr more ↦
        let batches = chunks config.max_batch_size (u ∷ us) in
        let outputs = publish_batches chain config key_store kp inputs.batch 0 batches in
        let both = finish-batches s batches outputs in
        rw (more, publish_all)
          (rw (both.0, both.1)
            (publish_batches-Obeys kp inputs.batch 0 s.our_prices batches (λ x n.
              h x (
                subst (In x) (chunks_partition config.max_batch_size (u ∷ us) (ground arith)).0
                  n))))
  ]

  publish_with-Obeys :
      (inputs : Inputs env.Keypair) (fresh : Prices) (s : State) (r : Result Error env.Keypair)
      → let out = publish_with chain config key_store inputs fresh s r in
        Obeys out.state.our_prices out.batches
  unfolding publish_with permissioned_updates
  publish_with-Obeys inputs fresh s (err e) = λ o tx m h. absurd m
  publish_with-Obeys inputs fresh s (ok kp) =
      let ours = update_our_prices (env.pubkey kp) inputs.permissions s.our_prices in
      publish_all-Obeys inputs kp (record s { our_prices = ours }) (permissioned_updates ours fresh)
        (λ x n. (In-retain x (λ e. contains e.0 ours) fresh n).1)

  -- Whatever a round meets: each transaction that it sends is made of update instructions for price
  -- accounts in the permissions that the publisher has at the end of the round, followed by the
  -- compute budget.
  pub publish_updates-Obeys :
      (inputs : Inputs env.Keypair) (s : State)
      → let out = publish_updates chain config key_store inputs s in
        Obeys out.state.our_prices out.batches
  unfolding publish_updates
  publish_updates-Obeys inputs s = elim (Option-cases inputs.local_store_contents) [
    | inl e ↦ rw (e, publish_updates) (λ o tx m h. absurd m)
    | inr (prices, e) ↦ rw (e, publish_updates) (publish_with-Obeys inputs _ s _)
  ]
