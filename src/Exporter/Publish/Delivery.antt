-- ===== src/Exporter/Publish/Delivery.antt =====
-- A round of `publish_updates` in exporter.rs sends what it may publish, in batches of the size that is
-- configured.
use pyth_agent.Prelude.{
  ℕ, suc, ◌≡◌, ◌<◌, inl, inr, refl, sym, subst, retain, List, [], ◌∷◌, ◌++◌, some, ok, arith, In,
  In-retain, In-append_left, In-append_right, Bool-cases, ◌==◌,
}
use mathlib.Core.List.{flatten}
use pyth_agent.Prelude.Maps.{contains, nat_key}
use pyth_agent.Solana.{Identifier, Env}
use pyth_agent.KeyStore.{KeyStore}
use pyth_agent.Store.Price.{PriceInfo}
use pyth_agent.Store.Local.{Prices}
use pyth_agent.Exporter.{
  Config, State, fresh_updates, is_due, is_recent, is_newer, permissioned_updates,
  update_our_prices,
}
use pyth_agent.Exporter.Instruction.{Chain}
use pyth_agent.Exporter.Batch.{BatchInputs, BatchOutput, Transaction, chunks}
use pyth_agent.Exporter.Batch.Chunks.{AreFilled, chunks_partition}
use pyth_agent.Exporter.Batch.Transactions.{SentFor, publish_batch-SentFor}
use pyth_agent.Exporter.Batch.Sending.{Encodes, HasAll, HasEachSent, publish_batch-sends}
use pyth_agent.Exporter.Publish.{
  Inputs, Output, publish_keypair, publish_batches, publish_all, publish_with, publish_updates,
}
use pyth_agent.Exporter.Publish.Permission.{finish-batches}
use pyth_agent.Exporter.Publish.Record.{publish_all-our_prices, candidates}

module _ ⦃env : Env⦄ (chain : Chain) (config : Config) (key_store : KeyStore env.Keypair) where
  -- A batch's transaction is handed to the network: it holds updates for the batch only, and one for
  -- each price of the batch that is not too old then.
  pub record IsDelivered (kp : env.Keypair) (inputs : BatchInputs) (batch : Prices)
      (o : BatchOutput env.Keypair) : Type 0 where
    pub contents : Prices
    pub answered : inputs.local_store_contents ≡ some contents
    pub tx : Transaction env.Keypair
    pub sent : o.sent ≡ some tx
    pub only : SentFor chain config key_store kp inputs batch tx
    pub each : HasEachSent chain config key_store kp inputs contents batch tx

  -- The outputs are those of the batches, in their order.
  abbrev pub AreDelivered :
      env.Keypair → (ℕ → BatchInputs) → ℕ → List Prices → List (BatchOutput env.Keypair) → Type 0
  AreDelivered kp inputs i [] [] = Unit
  AreDelivered kp inputs i [] (o ∷ os) = ⊥
  AreDelivered kp inputs i (b ∷ bs) [] = ⊥
  AreDelivered kp inputs i (b ∷ bs) (o ∷ os) =
      IsDelivered kp (inputs i) b o × AreDelivered kp inputs (suc i) bs os

  -- The updates are cut into batches of the size that is configured, and each is delivered.
  pub record IsSent (kp : env.Keypair) (inputs : ℕ → BatchInputs) (updates : Prices)
      (out : Output env.Keypair) : Type 0 where
    pub batches : List Prices
    pub joined : flatten batches ≡ updates
    pub filled : AreFilled config.max_batch_size batches
    pub delivered : AreDelivered kp inputs 0 batches out.batches

  -- Whenever a batch reads the local store, it is answered with all of these prices' identifiers.
  abbrev pub StaysThere : (ℕ → BatchInputs) → Prices → Type 0
  StaysThere inputs prices =
      (i : ℕ) → (c : Prices) × ((inputs i).local_store_contents ≡ some c) × HasAll c prices

  StaysThere-mono :
      (inputs : ℕ → BatchInputs) (prices fewer : Prices)
      → StaysThere inputs prices
      → ((e : Identifier × PriceInfo) → In e fewer → In e prices)
      → StaysThere inputs fewer
  StaysThere-mono inputs prices fewer there sub i =
      let (c, f, h) = there i in (c, f, λ e m. h e (sub e m))

  candidates-sub :
      (ours : List Identifier) (last : Prices) (inputs : Inputs env.Keypair) (contents : Prices)
      (e : Identifier × PriceInfo)
      → In e (permissioned_updates ours (fresh_updates config last inputs.now contents))
      → In e contents
  unfolding permissioned_updates fresh_updates
  candidates-sub ours last inputs contents e m =
      let newest = retain (is_newer last) contents in
      let recent = retain (is_recent config inputs.now) newest in
      let allowed = In-retain e (λ e. contains e.0 ours) (retain (is_due config last) recent) m in
      let due = In-retain e (is_due config last) recent allowed.0 in
      let young = In-retain e (is_recent config inputs.now) newest due.0 in
      (In-retain e (is_newer last) contents young.0).0

  module _ (encodes : Encodes chain) (kp : env.Keypair) (inputs : Inputs env.Keypair) where
    publish_batches-AreDelivered :
        (i : ℕ) (batches : List Prices)
        → StaysThere inputs.batch (flatten batches)
        → AreDelivered kp inputs.batch i batches
            (publish_batches chain config key_store kp inputs.batch i batches)
    unfolding publish_batches flatten
    publish_batches-AreDelivered i [] there = tt
    publish_batches-AreDelivered i (b ∷ bs) there =
        let (c, f, h) = there i in
        let (tx, sent, each) =
          publish_batch-sends chain config key_store encodes kp (inputs.batch i) c b f
            (λ e m. h e (In-append_left e b (flatten bs) m)) in
        (
          record {
            contents = c;
            answered = f;
            tx = tx;
            sent = sent;
            only = publish_batch-SentFor chain config key_store kp (inputs.batch i) b tx sent;
            each = each;
          },
          publish_batches-AreDelivered (suc i) bs (
              StaysThere-mono inputs.batch (b ++ flatten bs) (flatten bs) there
                (λ e m. In-append_right e b (flatten bs) m)),
        )

    publish_all-IsSent :
        (s : State) (updates : Prices)
        → 0 < config.max_batch_size
        → StaysThere inputs.batch updates
        → IsSent kp inputs.batch updates (publish_all chain config key_store inputs kp s updates)
    unfolding publish_all flatten
    publish_all-IsSent s [] some_size there = record {
      batches = [];
      joined = refl;
      filled = tt;
      delivered = tt;
    }
    publish_all-IsSent s (u ∷ us) some_size there = elim (Bool-cases (config.max_batch_size == 0)) [
      | inl zero ↦ absurd (ground arith)
      | inr more ↦
          let batches = chunks config.max_batch_size (u ∷ us) in
          let outputs = publish_batches chain config key_store kp inputs.batch 0 batches in
          let cut = chunks_partition config.max_batch_size (u ∷ us) some_size in
          rw (more, publish_all)
            (record {
              batches = batches;
              joined = cut.0;
              filled = cut.1;
              delivered = rw ((finish-batches s batches outputs).0) (
                  publish_batches-AreDelivered 0 batches
                    (subst (StaysThere inputs.batch) (sym cut.0) there));
            })
    ]

    publish_with-IsSent :
        (s : State) (contents : Prices)
        → 0 < config.max_batch_size
        → StaysThere inputs.batch contents
        → let fresh = fresh_updates config s.last_published_state inputs.now contents in
          let out = publish_with chain config key_store inputs fresh s (ok kp) in
          IsSent kp inputs.batch (permissioned_updates out.state.our_prices fresh) out
    unfolding publish_with
    publish_with-IsSent s contents some_size there =
        let ours = update_our_prices (env.pubkey kp) inputs.permissions s.our_prices in
        let t : State = record s { our_prices = ours } in
        let updates =
          permissioned_updates ours
            (fresh_updates config s.last_published_state inputs.now contents) in
        rw (publish_all-our_prices chain config key_store inputs kp t updates) (
          publish_all-IsSent t updates some_size (
            StaysThere-mono inputs.batch contents updates there
              (candidates-sub ours s.last_published_state inputs contents)))

    -- Where every command has an encoding: if the local store answers, there is a keypair, the size of a
    -- batch is above 0, and the local store keeps what it has while the batches are sent, then a round
    -- cuts the prices that it may publish, in their order, into batches of that size, the last not
    -- empty and no larger; and for each batch a transaction is handed to the network, signed by that
    -- keypair, with updates for prices of the batch only, and one for each of them that is not too old
    -- at any reading of the clock.
    pub publish_updates-IsSent :
        (s : State) (contents : Prices)
        → inputs.local_store_contents ≡ some contents
        → publish_keypair chain config key_store inputs ≡ ok kp
        → 0 < config.max_batch_size
        → StaysThere inputs.batch contents
        → let out = publish_updates chain config key_store inputs s in
          IsSent kp inputs.batch (candidates chain config key_store inputs s out) out
    unfolding publish_updates
    publish_updates-IsSent s contents f has some_size there =
        rw (f, publish_updates, has) (publish_with-IsSent s contents some_size there)
