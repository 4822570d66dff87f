-- ===== src/Exporter/Publish/Record.antt =====
-- What a round of the exporter records as published.
use pyth_agent.Prelude.{
  ◌≡◌, ◌⊎◌, inl, inr, refl, sym, subst, ◌∙◌, true, [], ◌∷◌, none, some, Result, ok, err, arith, In,
  retain, In-retain, Bool-cases, Option-cases, ◌==◌,
}
use pyth_agent.Prelude.Int.{◌<ℤ◌}
use pyth_agent.Prelude.Maps.{lookup, contains, nat_key}
use pyth_agent.Solana.{Identifier, Env}
use pyth_agent.KeyStore.{KeyStore}
use pyth_agent.Store.Price.{PriceInfo}
use pyth_agent.Store.Local.{Prices}
use pyth_agent.Exporter.{
  Config, State, fresh_updates, is_due, is_recent, is_newer, permissioned_updates,
  update_our_prices,
}
use pyth_agent.Exporter.Instruction.{Chain, Error}
use pyth_agent.Exporter.Batch.{chunks}
use pyth_agent.Exporter.Batch.Chunks.{chunks_partition}
use pyth_agent.Exporter.Publish.{
  Inputs, Output, finish, publish_batches, publish_all, publish_with, publish_updates,
}
use pyth_agent.Exporter.Publish.Finish.{Records, unchanged-Records, finish-Records}

module _ ⦃env : Env⦄ (chain : Chain) (config : Config) (key_store : KeyStore env.Keypair) where
  publish_all-Records :
      (inputs : Inputs env.Keypair) (kp : env.Keypair) (s : State) (updates : Prices)
      → Records s updates (publish_all chain config key_store inputs kp s updates)
  unfolding publish_all
  publish_all-Records inputs kp s [] = unchanged-Records s [] _ refl (λ done. refl)
  publish_all-Records inputs kp s (u ∷ us) = elim (Bool-cases (config.max_batch_size == 0)) [
    | inl e ↦ rw (e, publish_all) (unchanged-Records s (u ∷ us) _ refl (λ done. cc))
    | inr e ↦
        let batches = chunks config.max_batch_size (u ∷ us) in
        rw (e, publish_all)
          (subst
            (λ l.
              Records s l (
                finish s batches
                  (publish_batches chain config key_store kp inputs.batch 0 batches)))
            (chunks_partition config.max_batch_size (u ∷ us) (ground arith)).0
            (finish-Records s batches
              (publish_batches chain config key_store kp inputs.batch 0 batches)))
  ]

  pub publish_all-our_prices :
      (inputs : Inputs env.Keypair) (kp : env.Keypair) (s : State) (updates : Prices)
      → (publish_all chain config key_store inputs kp s updates).state.our_prices ≡ s.our_prices
  unfolding publish_all finish
  publish_all-our_prices inputs kp s [] = refl
  publish_all-our_prices inputs kp s (u ∷ us) = ground arith

  abbrev contents : Inputs env.Keypair → Prices
  contents inputs = elim inputs.local_store_contents [ none ↦ [] | some prices ↦ prices ]

  -- The prices that a round may publish: those of the local store that pass the filters, and that the
  -- publisher is permitted to set as the permissions stand at the round's end.
  abbrev pub candidates : Inputs env.Keypair → State → Output env.Keypair → Prices
  candidates inputs s out =
      permissioned_updates out.state.our_prices
        (fresh_updates config s.last_published_state inputs.now (contents inputs))

  publish_with-Records :
      (inputs : Inputs env.Keypair) (fresh : Prices) (s : State) (r : Result Error env.Keypair)
      → let out = publish_with chain config key_store inputs fresh s r in
        Records s (permissioned_updates out.state.our_prices fresh) out
  unfolding publish_with
  publish_with-Records inputs fresh s (err e) = unchanged-Records s _ _ refl (λ done. cc)
  publish_with-Records inputs fresh s (ok kp) =
      let ours = update_our_prices (env.pubkey kp) inputs.permissions s.our_prices in
      let t : State = record s { our_prices = ours } in
      let r = publish_all-Records inputs kp t (permissioned_updates ours fresh) in
      rw (publish_all-our_prices inputs kp t (permissioned_updates ours fresh)) (record {
        comes_from = r.comes_from;
        keeps = r.keeps;
        ok_records = r.ok_records;
        error_keeps = r.error_keeps;
      })

  -- Whatever a round meets: what it newly records as published comes from the local store, has passed
  -- the filters, and is permitted to the publisher; no older entry is lost; if the round succeeds, each
  -- price account with such a price is recorded with such a price; and if it fails, the record stays as
  -- it was, whichever of its transactions have been sent.
  pub publish_updates-Records :
      (inputs : Inputs env.Keypair) (s : State)
      → let out = publish_updates chain config key_store inputs s in
        Records s (candidates inputs s out) out
  unfolding publish_updates
  publish_updates-Records inputs s = elim (Option-cases inputs.local_store_contents) [
    | inl e ↦ rw (e, publish_updates) (unchanged-Records s _ _ refl (λ done. cc))
    | inr (prices, e) ↦ rw (e, publish_updates) (publish_with-Records inputs _ s _)
  ]

  newer-lt :
      (last : Prices) (k : Identifier) (u v : PriceInfo)
      → lookup k last ≡ some u
      → is_newer last (k, v) ≡ true
      → u.timestamp <ℤ v.timestamp
  unfolding is_newer
  newer-lt last k u v e h = let g = rw (e, is_newer) at h in ground arith

  candidate-newer :
      (inputs : Inputs env.Keypair) (s : State) (out : Output env.Keypair) (k : Identifier)
      (u v : PriceInfo)
      → lookup k s.last_published_state ≡ some u
      → In (k, v) (candidates inputs s out)
      → u.timestamp <ℤ v.timestamp
  unfolding permissioned_updates fresh_updates
  candidate-newer inputs s out k u v e m =
      let last = s.last_published_state in
      let newest = retain (is_newer last) (contents inputs) in
      let recent = retain (is_recent config inputs.now) newest in
      let allowed =
        In-retain (k, v) (λ e. contains e.0 out.state.our_prices)
          (retain (is_due config last) recent) m in
      let due = In-retain (k, v) (is_due config last) recent allowed.0 in
      let young = In-retain (k, v) (is_recent config inputs.now) newest due.0 in
      newer-lt last k u v e (In-retain (k, v) (is_newer last) (contents inputs) young.0).1

  -- An entry of the record is kept as it is or replaced by a price with a later timestamp.
  pub publish_updates-advances :
      (inputs : Inputs env.Keypair) (s : State) (k : Identifier) (u : PriceInfo)
      → lookup k s.last_published_state ≡ some u
      → (v : PriceInfo) × (lookup k
            (publish_updates chain config key_store inputs s).state.last_published_state
          ≡ some v)
        × ((u ≡ v) ⊎ (u.timestamp <ℤ v.timestamp))
  publish_updates-advances inputs s k u e =
      let out = publish_updates chain config key_store inputs s in
      let r = publish_updates-Records inputs s in
      let (v, f) = r.keeps k u e in
      (
        v,
        f,
        elim (r.comes_from k v f) [
          | inl old ↦ inl (let q : some u ≡ some v = sym e ∙ old in cc)
          | inr m ↦ inr (candidate-newer inputs s out k u v e m)
        ],
      )
