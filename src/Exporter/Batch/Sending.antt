-- ===== src/Exporter/Batch/Sending.antt =====
-- When a batch is sent.
use pyth_agent.Prelude.{
  In-map, ℕ, suc, ◌≡◌, inl, inr, refl, sym, subst, ◌∙◌, true, false, List, [], ◌∷◌, map, some, ok,
  In, In-append_left, Bool-cases, Option-cases, Result-cases,
}
use pyth_agent.Prelude.Int.{ℤ}
use pyth_agent.Prelude.Maps.{lookup, nat_key}
use pyth_agent.Solana.{Pubkey, Identifier, Env}
use pyth_agent.KeyStore.{KeyStore}
use pyth_agent.Store.Price.{PriceInfo}
use pyth_agent.Store.Local.{Prices}
use pyth_agent.Exporter.{Config}
use pyth_agent.Exporter.Instruction.{
  Chain, Instruction, UpdPriceCmd, upd_price_cmd, create_instruction_without_accumulator,
  create_instruction_with_accumulator,
}
use pyth_agent.Exporter.Batch.Transactions.{submit-sent}
use pyth_agent.Exporter.Batch.{
  BatchInputs, Transaction, upd_price, stale_price, create_instruction, build, transaction,
  publish_built, publish_refreshed, publish_batch,
}

-- Every command has an encoding.
abbrev pub Encodes : Chain → Type 0
Encodes chain = (cmd : UpdPriceCmd) → (bytes : List ℕ) × (chain.serialize cmd ≡ some bytes)

-- The local store has each price of the batch.
abbrev pub HasAll : Prices → Prices → Type 0
HasAll contents batch =
    (e : Identifier × PriceInfo)
    → In e batch
    → (info : PriceInfo) × (lookup e.0 contents ≡ some info)

-- A transaction has the update instruction of each price of the batch, with the value that the local
-- store has, that is not too old at any reading of the clock.
abbrev pub HasEachSent :
    ⦃env : Env⦄
    → Chain
    → Config
    → KeyStore env.Keypair
    → env.Keypair
    → BatchInputs
    → Prices
    → Prices
    → Transaction env.Keypair
    → Type 0
HasEachSent ⦃env⦄ chain config key_store kp inputs contents batch tx =
    (e : Identifier × PriceInfo) (info : PriceInfo)
    → In e batch
    → lookup e.0 contents ≡ some info
    → ((i : ℕ) → stale_price config (inputs.clock i) info ≡ false)
    → (ins : Instruction) × (create_instruction chain config key_store (env.pubkey kp) e.0 info
          inputs.network_state.current_slot
        ≡ ok ins)
      × In (upd_price ins) tx.instructions

module _ ⦃env : Env⦄ (chain : Chain) (config : Config) (key_store : KeyStore env.Keypair)
    (encodes : Encodes chain) where
  create_instruction_ok :
      (pk id : Pubkey) (info : PriceInfo) (slot : ℕ)
      → (ins : Instruction) × (create_instruction chain config key_store pk id info slot ≡ ok ins)
  unfolding create_instruction create_instruction_without_accumulator
      create_instruction_with_accumulator
  create_instruction_ok pk id info slot =
      let (bytes, e) = encodes (upd_price_cmd info slot) in
      elim (Result-cases (create_instruction chain config key_store pk id info slot)) [
        | inl (ins, made) ↦ (ins, made)
        | inr (x, bad) ↦ elim (Option-cases key_store.accumulator_key) [
          | inl f ↦
              let h =
                rw (f, create_instruction, e, create_instruction_without_accumulator) at bad in
              absurd cc
          | inr (a, f) ↦
              let h = rw (f, create_instruction, e, create_instruction_with_accumulator) at bad in
              absurd cc
        ]
      ]

  -- Each price of the batch that never is too old by the clock has its instruction.
  abbrev pub HasEach : Pubkey → Prices → ℕ → (ℕ → ℤ) → Prices → List Instruction → Type 0
  HasEach pk contents slot clock batch xs =
      (e : Identifier × PriceInfo) (info : PriceInfo)
      → In e batch
      → lookup e.0 contents ≡ some info
      → ((i : ℕ) → stale_price config (clock i) info ≡ false)
      → (ins : Instruction) × (create_instruction chain config key_store pk e.0 info slot ≡ ok ins)
        × In ins xs

  module _ (pk : Pubkey) (contents : Prices) (slot : ℕ) (clock : ℕ → ℤ) (id : Identifier)
      (given info : PriceInfo) (batch : Prices) (xs : List Instruction)
      (f : lookup id contents ≡ some info) (each : HasEach pk contents slot clock batch xs) where
    same_info :
        (e : Identifier × PriceInfo) (other : PriceInfo)
        → (id, given) ≡ e
        → lookup e.0 contents ≡ some other
        → info ≡ other
    same_info e other here l =
        let l' = subst (λ x. lookup x.0 contents ≡ some other) (sym here) l in cc

    HasEach-skip :
        (i : ℕ)
        → stale_price config (clock i) info ≡ true
        → HasEach pk contents slot clock ((id, given) ∷ batch) xs
    HasEach-skip i old e other (inl here) l fresh =
        let g =
          subst (λ x. stale_price config (clock i) x ≡ false) (sym (same_info e other here l))
            (fresh i) in
        let clash : true ≡ false = sym old ∙ g in absurd cc
    HasEach-skip i old e other (inr m) l fresh = each e other m l fresh

    HasEach-cons :
        (ins : Instruction)
        → create_instruction chain config key_store pk id info slot ≡ ok ins
        → HasEach pk contents slot clock ((id, given) ∷ batch) (ins ∷ xs)
    HasEach-cons ins made e other (inl here) l fresh = (
      ins,
      subst (λ x. create_instruction chain config key_store pk e.0 x slot ≡ ok ins)
          (same_info e other here l)
          (subst (λ x. create_instruction chain config key_store pk x.0 info slot ≡ ok ins) here
            made),
      inl refl,
    )
    HasEach-cons ins made e other (inr m) l fresh =
        let (one, r, found) = each e other m l fresh in (one, r, inr found)

  build_all :
      (pk : Pubkey) (contents : Prices) (slot : ℕ) (clock : ℕ → ℤ) (i : ℕ) (batch : Prices)
      → HasAll contents batch
      → (xs : List Instruction) × (build chain config key_store pk contents slot clock i batch
          ≡ ok xs)
        × HasEach pk contents slot clock batch xs
  unfolding build
  build_all pk contents slot clock i [] h = ([], refl, λ e info m f s. absurd m)
  build_all pk contents slot clock i ((id, given) ∷ batch) h =
      let (info, f) = h (id, given) (inl refl) in
      let (xs, g, each) = build_all pk contents slot clock (suc i) batch (λ e m. h e (inr m)) in
      let (ins, made) = create_instruction_ok pk id info slot in
      elim (Bool-cases (stale_price config (clock i) info)) [
        | inl old ↦ (
          xs,
          rw (f, build, old) g,
          HasEach-skip pk contents slot clock id given info batch xs f each i old,
        )
        | inr fresh ↦ (
          ins ∷ xs,
          rw (f, build, fresh, made, g) refl,
          HasEach-cons pk contents slot clock id given info batch xs f each ins made,
        )
      ]

  built_sent :
      (kp : env.Keypair) (inputs : BatchInputs) (contents : Prices) (batch : Prices)
      (xs : List Instruction)
      → inputs.local_store_contents ≡ some contents
      → build chain config key_store
          (env.pubkey kp)
          contents
          inputs.network_state.current_slot
          inputs.clock
          0
          batch
        ≡ ok xs
      → (publish_batch chain config key_store kp inputs batch).sent
        ≡ some (transaction chain config key_store kp inputs.network_state.blockhash xs)
  unfolding publish_batch publish_refreshed publish_built
  built_sent kp inputs contents batch xs f g =
      rw (f, publish_batch, publish_refreshed, g, publish_built)
        (submit-sent chain config key_store inputs
          (transaction chain config key_store kp inputs.network_state.blockhash xs))

  pub publish_batch-sends :
      (kp : env.Keypair) (inputs : BatchInputs) (contents batch : Prices)
      → inputs.local_store_contents ≡ some contents
      → HasAll contents batch
      → (tx : Transaction env.Keypair) × ((publish_batch chain config key_store kp inputs
            batch).sent
          ≡ some tx)
        × HasEachSent chain config key_store kp inputs contents batch tx
  unfolding transaction
  publish_batch-sends kp inputs contents batch f h =
      let slot = inputs.network_state.current_slot in
      let (xs, g, each) = build_all (env.pubkey kp) contents slot inputs.clock 0 batch h in
      (
        transaction chain config key_store kp inputs.network_state.blockhash xs,
        built_sent kp inputs contents batch xs f g,
        λ e info m l fresh.
            let (ins, made, found) = each e info m l fresh in
            (
              ins,
              made,
              In-append_left (upd_price ins) (map upd_price xs) _ (In-map upd_price ins xs found),
            ),
      )
