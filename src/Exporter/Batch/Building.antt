-- ===== src/Exporter/Batch/Building.antt =====
-- The instructions that `publish_batch` in exporter.rs builds for a batch.
use pyth_agent.Prelude.{
  ◌+◌, ◌++◌, ap, All-mono, In-append_right, ℕ, suc, ◌≤◌, ◌≡◌, inl, inr, refl, sym, subst, ◌∙◌,
  false, List, [], ◌∷◌, some, Result, ok, err, arith, In, All, Bool-cases, Option-cases, length,
  ◌>>=◌,
}
use pyth_agent.Prelude.Int.{ℤ, ◌≤ℤ◌, sub_i64, as_i64}
use pyth_agent.Prelude.Maps.{lookup, nat_key}
use pyth_agent.Solana.{Pubkey, Identifier, Env}
use pyth_agent.KeyStore.{KeyStore}
use pyth_agent.Store.Price.{PriceInfo}
use pyth_agent.Store.Local.{Prices}
use pyth_agent.Exporter.{Config, as_secs}
use pyth_agent.Exporter.Instruction.{Chain, Error, Instruction}
use pyth_agent.Exporter.Batch.{stale_price, create_instruction, build}

fresh_bound :
    (config : Config) (now : ℤ) (info : PriceInfo)
    → stale_price config now info ≡ false
    → sub_i64 now info.timestamp ≤ℤ as_i64 (as_secs config.staleness_threshold)
unfolding stale_price
fresh_bound config now info fresh = ground arith

module _ ⦃env : Env⦄ (chain : Chain) (config : Config) (key_store : KeyStore env.Keypair) where
  -- An instruction that publishes, for a place of the batch, the price that the local store has for
  -- its identifier, and which is not too old at the reading of the clock for that place, the readings
  -- being counted from `first`.
  pub record MadeFor (publish_pubkey : Pubkey) (contents : Prices) (slot : ℕ) (clock : ℕ → ℤ)
      (first : ℕ) (batch : Prices) (ins : Instruction) : Type 0 where
    pub earlier : Prices
    pub identifier : Identifier
    pub given : PriceInfo
    pub later : Prices
    pub place : batch ≡ earlier ++ (identifier, given) ∷ later
    pub price_info : PriceInfo
    pub stored : lookup identifier contents ≡ some price_info
    pub not_stale :
        sub_i64 (clock (first + length earlier)) price_info.timestamp
        ≤ℤ as_i64 (as_secs config.staleness_threshold)
    pub made :
        create_instruction chain config key_store publish_pubkey identifier price_info slot ≡ ok ins

  pub MadeFor-In :
      (pk : Pubkey) (contents : Prices) (slot : ℕ) (clock : ℕ → ℤ) (first : ℕ) (batch : Prices)
      (ins : Instruction) (made : MadeFor pk contents slot clock first batch ins)
      → In (made.identifier, made.given) batch
  MadeFor-In pk contents slot clock first batch ins made =
      subst (In (made.identifier, made.given)) (sym made.place)
        (In-append_right (made.identifier, made.given) made.earlier _ (inl refl))

  -- What is made for the rest of a batch is made for the batch.
  MadeFor-later :
      (pk : Pubkey) (contents : Prices) (slot : ℕ) (clock : ℕ → ℤ) (i : ℕ)
      (e : Identifier × PriceInfo) (batch : Prices) (ins : Instruction)
      → MadeFor pk contents slot clock (suc i) batch ins
      → MadeFor pk contents slot clock i (e ∷ batch) ins
  MadeFor-later pk contents slot clock i e batch ins h = record {
    earlier = e ∷ h.earlier;
    identifier = h.identifier;
    given = h.given;
    later = h.later;
    place = ap (λ l. e ∷ l) h.place;
    price_info = h.price_info;
    stored = h.stored;
    not_stale =
        subst
          (λ n.
            sub_i64 (clock n) h.price_info.timestamp ≤ℤ as_i64 (as_secs config.staleness_threshold))
          (the_same (length h.earlier)) h.not_stale;
    made = h.made;
  }
    where
      the_same : (n : ℕ) → suc i + n ≡ i + suc n
      the_same n = omega arith

  MadeFor-cons :
      (pk : Pubkey) (contents : Prices) (slot : ℕ) (clock : ℕ → ℤ) (i : ℕ)
      (e : Identifier × PriceInfo) (batch : Prices) (xs : List Instruction)
      → All (MadeFor pk contents slot clock (suc i) batch) xs
      → All (MadeFor pk contents slot clock i (e ∷ batch)) xs
  MadeFor-cons pk contents slot clock i e batch xs h =
      All-mono xs (MadeFor-later pk contents slot clock i e batch) h

  -- The step of the loop for a price that is stored and not too old.
  build-fresh :
      (pk : Pubkey) (contents : Prices) (slot : ℕ) (clock : ℕ → ℤ) (i : ℕ) (id : Identifier)
      (given info : PriceInfo) (batch : Prices)
      → lookup id contents ≡ some info
      → stale_price config (clock i) info ≡ false
      → build chain config key_store pk contents slot clock i ((id, given) ∷ batch) ≡ (
          create_instruction chain config key_store pk id info slot >>= λ instruction.
          build chain config key_store pk contents slot clock (suc i) batch >>= λ instructions.
          ok (instruction ∷ instructions))
  unfolding build
  build-fresh pk contents slot clock i id given info batch f fresh = rw (f, fresh)

  first_reading :
      (clock : ℕ → ℤ) (i : ℕ) (info : PriceInfo)
      → sub_i64 (clock i) info.timestamp ≤ℤ as_i64 (as_secs config.staleness_threshold)
      → sub_i64 (clock (i + 0)) info.timestamp ≤ℤ as_i64 (as_secs config.staleness_threshold)
  first_reading clock i info h =
      subst (λ n. sub_i64 (clock n) info.timestamp ≤ℤ as_i64 (as_secs config.staleness_threshold))
        (zero_last i) h
    where
      zero_last : (n : ℕ) → n ≡ n + 0
      zero_last n = omega arith

  join_ok :
      (r : Result Error Instruction) (rs : Result Error (List Instruction)) (xs : List Instruction)
      → (r >>= λ x. rs >>= λ ys. ok (x ∷ ys)) ≡ ok xs
      → (x : Instruction) × (ys : List Instruction) × (r ≡ ok x) × (rs ≡ ok ys) × (x ∷ ys ≡ xs)
  join_ok (ok x) (ok ys) xs e = (x, ys, refl, refl, cc)
  join_ok (ok x) (err a) xs e = cc
  join_ok (err a) rs xs e = cc

  pub build-MadeFor :
      (pk : Pubkey) (contents : Prices) (slot : ℕ) (clock : ℕ → ℤ) (i : ℕ) (batch : Prices)
      (xs : List Instruction)
      → build chain config key_store pk contents slot clock i batch ≡ ok xs
      → All (MadeFor pk contents slot clock i batch) xs × (length xs ≤ length batch)
  unfolding build
  build-MadeFor pk contents slot clock i [] xs e =
      let q : [] ≡ xs = cc in
      subst (λ l. All (MadeFor pk contents slot clock i []) l × (length l ≤ 0)) q (tt, omega arith)
  build-MadeFor pk contents slot clock i ((id, given) ∷ batch) xs e =
      elim (Option-cases (lookup id contents)) [
        | inl f ↦ let q = rw (f, build) at e in cc
        | inr (info, f) ↦ elim (Bool-cases (stale_price config (clock i) info)) [
          | inl old ↦
              let r = build-MadeFor pk contents slot clock (suc i) batch xs (ground (arith, e)) in
              (MadeFor-cons pk contents slot clock i (id, given) batch xs r.0, omega (arith, r.1))
          | inr fresh ↦
              let (ins, ys, g, h, same) =
                join_ok (create_instruction chain config key_store pk id info slot)
                  (build chain config key_store pk contents slot clock (suc i) batch) xs
                  (sym (build-fresh pk contents slot clock i id given info batch f fresh) ∙ e) in
              let r = build-MadeFor pk contents slot clock (suc i) batch ys h in
              subst
                (λ l.
                  All (MadeFor pk contents slot clock i ((id, given) ∷ batch)) l
                  × (length l ≤ suc (length batch)))
                same
                (
                  (
                    record {
                      earlier = [];
                      identifier = id;
                      given = given;
                      later = batch;
                      place = refl;
                      price_info = info;
                      stored = f;
                      not_stale =
                          first_reading clock i info (fresh_bound config (clock i) info fresh);
                      made = g;
                    },
                    MadeFor-cons pk contents slot clock i (id, given) batch ys r.0,
                  ),
                  omega (arith, r.1),
                )
        ]
      ]
