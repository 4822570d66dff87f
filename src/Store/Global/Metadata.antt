-- ===== src/Store/Global/Metadata.antt =====
-- The metadata of the global store, and every outcome of a price update.
use pyth_agent.Prelude.{
  ◌≡◌, sym, inl, inr, ite, true, List, [], ◌∷◌, some, ok, err, All, Bool-cases, ℕ_discrete, subst,
}
use pyth_agent.Prelude.Int.{◌≤ℤ◌, ◌<ℤ◌}
use pyth_agent.Prelude.Maps.{lookup, nat_key, Covers, Covers-insert, Covers-insert_right}
use pyth_agent.Solana.{Pubkey, PriceEntry, Env}
use pyth_agent.Store.Global.{
  Update, product_account_update, price_account_update, Event, primary, secondary, reader, Store,
  update_data, update_metadata, handle_next, write_price, run, new, is_stale, notice,
  failed_to_notify, and_then_metadata, Output,
}
use pyth_agent.Store.Global.Data.{update_data_stale, update_data_sent}

module _ ⦃env : Env⦄ where
  -- Every account in the data has metadata.
  pub record IsCovered (s : Store env.F64) : Type 0 where
    pub prices : Covers s.account_data.price_accounts s.account_metadata.price_accounts_metadata
    pub products :
        Covers s.account_data.product_accounts s.account_metadata.product_accounts_metadata

  -- The channel to the adapter is open at the event.
  abbrev pub ReachesAdapter : Event → Type 0
  ReachesAdapter (primary u o) = o ≡ true
  ReachesAdapter _ = Unit

  update_metadata-IsCovered :
      (u : Update) (s : Store env.F64) → IsCovered s → IsCovered (update_metadata u s)
  unfolding update_metadata
  update_metadata-IsCovered (product_account_update key account) s c = record {
    prices = c.prices;
    products = Covers-insert_right key _ _ _ c.products;
  }
  update_metadata-IsCovered (price_account_update key account) s c = record {
    prices = Covers-insert_right key _ _ _ c.prices;
    products = c.products;
  }

  primary-IsCovered :
      (u : Update) (s : Store env.F64) → IsCovered s → IsCovered (handle_next (primary u true) s).1
  unfolding handle_next update_data update_metadata write_price
  primary-IsCovered (product_account_update key account) s c = record {
    prices = c.prices;
    products = Covers-insert key _ _ _ _ c.products;
  }
  primary-IsCovered (price_account_update key account) s c =
      elim (Bool-cases (is_stale (lookup key s.account_data.price_accounts) account)) [
        | inl stale ↦
            subst (λ r. IsCovered (and_then_metadata (price_account_update key account) r).1)
              (sym (update_data_stale key account true s stale))
              (update_metadata-IsCovered (price_account_update key account) s c)
        | inr fresh ↦
            subst (λ r. IsCovered (and_then_metadata (price_account_update key account) r).1)
              (sym (update_data_sent key account s fresh))
              (record { prices = Covers-insert key _ _ _ _ c.prices; products = c.products })
      ]

  handle_next-IsCovered :
      (e : Event) (s : Store env.F64)
      → ReachesAdapter e
      → IsCovered s
      → IsCovered (handle_next e s).1
  unfolding handle_next
  handle_next-IsCovered (primary u o) s h c =
      subst (λ b. IsCovered (handle_next (primary u b) s).1) (sym h) (primary-IsCovered u s c)
  handle_next-IsCovered (secondary u) s h c = update_metadata-IsCovered u s c
  handle_next-IsCovered (reader l o) s h c = c

  run-IsCovered :
      (es : List Event) (s : Store env.F64)
      → All ReachesAdapter es
      → IsCovered s
      → IsCovered (run es s).1
  unfolding run
  run-IsCovered [] s h c = c
  run-IsCovered (e ∷ es) s h c =
      run-IsCovered es (handle_next e s).1 h.1 (handle_next-IsCovered e s h.0 c)

  -- As long as the adapter is reached, each account in the data of the store has metadata, after any
  -- history from the empty store.
  pub run-new-IsCovered :
      (es : List Event) → All ReachesAdapter es → IsCovered (run es (new env.F64)).1
  unfolding new lookup
  run-new-IsCovered es h =
      run-IsCovered es (new env.F64) h (record { prices = λ k v e. cc; products = λ k v e. cc })

  -- The map that a price update writes: only `key` changes.
  abbrev IsWritten : {V : Type 0} → Pubkey → V → (old new : List (Pubkey × V)) → Type 0
  IsWritten key v old new =
      (k : Pubkey) → lookup k new ≡ ite (ℕ_discrete key k) (some v) (lookup k old)

  -- What a price update from the primary network leaves: `r` is the output and the store after it.
  module _ (key : Pubkey) (account : PriceEntry) (s : Store env.F64) where
    abbrev Described : Output × Store env.F64 → Type 0
    Described r =
        IsWritten key (record { expo = account.expo }) s.account_metadata.price_accounts_metadata
          r.1.account_metadata.price_accounts_metadata

    -- The store has a newer account: the data stay, and only the metadata are written.
    abbrev pub Ignored : Output × Store env.F64 → Type 0
    Ignored r =
        (e : PriceEntry) × (lookup key s.account_data.price_accounts ≡ some e)
        × (account.timestamp <ℤ e.timestamp)
        × (r.0.result ≡ ok tt)
        × (r.0.sent ≡ [])
        × (r.1.account_data ≡ s.account_data)
        × Described r

    -- The store has no newer account, and the account is written.
    abbrev pub Written : Output × Store env.F64 → Type 0
    Written r =
        ((e : PriceEntry)
          → lookup key s.account_data.price_accounts ≡ some e
          → e.timestamp ≤ℤ account.timestamp)
        × IsWritten key account s.account_data.price_accounts r.1.account_data.price_accounts

    -- The adapter gets one message, and the metadata are written.
    abbrev pub Told : Output × Store env.F64 → Type 0
    Told r = (r.0.result ≡ ok tt) × (r.0.sent ≡ notice key account ∷ []) × Described r

    -- The adapter is gone: an error, no message, and the metadata stay as they were.
    abbrev pub Untold : Output × Store env.F64 → Type 0
    Untold r =
        (r.0.result ≡ err failed_to_notify)
        × (r.0.sent ≡ [])
        × (r.1.account_metadata ≡ s.account_metadata)

    abbrev update_account : Update
    update_account = price_account_update key account
