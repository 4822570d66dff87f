-- ===== src/Store/Global/Data.antt =====
-- The account data of the global store over a history.
use pyth_agent.Prelude.{
  ◌≡◌, refl, sym, ◌∙◌, inl, inr, Bool, true, false, List, [], ◌∷◌, some, ok, err, arith, retain,
  Result, Bool-cases, ℕ_discrete,
}
use pyth_agent.Prelude.Int.{◌≤ℤ◌}
use pyth_agent.Prelude.Maps.{lookup, lookup-insert, nat_key}
use pyth_agent.Solana.{Pubkey, PriceEntry, Env}
use pyth_agent.Store.Global.{
  Update, product_account_update, price_account_update, Event, primary, secondary, reader, Lookup,
  lookup_all_accounts_metadata, lookup_all_accounts_data, handle_lookup, Store, update_data,
  update_metadata, handle_next, write_price, run, is_stale, done, Error, and_then_metadata, notice,
  failed_to_notify,
}

abbrev pub is_primary : Event → Bool
is_primary (primary u adapter_open) = true
is_primary _ = false

handle_lookup-sent :
    {F64 : Type 0} (l : Lookup) (o : Bool) (s : Store F64) → (handle_lookup l o s).sent ≡ []
unfolding handle_lookup
handle_lookup-sent lookup_all_accounts_metadata true s = refl
handle_lookup-sent lookup_all_accounts_data true s = refl
handle_lookup-sent lookup_all_accounts_metadata false s = refl
handle_lookup-sent lookup_all_accounts_data false s = refl

module _ ⦃env : Env⦄ where
  -- `t` has a price account for each that `s` has, with no older timestamp.
  abbrev pub IsLater : Store env.F64 → Store env.F64 → Type 0
  IsLater s t =
      (k : Pubkey) (a : PriceEntry)
      → lookup k s.account_data.price_accounts ≡ some a
      → (b : PriceEntry) × (lookup k t.account_data.price_accounts ≡ some b)
        × (a.timestamp ≤ℤ b.timestamp)

  pub update_metadata-data :
      (u : Update) (s : Store env.F64) → (update_metadata u s).account_data ≡ s.account_data
  unfolding update_metadata
  update_metadata-data (product_account_update key account) s = refl
  update_metadata-data (price_account_update key account) s = refl

  pub update_data_stale :
      (key : Pubkey) (account : PriceEntry) (o : Bool) (s : Store env.F64)
      → is_stale (lookup key s.account_data.price_accounts) account ≡ true
      → update_data (price_account_update key account) o s ≡ (done, s)
  unfolding update_data
  update_data_stale key account o s stale = rw stale

  pub update_data_sent :
      (key : Pubkey) (account : PriceEntry) (s : Store env.F64)
      → is_stale (lookup key s.account_data.price_accounts) account ≡ false
      → update_data (price_account_update key account) true s
        ≡ (record done { sent = notice key account ∷ [] }, write_price key account s)
  unfolding update_data
  update_data_sent key account s fresh = rw fresh

  pub update_data_unsent :
      (key : Pubkey) (account : PriceEntry) (s : Store env.F64)
      → is_stale (lookup key s.account_data.price_accounts) account ≡ false
      → update_data (price_account_update key account) false s
        ≡ (record done { result = err failed_to_notify }, write_price key account s)
  unfolding update_data
  update_data_unsent key account s fresh = rw fresh

  -- The data after an event of the primary network is that after its update.
  pub primary-data :
      (u : Update) (o : Bool) (s : Store env.F64)
      → (handle_next (primary u o) s).1.account_data ≡ (update_data u o s).1.account_data
  unfolding handle_next
  primary-data u o s = go (update_data u o s).0.result refl
    where
      go :
          (r : Result Error (Unit {0}))
          → (update_data u o s).0.result ≡ r
          → (handle_next (primary u o) s).1.account_data ≡ (update_data u o s).1.account_data
      go (ok x) e =
          rw (e, handle_next, and_then_metadata) (update_metadata-data u (update_data u o s).1)
      go (err x) e = rw (e, handle_next, and_then_metadata) refl

  pub primary-sent :
      (u : Update) (o : Bool) (s : Store env.F64)
      → (handle_next (primary u o) s).0 ≡ (update_data u o s).0
  unfolding handle_next
  primary-sent u o s = ground arith

  write_price-IsLater :
      (j : Pubkey) (account : PriceEntry) (s : Store env.F64)
      → is_stale (lookup j s.account_data.price_accounts) account ≡ false
      → IsLater s (write_price j account s)
  unfolding write_price is_stale
  write_price-IsLater j account s fresh k a e = elim (ℕ_discrete j k) [
    | yes same ↦ (
      account,
      ground (arith, lookup-insert k j account s.account_data.price_accounts),
      ground arith,
    )
    | no other ↦
        (a, ground (arith, lookup-insert k j account s.account_data.price_accounts), omega arith)
  ]

  update_data-IsLater :
      (u : Update) (o : Bool) (s : Store env.F64) → IsLater s (update_data u o s).1
  unfolding update_data
  update_data-IsLater (product_account_update key account) o s k a e = (a, e, omega arith)
  update_data-IsLater (price_account_update key account) o s k a e =
      elim (Bool-cases (is_stale (lookup key s.account_data.price_accounts) account)) [
        | inl stale ↦ (a, rw (stale, update_data) e, omega arith)
        | inr fresh ↦
            let (b, f, h) = write_price-IsLater key account s fresh k a e in (b, ground arith, h)
      ]

  handle_next-IsLater : (e : Event) (s : Store env.F64) → IsLater s (handle_next e s).1
  unfolding handle_next
  handle_next-IsLater (primary u o) s k a e =
      let (b, f, h) = update_data-IsLater u o s k a e in (b, rw (primary-data u o s) f, h)
  handle_next-IsLater (secondary u) s k a e = (a, rw (update_metadata-data u s) e, omega arith)
  handle_next-IsLater (reader l o) s k a e = (a, e, omega arith)

  -- Whatever the networks and readers send, in any order: a price account that the store holds stays
  -- there, and its timestamp never goes back.
  pub run-IsLater : (es : List Event) (s : Store env.F64) → IsLater s (run es s).1
  unfolding run
  run-IsLater [] s k a e = (a, e, omega arith)
  run-IsLater (ev ∷ es) s k a e =
      let (b, f, h) = handle_next-IsLater ev s k a e in
      let (c, g, i) = run-IsLater es (handle_next ev s).1 k b f in (c, g, omega (arith, h, i))

  update_data-same :
      (u : Update) (o : Bool) (s t : Store env.F64)
      → s.account_data ≡ t.account_data
      → ((update_data u o s).1.account_data ≡ (update_data u o t).1.account_data)
        × ((update_data u o s).0 ≡ (update_data u o t).0)
  unfolding update_data write_price
  update_data-same (product_account_update key account) o s t same = ground arith
  update_data-same (price_account_update key account) o s t same = ground arith

  pub secondary-quiet :
      (u : Update) (s : Store env.F64)
      → ((handle_next (secondary u) s).1.account_data ≡ s.account_data)
        × ((handle_next (secondary u) s).0.sent ≡ [])
  unfolding handle_next
  secondary-quiet u s = (update_metadata-data u s, refl)

  reader-quiet :
      (l : Lookup) (o : Bool) (s : Store env.F64)
      → ((handle_next (reader l o) s).1.account_data ≡ s.account_data)
        × ((handle_next (reader l o) s).0.sent ≡ [])
  unfolding handle_next
  reader-quiet l o s = (refl, handle_lookup-sent l o s)

  run-same :
      (es : List Event) (s t : Store env.F64)
      → s.account_data ≡ t.account_data
      → ((run es s).1.account_data ≡ (run (retain is_primary es) t).1.account_data)
        × ((run es s).0 ≡ (run (retain is_primary es) t).0)
  unfolding run retain
  run-same [] s t same = (same, refl)
  run-same (primary u o ∷ es) s t same =
      let both = update_data-same u o s t same in
      let rest =
        run-same es (handle_next (primary u o) s).1 (handle_next (primary u o) t).1
          (primary-data u o s ∙ both.0 ∙ sym (primary-data u o t)) in
      (rest.0, ground (arith, primary-sent u o s, primary-sent u o t, both, rest))
  run-same (secondary u ∷ es) s t same =
      let quiet = secondary-quiet u s in
      let rest = run-same es (handle_next (secondary u) s).1 t (quiet.0 ∙ same) in
      (rest.0, ground (arith, quiet, rest))
  run-same (reader l o ∷ es) s t same =
      let quiet = reader-quiet l o s in
      let rest = run-same es (handle_next (reader l o) s).1 t (quiet.0 ∙ same) in
      (rest.0, ground (arith, quiet, rest))

  -- Only the primary network counts for the account data and for the messages to the adapter: without
  -- the events of the secondary network and of the readers, both are the same.
  pub run-retain :
      (es : List Event) (s : Store env.F64)
      → ((run es s).1.account_data ≡ (run (retain is_primary es) s).1.account_data)
        × ((run es s).0 ≡ (run (retain is_primary es) s).0)
  run-retain es s = run-same es s s refl
