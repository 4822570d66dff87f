-- ===== src/Store/Global/Gauges.antt =====
-- The gauges that the global store keeps for the price accounts.
use pyth_agent.Prelude.{
  ◌≡◌, subst, inl, inr, Bool, List, [], ◌∷◌, some, arith, Bool-cases, Result-cases, ℕ_discrete,
}
use pyth_agent.Prelude.Maps.{lookup, lookup-insert, nat_key, string_key}
use pyth_agent.Solana.{Pubkey, PriceEntry, Env, ParsesBack, to_string_inj}
use pyth_agent.Metrics.{PriceGlobalMetrics, update_price_global}
use pyth_agent.Store.Global.{
  Update, product_account_update, price_account_update, Event, primary, secondary, reader, Store,
  update_data, update_metadata, handle_next, write_price, run, new, is_stale, and_then_metadata,
  Output,
}
use pyth_agent.Store.Global.Data.{update_data_stale, update_data_sent, update_data_unsent}

module _ ⦃env : Env⦄ where
  -- The gauges of a key show its account.
  pub record ShowsAccount (k : Pubkey) (e : PriceEntry) (m : PriceGlobalMetrics env.F64)
      : Type 0 where
    pub price : lookup (env.to_string k) m.price ≡ some e.agg.price
    pub expo : lookup (env.to_string k) m.expo ≡ some e.expo
    pub conf : lookup (env.to_string k) m.conf ≡ some (env.as_f64 e.agg.conf)
    pub timestamp : lookup (env.to_string k) m.timestamp ≡ some e.timestamp
    pub prev_price : lookup (env.to_string k) m.prev_price ≡ some e.prev_price
    pub prev_conf : lookup (env.to_string k) m.prev_conf ≡ some (env.as_f64 e.prev_conf)
    pub prev_timestamp : lookup (env.to_string k) m.prev_timestamp ≡ some e.prev_timestamp

  abbrev pub AreShown : Store env.F64 → Type 0
  AreShown s =
      (k : Pubkey) (e : PriceEntry)
      → lookup k s.account_data.price_accounts ≡ some e
      → ShowsAccount k e s.price_metrics

  ShowsAccount-update_self :
      (k : Pubkey) (e : PriceEntry) (m : PriceGlobalMetrics env.F64)
      → ShowsAccount k e (update_price_global k e m)
  unfolding update_price_global
  ShowsAccount-update_self k e m = ground (
    arith,
    lookup-insert (env.to_string k) (env.to_string k) e.agg.price m.price,
    lookup-insert (env.to_string k) (env.to_string k) e.expo m.expo,
    lookup-insert (env.to_string k) (env.to_string k) (env.as_f64 e.agg.conf) m.conf,
    lookup-insert (env.to_string k) (env.to_string k) e.timestamp m.timestamp,
    lookup-insert (env.to_string k) (env.to_string k) e.prev_price m.prev_price,
    lookup-insert (env.to_string k) (env.to_string k) (env.as_f64 e.prev_conf) m.prev_conf,
    lookup-insert (env.to_string k) (env.to_string k) e.prev_timestamp m.prev_timestamp,
  )

  ShowsAccount-update_other :
      ParsesBack env
      → (j k : Pubkey) (a e : PriceEntry) (m : PriceGlobalMetrics env.F64) → ¬ (j ≡ k)
      → ShowsAccount k e m
      → ShowsAccount k e (update_price_global j a m)
  unfolding update_price_global
  ShowsAccount-update_other back j k a e m other h = ground (
    arith,
    to_string_inj back j k,
    lookup-insert (env.to_string k) (env.to_string j) a.agg.price m.price,
    lookup-insert (env.to_string k) (env.to_string j) a.expo m.expo,
    lookup-insert (env.to_string k) (env.to_string j) (env.as_f64 a.agg.conf) m.conf,
    lookup-insert (env.to_string k) (env.to_string j) a.timestamp m.timestamp,
    lookup-insert (env.to_string k) (env.to_string j) a.prev_price m.prev_price,
    lookup-insert (env.to_string k) (env.to_string j) (env.as_f64 a.prev_conf) m.prev_conf,
    lookup-insert (env.to_string k) (env.to_string j) a.prev_timestamp m.prev_timestamp,
  )

  write_price-AreShown :
      (j : Pubkey) (a : PriceEntry) (s : Store env.F64)
      → ParsesBack env
      → AreShown s
      → AreShown (write_price j a s)
  unfolding write_price
  write_price-AreShown j a s back h k e f = elim (ℕ_discrete j k) [
    | yes same ↦
        let written : a ≡ e =
          ground (arith, f, lookup-insert k j a s.account_data.price_accounts) in
        subst (λ x. ShowsAccount x e (update_price_global j a s.price_metrics)) same
          (subst (λ x. ShowsAccount j x (update_price_global j a s.price_metrics)) written
            (ShowsAccount-update_self j a s.price_metrics))
    | no other ↦
        ShowsAccount-update_other back j k a e s.price_metrics other
          (h k e (ground (arith, f, lookup-insert k j a s.account_data.price_accounts)))
  ]

  update_metadata-AreShown :
      (u : Update) (s : Store env.F64) → AreShown s → AreShown (update_metadata u s)
  unfolding update_metadata
  update_metadata-AreShown (product_account_update key account) s h = h
  update_metadata-AreShown (price_account_update key account) s h = h

  update_data-AreShown :
      (u : Update) (o : Bool) (s : Store env.F64)
      → ParsesBack env
      → AreShown s
      → AreShown (update_data u o s).1
  update_data-AreShown (product_account_update key account) o s back h = unfold update_data in h
  update_data-AreShown (price_account_update key account) o s back h =
      elim (Bool-cases (is_stale (lookup key s.account_data.price_accounts) account)) [
        | inl stale ↦ rw (update_data_stale key account o s stale) h
        | inr fresh ↦ elim (Bool-cases o) [
          | inl open_ ↦
              rw (open_, update_data_sent key account s fresh)
                (write_price-AreShown key account s back h)
          | inr closed ↦
              rw (closed, update_data_unsent key account s fresh)
                (write_price-AreShown key account s back h)
        ]
      ]

  and_then_metadata-AreShown :
      (u : Update) (r : Output × Store env.F64) → AreShown r.1 → AreShown (and_then_metadata u r).1
  and_then_metadata-AreShown u (out, s) h = elim (Result-cases out.result) [
    | inl (a, e) ↦ rw e (update_metadata-AreShown u s h)
    | inr (x, e) ↦ rw e h
  ]

  handle_next-AreShown :
      (e : Event) (s : Store env.F64) → ParsesBack env → AreShown s → AreShown (handle_next e s).1
  unfolding handle_next
  handle_next-AreShown (primary u o) s back h =
      and_then_metadata-AreShown u (update_data u o s) (update_data-AreShown u o s back h)
  handle_next-AreShown (secondary u) s back h = update_metadata-AreShown u s h
  handle_next-AreShown (reader l o) s back h = h

  run-AreShown :
      (es : List Event) (s : Store env.F64) → ParsesBack env → AreShown s → AreShown (run es s).1
  unfolding run
  run-AreShown [] s back h = h
  run-AreShown (e ∷ es) s back h =
      run-AreShown es (handle_next e s).1 back (handle_next-AreShown e s back h)

  -- After any history from the empty global store, the gauges of each price account show the account.
  pub run-new-AreShown : (es : List Event) → ParsesBack env → AreShown (run es (new env.F64)).1
  unfolding new lookup
  run-new-AreShown es back = run-AreShown es (new env.F64) back (λ k e f. cc)
