-- ===== src/Store/Local/Sync.antt =====
-- The local store's metrics, and what each outcome of an update leaves behind.
use pyth_agent.Prelude.{
  ◌≡◌, refl, sym, ◌∙◌, ◌⊎◌, inl, inr, List, [], ◌∷◌, some, ok, err, arith, true, false, Bool-cases,
  Option-cases, ite, ℕ_discrete,
}
use pyth_agent.Prelude.Int.{◌<ℤ◌, ◌≤ℤ◌, ltb_ℤ}
use pyth_agent.Prelude.Maps.{lookup, insert, lookup-insert, nat_key, string_key}
use pyth_agent.Solana.{Identifier, Env, ParsesBack, to_string_inj}
use pyth_agent.Metrics.{update_local}
use pyth_agent.Store.Price.{PriceInfo}
use pyth_agent.Store.Local.{
  Message, update_price, lookup_all_price_info, Store, stale_timestamp, new, update, is_stale,
  handle, run,
}

module _ ⦃env : Env⦄ where
  -- The gauges of a key show its price.
  pub record Shows (k : Identifier) (v : PriceInfo) (s : Store env.F64) : Type 0 where
    pub price : lookup (env.to_string k) s.metrics.price ≡ some v.price
    pub conf : lookup (env.to_string k) s.metrics.conf ≡ some (env.as_f64 v.conf)
    pub timestamp : lookup (env.to_string k) s.metrics.timestamp ≡ some v.timestamp

  abbrev pub IsSynced : Store env.F64 → Type 0
  IsSynced s = (k : Identifier) (v : PriceInfo) → lookup k s.prices ≡ some v → Shows k v s

  Shows-written :
      (j : Identifier) (info : PriceInfo) (s : Store env.F64) (k : Identifier) (v : PriceInfo)
      → j ≡ k
      → info ≡ v
      → Shows k v
          (record { prices = insert j info s.prices; metrics = update_local j info s.metrics })
  unfolding update_local
  Shows-written j info s k v same e = ground (
    arith,
    lookup-insert (env.to_string k) (env.to_string j) info.price s.metrics.price,
    lookup-insert (env.to_string k) (env.to_string j) (env.as_f64 info.conf) s.metrics.conf,
    lookup-insert (env.to_string k) (env.to_string j) info.timestamp s.metrics.timestamp,
  )

  Shows-other :
      ParsesBack env
      → (j : Identifier) (info : PriceInfo) (s : Store env.F64) (k : Identifier) (v : PriceInfo)
      → ¬ (j ≡ k)
      → Shows k v s
      → Shows k v
          (record { prices = insert j info s.prices; metrics = update_local j info s.metrics })
  unfolding update_local
  Shows-other back j info s k v other h = ground (
    arith,
    to_string_inj back j k,
    lookup-insert (env.to_string k) (env.to_string j) info.price s.metrics.price,
    lookup-insert (env.to_string k) (env.to_string j) (env.as_f64 info.conf) s.metrics.conf,
    lookup-insert (env.to_string k) (env.to_string j) info.timestamp s.metrics.timestamp,
  )

  update-IsSynced :
      (j : Identifier) (info : PriceInfo) (s : Store env.F64)
      → ParsesBack env
      → IsSynced s
      → IsSynced (update j info s).1
  unfolding update update_local
  update-IsSynced j info s back synced k v e =
      elim (Bool-cases (is_stale (lookup j s.prices) info)) [
        | inl stale ↦ rw (stale, update) (synced k v (rw (stale, update) at e))
        | inr fresh ↦ elim (ℕ_discrete j k) [
          | yes same ↦
              rw (fresh, update)
                (Shows-written j info s k v same
                  (ground (arith, rw (fresh, update) at e, lookup-insert k j info s.prices)))
          | no other ↦
              rw (fresh, update)
                (Shows-other back j info s k v other (
                  synced k v
                    (ground (arith, rw (fresh, update) at e, lookup-insert k j info s.prices))))
        ]
      ]

  -- Every entry of the store shows in its gauges, after any history.
  run-IsSynced :
      (ms : List Message) (s : Store env.F64) → ParsesBack env → IsSynced s → IsSynced (run ms s)
  unfolding run handle
  run-IsSynced [] s back synced = synced
  run-IsSynced (update_price j info ∷ ms) s back synced =
      run-IsSynced ms (update j info s).1 back (update-IsSynced j info s back synced)
  run-IsSynced (lookup_all_price_info true ∷ ms) s back synced = run-IsSynced ms s back synced
  run-IsSynced (lookup_all_price_info false ∷ ms) s back synced = run-IsSynced ms s back synced

  -- After any history from the empty store, the gauges of each key that has a price show that
  -- price: its value, its confidence as a float, and its timestamp.
  pub run-new-IsSynced : (ms : List Message) → ParsesBack env → IsSynced (run ms (new env.F64))
  unfolding new lookup
  run-new-IsSynced ms back = run-IsSynced ms (new env.F64) back (λ k v e. cc)

  -- The store holds a newer price of `j`; the update fails and leaves the store as it was.
  abbrev pub Refused : Identifier → PriceInfo → Store env.F64 → Type 0
  Refused j info s =
      (c : PriceInfo) × (lookup j s.prices ≡ some c)
      × (info.timestamp <ℤ c.timestamp)
      × (update j info s ≡ (err (stale_timestamp j), s))

  -- The store holds no newer price of `j`; the update succeeds, `j` gets the new price, and every
  -- other key keeps its own.
  abbrev pub Accepted : Identifier → PriceInfo → Store env.F64 → Type 0
  Accepted j info s =
      ((c : PriceInfo) → lookup j s.prices ≡ some c → c.timestamp ≤ℤ info.timestamp)
      × ((update j info s).0 ≡ ok tt)
      × ((k : Identifier)
          → lookup k (update j info s).1.prices
            ≡ ite (ℕ_discrete j k) (some info) (lookup k s.prices))

  -- Every update is refused or accepted in this sense.
  pub update_cases :
      (j : Identifier) (info : PriceInfo) (s : Store env.F64) → Refused j info s ⊎ Accepted j info s
  unfolding update is_stale
  update_cases j info s = elim (Option-cases (lookup j s.prices)) [
    | inl e ↦ inr (λ c f. cc, rw (e, update), λ k. rw (e, update) (lookup-insert k j info s.prices))
    | inr (c, e) ↦ elim (Bool-cases (ltb_ℤ info.timestamp c.timestamp)) [
      | inl stale ↦ inl (c, e, ground arith, rw (e, update, stale, is_stale) refl)
      | inr fresh ↦ inr (
        λ d f. let same : some c ≡ some d = sym e ∙ f in ground arith,
        rw (e, update, fresh, is_stale) refl,
        λ k. rw (e, update, fresh, is_stale) (lookup-insert k j info s.prices),
      )
    ]
  ]
