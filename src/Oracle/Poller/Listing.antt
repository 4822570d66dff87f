-- ===== src/Oracle/Poller/Listing.antt =====
-- The poller's products list the price accounts that it finds.
use mathlib.Core.List.{flatten}
use pyth_agent.Prelude.{
  ℕ, ◌≡◌, sym, subst, inl, inr, arith, true, false, List, [], ◌∷◌, ◌++◌, some, ok, In, Bool-cases,
  Option-cases, bind-ok, ok_inj, ◌==◌,
}
use pyth_agent.Prelude.Maps.{
  lookup, extend, contains, lookup-extend, In-extend, nat_key, AreDistinct, extend-HasUniqueKeys,
}
use pyth_agent.Solana.{Pubkey, PriceEntry, MappingAccount}
use pyth_agent.Oracle.{Data}
use pyth_agent.Oracle.Poller.{
  Node, Products, Prices, permissions, product_keys, fetch_batch, fetch_batches,
  fetch_product_and_price_accounts, fetch_mapping_accounts, poll,
}
use pyth_agent.Exporter.Batch.{chunks}
use pyth_agent.Exporter.Batch.Chunks.{chunks_partition}
use pyth_agent.Oracle.Poller.OneBatch.{
  Lists, contains-append, distinct-right, distinct-apart, IsListed, fetch_batch-IsListed,
}

-- Two parts with different keys.
extend-IsListed :
    (done batch : List Pubkey) (products more : Products) (prices found : Prices)
    → ((j : Pubkey) → contains j done ≡ true → contains j batch ≡ false)
    → IsListed done products prices
    → IsListed batch more found
    → IsListed (done ++ batch) (extend products more) (extend prices found)
extend-IsListed done batch products more prices found apart h k = record {
  unique = extend-HasUniqueKeys products more h.unique;
  within = λ j p e. elim (Option-cases (lookup j more)) [
    | inl n ↦
        let known : lookup j products ≡ some p =
          ground (arith, e, n, lookup-extend j products more k.unique) in
        ground (arith, h.within j p known, contains-append j done batch)
    | inr (q, n) ↦ ground (arith, k.within j q n, contains-append j done batch)
  ];
  listed = λ x m. elim (In-extend x prices found m) [
    | inl old ↦
        let (p, e, i) = h.listed x old in
        elim (Option-cases (lookup x.1.prod more)) [
          | inl n ↦ (p, ground (arith, e, n, lookup-extend x.1.prod products more k.unique), i)
          | inr (q, n) ↦
              let there = k.within x.1.prod q n in
              let away = apart x.1.prod (h.within x.1.prod p e) in absurd cc
        ]
    | inr new ↦
        let (p, e, i) = k.listed x new in
        (p, ground (arith, e, lookup-extend x.1.prod products more k.unique), i)
  ];
}

module _ {Account : Type 0} (node : Node Account) where
  fetch_batches-IsListed :
      (fuel : ℕ) (done : List Pubkey) (batches : List (List Pubkey)) (products : Products)
      (prices : Prices) (r : Products × Prices)
      → AreDistinct (flatten batches)
      → ((j : Pubkey) → contains j done ≡ true → contains j (flatten batches) ≡ false)
      → fetch_batches node fuel batches products prices ≡ ok r
      → IsListed done products prices
      → (keys : List Pubkey) × IsListed keys r.0 r.1
  unfolding fetch_batches flatten
  fetch_batches-IsListed fuel done [] products prices r distinct apart e h =
      (done, subst (λ x. IsListed done x.0 x.1) (ok_inj (products, prices) r e) h)
  fetch_batches-IsListed fuel done (batch ∷ batches) products prices r distinct apart e h =
      let (found, f, rest) = bind-ok (fetch_batch node fuel batch) _ r e in
      fetch_batches-IsListed fuel (done ++ batch) batches (extend products found.0)
        (extend prices found.1) r (distinct-right batch (flatten batches) distinct)
        (λ j c. later j c) rest
        (extend-IsListed done batch products found.0 prices found.1
          (λ j c. ground (arith, apart j c, contains-append j batch (flatten batches))) h
          (fetch_batch-IsListed node fuel batch found f))
    where
      later :
          (j : Pubkey) → contains j (done ++ batch) ≡ true → contains j (flatten batches) ≡ false
      later j c = elim (Bool-cases (contains j done)) [
        | inl here ↦ ground (arith, apart j here, contains-append j batch (flatten batches))
        | inr away ↦
            distinct-apart j batch (flatten batches) distinct
              (ground (arith, c, contains-append j done batch))
      ]

  fetch-IsListed :
      (fuel size : ℕ) (ms : List (Pubkey × MappingAccount)) (r : Products × Prices)
      → fetch_product_and_price_accounts node fuel size ms ≡ ok r
      → AreDistinct (product_keys ms)
      → (keys : List Pubkey) × IsListed keys r.0 r.1
  unfolding fetch_product_and_price_accounts lookup contains
  fetch-IsListed fuel size ms r e distinct = elim (Bool-cases (size == 0)) [
    | inl none_size ↦ let h = rw (none_size, fetch_product_and_price_accounts) at e in cc
    | inr more ↦
        let joined = (chunks_partition size (product_keys ms) (ground arith)).0 in
        fetch_batches-IsListed fuel [] (chunks size (product_keys ms)) [] [] r
          (subst AreDistinct (sym joined) distinct) (λ j c. cc)
          (rw (more, fetch_product_and_price_accounts) at e)
          (record { unique = tt; within = λ j p g. cc; listed = λ x n. absurd n })
  ]

  -- Where no product stands twice in the mapping accounts, each price account that a poll finds belongs
  -- to a product that it finds, and that product lists the price account.
  pub poll-Lists :
      (fuel size : ℕ) (mapping_key : Pubkey) (d : Data)
      → poll node fuel size mapping_key ≡ ok d
      → AreDistinct (product_keys d.mapping_accounts)
      → (k : Pubkey) (e : PriceEntry) → In (k, e) d.price_accounts
      → Lists d.product_accounts e.prod k
  unfolding poll
  poll-Lists fuel size mapping_key d e distinct k price m =
      let (ms, _, rest) = bind-ok (fetch_mapping_accounts node fuel mapping_key []) _ d e in
      let (r, f, made) = bind-ok (fetch_product_and_price_accounts node fuel size ms) _ d rest in
      let polled : Data = record {
        mapping_accounts = ms;
        product_accounts = r.0;
        price_accounts = r.1;
        publisher_permissions = permissions r.1 [];
      } in
      subst
        (λ x.
          AreDistinct (product_keys x.mapping_accounts)
          → In (k, price) x.price_accounts
          → Lists x.product_accounts price.prod k)
        (ok_inj polled d made)
        (λ apart n. let (keys, h) = fetch-IsListed fuel size ms r f apart in h.listed (k, price) n)
        distinct m
