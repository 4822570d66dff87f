-- ===== src/Dashboard/Products.antt =====
-- One step of `build_dashboard_data` in dashboard.rs, the step for one product.
pub mod Pending
pub mod Table
pub mod Origin
use pyth_agent.Prelude.{
  inl, inr, Option-cases, ℕ, ◌≡◌, refl, sym, subst, Bool, true, false, List, [], ◌∷◌, Option, none,
  some, String, arith, ite, ℕ_discrete,
}
use pyth_agent.Prelude.Maps.{
  lookup, insert, remove, lookup-insert, lookup-remove, contains, nat_key, string_key, dec_string,
}
use pyth_agent.Solana.{Pubkey, Env}
use pyth_agent.Store.Global.{ProductAccountMetadata}
use pyth_agent.Dashboard.{
  DashboardPriceView, DashboardSymbolView, State, collect_keys, price_view, drop_price, take_prices,
  free_name, symbol_name, drop_product, add_view, add_product,
}
use pyth_agent.Dashboard.Sets.{
  collect_keys-AreDistinct, contains-collect_keys, lookup-take_prices, price_view-take_prices,
}

-- The metadata that is left of the products.
abbrev pub metadata_of : Pubkey → State → Option ProductAccountMetadata
metadata_of k s = lookup k s.global_metadata.product_accounts_metadata

pub take_prices-keeps :
    (prices : List (Pubkey × DashboardPriceView)) (ks : List Pubkey) (s : State)
    → ((take_prices prices ks s).1.view ≡ s.view)
      × ((take_prices prices ks s).1.global_metadata.product_accounts_metadata
          ≡ s.global_metadata.product_accounts_metadata)
unfolding take_prices drop_price
take_prices-keeps prices [] s = (refl, refl)
take_prices-keeps prices (k ∷ ks) s =
    take_prices-keeps (insert k (price_view k s) prices) ks (drop_price k s)

module _ ⦃env : Env⦄ where
  pub add_product-found :
      (k : Pubkey) (m : ProductAccountMetadata) (s : State)
      → metadata_of k s ≡ some m
      → add_product k s ≡ add_view k m (drop_product k s)
  unfolding add_product
  add_product-found k m s e = rw (add_product, e) refl

  add_product-missing :
      (k : Pubkey) (s : State) → metadata_of k s ≡ none → add_product k s ≡ drop_product k s
  unfolding add_product
  add_product-missing k s e = rw (add_product, e) refl

  pub metadata_of-add_product :
      (j k : Pubkey) (s : State) → ¬ (k ≡ j) → metadata_of j (add_product k s) ≡ metadata_of j s
  unfolding add_view drop_product
  metadata_of-add_product j k s other =
      let left = lookup-remove j k s.global_metadata.product_accounts_metadata in
      elim (Option-cases (metadata_of k s)) [
        | inl e ↦ rw (add_product-missing k s e) (ground (arith, left))
        | inr (m, e) ↦
            rw
              (
                add_product-found k m s e,
                (take_prices-keeps [] (collect_keys m.price_accounts) (drop_product k s)).1,
              )
              (ground (arith, left))
      ]

  -- A product without metadata leaves the rest as it is.
  pub add_product-none :
      (k : Pubkey) (s : State)
      → metadata_of k s ≡ none
      → ((add_product k s).view ≡ s.view)
        × ((p : Pubkey) → price_view p (add_product k s) ≡ price_view p s)
  unfolding drop_product price_view
  add_product-none k s e = rw (add_product-missing k s e) (refl, λ p. refl)

  -- The prices of a product.
  pub prices_of : Pubkey → ProductAccountMetadata → State → List (Pubkey × DashboardPriceView)
  prices_of k m s = (take_prices [] (collect_keys m.price_accounts) (drop_product k s)).0

  pub lookup-prices_of :
      (p k : Pubkey) (m : ProductAccountMetadata) (s : State)
      → lookup p (prices_of k m s)
        ≡ (elim (contains p m.price_accounts) [ true ↦ some (price_view p s) | false ↦ none ])
  unfolding prices_of drop_product price_view lookup
  lookup-prices_of p k m s =
      let r =
        lookup-take_prices p [] (collect_keys m.price_accounts) (drop_product k s)
          (collect_keys-AreDistinct m.price_accounts) in
      rw (contains-collect_keys p m.price_accounts) at r

  pub lookup-add_product :
      (name : String) (k : Pubkey) (m : ProductAccountMetadata) (s : State)
      → metadata_of k s ≡ some m
      → lookup (symbol_name k m) s.view ≡ none
      → lookup name (add_product k s).view
        ≡ ite
            (dec_string (symbol_name k m) name)
            (some (record { product = k; prices = prices_of k m s }))
            (lookup name s.view)
  unfolding add_view free_name prices_of drop_product
  lookup-add_product name k m s e free =
      rw
        (
          add_product-found k m s e,
          (take_prices-keeps [] (collect_keys m.price_accounts) (drop_product k s)).0,
          free_name,
          free,
        )
        (lookup-insert name (symbol_name k m) _ s.view)

  pub price_view-add_product :
      (p k : Pubkey) (m : ProductAccountMetadata) (s : State)
      → metadata_of k s ≡ some m
      → contains p m.price_accounts ≡ false
      → price_view p (add_product k s) ≡ price_view p s
  unfolding add_view drop_product price_view
  price_view-add_product p k m s e other = rw (add_product-found k m s e) (
      price_view-take_prices p [] (collect_keys m.price_accounts) (drop_product k s)
        (rw (contains-collect_keys p m.price_accounts) other))
