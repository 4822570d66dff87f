-- ===== src/Dashboard/Products/Origin.antt =====
-- Where the entries of the table of `build_dashboard_data` in dashboard.rs come from.
use pyth_agent.Prelude.{
  ◌≡◌, refl, sym, ◌∙◌, subst, inl, inr, Option-cases, true, false, List, [], ◌∷◌, none, some,
  String,
}
use mathlib.Core.Logic.{if_pos, if_neg}
use pyth_agent.Prelude.Maps.{
  AreDistinct, HasUniqueKeys, insert-HasUniqueKeys, lookup, insert, contains, keys, nat_key,
  string_key, dec_string,
}
use pyth_agent.Solana.{Pubkey, Env}
use pyth_agent.Store.Local.{Prices}
use pyth_agent.Store.Global.{AllAccountsData, AllAccountsMetadata, ProductAccountMetadata}
use pyth_agent.Dashboard.{
  DashboardPriceView, DashboardSymbolView, SymbolViews, State, collect_keys, price_view, drop_price,
  take_prices, symbol_name, drop_product, add_view, add_product, add_products, initial,
  build_dashboard_data,
}
use pyth_agent.Dashboard.Sets.{collect_keys-AreDistinct}
use pyth_agent.Dashboard.Products.{
  metadata_of, prices_of, lookup-add_product, add_product-none, take_prices-keeps,
  add_product-found,
}
use pyth_agent.Dashboard.Products.Pending.{
  AreApart, IsPending, head_meta, head_free, add_product-IsPending,
}
use pyth_agent.Dashboard.Products.Table.{own_prices, initial-IsPending}

take_prices-HasUniqueKeys :
    (prices : List (Pubkey × DashboardPriceView)) (ks : List Pubkey) (s : State)
    → HasUniqueKeys prices
    → HasUniqueKeys (take_prices prices ks s).0
unfolding take_prices
take_prices-HasUniqueKeys prices [] s u = u
take_prices-HasUniqueKeys prices (k ∷ ks) s u =
    take_prices-HasUniqueKeys (insert k (price_view k s) prices) ks (drop_price k s)
      (insert-HasUniqueKeys k (price_view k s) prices u)

module _ ⦃env : Env⦄ where
  prices_of-HasUniqueKeys :
      (k : Pubkey) (m : ProductAccountMetadata) (s : State) → HasUniqueKeys (prices_of k m s)
  unfolding prices_of
  prices_of-HasUniqueKeys k m s =
      take_prices-HasUniqueKeys [] (collect_keys m.price_accounts) (drop_product k s) tt

  add_product-HasUniqueKeys :
      (k : Pubkey) (s : State) → HasUniqueKeys s.view → HasUniqueKeys (add_product k s).view
  unfolding add_view drop_product
  add_product-HasUniqueKeys k s u = elim (Option-cases (metadata_of k s)) [
    | inl e ↦ rw ((add_product-none k s e).0) u
    | inr (m, e) ↦
        rw
          (
            add_product-found k m s e,
            (take_prices-keeps [] (collect_keys m.price_accounts) (drop_product k s)).0,
          )
          (insert-HasUniqueKeys _ _ s.view u)
  ]

  add_products-HasUniqueKeys :
      (ks : List Pubkey) (s : State) → HasUniqueKeys s.view → HasUniqueKeys (add_products ks s).view
  unfolding add_products
  add_products-HasUniqueKeys [] s u = u
  add_products-HasUniqueKeys (k ∷ ks) s u =
      add_products-HasUniqueKeys ks (add_product k s) (add_product-HasUniqueKeys k s u)

  -- The entry is the one of a product of the metadata, with its price accounts and no others.
  pub record IsFrom (origin : State) (name : String) (shown : DashboardSymbolView) : Type 0 where
    pub key : Pubkey
    pub metadata : ProductAccountMetadata
    pub known : metadata_of key origin ≡ some metadata
    pub named : symbol_name key metadata ≡ name
    pub product : shown.product ≡ key
    pub unique : HasUniqueKeys shown.prices
    pub prices :
        (p : Pubkey)
        → lookup p shown.prices ≡ (elim (contains p metadata.price_accounts) [
          | true ↦ some (price_view p origin)
          | false ↦ none
        ])

  abbrev pub AreFrom : State → SymbolViews → Type 0
  AreFrom origin view =
      (name : String) (shown : DashboardSymbolView)
      → lookup name view ≡ some shown
      → IsFrom origin name shown

  module _ (origin : State) (apart : AreApart origin) where
    add_product-AreFrom :
        (k : Pubkey) (ks : List Pubkey) (s : State)
        → IsPending origin s (k ∷ ks)
        → AreFrom origin s.view
        → AreFrom origin (add_product k s).view
    add_product-AreFrom k ks s h from name shown f = elim (Option-cases (metadata_of k s)) [
      | inl e ↦ from name shown (rw ((add_product-none k s e).0) at f)
      | inr (m, e) ↦
          let known = sym (head_meta origin s k ks h) ∙ e in
          let now = lookup-add_product name k m s e (head_free origin s k ks m h known) in
          elim (dec_string (symbol_name k m) name) [
            | yes same ↦
                let g = sym f ∙ now ∙ if_pos (dec_string (symbol_name k m) name) same _ _ in
                let entry : record { product = k; prices = prices_of k m s } ≡ shown = cc in
                subst (IsFrom origin name) entry (record {
                  key = k;
                  metadata = m;
                  known = known;
                  named = same;
                  product = refl;
                  unique = prices_of-HasUniqueKeys k m s;
                  prices = own_prices origin s k m ks h known;
                })
            | no other ↦
                from name shown
                  (sym (now ∙ if_neg (dec_string (symbol_name k m) name) other _ _) ∙ f)
          ]
    ]

    add_products-AreFrom :
        (ks : List Pubkey) (s : State)
        → AreDistinct ks
        → IsPending origin s ks
        → AreFrom origin s.view
        → AreFrom origin (add_products ks s).view
    unfolding add_products
    add_products-AreFrom [] s u h from = from
    add_products-AreFrom (k ∷ ks) s u h from =
        add_products-AreFrom ks (add_product k s) u.1
          (add_product-IsPending origin apart s k ks u.0 h) (add_product-AreFrom k ks s h from)

  -- Where no two products have one name or share a price account, no name stands twice in the table,
  -- and each entry is the one of a product of the metadata.
  pub build_dashboard_data-AreFrom :
      (local_data : Prices) (global_data : AllAccountsData) (global_metadata : AllAccountsMetadata)
      → AreApart (initial local_data global_data global_metadata)
      → let view = build_dashboard_data local_data global_data global_metadata in
        HasUniqueKeys view × AreFrom (initial local_data global_data global_metadata) view
  unfolding build_dashboard_data initial lookup
  build_dashboard_data-AreFrom local_data global_data global_metadata apart =
      let ks = collect_keys (keys global_metadata.product_accounts_metadata) in
      let s = initial local_data global_data global_metadata in
      (
        add_products-HasUniqueKeys ks s tt,
        add_products-AreFrom s apart ks s
            (collect_keys-AreDistinct (keys global_metadata.product_accounts_metadata))
            (initial-IsPending local_data global_data global_metadata ks) (λ name shown f. cc),
      )
