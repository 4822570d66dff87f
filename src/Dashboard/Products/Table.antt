-- ===== src/Dashboard/Products/Table.antt =====
-- The whole table of `build_dashboard_data` in dashboard.rs.
use pyth_agent.Prelude.{
  ◌≡◌, refl, sym, ◌∙◌, subst, inl, inr, Bool-cases, true, false, List, [], ◌∷◌, none, some, String,
  arith, ℕ_discrete,
}
use mathlib.Core.Logic.{if_pos}
use pyth_agent.Prelude.Maps.{AreDistinct, lookup, contains, keys, nat_key, string_key, dec_string}
use pyth_agent.Solana.{Pubkey, Env}
use pyth_agent.Store.Local.{Prices}
use pyth_agent.Store.Global.{AllAccountsData, AllAccountsMetadata, ProductAccountMetadata}
use pyth_agent.Dashboard.{
  DashboardSymbolView, SymbolViews, State, collect_keys, price_view, symbol_name, add_product,
  add_products, initial, build_dashboard_data,
}
use pyth_agent.Dashboard.Sets.{collect_keys-AreDistinct, contains-collect_keys}
use pyth_agent.Dashboard.Products.{metadata_of, prices_of, lookup-prices_of, lookup-add_product}
use pyth_agent.Dashboard.Products.Pending.{
  AreApart, IsPending, differ, contains-later, head_meta, head_free, lookup-other,
  add_product-IsPending,
}

contains-keys :
    {V : Type 0} (k : Pubkey) (v : V) (m : List (Pubkey × V))
    → lookup k m ≡ some v
    → contains k (keys m) ≡ true
unfolding contains lookup
contains-keys k v [] h = cc
contains-keys k v ((j, w) ∷ m) h = ground (arith, contains-keys k v m)

module _ ⦃env : Env⦄ where
  -- The table has the product under its name, with its price accounts and no others, each with what the
  -- stores have for it.
  pub record IsShown (s : State) (k : Pubkey) (m : ProductAccountMetadata) (view : SymbolViews)
      : Type 0 where
    pub shown : DashboardSymbolView
    pub found : lookup (symbol_name k m) view ≡ some shown
    pub product : shown.product ≡ k
    pub prices :
        (p : Pubkey)
        → lookup p shown.prices
          ≡ (elim (contains p m.price_accounts) [ true ↦ some (price_view p s) | false ↦ none ])

  -- The prices of the product whose turn it is.
  pub own_prices :
      (origin s : State) (k : Pubkey) (m : ProductAccountMetadata) (ks : List Pubkey)
      → IsPending origin s (k ∷ ks)
      → metadata_of k origin ≡ some m
      → (p : Pubkey)
      → lookup p (prices_of k m s)
        ≡ (elim (contains p m.price_accounts) [ true ↦ some (price_view p origin) | false ↦ none ])
  unfolding contains
  own_prices origin s k m ks h known p =
      let here : contains k (k ∷ ks) ≡ true = ground arith in
      let r = lookup-prices_of p k m s in
      elim (Bool-cases (contains p m.price_accounts)) [
        | inl c ↦ rw (c) (rw (c, h.view k m p here known c) at r)
        | inr c ↦ rw (c) (rw (c) at r)
      ]

  module _ (origin : State) (apart : AreApart origin) where
    -- A name of none of the products that are left keeps its place.
    lookup-kept :
        (name : String) (ks : List Pubkey) (s : State)
        → AreDistinct ks
        → IsPending origin s ks
        → ((j : Pubkey) (m : ProductAccountMetadata)
            → contains j ks ≡ true
            → metadata_of j origin ≡ some m
            → ¬ (symbol_name j m ≡ name))
        → lookup name (add_products ks s).view ≡ lookup name s.view
    unfolding add_products contains
    lookup-kept name [] s u h other = refl
    lookup-kept name (k ∷ ks) s u h other =
        lookup-kept name ks (add_product k s) u.1 (add_product-IsPending origin apart s k ks u.0 h)
          (λ j m c e. other j m (contains-later j k ks c) e)
        ∙ lookup-other origin apart name s k ks h (λ n f. other k n (ground arith) f)

    add_product-IsShown :
        (k : Pubkey) (m : ProductAccountMetadata) (ks : List Pubkey) (s : State)
        → AreDistinct (k ∷ ks)
        → IsPending origin s (k ∷ ks)
        → metadata_of k origin ≡ some m
        → IsShown origin k m (add_products ks (add_product k s)).view
    unfolding contains
    add_product-IsShown k m ks s u h known =
        let e = head_meta origin s k ks h ∙ known in
        let kept =
          lookup-kept (symbol_name k m) ks (add_product k s) u.1
            (add_product-IsPending origin apart s k ks u.0 h)
            (λ j n c f same. differ j k ks u.0 c (sym (apart.names j k n m f known same))) in
        record {
          shown = record { product = k; prices = prices_of k m s };
          found =
              kept
              ∙ lookup-add_product (symbol_name k m) k m s e (head_free origin s k ks m h known)
              ∙ if_pos (dec_string (symbol_name k m) (symbol_name k m)) refl _ _;
          product = refl;
          prices = λ p. own_prices origin s k m ks h known p;
        }

    add_products-IsShown :
        (k : Pubkey) (m : ProductAccountMetadata) (ks : List Pubkey) (s : State)
        → AreDistinct ks
        → IsPending origin s ks
        → contains k ks ≡ true
        → metadata_of k origin ≡ some m
        → IsShown origin k m (add_products ks s).view
    unfolding add_products contains
    add_products-IsShown k m [] s u h c e = cc
    add_products-IsShown k m (j ∷ ks) s u h c e = elim (ℕ_discrete j k) [
      | yes same ↦
          subst (λ x. IsShown origin x m (add_products ks (add_product j s)).view) same
            (add_product-IsShown j m ks s u h
              (subst (λ x. metadata_of x origin ≡ some m) (sym same) e))
      | no other ↦
          add_products-IsShown k m ks (add_product j s) u.1
            (add_product-IsPending origin apart s j ks u.0 h) (ground arith) e
    ]

  pub initial-IsPending :
      (local_data : Prices) (global_data : AllAccountsData) (global_metadata : AllAccountsMetadata)
      (ks : List Pubkey)
      → let s = initial local_data global_data global_metadata in IsPending s s ks
  unfolding initial lookup
  initial-IsPending local_data global_data global_metadata ks = record {
    meta = λ j c. refl;
    view = λ j m p c e here. refl;
    free = λ j m c e. refl;
  }

  -- Where no two products have one name or share a price account, the table has each product of the
  -- metadata under its name, with exactly its price accounts, each with what the local store, the global
  -- store and the metadata have for it.
  pub build_dashboard_data-IsShown :
      (local_data : Prices) (global_data : AllAccountsData) (global_metadata : AllAccountsMetadata)
      (k : Pubkey) (m : ProductAccountMetadata)
      → AreApart (initial local_data global_data global_metadata)
      → lookup k global_metadata.product_accounts_metadata ≡ some m
      → IsShown
          (initial local_data global_data global_metadata)
          k
          m
          (build_dashboard_data local_data global_data global_metadata)
  unfolding build_dashboard_data initial
  build_dashboard_data-IsShown local_data global_data global_metadata k m apart e =
      let ks = keys global_metadata.product_accounts_metadata in
      add_products-IsShown (initial local_data global_data global_metadata) apart k m
        (collect_keys ks) (initial local_data global_data global_metadata)
        (collect_keys-AreDistinct ks)
        (initial-IsPending local_data global_data global_metadata (collect_keys ks))
        (contains-collect_keys k ks ∙ contains-keys k m global_metadata.product_accounts_metadata e)
        e
