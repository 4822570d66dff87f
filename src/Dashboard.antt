-- ===== src/Dashboard.antt =====
-- src/agent/dashboard.rs: the table of the prices that the stores hold, by the products' symbols. A
-- `HashSet` is a list without repetitions, in the order in which it is read; `BTreeMap`s are association
-- lists. The texts of numbers and times, and the page around the rows, are the libraries'.
pub mod Sets
pub mod Products
pub mod Rows
mod Examples
use Prim.Native.String.{◌++◌ as str_append}
use mathlib.Core.Option.{map as map_option}
use pyth_agent.Prelude.{
  ℕ, ◌++◌, Bool, true, false, List, [], ◌∷◌, Option, none, some, String, Result, ok, err, ok_or,
  ◌>>=◌, if◌then◌else◌, map,
}
use pyth_agent.Prelude.Int.{ℤ}
use pyth_agent.Prelude.Maps.{
  lookup, insert, remove, keys, contains, set_insert, set_remove, nat_key, string_key,
}
use pyth_agent.Solana.{Pubkey, PriceEntry, Env}
use pyth_agent.Store.Price.{PriceInfo}
use pyth_agent.Store.Local.{Prices}
use pyth_agent.Store.Global.{
  AllAccountsData, AllAccountsMetadata, ProductAccountMetadata, PriceAccountMetadata,
}

pub record DashboardPriceView : Type 0 where
  pub local_data : Option PriceInfo
  pub global_data : Option PriceEntry
  pub global_metadata : Option PriceAccountMetadata

pub record DashboardSymbolView : Type 0 where
  pub product : Pubkey
  pub prices : List (Pubkey × DashboardPriceView)

abbrev pub SymbolViews : Type 0
SymbolViews = List (String × DashboardSymbolView)

-- The data that is still to be shown, the keys that are still to be met, and the view so far.
pub record State : Type 0 where
  pub local_data : Prices
  pub global_data : AllAccountsData
  pub global_metadata : AllAccountsMetadata
  pub all_price_keys : List Pubkey
  pub remaining_product_keys : List Pubkey
  pub view : SymbolViews

-- `collect` into a set.
unfoldable pub collect_keys : List Pubkey → List Pubkey
collect_keys [] = []
collect_keys (k ∷ ks) = set_insert k (collect_keys ks)

-- What the data has for a price account.
unfoldable pub price_view : Pubkey → State → DashboardPriceView
price_view price_key s = record {
  local_data = lookup price_key s.local_data;
  global_data = lookup price_key s.global_data.price_accounts;
  global_metadata = lookup price_key s.global_metadata.price_accounts_metadata;
}

unfoldable pub drop_price : Pubkey → State → State
drop_price price_key s = record {
  local_data = remove price_key s.local_data;
  global_data = record s.global_data {
    price_accounts = remove price_key s.global_data.price_accounts;
  };
  global_metadata = record s.global_metadata {
    price_accounts_metadata = remove price_key s.global_metadata.price_accounts_metadata;
  };
  all_price_keys = set_remove price_key s.all_price_keys;
  remaining_product_keys = s.remaining_product_keys;
  view = s.view;
}

-- The price accounts of one product, each taken out of the data.
unfoldable pub take_prices :
    List (Pubkey × DashboardPriceView)
    → List Pubkey
    → State
    → List (Pubkey × DashboardPriceView) × State
unfolding price_view drop_price
take_prices prices [] s = (prices, s)
take_prices prices (k ∷ ks) s = take_prices (insert k (price_view k s) prices) ks (drop_price k s)

-- A name that is taken is changed, once.
unfoldable pub free_name : String → SymbolViews → String
free_name name view = elim (lookup name view) [
  | some taken ↦ str_append name " (duplicate)"
  | none ↦ name
]

module _ ⦃env : Env⦄ where
  unfoldable pub symbol_name : Pubkey → ProductAccountMetadata → String
  symbol_name key metadata = elim (lookup "symbol" metadata.attr_dict) [
    | some name ↦ name
    | none ↦ str_append "unnamed product " (env.to_string key)
  ]

  -- The step for a product whose metadata was found, and taken out of the data.
  unfoldable pub add_view : Pubkey → ProductAccountMetadata → State → State
  unfolding take_prices collect_keys symbol_name free_name
  add_view key metadata s =
      let r = take_prices [] (collect_keys metadata.price_accounts) s in
      let s' = r.1 in
      record s' {
        remaining_product_keys = set_remove key s'.remaining_product_keys;
        view =
            insert (free_name (symbol_name key metadata) s'.view)
              (record { product = key; prices = r.0 }) s'.view;
      }

  unfoldable pub drop_product : Pubkey → State → State
  drop_product key s = record {
    local_data = s.local_data;
    global_data = record s.global_data {
      product_accounts = remove key s.global_data.product_accounts;
    };
    global_metadata = record s.global_metadata {
      product_accounts_metadata = remove key s.global_metadata.product_accounts_metadata;
    };
    all_price_keys = s.all_price_keys;
    remaining_product_keys = s.remaining_product_keys;
    view = s.view;
  }

  unfoldable pub add_product : Pubkey → State → State
  unfolding drop_product add_view
  add_product key s = elim (lookup key s.global_metadata.product_accounts_metadata) [
    | some metadata ↦ add_view key metadata (drop_product key s)
    | none ↦ drop_product key s
  ]

  unfoldable pub add_products : List Pubkey → State → State
  unfolding add_product
  add_products [] s = s
  add_products (k ∷ ks) s = add_products ks (add_product k s)

  -- Before the first product.
  unfoldable pub initial : Prices → AllAccountsData → AllAccountsMetadata → State
  unfolding collect_keys
  initial local_data global_data global_metadata = record {
    local_data = local_data;
    global_data = global_data;
    global_metadata = global_metadata;
    all_price_keys = collect_keys (
        keys global_data.price_accounts
        ++ keys global_metadata.price_accounts_metadata
        ++ keys local_data);
    remaining_product_keys = collect_keys (keys global_metadata.product_accounts_metadata);
    view = [];
  }

  unfoldable pub build_dashboard_data : Prices → AllAccountsData → AllAccountsMetadata → SymbolViews
  unfolding initial add_products
  build_dashboard_data local_data global_data global_metadata =
      (add_products (collect_keys (keys global_metadata.product_accounts_metadata))
        (initial local_data global_data global_metadata)).view
