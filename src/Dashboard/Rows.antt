-- ===== src/Dashboard/Rows.antt =====
-- `render_dashboard` of dashboard.rs: the rows of the page.
pub mod Listing
use Prim.Native.String.{◌++◌ as str_append}
use mathlib.Core.Option.{map as map_option}
use pyth_agent.Prelude.{
  ℕ, ◌≡◌, sym, ap, subst, inl, inr, true, List, [], ◌∷◌, ◌++◌, map, Option, none, some, String,
  Result, ok, err, ok_or, ◌>>=◌, In, In-append_left, In-append_right,
}
use pyth_agent.Prelude.Int.{ℤ}
use pyth_agent.Prelude.Maps.{lookup, contains, nat_key, string_key, In-lookup}
use pyth_agent.Solana.{Pubkey, PriceEntry, Env}
use pyth_agent.Store.Local.{Prices}
use pyth_agent.Store.Global.{AllAccountsData, AllAccountsMetadata, ProductAccountMetadata}
use pyth_agent.Dashboard.{
  DashboardPriceView, DashboardSymbolView, SymbolViews, initial, price_view, symbol_name,
  build_dashboard_data,
}
use pyth_agent.Dashboard.Products.Pending.{AreApart}
use pyth_agent.Dashboard.Products.Table.{build_dashboard_data-IsShown}

-- A row of the table: the symbol, the product, the price account, the price, the time of the last
-- publication, and the time of the last local update.
pub record Row : Type 0 where
  pub symbol : String
  pub product_id : String
  pub price_id : String
  pub last_published_price : String
  pub last_publish_time : String
  pub last_local_update_time : String

-- What the libraries make texts of: a price with its exponent, a time where it is one, a number, and the
-- page with its uptime in seconds and its rows.
pub record Format : Type 0 where
  pub price_with_expo : ℤ → ℤ → String
  pub datetime : ℤ → Option String
  pub int_to_string : ℤ → String
  pub page : (uptime : ℕ) → List Row → String

-- A store that does not take the request or does not answer it.
pub data Error : Type 0 where
  store_gone : Error

-- The page that the server answers with: the reason of a failure is left out.
unfoldable pub dashboard_response : Result Error String → String
dashboard_response (ok page) = page
dashboard_response (err e) = "Could not render dashboard! See the logs for details"

module _ ⦃env : Env⦄ (format : Format) where
  unfoldable pub price_string : Option PriceEntry → String
  price_string none = "no data"
  price_string (some global_data) = format.price_with_expo global_data.agg.price global_data.expo

  unfoldable pub time_string : Option ℤ → String
  time_string none = "no data"
  time_string (some timestamp) = elim (format.datetime timestamp) [
    | some datetime ↦ datetime
    | none ↦ str_append "Invalid timestamp " (format.int_to_string timestamp)
  ]

  unfoldable pub row : String → Pubkey → Pubkey × DashboardPriceView → Row
  unfolding price_string time_string
  row symbol product (price_pubkey, price_data) = record {
    symbol = symbol;
    product_id = env.to_string product;
    price_id = env.to_string price_pubkey;
    last_published_price = price_string price_data.global_data;
    last_publish_time = time_string (map_option (λ d. d.timestamp) price_data.global_data);
    last_local_update_time = time_string (map_option (λ d. d.timestamp) price_data.local_data);
  }

  unfoldable pub rows : SymbolViews → List Row
  unfolding row
  rows [] = []
  rows ((symbol, shown) ∷ view) = map (row symbol shown.product) shown.prices ++ rows view

  -- `none` where a store does not take the request or does not answer it.
  unfoldable pub render_dashboard :
      (local_data : Option Prices) (global_data : Option AllAccountsData)
      (global_metadata : Option AllAccountsMetadata) (uptime : ℕ)
      → Result Error String
  unfolding rows build_dashboard_data
  render_dashboard local_data global_data global_metadata uptime = do
    local_answer ← ok_or local_data store_gone
    accounts ← ok_or global_data store_gone
    metadata ← ok_or global_metadata store_gone
    ok (format.page uptime (rows (build_dashboard_data local_answer accounts metadata)))
