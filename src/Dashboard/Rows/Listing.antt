-- ===== src/Dashboard/Rows/Listing.antt =====
-- Which rows `render_dashboard` of dashboard.rs puts on the page.
use mathlib.Core.Option.{map as map_option}
use pyth_agent.Prelude.{◌≡◌, true, map, some}
use pyth_agent.Prelude.Maps.{lookup, contains, nat_key, string_key}
use pyth_agent.Solana.{Pubkey, Env}
use pyth_agent.Store.Local.{Prices}
use pyth_agent.Store.Global.{AllAccountsData, AllAccountsMetadata, ProductAccountMetadata}
use pyth_agent.Dashboard.{SymbolViews, State, initial, symbol_name, build_dashboard_data}
use pyth_agent.Dashboard.Products.Pending.{AreApart}
use pyth_agent.Dashboard.Rows.{Row, Format, price_string, time_string}

module _ ⦃env : Env⦄ (format : Format) where
  -- The row of a price account of a product: the product's name and key, the account's key, the price
  -- and the time that the global store has for the account, and the time that the local store has.
  abbrev pub account_row : Prices → AllAccountsData → Pubkey → ProductAccountMetadata → Pubkey → Row
  account_row local_data global_data k m p = record {
    symbol = symbol_name k m;
    product_id = env.to_string k;
    price_id = env.to_string p;
    last_published_price = price_string format (lookup p global_data.price_accounts);
    last_publish_time =
        time_string format (map_option (λ d. d.timestamp) (lookup p global_data.price_accounts));
    last_local_update_time =
        time_string format (map_option (λ d. d.timestamp) (lookup p local_data));
  }

  -- The row of a price account of one of the products of the metadata.
  abbrev pub IsAccountRow : Prices → AllAccountsData → AllAccountsMetadata → Row → Type 0
  IsAccountRow local_data global_data global_metadata r =
      (k : Pubkey) × (m : ProductAccountMetadata) × (p : Pubkey) × (lookup k
          global_metadata.product_accounts_metadata
        ≡ some m)
      × (contains p m.price_accounts ≡ true)
      × (r ≡ account_row local_data global_data k m p)

  module _ (local_data : Prices) (global_data : AllAccountsData)
      (global_metadata : AllAccountsMetadata)
      (apart : AreApart (initial local_data global_data global_metadata)) where
    abbrev origin : State
    origin = initial local_data global_data global_metadata

    abbrev table : SymbolViews
    table = build_dashboard_data local_data global_data global_metadata
