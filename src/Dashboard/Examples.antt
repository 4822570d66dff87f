-- ===== src/Dashboard/Examples.antt =====
-- The dashboard's table of a few products, and the theorem about it.
use pyth_agent.Prelude.{◌≡◌, refl, List, [], ◌∷◌, none, some, String, ℕ_discrete, arith}
use pyth_agent.Prelude.Int.{pos}
use pyth_agent.Prelude.Maps.{
  lookup, insert, remove, contains, set_insert, set_remove, nat_key, string_key, dec_string,
}
use pyth_agent.Samples.{sample_env, account_at, unary}
use pyth_agent.Solana.{Pubkey, trading}
use pyth_agent.Store.Local.{Prices}
use pyth_agent.Store.Global.{AllAccountsData, AllAccountsMetadata, ProductAccountMetadata}
use pyth_agent.Dashboard.{
  collect_keys, price_view, drop_price, take_prices, free_name, symbol_name, add_view, drop_product,
  add_product, add_products, initial, build_dashboard_data,
}
use pyth_agent.Dashboard.Products.{metadata_of}
use pyth_agent.Dashboard.Rows.{Format, row, price_string, time_string, rows}
use pyth_agent.Dashboard.Products.Pending.{AreApart}
use pyth_agent.Dashboard.Products.Table.{IsShown, build_dashboard_data-IsShown}

program : Unit {0}
unfolding lookup insert remove contains set_insert set_remove ℕ_discrete dec_string unary
    collect_keys price_view drop_price take_prices free_name symbol_name add_view drop_product
    add_product add_products initial build_dashboard_data
program = tt

abbrev named : String → List Pubkey → ProductAccountMetadata
named name prices = record { attr_dict = ("symbol", name) ∷ []; price_accounts = prices }

abbrev local_data : Prices
local_data = (4, record { status = trading; price = pos 5; conf = 1; timestamp = pos 20 }) ∷ []

abbrev global_data : AllAccountsData
global_data = record { product_accounts = []; price_accounts = (4, account_at 9) ∷ [] }

abbrev metadata : AllAccountsMetadata
metadata = record {
  product_accounts_metadata = (3, named "BTC" (4 ∷ 4 ∷ [])) ∷ [];
  price_accounts_metadata = [];
}

-- Three products of one symbol: the third takes the place of the second.
abbrev three : AllAccountsMetadata
three = record {
  product_accounts_metadata = (1, named "BTC" []) ∷ (2, named "BTC" []) ∷ (3, named "BTC" []) ∷ [];
  price_accounts_metadata = [];
}

third_replaces_second :
    build_dashboard_data [] global_data three
    ≡ ("BTC", record { product = 1; prices = [] })
      ∷ ("BTC (duplicate)", record { product = 3; prices = [] })
      ∷ []
unfolding program
third_replaces_second = refl

only :
    (k : Pubkey) (m : ProductAccountMetadata)
    → metadata_of k (initial local_data global_data metadata) ≡ some m
    → 3 ≡ k
unfolding lookup initial
only k m e = ground arith

apart : AreApart (initial local_data global_data metadata)
apart = record {
  names = λ j k m n e f same. let a = only j m e in let b = only k n f in cc;
  prices = λ j k m n p e f c d. let a = only j m e in let b = only k n f in cc;
}

found : lookup 3 metadata.product_accounts_metadata ≡ some (named "BTC" (4 ∷ 4 ∷ []))
unfolding program
found = refl

-- Texts for the example; no number is a time.
abbrev format : Format
format = record {
  price_with_expo = λ price expo. "price";
  datetime = λ t. none;
  int_to_string = λ t. "time";
  page = λ uptime rows. "page";
}

-- The page has one row.
one_row :
    rows format (build_dashboard_data local_data global_data metadata)
    ≡ record {
      symbol = "BTC";
      product_id = "xxx";
      price_id = "xxxx";
      last_published_price = "price";
      last_publish_time = "Invalid timestamp time";
      last_local_update_time = "Invalid timestamp time";
    }
      ∷ []
unfolding program rows row price_string time_string
one_row = refl

build_dashboard_data-IsShown_example :
    IsShown
      (initial local_data global_data metadata)
      3
      (named "BTC" (4 ∷ 4 ∷ []))
      (build_dashboard_data local_data global_data metadata)
build_dashboard_data-IsShown_example =
    build_dashboard_data-IsShown local_data global_data metadata 3 (named "BTC" (4 ∷ 4 ∷ [])) apart
      found
