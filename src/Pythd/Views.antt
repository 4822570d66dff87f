-- ===== src/Pythd/Views.antt =====
-- The answers of adapter.rs about products: what the API shows of the global store's accounts.
pub mod Agreement
use pyth_agent.Prelude.{
  ℕ, ◌≡◌, Bool, true, false, not, List, [], ◌∷◌, Option, none, some, String, Result, ok, err, ok_or,
  ◌>>=◌, retain, map, ◌==◌, ite,
}
use pyth_agent.Prelude.Maps.{lookup, extend, nat_key, string_key, dec_string}
use pyth_agent.Solana.{Pubkey, PriceEntry, PriceComp, ProductEntry, Env}
use pyth_agent.Store.Global.{AllAccountsData, AllAccountsMetadata}
use pyth_agent.Store.Global as Global
use pyth_agent.Pythd.Api.{
  ProductAccountMetadata, PriceAccountMetadata, ProductAccount, PriceAccount, PublisherAccount,
}
use pyth_agent.Pythd.Status.{price_status_to_str}

-- The accounts that a list of keys finds in a map, in the order of the keys; the others are skipped.
unfoldable pub found : {V : Type 0} → List (Pubkey × V) → List Pubkey → List (Pubkey × V)
found m [] = []
found m (k ∷ ks) =
    let rest = found m ks in elim (lookup k m) [ some v ↦ (k, v) ∷ rest | none ↦ rest ]

unfoldable pub is_filled : String × String → Bool
is_filled (key, val) = ite (dec_string key "") false (ite (dec_string val "") false true)

module _ ⦃env : Env⦄ where
  unfoldable pub publisher_account : PriceComp → PublisherAccount
  unfolding price_status_to_str
  publisher_account comp = record {
    account = env.to_string comp.publisher;
    status = price_status_to_str comp.agg.status;
    price = comp.agg.price;
    conf = comp.agg.conf;
    slot = comp.agg.pub_slot;
  }

  unfoldable pub price_account_to_api : Pubkey × PriceEntry → PriceAccount
  unfolding publisher_account
  price_account_to_api (price_account_key, p) = record {
    account = env.to_string price_account_key;
    price_type = "price";
    price_exponent = p.expo;
    status = price_status_to_str p.agg.status;
    price = p.agg.price;
    conf = p.agg.conf;
    twap = p.ema_price_val;
    twac = p.ema_conf_val;
    valid_slot = p.valid_slot;
    pub_slot = p.agg.pub_slot;
    prev_slot = p.prev_slot;
    prev_price = p.prev_price;
    prev_conf = p.prev_conf;
    publisher_accounts = map publisher_account (retain (λ c. not (env.comp_is_default c)) p.comp);
  }

  unfoldable pub product_account_to_api : AllAccountsData → Pubkey × ProductEntry → ProductAccount
  unfolding price_account_to_api is_filled found
  product_account_to_api accounts (product_account_key, p) = record {
    account = env.to_string product_account_key;
    attr_dict = extend [] (retain is_filled p.account_data.attributes);
    price_accounts = map price_account_to_api (found accounts.price_accounts p.price_accounts);
  }

  unfoldable pub price_metadata_to_api : Pubkey × Global.PriceAccountMetadata → PriceAccountMetadata
  price_metadata_to_api (price_account_key, p) = record {
    account = env.to_string price_account_key;
    price_type = "price";
    price_exponent = p.expo;
  }

  unfoldable pub get_product_list : AllAccountsMetadata → List ProductAccountMetadata
  unfolding price_metadata_to_api found
  get_product_list m =
      map
        (λ e. record {
          account = env.to_string e.0;
          attr_dict = e.1.attr_dict;
          price = map price_metadata_to_api (found m.price_accounts_metadata e.1.price_accounts);
        })
        m.product_accounts_metadata

  unfoldable pub get_all_products : AllAccountsData → List ProductAccount
  unfolding product_account_to_api
  get_all_products accounts = map (product_account_to_api accounts) accounts.product_accounts

  -- `none` where the product is not found.
  unfoldable pub get_product : AllAccountsData → Pubkey → Option ProductAccount
  unfolding product_account_to_api
  get_product accounts key = elim (lookup key accounts.product_accounts) [
    | some p ↦ some (product_account_to_api accounts (key, p))
    | none ↦ none
  ]
