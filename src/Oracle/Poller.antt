-- ===== src/Oracle/Poller.antt =====
-- The `Poller` of oracle.rs, which reads all accounts from a node. During one poll the node's answer
-- depends on the request alone.
pub mod Permissions
pub mod Chain
pub mod OneBatch
pub mod Listing
use pyth_agent.Prelude.{
  ℕ, zero, suc, Bool, true, false, not, List, [], ◌∷◌, ◌++◌, Option, none, some, Result, ok, err,
  ok_or, ◌>>=◌, map, retain, ◌==◌, if◌then◌else◌,
}
use pyth_agent.Prelude.Maps.{lookup, insert, extend, set_insert, nat_key}
use pyth_agent.Solana.{
  Pubkey, PriceEntry, PriceComp, ProductEntry, ProductData, MappingAccount, default_pubkey,
}
use pyth_agent.Oracle.{Data, Error, rpc_failed, not_loaded, chunk_size_zero, out_of_fuel}
use pyth_agent.Oracle as Oracle
use pyth_agent.Exporter.Batch.{chunks}

-- The node's answers, and what the libraries read out of an account.
pub record Node (Account : Type 0) : Type 0 where
  pub get_account_data : Pubkey → Option Account
  pub get_multiple_accounts : List Pubkey → Option (List (Option Account))
  pub load_mapping_account : Account → Option MappingAccount
  pub load_product_account : Account → Option ProductData
  pub load_price_account : Account → Option PriceEntry

abbrev pub Products : Type 0
Products = List (Pubkey × ProductEntry)

abbrev pub Prices : Type 0
Prices = List (Pubkey × PriceEntry)

-- The price accounts of a publisher.
abbrev pub permitted : Pubkey → Oracle.Permissions → List Pubkey
permitted publisher m = elim (lookup publisher m) [ some keys ↦ keys | none ↦ [] ]

-- One component of a price account.
unfoldable pub add_permission : Pubkey → PriceComp → Oracle.Permissions → Oracle.Permissions
add_permission price_key component m =
    insert component.publisher (set_insert price_key (permitted component.publisher m)) m

unfoldable pub add_components : Pubkey → List PriceComp → Oracle.Permissions → Oracle.Permissions
unfolding add_permission
add_components price_key [] m = m
add_components price_key (component ∷ components) m =
    add_components price_key components (add_permission price_key component m)

unfoldable pub permissions : Prices → Oracle.Permissions → Oracle.Permissions
unfolding add_components
permissions [] m = m
permissions ((price_key, price_entry) ∷ prices) m =
    permissions prices (add_components price_key price_entry.comp m)

unfoldable pub is_set : Pubkey → Bool
is_set key = not (key == default_pubkey)

unfoldable pub product_keys : List (Pubkey × MappingAccount) → List Pubkey
unfolding is_set
product_keys [] = []
product_keys ((_, mapping_account) ∷ ms) = retain is_set mapping_account.products ++ product_keys ms

module _ {Account : Type 0} (node : Node Account) where
  unfoldable pub load_mapping : Pubkey → Result Error MappingAccount
  load_mapping key = ok_or (node.get_account_data key) rpc_failed >>= λ account.
      ok_or (node.load_mapping_account account) not_loaded

  -- The chain of mapping accounts, with fuel: a chain that does not come back to an earlier account
  -- needs no more than its length.
  unfoldable pub fetch_mapping_accounts :
      ℕ → Pubkey → List (Pubkey × MappingAccount) → Result Error (List (Pubkey × MappingAccount))
  unfolding load_mapping is_set
  fetch_mapping_accounts zero key accounts = if is_set key then err out_of_fuel else ok accounts
  fetch_mapping_accounts (suc fuel) key accounts =
      if is_set key
      then (load_mapping key >>= λ account.
          fetch_mapping_accounts fuel account.next (insert key account accounts))
      else ok accounts

  -- Products that the node does not have are left out.
  unfoldable pub fill_products :
      List Pubkey → List (Option Account) → Products → Result Error Products
  fill_products [] accounts m = ok m
  fill_products (key ∷ keys) [] m = ok m
  fill_products (key ∷ keys) (none ∷ accounts) m = fill_products keys accounts m
  fill_products (key ∷ keys) (some account ∷ accounts) m =
      ok_or (node.load_product_account account) not_loaded >>= λ product.
      fill_products keys accounts
        (insert key (record { account_data = product; price_accounts = [] }) m)

  -- The loop's state: the products, the prices, and the keys to look up next.
  pub record Found : Type 0 where
    pub products : Products
    pub prices : Prices
    pub next_todo : List Pubkey

  -- A price whose product is unknown is left out, and its chain is not followed.
  unfoldable pub add_price : Pubkey → PriceEntry → Found → Found
  unfolding is_set
  add_price key price f = elim (lookup price.prod f.products) [
    | none ↦ f
    | some p ↦ record {
      products =
          insert price.prod (record p { price_accounts = p.price_accounts ++ key ∷ [] }) f.products;
      prices = insert key price f.prices;
      next_todo = if is_set price.next then f.next_todo ++ price.next ∷ [] else f.next_todo;
    }
  ]

  unfoldable pub fill_prices : List Pubkey → List (Option Account) → Found → Result Error Found
  unfolding add_price
  fill_prices [] accounts f = ok f
  fill_prices (key ∷ keys) [] f = ok f
  fill_prices (key ∷ keys) (none ∷ accounts) f = fill_prices keys accounts f
  fill_prices (key ∷ keys) (some account ∷ accounts) f =
      ok_or (node.load_price_account account) not_loaded >>= λ price.
      fill_prices keys accounts (add_price key price f)

  unfoldable pub follow_prices :
      ℕ → List Pubkey → Products → Prices → Result Error (Products × Prices)
  unfolding fill_prices
  follow_prices fuel [] products prices = ok (products, prices)
  follow_prices zero (key ∷ keys) products prices = err out_of_fuel
  follow_prices (suc fuel) (key ∷ keys) products prices =
      ok_or (node.get_multiple_accounts (key ∷ keys)) rpc_failed >>= λ accounts.
      fill_prices (key ∷ keys) accounts
        (record { products = products; prices = prices; next_todo = [] })
      >>= λ f. follow_prices fuel f.next_todo f.products f.prices

  unfoldable pub fetch_batch : ℕ → List Pubkey → Result Error (Products × Prices)
  unfolding fill_products follow_prices
  fetch_batch fuel keys = ok_or (node.get_multiple_accounts keys) rpc_failed >>= λ accounts.
      fill_products keys accounts [] >>= λ products.
      follow_prices fuel (map (λ e. e.1.account_data.px_acc) products) products []

  unfoldable pub fetch_batches :
      ℕ → List (List Pubkey) → Products → Prices → Result Error (Products × Prices)
  unfolding fetch_batch
  fetch_batches fuel [] products prices = ok (products, prices)
  fetch_batches fuel (batch ∷ batches) products prices = fetch_batch fuel batch >>= λ found.
      fetch_batches fuel batches (extend products found.0) (extend prices found.1)

  -- `chunks` panics on the size 0.
  unfoldable pub fetch_product_and_price_accounts :
      ℕ
      → (max_lookup_batch_size : ℕ) → List (Pubkey × MappingAccount)
      → Result Error (Products × Prices)
  unfolding product_keys fetch_batches chunks
  fetch_product_and_price_accounts fuel max_lookup_batch_size mapping_accounts =
      if max_lookup_batch_size == 0
      then err chunk_size_zero
      else fetch_batches fuel (chunks max_lookup_batch_size (product_keys mapping_accounts)) [] []

  unfoldable pub poll : ℕ → (max_lookup_batch_size : ℕ) → (mapping_key : Pubkey) → Result Error Data
  unfolding fetch_mapping_accounts fetch_product_and_price_accounts permissions
  poll fuel max_lookup_batch_size mapping_key =
      fetch_mapping_accounts fuel mapping_key [] >>= λ mapping_accounts.
      fetch_product_and_price_accounts fuel max_lookup_batch_size mapping_accounts >>= λ r.
      ok (record {
        mapping_accounts = mapping_accounts;
        product_accounts = r.0;
        price_accounts = r.1;
        publisher_permissions = permissions r.1 [];
      })
