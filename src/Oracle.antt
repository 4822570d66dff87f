-- ===== src/Oracle.antt =====
-- src/agent/solana/oracle.rs: the task that keeps a copy of the accounts of the oracle program, and
-- sends them to the global store. An account is a parameter, with what the libraries read out of it.
pub mod Poller
pub mod Delivery
pub mod Tasks
pub mod Subscriber
mod Examples
use pyth_agent.Prelude.{
  ℕ, Bool, true, false, List, [], ◌∷◌, ◌++◌, Option, none, some, Result, ok, err, map,
  if◌then◌else◌,
}
use pyth_agent.Prelude.Maps.{lookup, insert, nat_key}
use pyth_agent.Solana.{Pubkey, PriceEntry, ProductEntry, MappingAccount}
use pyth_agent.Store.Global.{Update, product_account_update, price_account_update}

-- The publisher permissions: the price accounts of each publisher.
abbrev pub Permissions : Type 0
Permissions = List (Pubkey × List Pubkey)

pub record Data : Type 0 where
  pub mapping_accounts : List (Pubkey × MappingAccount)
  pub product_accounts : List (Pubkey × ProductEntry)
  pub price_accounts : List (Pubkey × PriceEntry)
  pub publisher_permissions : Permissions

abbrev pub default_data : Data
default_data = record {
  mapping_accounts = [];
  product_accounts = [];
  price_accounts = [];
  publisher_permissions = [];
}

pub data Error : Type 0 where
  rpc_failed not_loaded failed_to_notify chunk_size_zero out_of_fuel permissions_closed data_closed
        shadow_failed shadow_gone failed_to_forward :
      Error

-- The event that `handle_next` selects.
pub data Event (Account : Type 0) : Type 0 where
  account_update : (account_key : Pubkey) (account : Account) → Event Account
  data_update : Data → Event Account

-- The result, and the updates that the global store got.
pub record Output : Type 0 where
  pub result : Result Error (Unit {0})
  pub sent : List Update

-- The updates go out one by one, and the first that the global store does not take is an error.
-- Whether it takes them does not change meanwhile.
unfoldable pub send : Bool → List Update → Output
send open_tx [] = record { result = ok tt; sent = [] }
send true (u ∷ us) = record { result = ok tt; sent = u ∷ us }
send false (u ∷ us) = record { result = err failed_to_notify; sent = [] }

unfoldable pub all_updates : Data → List Update
all_updates d =
    map (λ e. product_account_update e.0 e.1) d.product_accounts
    ++ map (λ e. price_account_update e.0 e.1) d.price_accounts

unfoldable pub send_all_data_to_global_store : Bool → Data → Output
unfolding send all_updates
send_all_data_to_global_store open_tx d = send open_tx (all_updates d)

module _ {Account : Type 0} (load_price_account : Account → Option PriceEntry) where
  unfoldable pub handle_price_account_update :
      Bool → Pubkey → Option PriceEntry → Data → Output × Data
  unfolding send
  handle_price_account_update open_tx account_key none d =
      (record { result = err not_loaded; sent = [] }, d)
  handle_price_account_update open_tx account_key (some price_account) d = (
    send open_tx (price_account_update account_key price_account ∷ []),
    record d { price_accounts = insert account_key price_account d.price_accounts },
  )

  -- Only the price accounts that polling has found are of interest.
  unfoldable pub handle_account_update : Bool → Pubkey → Account → Data → Output × Data
  unfolding handle_price_account_update
  handle_account_update open_tx account_key account d = elim (lookup account_key d.price_accounts) [
    | none ↦ (record { result = ok tt; sent = [] }, d)
    | some known ↦ handle_price_account_update open_tx account_key (load_price_account account) d
  ]

  unfoldable pub handle_next : Bool → Event Account → Data → Output × Data
  unfolding handle_account_update send_all_data_to_global_store
  handle_next open_tx (account_update key account) d = handle_account_update open_tx key account d
  handle_next open_tx (data_update fresh) d = (send_all_data_to_global_store open_tx fresh, fresh)
