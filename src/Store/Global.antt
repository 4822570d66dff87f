-- ===== src/Store/Global.antt =====
-- src/agent/store/global.rs: the accounts and their metadata as seen on chain. One task owns the store
-- and takes one message at a time from the primary network, the secondary network or a reader, in
-- any order, so a history is a list of events. Each event says whether the channel that it may send
-- on is open then. Logging is left out.
pub mod Data
pub mod Metadata
pub mod Gauges
mod Examples
use pyth_agent.Prelude.{
  ℕ, ◌++◌, Bool, List, [], ◌∷◌, Option, none, some, Result, ok, err, String, if◌then◌else◌,
}
use pyth_agent.Prelude.Int.{ℤ, ltb_ℤ}
use pyth_agent.Prelude.Maps.{lookup, insert, extend, nat_key, string_key}
use pyth_agent.Solana.{Pubkey, Identifier, PriceStatus, PriceEntry, ProductEntry, Env}
use pyth_agent.Metrics.{
  PriceGlobalMetrics, ProductGlobalMetrics, new_price_global, update_price_global,
  update_product_global,
}

pub record AllAccountsData : Type 0 where
  pub product_accounts : List (Pubkey × ProductEntry)
  pub price_accounts : List (Pubkey × PriceEntry)

pub record ProductAccountMetadata : Type 0 where
  pub attr_dict : List (String × String)
  pub price_accounts : List Pubkey

pub record PriceAccountMetadata : Type 0 where
  pub expo : ℤ

pub record AllAccountsMetadata : Type 0 where
  pub product_accounts_metadata : List (Pubkey × ProductAccountMetadata)
  pub price_accounts_metadata : List (Pubkey × PriceAccountMetadata)

-- `collect` into a map: of two values for a key the later one stays.
unfoldable pub product_metadata : ProductEntry → ProductAccountMetadata
product_metadata p = record {
  attr_dict = extend [] p.account_data.attributes;
  price_accounts = p.price_accounts;
}

unfoldable pub price_metadata : PriceEntry → PriceAccountMetadata
price_metadata p = record { expo = p.expo }

pub data Update : Type 0 where
  product_account_update : (account_key : Pubkey) (account : ProductEntry) → Update
  price_account_update : (account_key : Pubkey) (account : PriceEntry) → Update

pub data Lookup : Type 0 where
  lookup_all_accounts_metadata lookup_all_accounts_data : Lookup

-- What a reader receives.
pub data Answer : Type 0 where
  metadata : AllAccountsMetadata → Answer
  accounts : AllAccountsData → Answer

-- The message `GlobalStoreUpdate` to the adapter.
pub record GlobalStoreUpdate : Type 0 where
  pub price_identifier : Identifier
  pub price : ℤ
  pub conf : ℕ
  pub status : PriceStatus
  pub valid_slot : ℕ
  pub pub_slot : ℕ

pub data Error : Type 0 where
  failed_to_notify failed_to_send : Error

pub record Store (F64 : Type 0) : Type 0 where
  pub account_data : AllAccountsData
  pub account_metadata : AllAccountsMetadata
  pub product_metrics : ProductGlobalMetrics
  pub price_metrics : PriceGlobalMetrics F64

unfoldable pub new : (F64 : Type 0) → Store F64
unfolding new_price_global
new F64 = record {
  account_data = record { product_accounts = []; price_accounts = [] };
  account_metadata = record { product_accounts_metadata = []; price_accounts_metadata = [] };
  product_metrics = [];
  price_metrics = new_price_global F64;
}

pub data Event : Type 0 where
  primary : Update → (adapter_open : Bool) → Event
  secondary : Update → Event
  reader : Lookup → (result_tx_open : Bool) → Event

-- What an event gives: its result, the messages to the adapter, the answer to a reader.
pub record Output : Type 0 where
  pub result : Result Error (Unit {0})
  pub sent : List GlobalStoreUpdate
  pub answer : Option Answer

unfoldable pub is_stale : Option PriceEntry → PriceEntry → Bool
is_stale none account = Bool.false
is_stale (some existing) account = ltb_ℤ account.timestamp existing.timestamp

abbrev pub notice : Pubkey → PriceEntry → GlobalStoreUpdate
notice key account = record {
  price_identifier = key;
  price = account.agg.price;
  conf = account.agg.conf;
  status = account.agg.status;
  valid_slot = account.valid_slot;
  pub_slot = account.agg.pub_slot;
}

abbrev pub done : Output
done = record { result = ok tt; sent = []; answer = none }

unfoldable pub handle_lookup : {F64 : Type 0} → Lookup → Bool → Store F64 → Output
handle_lookup l Bool.false s = record { result = err failed_to_send; sent = []; answer = none }
handle_lookup lookup_all_accounts_metadata Bool.true s = record {
  result = ok tt;
  sent = [];
  answer = some (metadata s.account_metadata);
}
handle_lookup lookup_all_accounts_data Bool.true s = record {
  result = ok tt;
  sent = [];
  answer = some (accounts s.account_data);
}

unfoldable pub update_metadata : {F64 : Type 0} → Update → Store F64 → Store F64
unfolding product_metadata price_metadata
update_metadata (product_account_update key account) s =
    let m = s.account_metadata in
    record s {
      account_metadata = record m {
        product_accounts_metadata =
            insert key (product_metadata account) m.product_accounts_metadata;
      };
    }
update_metadata (price_account_update key account) s =
    let m = s.account_metadata in
    record s {
      account_metadata = record m {
        price_accounts_metadata = insert key (price_metadata account) m.price_accounts_metadata;
      };
    }

module _ ⦃env : Env⦄ where
  -- The store with a price account written, before the adapter is told.
  unfoldable pub write_price : Pubkey → PriceEntry → Store env.F64 → Store env.F64
  write_price key account s =
      let d = s.account_data in
      record s {
        account_data = record d { price_accounts = insert key account d.price_accounts };
        price_metrics = update_price_global key account s.price_metrics;
      }

  -- A stale update is ignored and no error. A message that cannot be sent is an error, and what
  -- was written stays.
  unfoldable pub update_data : Update → Bool → Store env.F64 → Output × Store env.F64
  unfolding product_metadata is_stale write_price
  update_data (product_account_update key account) open_tx s =
      let d = s.account_data in
      let symbol = lookup "symbol" (product_metadata account).attr_dict in
      (
        done,
        record s {
          account_data = record d { product_accounts = insert key account d.product_accounts };
          product_metrics = update_product_global key symbol s.product_metrics;
        },
      )
  update_data (price_account_update key account) open_tx s =
      if is_stale (lookup key s.account_data.price_accounts) account
      then (done, s)
      else if open_tx
      then (record done { sent = notice key account ∷ [] }, write_price key account s)
      else (record done { result = err failed_to_notify }, write_price key account s)

  abbrev pub and_then_metadata : Update → Output × Store env.F64 → Output × Store env.F64
  and_then_metadata u (out, s) = elim out.result [
    | ok _ ↦ (out, update_metadata u s)
    | err e ↦ (out, s)
  ]

  unfoldable pub handle_next : Event → Store env.F64 → Output × Store env.F64
  unfolding update_data update_metadata handle_lookup
  handle_next (primary u adapter_open) s = and_then_metadata u (update_data u adapter_open s)
  handle_next (secondary u) s = (done, update_metadata u s)
  handle_next (reader l result_tx_open) s = (handle_lookup l result_tx_open s, s)

  -- The loop of `run`: the messages to the adapter in their order, and the final store.
  unfoldable pub run : List Event → Store env.F64 → List GlobalStoreUpdate × Store env.F64
  run [] s = ([], s)
  run (e ∷ es) s =
      let (out, s') = handle_next e s in let (sent, s'') = run es s' in (out.sent ++ sent, s'')
