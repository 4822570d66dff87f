-- ===== src/Pythd/Adapter/Messages.antt =====
-- What the adapter of src/agent/pythd/adapter.rs takes and gives: messages, answers, notifications, and
-- what the others do meanwhile.
use pyth_agent.Prelude.{ℕ, Bool, List, [], Option, none, String, Result, err}
use pyth_agent.Prelude.Int.{ℤ}
use pyth_agent.Prelude.Maps.{nat_key}
use pyth_agent.Store.Global.{AllAccountsData, AllAccountsMetadata, GlobalStoreUpdate}
use pyth_agent.Store.Local as Local
use pyth_agent.Pythd.Api.{
  ProductAccountMetadata, ProductAccount, SubscriptionId, NotifyPrice, NotifyPriceSched,
}

-- The sending end of a connection's channel for notifications.
abbrev pub Channel : Type 0
Channel = ℕ

pub data Message : Type 0 where
  global_store_update : GlobalStoreUpdate → Message
  get_product_list : Message
  get_product : (account : String) → Message
  get_all_products : Message
  subscribe_price : (account : String) (notify_price_tx : Channel) → Message
  subscribe_price_sched : (account : String) (notify_price_sched_tx : Channel) → Message
  update_price : (account : String) (price : ℤ) (conf : ℕ) (status : String) → Message

pub data Error : Type 0 where
  reader_gone invalid_account invalid_status local_store_gone global_store_gone product_not_found
        channel_closed :
      Error

-- What the message's sender gets back.
pub data Answer : Type 0 where
  product_list : Result Error (List ProductAccountMetadata) → Answer
  product : Result Error ProductAccount → Answer
  all_products : Result Error (List ProductAccount) → Answer
  subscribed : SubscriptionId → Answer

pub data Notice : Type 0 where
  notify_price : Channel → NotifyPrice → Notice
  notify_price_sched : Channel → NotifyPriceSched → Notice

-- What the others do meanwhile: which channels are open, whether the asker waits for the answer, what
-- the global store answers, whether the local store listens, and the clock.
pub record Inputs : Type 0 where
  pub is_open : Channel → Bool
  pub reader_open : Bool
  pub all_accounts_metadata : Option AllAccountsMetadata
  pub all_accounts_data : Option AllAccountsData
  pub local_store_open : Bool
  pub now : ℤ

-- The result, the notifications sent, the answer that was sent, and the message to the local store.
pub record Output : Type 0 where
  pub result : Result Error (Unit {0})
  pub sent : List Notice
  pub answer : Option Answer
  pub to_local_store : Option Local.Message

abbrev pub failed : Error → Output
failed e = record { result = err e; sent = []; answer = none; to_local_store = none }
