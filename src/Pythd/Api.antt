-- ===== src/Pythd/Api.antt =====
-- The values of the websocket API in src/agent/pythd/api.rs. Keys are texts there.
use pyth_agent.Prelude.{ℕ, List, String}
use pyth_agent.Prelude.Int.{ℤ}

-- A `BTreeMap` from text to text.
abbrev pub Attrs : Type 0
Attrs = List (String × String)

pub record PriceAccountMetadata : Type 0 where
  pub account : String
  pub price_type : String
  pub price_exponent : ℤ

pub record ProductAccountMetadata : Type 0 where
  pub account : String
  pub attr_dict : Attrs
  pub price : List PriceAccountMetadata

pub record PublisherAccount : Type 0 where
  pub account : String
  pub status : String
  pub price : ℤ
  pub conf : ℕ
  pub slot : ℕ

pub record PriceAccount : Type 0 where
  pub account : String
  pub price_type : String
  pub price_exponent : ℤ
  pub status : String
  pub price : ℤ
  pub conf : ℕ
  pub twap : ℤ
  pub twac : ℤ
  pub valid_slot : ℕ
  pub pub_slot : ℕ
  pub prev_slot : ℕ
  pub prev_price : ℤ
  pub prev_conf : ℕ
  pub publisher_accounts : List PublisherAccount

pub record ProductAccount : Type 0 where
  pub account : String
  pub attr_dict : Attrs
  pub price_accounts : List PriceAccount

-- An `i64`.
abbrev pub SubscriptionId : Type 0
SubscriptionId = ℤ

pub record PriceUpdate : Type 0 where
  pub price : ℤ
  pub conf : ℕ
  pub status : String
  pub valid_slot : ℕ
  pub pub_slot : ℕ

pub record NotifyPrice : Type 0 where
  pub subscription : SubscriptionId
  pub result : PriceUpdate

pub record NotifyPriceSched : Type 0 where
  pub subscription : SubscriptionId
