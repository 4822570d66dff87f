-- ===== src/Exporter.antt =====
-- src/agent/solana/exporter.rs: the task that publishes the local store's prices to a network. Its
-- state, its configuration, and the choice of the prices to publish. Logging, timers and the pauses
-- between batches are left out; a clock reading is an argument.
pub mod Instruction
pub mod Batch
pub mod Publish
pub mod Monitor
pub mod Selection
pub mod Samples
mod Examples
use pyth_agent.Prelude.{
  ℕ, ◌/◌, ◌*◌, Bool, true, false, not, List, [], ◌∷◌, Option, none, some, retain, if◌then◌else◌,
}
use pyth_agent.Prelude.Int.{ℤ, ltb_ℤ, sub_i64, as_i64}
use pyth_agent.Prelude.Maps.{lookup, contains, nat_key}
use pyth_agent.Solana.{Pubkey, Identifier}
use pyth_agent.Store.Price.{PriceInfo, cmp_no_timestamp}
use pyth_agent.Store.Local.{Prices}

-- A `Duration`, in nanoseconds.
abbrev pub Duration : Type 0
Duration = ℕ

abbrev pub secs : ℕ → Duration
secs n = n * 1000000000

abbrev pub millis : ℕ → Duration
millis n = n * 1000000

unfoldable pub as_secs : Duration → ℕ
as_secs d = d / 1000000000

-- `transaction_monitor::Config`.
pub record MonitorConfig : Type 0 where
  pub poll_interval_duration : Duration
  pub max_transactions : ℕ

abbrev pub default_monitor_config : MonitorConfig
default_monitor_config = record { poll_interval_duration = secs 4; max_transactions = 100 }

pub record Config : Type 0 where
  pub refresh_network_state_interval_duration : Duration
  pub publish_interval_duration : Duration
  pub staleness_threshold : Duration
  pub unchanged_publish_threshold : Duration
  pub max_batch_size : ℕ
  pub inflight_transactions_channel_capacity : ℕ
  pub transaction_monitor : MonitorConfig
  pub compute_unit_limit : ℕ
  pub compute_unit_price_micro_lamports : Option ℕ

abbrev pub default_config : Config
default_config = record {
  refresh_network_state_interval_duration = millis 200;
  publish_interval_duration = secs 1;
  staleness_threshold = secs 5;
  unchanged_publish_threshold = secs 5;
  max_batch_size = 12;
  inflight_transactions_channel_capacity = 10000;
  transaction_monitor = default_monitor_config;
  compute_unit_limit = 40000;
  compute_unit_price_micro_lamports = none;
}

-- The publisher permissions: the price accounts of each publisher.
abbrev pub Permissions : Type 0
Permissions = List (Pubkey × List Pubkey)

-- The part of the exporter that changes.
pub record State : Type 0 where
  pub last_published_state : Prices
  pub our_prices : List Pubkey

unfoldable pub new : State
new = record { last_published_state = []; our_prices = [] }

-- Timestamps that are not newer than the published one are filtered out.
unfoldable pub is_newer : Prices → Identifier × PriceInfo → Bool
is_newer last (id, info) = elim (lookup id last) [
  | some last_info ↦ ltb_ℤ last_info.timestamp info.timestamp
  | none ↦ true
]

-- Prices that are too old are filtered out.
unfoldable pub is_recent : Config → ℤ → Identifier × PriceInfo → Bool
is_recent config now (id, info) =
    ltb_ℤ (sub_i64 now info.timestamp) (as_i64 (as_secs config.staleness_threshold))

-- Unchanged prices are filtered out until the delay for them is over.
unfoldable pub is_due : Config → Prices → Identifier × PriceInfo → Bool
is_due config last (id, info) = elim (lookup id last) [
  | some last_info ↦
      if ltb_ℤ (as_i64 (as_secs config.unchanged_publish_threshold))
        (sub_i64 info.timestamp last_info.timestamp)
      then true
      else not (cmp_no_timestamp last_info info)
  | none ↦ true
]

unfoldable pub fresh_updates : Config → Prices → ℤ → Prices → Prices
fresh_updates config last now contents =
    retain (is_due config last) (retain (is_recent config now) (retain (is_newer last) contents))

-- `update_our_prices` empties the channel, and each message replaces the known prices. It ends where
-- the channel is empty or closed, and both leave the prices as they are.
unfoldable pub update_our_prices : Pubkey → List Permissions → List Pubkey → List Pubkey
update_our_prices publish_pubkey [] our_prices = our_prices
update_our_prices publish_pubkey (permissions ∷ rest) our_prices =
    update_our_prices publish_pubkey rest
      (elim (lookup publish_pubkey permissions) [ some keys ↦ keys | none ↦ [] ])

unfoldable pub permissioned_updates : List Pubkey → Prices → Prices
permissioned_updates our_prices = retain (λ e. contains e.0 our_prices)
