-- ===== src/Store/Local.antt =====
-- src/agent/store/local.rs: the newest price of this publisher for each identifier. One task owns
-- the store and handles the messages of its channel one after another, so a history of the store is
-- a list of messages. Logging is left out.
pub mod Outcome
pub mod Newest
pub mod Sync
mod Examples
use pyth_agent.Prelude.{Bool, List, [], ◌∷◌, Option, none, some, Result, ok, err, if◌then◌else◌}
use pyth_agent.Prelude.Int.{ltb_ℤ}
use pyth_agent.Prelude.Maps.{lookup, insert, nat_key}
use pyth_agent.Solana.{Identifier, Env}
use pyth_agent.Metrics.{PriceLocalMetrics, new_local, update_local}
use pyth_agent.Store.Price.{PriceInfo}

abbrev pub Prices : Type 0
Prices = List (Identifier × PriceInfo)

-- The channel of an answer is open or closed when the answer is sent.
pub data Message : Type 0 where
  update_price : (price_identifier : Identifier) (price_info : PriceInfo) → Message
  lookup_all_price_info : (result_tx_open : Bool) → Message

pub data Error : Type 0 where
  stale_timestamp : Identifier → Error
  failed_to_send : Error

pub record Store (F64 : Type 0) : Type 0 where
  pub prices : Prices
  pub metrics : PriceLocalMetrics F64

unfoldable pub new : (F64 : Type 0) → Store F64
unfolding new_local
new F64 = record { prices = []; metrics = new_local F64 }

-- Whether the current price is newer than the one that comes in.
unfoldable pub is_stale : Option PriceInfo → PriceInfo → Bool
is_stale none price_info = Bool.false
is_stale (some current) price_info = ltb_ℤ price_info.timestamp current.timestamp

unfoldable pub get_all_price_infos : {F64 : Type 0} → Store F64 → Prices
get_all_price_infos s = s.prices

module _ ⦃env : Env⦄ where
  unfoldable pub update :
      Identifier → PriceInfo → Store env.F64 → Result Error (Unit {0}) × Store env.F64
  unfolding is_stale
  update price_identifier price_info s =
      if is_stale (lookup price_identifier s.prices) price_info
      then (err (stale_timestamp price_identifier), s)
      else (
        ok tt,
        record {
          prices = insert price_identifier price_info s.prices;
          metrics = update_local price_identifier price_info s.metrics;
        },
      )

  -- The answer to a lookup is what the caller receives.
  unfoldable pub handle :
      Message → Store env.F64 → Result Error (Unit {0}) × Option Prices × Store env.F64
  unfolding update get_all_price_infos
  handle (update_price id info) s = let (r, s') = update id info s in (r, none, s')
  handle (lookup_all_price_info Bool.true) s = (ok tt, some (get_all_price_infos s), s)
  handle (lookup_all_price_info Bool.false) s = (err failed_to_send, none, s)

  -- The loop of `run`, which logs an error and goes on.
  unfoldable pub run : List Message → Store env.F64 → Store env.F64
  run [] s = s
  run (m ∷ ms) s = run ms (handle m s).2
