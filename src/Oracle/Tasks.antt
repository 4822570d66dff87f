-- ===== src/Oracle/Tasks.antt =====
-- The loops of two tasks of oracle.rs: the poller, which sends what it polls, and the oracle.
pub mod Arrival
use pyth_agent.Prelude.{
  ℕ, Bool, true, false, List, [], ◌∷◌, ◌++◌, Option, none, some, Result, ok, err,
}
use pyth_agent.Solana.{Pubkey, PriceEntry}
use pyth_agent.Oracle.{
  Permissions, Data, Error, permissions_closed, data_closed, shadow_failed, shadow_gone,
  failed_to_forward, Event, Output, handle_next,
}
use pyth_agent.Oracle.Poller.{Node, poll}

-- The result, what the exporter got, and what the oracle got.
pub record PollOutput : Type 0 where
  pub result : Result Error (Unit {0})
  pub permissions : Option Permissions
  pub fresh_data : Option Data

-- The exporter is told first; if it is gone, the oracle gets nothing.
unfoldable pub send_polled : (permissions_open data_open : Bool) → Result Error Data → PollOutput
send_polled permissions_open data_open (err e) = record {
  result = err e;
  permissions = none;
  fresh_data = none;
}
send_polled false data_open (ok d) = record {
  result = err permissions_closed;
  permissions = none;
  fresh_data = none;
}
send_polled true false (ok d) = record {
  result = err data_closed;
  permissions = some d.publisher_permissions;
  fresh_data = none;
}
send_polled true true (ok d) = record {
  result = ok tt;
  permissions = some d.publisher_permissions;
  fresh_data = some d;
}

-- What one poll meets: the node, the fuel for the walks, and the two channels.
pub record PollInputs (Account : Type 0) : Type 0 where
  pub node : Node Account
  pub fuel : ℕ
  pub permissions_open : Bool
  pub data_open : Bool

module _ {Account : Type 0} where
  unfoldable pub poll_and_send :
      (max_lookup_batch_size : ℕ) (mapping_key : Pubkey) → PollInputs Account → PollOutput
  unfolding send_polled
  poll_and_send max_lookup_batch_size mapping_key inputs =
      send_polled inputs.permissions_open inputs.data_open
        (poll inputs.node inputs.fuel max_lookup_batch_size mapping_key)

  -- `Poller::run`: an error is logged, and the next poll goes ahead.
  unfoldable pub run_poller :
      (max_lookup_batch_size : ℕ) (mapping_key : Pubkey)
      → List (PollInputs Account)
      → List PollOutput
  unfolding poll_and_send
  run_poller max_lookup_batch_size mapping_key [] = []
  run_poller max_lookup_batch_size mapping_key (inputs ∷ rest) =
      poll_and_send max_lookup_batch_size mapping_key inputs
      ∷ run_poller max_lookup_batch_size mapping_key rest

  -- `Oracle::run`: an error is logged, and the next event is taken.
  unfoldable pub run_oracle :
      (load_price_account : Account → Option PriceEntry)
      → List (Bool × Event Account)
      → Data
      → List Output × Data
  unfolding handle_next
  run_oracle load_price_account [] d = ([], d)
  run_oracle load_price_account ((open_tx, e) ∷ es) d =
      let r = handle_next load_price_account open_tx e d in
      let rest = run_oracle load_price_account es r.1 in (r.0 ∷ rest.0, rest.1)
