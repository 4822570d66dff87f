-- ===== src/Agent/Reading/Examples.antt =====
-- A price on its way from the network to a client, and the theorem about it.
use pyth_agent.Prelude.{
  ℕ, ◌≡◌, refl, inl, true, [], ◌∷◌, Option, none, some, In, ℕ_discrete, retain,
}
use pyth_agent.Prelude.Int.{pos, ◌+ℤ◌, wrap_i64}
use pyth_agent.Prelude.Maps.{lookup, insert, nat_key, dec_string}
use pyth_agent.Samples.{sample_env, letters, unary, account_at}
use pyth_agent.Solana.{PriceEntry}
use pyth_agent.Metrics.{new_price_global}
use pyth_agent.Store.Global.{Update, price_account_update, GlobalStoreUpdate, notice}
use pyth_agent.Store.Global as Global
use pyth_agent.Pythd.Status.{price_status_to_str}
use pyth_agent.Pythd.Adapter.{
  Turn, Inputs, Notice, notify_price, received, subscribe_price, subscriptions_of, push,
  next_subscription_id, handle_subscribe_price, retain_open, drop_closed_subscriptions, send_all,
  price_notice, handle_global_store_update, reply, with_account, handle_message, handle_event,
}
use pyth_agent.Pythd.Adapter as Adapter
use pyth_agent.Oracle.{Data, data_update, all_updates, send, send_all_data_to_global_store}
use pyth_agent.Oracle as Oracle
use pyth_agent.Agent.Reading.{
  State, start, oracle_turn, store_turn, adapter_turn, notify_turn, oracle_turns, store_turns,
  adapter_notifies, adapter_turns, Reachable, at_start, after,
}
use pyth_agent.Agent.Reading.Notices.{IsTrue, told}
use pyth_agent.Agent.Reading.History.{Reachable-IsTrue}

-- An account is what it holds.
abbrev load : PriceEntry → Option PriceEntry
load e = some e

abbrev inputs : Inputs
inputs = record {
  is_open = λ c. true;
  reader_open = true;
  all_accounts_metadata = none;
  all_accounts_data = none;
  local_store_open = true;
  now = pos 5;
}

abbrev subscribes : Turn
subscribes = record {
  was_open = λ c. true;
  inputs = inputs;
  event = received (subscribe_price "xx" 30);
}

abbrev polled : Data
polled = record {
  mapping_accounts = [];
  product_accounts = [];
  price_accounts = (2, account_at 9) ∷ [];
  publisher_permissions = [];
}

abbrev subscribed : State PriceEntry ℕ
subscribed = adapter_turn load subscribes (start load)

abbrev read : State PriceEntry ℕ
read = oracle_turn load true (data_update polled) subscribed

abbrev stored : State PriceEntry ℕ
stored = store_turn load (price_account_update 2 (account_at 9)) [] true read

abbrev notified : State PriceEntry ℕ
notified = notify_turn load (notice 2 (account_at 9)) [] (λ c. true) inputs stored

program : Unit {0}
unfolding start adapter_turn oracle_turn store_turn notify_turn letters unary lookup insert
    ℕ_discrete dec_string retain wrap_i64 ◌+ℤ◌ Global.new new_price_global Global.handle_next
    Global.update_data Global.is_stale Global.write_price Global.update_metadata price_status_to_str
    subscriptions_of push next_subscription_id handle_subscribe_price retain_open
    drop_closed_subscriptions send_all price_notice handle_global_store_update reply with_account
    handle_message handle_event Adapter.step Adapter.new all_updates send
    send_all_data_to_global_store Oracle.handle_next
program = tt

in_store_channel : read.primary_updates_rx ≡ price_account_update 2 (account_at 9) ∷ []
unfolding program
in_store_channel = refl

in_adapter_channel : stored.adapter_rx ≡ notice 2 (account_at 9) ∷ []
unfolding program
in_adapter_channel = refl

notified-Reachable : Reachable load notified
notified-Reachable =
    after
      (after
        (after (after at_start (adapter_turns subscribes tt))
          (oracle_turns true (data_update polled)))
        (store_turns (price_account_update 2 (account_at 9)) [] true in_store_channel))
      (adapter_notifies (notice 2 (account_at 9)) [] (λ c. true) inputs in_adapter_channel)

abbrev sent : Notice
sent = notify_price 30 (record { subscription = pos 1; result = told load (account_at 9) })

was_sent : In sent notified.notices
unfolding program
was_sent = inl refl

Reachable-IsTrue_example : IsTrue load notified.events notified.turns sent
Reachable-IsTrue_example = (Reachable-IsTrue load notified notified-Reachable).1 sent was_sent
