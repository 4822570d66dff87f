-- ===== src/Pythd/Examples.antt =====
-- The adapter at work, and the theorems about it at concrete inputs.
use pyth_agent.Prelude.{
  ℕ, ◌≡◌, ◌↔◌, refl, arith, true, List, [], ◌∷◌, none, some, retain, In, ℕ_discrete, map,
}
use pyth_agent.Prelude.Int.{pos, ◌+ℤ◌, wrap_i64}
use pyth_agent.Prelude.Maps.{lookup, insert, nat_key, dec_string}
use pyth_agent.Solana.{PriceStatus, trading, ProductEntry}
use pyth_agent.Samples.{sample_env, unary, letters}
use pyth_agent.Store.Global.{GlobalStoreUpdate, primary, product_account_update, Event}
use pyth_agent.Store.Global as Global
use pyth_agent.Pythd.Api.{ProductAccount}
use pyth_agent.Pythd.Status.{price_status_to_str, map_status, map_status_iff}
use pyth_agent.Pythd.Views.{get_product, get_all_products}
use pyth_agent.Pythd.Views.Agreement.{get_all_products_iff}
use pyth_agent.Pythd.Adapter.{
  Adapter, Inputs, Turn, Channel, received, tick, subscribe_price, subscribe_price_sched,
  global_store_update, new, subscriptions_of, push, next_subscription_id, handle_subscribe_price,
  handle_subscribe_price_sched, retain_open, drop_closed_subscriptions, send_all, flatten_values,
  price_notice, send_notify_price_sched, handle_global_store_update, reply, with_account,
  handle_message, handle_event, step, run,
}
use pyth_agent.Pythd.Adapter as Adapter
use pyth_agent.Pythd.Adapter.Notify.{Notified, open_ones, step-Notified}
use pyth_agent.Pythd.Adapter.Numbers.{IsUnambiguous, run-new-IsUnambiguous}

abbrev inputs : Inputs
inputs = record {
  is_open = λ c. true;
  reader_open = true;
  all_accounts_metadata = none;
  all_accounts_data = none;
  local_store_open = true;
  now = pos 5;
}

abbrev turn_of : Adapter.Event → Turn
turn_of e = record { was_open = λ c. true; inputs = inputs; event = e }

abbrev update : GlobalStoreUpdate
update = record {
  price_identifier = 2;
  price = pos 100;
  conf = 1;
  status = trading;
  valid_slot = 8;
  pub_slot = 9;
}

abbrev turns : List Turn
turns =
    turn_of (received (subscribe_price "xx" 30))
    ∷ turn_of (received (subscribe_price_sched "xx" 31))
    ∷ turn_of (received (subscribe_price "xx" 32))
    ∷ []

program : Unit {0}
unfolding unary letters lookup insert ℕ_discrete dec_string retain wrap_i64 ◌+ℤ◌ new
    subscriptions_of push next_subscription_id handle_subscribe_price handle_subscribe_price_sched
    retain_open drop_closed_subscriptions send_all flatten_values price_notice price_status_to_str
    send_notify_price_sched handle_global_store_update reply with_account handle_message
    handle_event step run map_status
program = tt

-- The numbers go on across the two kinds of subscription.
subscribers :
    map
      (λ sub. sub.subscription_id)
      (subscriptions_of 2 (run turns new).1.notify_price_subscriptions)
    ≡ pos 1 ∷ pos 3 ∷ []
unfolding program
subscribers = refl

run-new-IsUnambiguous_example : IsUnambiguous (run turns new).1
run-new-IsUnambiguous_example = run-new-IsUnambiguous turns (omega arith)

step-Notified_example :
    Notified
      (price_notice update)
      (open_ones (λ c. true) (subscriptions_of 2 (run turns new).1.notify_price_subscriptions))
      (step (turn_of (received (global_store_update update))) (run turns new).1).0
step-Notified_example =
    (step-Notified (turn_of (received (global_store_update update))) (run turns new).1 (λ c o. o)).0
      update refl

map_status_iff_example :
    (map_status "halted" ≡ some PriceStatus.halted)
    ↔ (price_status_to_str PriceStatus.halted ≡ "halted")
map_status_iff_example = map_status_iff "halted" PriceStatus.halted

abbrev product : ProductEntry
product = record {
  account_data = record { px_acc = 4; attributes = ("symbol", "x") ∷ ("", "") ∷ [] };
  price_accounts = 4 ∷ [];
}

abbrev history : List Event
history = primary (product_account_update 3 product) true ∷ []

abbrev account : ProductAccount
account = record { account = "xxx"; attr_dict = ("symbol", "x") ∷ []; price_accounts = [] }

get_all_products_iff_example :
    let accounts = (Global.run history (Global.new ℕ)).1.account_data in
    In account (get_all_products accounts) ↔ ((key : ℕ) × (get_product accounts key ≡ some account))
get_all_products_iff_example = get_all_products_iff history account
