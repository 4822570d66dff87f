-- ===== src/Pythd/Adapter.antt =====
-- src/agent/pythd/adapter.rs: the task that answers the API's requests from the stores, and notifies
-- the subscribers of prices.
pub mod Messages
pub mod Registry
pub mod Accounts
pub mod Notify
pub mod Entries
pub mod Tables
pub mod Numbers
pub mod Delivery
unfoldable pub use Messages.*
unfoldable pub use Registry.*
use pyth_agent.Prelude.{
  ℕ, ◌≡◌, ◌++◌, Bool, true, false, List, [], ◌∷◌, Option, none, some, String, Result, ok, err,
  ok_or, ◌>>=◌, retain, map, if◌then◌else◌,
}
use pyth_agent.Prelude.Int.{ℤ, pos, ◌+ℤ◌, wrap_i64}
use pyth_agent.Prelude.Maps.{lookup, insert, nat_key}
use pyth_agent.Solana.{Pubkey, Identifier, PriceStatus, Env}
use pyth_agent.Store.Price.{PriceInfo}
use pyth_agent.Store.Global.{AllAccountsData, AllAccountsMetadata, GlobalStoreUpdate}
use pyth_agent.Store.Local as Local
use pyth_agent.Pythd.Api.{
  ProductAccountMetadata, ProductAccount, SubscriptionId, NotifyPrice, NotifyPriceSched,
}
use pyth_agent.Pythd.Status.{price_status_to_str, map_status}
use pyth_agent.Pythd.Views as Views

pub record Adapter : Type 0 where
  pub subscription_id_count : SubscriptionId
  pub notify_price_sched_subscriptions : Subscriptions
  pub notify_price_subscriptions : Subscriptions

unfoldable pub new : Adapter
new = record {
  subscription_id_count = pos 0;
  notify_price_sched_subscriptions = [];
  notify_price_subscriptions = [];
}

unfoldable pub next_subscription_id : Adapter → SubscriptionId
next_subscription_id s = wrap_i64 (s.subscription_id_count +ℤ pos 1)

unfoldable pub handle_subscribe_price : Identifier → Channel → Adapter → SubscriptionId × Adapter
unfolding next_subscription_id push
handle_subscribe_price account tx s =
    let subscription_id = next_subscription_id s in
    (
      subscription_id,
      record s {
        subscription_id_count = subscription_id;
        notify_price_subscriptions =
            push account (record { subscription_id = subscription_id; channel = tx })
              s.notify_price_subscriptions;
      },
    )

unfoldable pub handle_subscribe_price_sched :
    Identifier → Channel → Adapter → SubscriptionId × Adapter
unfolding next_subscription_id push
handle_subscribe_price_sched account tx s =
    let subscription_id = next_subscription_id s in
    (
      subscription_id,
      record s {
        subscription_id_count = subscription_id;
        notify_price_sched_subscriptions =
            push account (record { subscription_id = subscription_id; channel = tx })
              s.notify_price_sched_subscriptions;
      },
    )

unfoldable pub drop_closed_subscriptions : (Channel → Bool) → Adapter → Adapter
unfolding retain_open
drop_closed_subscriptions is_open s = record s {
  notify_price_subscriptions = retain_open is_open s.notify_price_subscriptions;
  notify_price_sched_subscriptions = retain_open is_open s.notify_price_sched_subscriptions;
}

-- One message to each subscription; the first closed channel is an error, and the subscriptions
-- after it get none.
unfoldable pub send_all :
    (Channel → Bool)
    → (Subscription → Notice)
    → List Subscription
    → Result Error (Unit {0}) × List Notice
send_all is_open notice [] = (ok tt, [])
send_all is_open notice (sub ∷ subs) =
    let rest = send_all is_open notice subs in
    if is_open sub.channel then (rest.0, notice sub ∷ rest.1) else (err channel_closed, [])

abbrev pub sched_notice : Subscription → Notice
sched_notice sub = notify_price_sched sub.channel (record { subscription = sub.subscription_id })

unfoldable pub price_notice : GlobalStoreUpdate → Subscription → Notice
unfolding price_status_to_str
price_notice u sub = notify_price sub.channel (record {
  subscription = sub.subscription_id;
  result = record {
    price = u.price;
    conf = u.conf;
    status = price_status_to_str u.status;
    valid_slot = u.valid_slot;
    pub_slot = u.pub_slot;
  };
})

abbrev pub notified : Result Error (Unit {0}) × List Notice → Output
notified r = record { result = r.0; sent = r.1; answer = none; to_local_store = none }

unfoldable pub send_notify_price_sched : (Channel → Bool) → Adapter → Output
unfolding send_all flatten_values
send_notify_price_sched is_open s =
    notified (send_all is_open sched_notice (flatten_values s.notify_price_sched_subscriptions))

unfoldable pub handle_global_store_update : (Channel → Bool) → GlobalStoreUpdate → Adapter → Output
unfolding send_all price_notice subscriptions_of
handle_global_store_update is_open u s = notified (
    send_all is_open (price_notice u)
      (subscriptions_of u.price_identifier s.notify_price_subscriptions))

-- The answer to a request: an error if the asker is gone.
unfoldable pub reply : Bool → Answer → Output
reply true answer = record {
  result = ok tt;
  sent = [];
  answer = some answer;
  to_local_store = none;
}
reply false answer = failed reader_gone

unfoldable pub handle_update_price : Inputs → Pubkey → ℤ → ℕ → Option PriceStatus → Output
handle_update_price inputs account price conf none = failed invalid_status
handle_update_price inputs account price conf (some status) =
    if inputs.local_store_open
    then record {
      result = ok tt;
      sent = [];
      answer = none;
      to_local_store = some (
          Local.update_price account
            (record { status = status; price = price; conf = conf; timestamp = inputs.now }));
    }
    else failed local_store_gone

-- What the loop of `run` selects.
pub data Event : Type 0 where
  received : Message → Event
  tick : Event

-- One turn of the loop: closed subscriptions are dropped first. A channel may close between the
-- two, so each has its own view of the channels.
pub record Turn : Type 0 where
  pub was_open : Channel → Bool
  pub inputs : Inputs
  pub event : Event

module _ ⦃env : Env⦄ where
  -- What `handle` makes of the key that a text stands for; a text that is none is an error.
  unfoldable pub with_account : String → Adapter → (Pubkey → Output × Adapter) → Output × Adapter
  with_account account s handle = elim (env.parse account) [
    | some key ↦ handle key
    | none ↦ (failed invalid_account, s)
  ]

  -- The asker is told the identifier, but keeps the subscription if it is gone.
  abbrev replied : Inputs → SubscriptionId × Adapter → Output × Adapter
  replied inputs r = (reply inputs.reader_open (subscribed r.0), r.1)

  unfoldable pub handle_get_product : Inputs → Pubkey → Result Error ProductAccount
  handle_get_product inputs key = ok_or inputs.all_accounts_data global_store_gone >>= λ accounts.
      ok_or (Views.get_product accounts key) product_not_found

  unfoldable pub handle_get_product_list : Inputs → Result Error (List ProductAccountMetadata)
  handle_get_product_list inputs =
      ok_or inputs.all_accounts_metadata global_store_gone >>= λ metadata.
      ok (Views.get_product_list metadata)

  unfoldable pub handle_get_all_products : Inputs → Result Error (List ProductAccount)
  handle_get_all_products inputs = ok_or inputs.all_accounts_data global_store_gone >>= λ accounts.
      ok (Views.get_all_products accounts)

  unfoldable pub handle_message : Inputs → Message → Adapter → Output × Adapter
  unfolding handle_get_product handle_get_product_list handle_get_all_products reply with_account
      handle_subscribe_price handle_subscribe_price_sched handle_update_price
      handle_global_store_update map_status
  handle_message inputs get_product_list s =
      (reply inputs.reader_open (product_list (handle_get_product_list inputs)), s)
  handle_message inputs (get_product account) s =
      with_account account s
        λ key. (reply inputs.reader_open (product (handle_get_product inputs key)), s)
  handle_message inputs get_all_products s =
      (reply inputs.reader_open (all_products (handle_get_all_products inputs)), s)
  handle_message inputs (subscribe_price account tx) s =
      with_account account s λ key. replied inputs (handle_subscribe_price key tx s)
  handle_message inputs (subscribe_price_sched account tx) s =
      with_account account s λ key. replied inputs (handle_subscribe_price_sched key tx s)
  handle_message inputs (update_price account price conf status) s =
      with_account account s
        λ key. (handle_update_price inputs key price conf (map_status status), s)
  handle_message inputs (global_store_update u) s =
      (handle_global_store_update inputs.is_open u s, s)

  unfoldable pub handle_event : Inputs → Event → Adapter → Output × Adapter
  unfolding handle_message send_notify_price_sched
  handle_event inputs (received message) s = handle_message inputs message s
  handle_event inputs tick s = (send_notify_price_sched inputs.is_open s, s)

  unfoldable pub step : Turn → Adapter → Output × Adapter
  unfolding handle_event drop_closed_subscriptions
  step t s = handle_event t.inputs t.event (drop_closed_subscriptions t.was_open s)

  unfoldable pub run : List Turn → Adapter → List Output × Adapter
  unfolding step
  run [] s = ([], s)
  run (t ∷ ts) s = let r = step t s in let rest = run ts r.1 in (r.0 ∷ rest.0, rest.1)
