-- ===== src/Pythd/Rpc/Backend/Subscriptions.antt =====
-- A subscription of a client: from its request to the notifications on its websocket.
use pyth_agent.Prelude.{ℕ, ◌≡◌, refl, sym, subst, true, false, List, [], ◌∷◌, some, ok_or, In, All}
use pyth_agent.Solana.{Pubkey, Env}
use pyth_agent.Store.Global.{GlobalStoreUpdate}
use pyth_agent.Pythd.Api.{NotifyPrice, SubscriptionId}
use pyth_agent.Pythd.Status.{price_status_to_str}
use pyth_agent.Pythd.Adapter as Adapter
use pyth_agent.Pythd.Adapter.{
  Adapter, Turn, global_store_update, drop_closed_subscriptions, handle_event, handle_message,
  with_account, handle_subscribe_price, price_notice, step, run,
}
use pyth_agent.Pythd.Adapter.Notify.{StaysOpen}
use pyth_agent.Pythd.Adapter.Entries.{new_sub}
use pyth_agent.Pythd.Adapter.Delivery.{subscribe_price-notified}
use pyth_agent.Pythd.Rpc.{
  Jrpc, not_encoded, subscription, subscribe_price, price_notification, SubscribePriceParams,
}
use pyth_agent.Pythd.Rpc.Dispatch.{Channels, deserialize_params, encoded, received, perform}
use pyth_agent.Pythd.Rpc.Connection.{notified_price, handle_next, send_text}
use pyth_agent.Pythd.Rpc.Backend.{World, Backend, turn_with, ask, port}

module _ ⦃env : Env⦄ (lib : Jrpc) (tx : Channels) (world : ℕ → World) where
  -- The adapter as it comes to the request of a connection.
  abbrev pub at_request : Backend → Adapter
  at_request b =
      drop_closed_subscriptions (world b.asked).was_open (run (world b.asked).before b.adapter).1

  -- The number that a subscription gets then.
  abbrev pub new_id : Backend → SubscriptionId
  new_id b = (new_sub tx.notify_price_tx (at_request b)).subscription_id

  -- What comes of a request to subscribe.
  module _ (json : lib.Json) (p : SubscribePriceParams) (key : Pubkey) (b : Backend)
      (read : lib.subscribe_price_params json ≡ some p) (there : (world b.asked).is_gone ≡ false)
      (parsed : env.parse p.account ≡ some key) where
    subscribe_price-result :
        (perform lib (port world) tx subscribe_price (some json) b).0
        ≡ ok_or (lib.to_value (subscription (record { subscription = new_id b }))) not_encoded
    unfolding perform deserialize_params encoded received port ask step handle_event handle_message
        with_account handle_subscribe_price
    subscribe_price-result = rw (read, there, step, with_account, parsed) refl

    subscribe_price-adapter :
        (perform lib (port world) tx subscribe_price (some json) b).1.adapter
        ≡ (handle_event
            (turn_with
              (world b.asked)
              (Adapter.subscribe_price p.account tx.notify_price_tx)).inputs
            (Adapter.received (Adapter.subscribe_price p.account tx.notify_price_tx))
            (at_request b)).1
    unfolding perform deserialize_params port ask step
    subscribe_price-adapter = rw (read, there) refl

    -- A notification of the update, with the number of the subscription: the adapter's turn sends it on
    -- the channel of the connection, and the connection sends it on an open websocket.
    pub record IsNotified (ts : List Turn) (last : Turn) (u : GlobalStoreUpdate) (v : NotifyPrice)
        : Type 0 where
      pub number : v.subscription ≡ new_id b
      pub price : v.result.price ≡ u.price
      pub conf : v.result.conf ≡ u.conf
      pub status : v.result.status ≡ price_status_to_str u.status
      pub slots : (v.result.valid_slot ≡ u.valid_slot) × (v.result.pub_slot ≡ u.pub_slot)
      pub sent :
          In
            (Adapter.notify_price tx.notify_price_tx v)
            (step last
              (run ts
                (perform lib (port world) tx subscribe_price (some json) b).1.adapter).1).0.sent
      pub passed_on :
          (later : Backend)
          → (handle_next lib (port world) tx true (notified_price v) later).0.sent
            ≡ price_notification v ∷ []

    -- A client that asks for a price, with parameters that are read, an account that is a key and the
    -- adapter there, is answered with the number of its subscription, if that can be encoded. After any
    -- turns in which the connection's channel is open, an update of the price makes a notification with that
    -- number and the update's values, which goes through the connection's channel to the websocket,
    -- provided that no channel closes during the turn of the update.
    pub subscribe_price-IsNotified :
        (ts : List Turn) (last : Turn) (u : GlobalStoreUpdate)
        → All (λ (t : Turn). t.was_open tx.notify_price_tx ≡ true) ts
        → last.was_open tx.notify_price_tx ≡ true
        → StaysOpen last.was_open last.inputs.is_open
        → last.event ≡ Adapter.received (global_store_update u)
        → u.price_identifier ≡ key
        → ((perform lib (port world) tx subscribe_price (some json) b).0
            ≡ ok_or (lib.to_value (subscription (record { subscription = new_id b }))) not_encoded)
          × ((v : NotifyPrice) × IsNotified ts last u v)
    unfolding handle_next send_text price_notice
    subscribe_price-IsNotified ts last u open_then open_now stays event same =
        let before = (perform lib (port world) tx subscribe_price (some json) b).1.adapter in
        let sent =
          subst
            (λ s.
              In (price_notice u (new_sub tx.notify_price_tx (at_request b)))
                (step last (run ts s).1).0.sent)
            (sym subscribe_price-adapter)
            (subscribe_price-notified
              (turn_with (world b.asked)
                (Adapter.subscribe_price p.account tx.notify_price_tx)).inputs
              p.account key tx.notify_price_tx (at_request b) ts last u parsed open_then open_now
              stays event same) in
        (
          subscribe_price-result,
          (
            _,
            record {
              number = refl;
              price = refl;
              conf = refl;
              status = refl;
              slots = (refl, refl);
              sent = sent;
              passed_on = λ later. refl;
            },
          ),
        )
