-- ===== src/Pythd/Rpc/Backend.antt =====
-- The adapter of adapter.rs as the other end of the channel that a connection of api.rs holds. Before
-- it takes a connection's message, it may take any number of messages of the others.
pub mod Requests
pub mod Subscriptions
use pyth_agent.Prelude.{
  ℕ, suc, Bool, true, false, List, [], ◌∷◌, ◌++◌, Option, none, some, String, Result, ok, err,
  if◌then◌else◌,
}
use pyth_agent.Prelude.Int.{ℤ}
use pyth_agent.Solana.{Env}
use pyth_agent.Store.Local as Local
use pyth_agent.Pythd.Api.{ProductAccountMetadata, ProductAccount, SubscriptionId}
use pyth_agent.Pythd.Adapter.{
  Adapter, Channel, Message, Answer, product_list, product, all_products, subscribed, Inputs, Turn,
  received, Output, step, run,
}
use pyth_agent.Pythd.Adapter as Adapter
use pyth_agent.Pythd.Rpc.{Reply, gone, dropped, answered, AdapterPort}

-- What the adapter meets with a connection's message: whether its end of the channel is closed, the turns
-- before, the channels that are open then, and what the others do meanwhile. The connection waits for
-- its answer.
pub record World : Type 0 where
  pub is_gone : Bool
  pub before : List Turn
  pub was_open : Channel → Bool
  pub inputs : Inputs

-- The number of messages from the connection so far, the adapter, and what it sent to the local store.
pub record Backend : Type 0 where
  pub asked : ℕ
  pub adapter : Adapter
  pub to_local_store : List Local.Message

-- The messages to the local store, in order.
unfoldable pub local_messages : List Output → List Local.Message
local_messages [] = []
local_messages (o ∷ os) =
    let rest = local_messages os in elim o.to_local_store [ some m ↦ m ∷ rest | none ↦ rest ]

abbrev pub turn_with : World → Message → Turn
turn_with w m = record {
  was_open = w.was_open;
  inputs = record w.inputs { reader_open = true };
  event = received m;
}

abbrev pub product_list_reply : Option Answer → Reply (List ProductAccountMetadata)
product_list_reply (some (product_list r)) = answered r
product_list_reply _ = dropped

abbrev pub product_reply : Option Answer → Reply ProductAccount
product_reply (some (product r)) = answered r
product_reply _ = dropped

abbrev pub all_products_reply : Option Answer → Reply (List ProductAccount)
all_products_reply (some (all_products r)) = answered r
all_products_reply _ = dropped

abbrev pub subscription_reply : Option Answer → Reply SubscriptionId
subscription_reply (some (subscribed id)) = answered (ok id)
subscription_reply _ = dropped

module _ ⦃env : Env⦄ where
  -- The adapter's turn for the message; `none` where it is gone.
  unfoldable pub ask : World → Message → Backend → Option Output × Backend
  unfolding run step local_messages
  ask w m b =
      if w.is_gone
      then (none, record b { asked = suc b.asked })
      else (let others = run w.before b.adapter in
          let r = step (turn_with w m) others.1 in
          (
            some r.0,
            record {
              asked = suc b.asked;
              adapter = r.1;
              to_local_store =
                  b.to_local_store ++ local_messages others.0 ++ local_messages (r.0 ∷ []);
            },
          ))

  abbrev pub reply_of :
      {A : Type 0} → (Option Answer → Reply A) → Option Output × Backend → Reply A × Backend
  reply_of read (none, b) = (gone, b)
  reply_of read (some o, b) = (read o.answer, b)

  abbrev pub is_taken : Option Output × Backend → Bool × Backend
  is_taken (none, b) = (false, b)
  is_taken (some o, b) = (true, b)

  unfoldable pub port : (ℕ → World) → AdapterPort Backend
  unfolding ask
  port world = record {
    get_product_list =
        λ b. reply_of product_list_reply (ask (world b.asked) Adapter.get_product_list b);
    get_product =
        λ account b. reply_of product_reply (ask (world b.asked) (Adapter.get_product account) b);
    get_all_products =
        λ b. reply_of all_products_reply (ask (world b.asked) Adapter.get_all_products b);
    subscribe_price = λ account tx b.
        reply_of subscription_reply (ask (world b.asked) (Adapter.subscribe_price account tx) b);
    subscribe_price_sched = λ account tx b.
        reply_of subscription_reply
          (ask (world b.asked) (Adapter.subscribe_price_sched account tx) b);
    update_price = λ account price conf status b.
        is_taken (ask (world b.asked) (Adapter.update_price account price conf status) b);
  }
