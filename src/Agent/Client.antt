-- ===== src/Agent/Client.antt =====
-- The prices that clients send, and what the adapter makes of them for the local store.
use pyth_agent.Prelude.{
  ℕ, ◌≡◌, refl, Bool, true, false, List, [], ◌∷◌, Option, none, some, String, ok, if◌then◌else◌, In,
  All, inl, inr,
}
use pyth_agent.Prelude.Int.{ℤ}
use pyth_agent.Solana.{Identifier, Env, PriceStatus}
use pyth_agent.Store.Price.{PriceInfo}
use pyth_agent.Store.Local as Local
use pyth_agent.Store.Local.{Prices}
use pyth_agent.Pythd.Status.{map_status}
use pyth_agent.Pythd.Adapter.Accounts.{with_account-cases}
use pyth_agent.Pythd.Adapter.{
  Adapter, Turn, Event, received, tick, global_store_update, get_product_list, get_product,
  get_all_products, subscribe_price, subscribe_price_sched, update_price, handle_update_price,
  reply, Answer, failed, local_store_gone, handle_message, handle_event, step,
  drop_closed_subscriptions, handle_global_store_update, send_notify_price_sched,
}
use pyth_agent.Pythd.Rpc.Backend.{local_messages}

module _ ⦃env : Env⦄ where
  -- The price is what a client sent for the identifier, at the time when the adapter took it.
  pub record ClientPrice (turns : List Turn) (id : Identifier) (info : PriceInfo) : Type 0 where
    pub turn : Turn
    pub taken : In turn turns
    pub account : String
    pub status : String
    pub event : turn.event ≡ received (update_price account info.price info.conf status)
    pub key : env.parse account ≡ some id
    pub reads : map_status status ≡ some info.status
    pub time : info.timestamp ≡ turn.inputs.now

  pub ClientPrice-later :
      (t : Turn) (ts : List Turn) (id : Identifier) (info : PriceInfo)
      → ClientPrice ts id info
      → ClientPrice (t ∷ ts) id info
  ClientPrice-later t ts id info p = record {
    turn = p.turn;
    taken = inr p.taken;
    account = p.account;
    status = p.status;
    event = p.event;
    key = p.key;
    reads = p.reads;
    time = p.time;
  }

  -- So are all prices of a map.
  abbrev pub AreClientPrices : List Turn → Prices → Type 0
  AreClientPrices turns m = (e : Identifier × PriceInfo) → In e m → ClientPrice turns e.0 e.1

  -- So is the price of a message to the local store.
  abbrev pub IsClientMessage : List Turn → Local.Message → Type 0
  IsClientMessage turns (Local.update_price id info) = ClientPrice turns id info
  IsClientMessage turns (Local.lookup_all_price_info o) = Unit

  pub IsClientMessage-later :
      (t : Turn) (ts : List Turn) (m : Local.Message)
      → IsClientMessage ts m
      → IsClientMessage (t ∷ ts) m
  IsClientMessage-later t ts (Local.update_price id info) p = ClientPrice-later t ts id info p
  IsClientMessage-later t ts (Local.lookup_all_price_info o) p = tt

  AllClient : List Turn → List Local.Message → Type 0
  AllClient turns ms = All (IsClientMessage turns) ms

  reply-AllClient :
      (ts : List Turn) (reader_open : Bool) (answer : Answer)
      → All (IsClientMessage ts) (local_messages (reply reader_open answer ∷ []))
  unfolding reply local_messages
  reply-AllClient ts true answer = tt
  reply-AllClient ts false answer = tt

  taken-AllClient :
      (ts : List Turn) (local_store_open : Bool) (m : Local.Message)
      → IsClientMessage ts m
      → All (IsClientMessage ts) (
          local_messages (
            (if local_store_open
              then record { result = ok tt; sent = []; answer = none; to_local_store = some m }
              else failed local_store_gone)
            ∷ []))
  unfolding local_messages
  taken-AllClient ts true m p = (p, tt)
  taken-AllClient ts false m p = tt

  update-AllClient :
      (ts : List Turn) (t : Turn) (account : String) (price : ℤ) (conf : ℕ) (text : String)
      (key : Identifier) (status : Option PriceStatus)
      → t.event ≡ received (update_price account price conf text)
      → env.parse account ≡ some key
      → map_status text ≡ status
      → All
          (IsClientMessage (t ∷ ts))
          (local_messages (handle_update_price t.inputs key price conf status ∷ []))
  unfolding handle_update_price local_messages
  update-AllClient ts t account price conf text key none e k h = tt
  update-AllClient ts t account price conf text key (some status) e k h =
      taken-AllClient (t ∷ ts) t.inputs.local_store_open _ (record {
        turn = t;
        taken = inl refl;
        account = account;
        status = text;
        event = e;
        key = k;
        reads = h;
        time = refl;
      })

  event-AllClient :
      (ts : List Turn) (t : Turn) (a : Adapter) (e : Event)
      → t.event ≡ e
      → All (IsClientMessage (t ∷ ts)) (local_messages ((handle_event t.inputs e a).0 ∷ []))
  unfolding handle_event handle_message local_messages handle_global_store_update
      send_notify_price_sched
  event-AllClient ts t a tick h = tt
  event-AllClient ts t a (received (global_store_update u)) h = tt
  event-AllClient ts t a (received get_product_list) h =
      reply-AllClient (t ∷ ts) t.inputs.reader_open _
  event-AllClient ts t a (received get_all_products) h =
      reply-AllClient (t ∷ ts) t.inputs.reader_open _
  event-AllClient ts t a (received (get_product account)) h =
      with_account-cases (λ r. All (IsClientMessage (t ∷ ts)) (local_messages (r.0 ∷ []))) account a
        _ tt (λ key k. (reply-AllClient (t ∷ ts) t.inputs.reader_open _))
  event-AllClient ts t a (received (subscribe_price account tx)) h =
      with_account-cases (λ r. All (IsClientMessage (t ∷ ts)) (local_messages (r.0 ∷ []))) account a
        _ tt (λ key k. (reply-AllClient (t ∷ ts) t.inputs.reader_open _))
  event-AllClient ts t a (received (subscribe_price_sched account tx)) h =
      with_account-cases (λ r. All (IsClientMessage (t ∷ ts)) (local_messages (r.0 ∷ []))) account a
        _ tt (λ key k. (reply-AllClient (t ∷ ts) t.inputs.reader_open _))
  event-AllClient ts t a (received (update_price account price conf text)) h =
      with_account-cases (λ r. All (IsClientMessage (t ∷ ts)) (local_messages (r.0 ∷ []))) account a
        _ tt
        (λ key k. (update-AllClient ts t account price conf text key (map_status text) h k refl))

  -- What a turn of the adapter sends to the local store is what a client sent in that turn.
  pub step-AllClient :
      (ts : List Turn) (t : Turn) (a : Adapter)
      → All (IsClientMessage (t ∷ ts)) (local_messages ((step t a).0 ∷ []))
  unfolding step
  step-AllClient ts t a = event-AllClient ts t (drop_closed_subscriptions t.was_open a) t.event refl
