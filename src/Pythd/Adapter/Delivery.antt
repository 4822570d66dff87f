-- ===== src/Pythd/Adapter/Delivery.antt =====
-- From a subscription to its notifications.
use pyth_agent.Prelude.{
  ◌≡◌, sym, ap, subst, inl, inr, true, List, [], ◌∷◌, some, String, map, In, All, In-retain_intro,
}
use pyth_agent.Solana.{Pubkey, Identifier, Env}
use pyth_agent.Store.Global.{GlobalStoreUpdate}
use pyth_agent.Pythd.Adapter.{
  Subscription, Channel, Adapter, Inputs, Turn, received, subscribe_price, global_store_update,
  drop_closed_subscriptions, handle_event, handle_message, with_account, price_notice, step, run,
  subscriptions_of,
}
use pyth_agent.Pythd.Adapter.Notify.{StaysOpen, step-Notified}
use pyth_agent.Pythd.Adapter.Entries.{
  Kind, Has, Has-drop, new_sub, subscribe-old, subscribe-new, table, price,
}
use pyth_agent.Pythd.Adapter.Tables.{handle_event-Shape, Shape}

Shape-old :
    (s t : Adapter) (c : Kind) (k : Identifier) (a : Subscription)
    → Shape s t
    → Has s c k a
    → Has t c k a
Shape-old s t c k a (inl same) h = subst (λ x. Has x c k a) same h
Shape-old s t c k a (inr (d, j, tx, same)) h =
    subst (λ x. Has x c k a) same (subscribe-old d j tx s c k a h)

In-map_to : {A B : Type 0} (f : A → B) (a : A) (xs : List A) → In a xs → In (f a) (map f xs)
In-map_to f a [] m = absurd m
In-map_to f a (x ∷ xs) (inl e) = inl (ap f e)
In-map_to f a (x ∷ xs) (inr m) = inr (In-map_to f a xs m)

module _ ⦃env : Env⦄ where
  -- A subscription stays while its channel is open.
  step-Has :
      (t : Turn) (s : Adapter) (c : Kind) (k : Identifier) (a : Subscription)
      → t.was_open a.channel ≡ true
      → Has s c k a
      → Has (step t s).1 c k a
  unfolding step
  step-Has t s c k a o h =
      let dropped = drop_closed_subscriptions t.was_open s in
      Shape-old dropped _ c k a (handle_event-Shape t.inputs t.event dropped) (
        subst (In a) (sym (Has-drop t.was_open s c k))
          (In-retain_intro a (λ sub. t.was_open sub.channel) (subscriptions_of k (table c s)) h o))

  run-Has :
      (ts : List Turn) (s : Adapter) (c : Kind) (k : Identifier) (a : Subscription)
      → All (λ (t : Turn). t.was_open a.channel ≡ true) ts
      → Has s c k a
      → Has (run ts s).1 c k a
  unfolding run
  run-Has [] s c k a o h = h
  run-Has (t ∷ ts) s c k a o h = run-Has ts (step t s).1 c k a o.1 (step-Has t s c k a o.0 h)

  subscribed-Has :
      (inputs : Inputs) (account : String) (k : Pubkey) (tx : Channel) (s : Adapter)
      → env.parse account ≡ some k
      → Has (handle_event inputs (received (subscribe_price account tx)) s).1 price k (new_sub tx s)
  unfolding handle_event handle_message with_account
  subscribed-Has inputs account k tx s e = rw (e, with_account) (subscribe-new price k tx s)

  -- A connection that subscribes to a price is notified of it: after the request, and any turns in
  -- which its channel is open, an update of that price from the global store sends the channel a
  -- notification with the number of the subscription, provided that no channel closes during the turn
  -- of the update.
  pub subscribe_price-notified :
      (inputs : Inputs) (account : String) (k : Pubkey) (tx : Channel) (s : Adapter)
      (ts : List Turn) (last : Turn) (u : GlobalStoreUpdate)
      → env.parse account ≡ some k
      → All (λ (t : Turn). t.was_open tx ≡ true) ts
      → last.was_open tx ≡ true
      → StaysOpen last.was_open last.inputs.is_open
      → last.event ≡ received (global_store_update u)
      → u.price_identifier ≡ k
      → let subscribed = (handle_event inputs (received (subscribe_price account tx)) s).1 in
        In (price_notice u (new_sub tx s)) (step last (run ts subscribed).1).0.sent
  subscribe_price-notified inputs account k tx s ts last u e o ol stays ev same =
      let subscribed = (handle_event inputs (received (subscribe_price account tx)) s).1 in
      let h =
        run-Has ts subscribed price k (new_sub tx s) o (subscribed-Has inputs account k tx s e) in
      let here =
        subst
          (λ j.
            In (new_sub tx s) (subscriptions_of j (run ts subscribed).1.notify_price_subscriptions))
          (sym same) h in
      subst (In (price_notice u (new_sub tx s)))
        (sym ((step-Notified last (run ts subscribed).1 stays).0 u ev).0)
        (In-map_to (price_notice u) (new_sub tx s) _
          (In-retain_intro (new_sub tx s) (λ sub. last.was_open sub.channel) _ here ol))
