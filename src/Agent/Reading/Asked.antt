-- ===== src/Agent/Reading/Asked.antt =====
-- Who asked the adapter for the notifications that it sends.
use pyth_agent.Prelude.{
  ◌≡◌, refl, subst, inl, inr, Bool, List, [], ◌∷◌, some, String, In, Bool-cases,
}
use pyth_agent.Solana.{Identifier, Env}
use pyth_agent.Store.Global.{GlobalStoreUpdate}
use pyth_agent.Pythd.Adapter.Accounts.{with_account-cases}
use pyth_agent.Pythd.Adapter.{
  Adapter, Channel, Subscription, Turn, Event, Notice, received, tick, global_store_update,
  get_product_list, get_product, get_all_products, subscribe_price, subscribe_price_sched,
  update_price, handle_subscribe_price, handle_subscribe_price_sched, handle_message, handle_event,
  step, drop_closed_subscriptions, send_all, price_notice, subscriptions_of,
  handle_global_store_update,
}
use pyth_agent.Pythd.Adapter.Entries.{Has, price, sched, subscribe-from, drop-Keeps}

pub In-send_all :
    (n : Notice) (is_open : Channel → Bool) (notice : Subscription → Notice)
    (subs : List Subscription)
    → In n (send_all is_open notice subs).1
    → (sub : Subscription) × In sub subs × (notice sub ≡ n)
unfolding send_all
In-send_all n is_open notice [] m = absurd m
In-send_all n is_open notice (sub ∷ subs) m = elim (Bool-cases (is_open sub.channel)) [
  | inl e ↦ elim (rw (e, send_all) at m) [
    | inl same ↦ (sub, inl refl, same)
    | inr rest ↦ let (s, i, f) = In-send_all n is_open notice subs rest in (s, inr i, f)
  ]
  | inr e ↦ absurd (rw (e, send_all) at m)
]

module _ ⦃env : Env⦄ where
  -- A client asked, over the channel, for the price under the key.
  abbrev pub WasAsked : List Turn → Identifier → Channel → Type 0
  WasAsked turns k c =
      (t : Turn) × (account : String) × In t turns
      × (t.event ≡ received (subscribe_price account c))
      × (env.parse account ≡ some k)

  pub WasAsked-later :
      (t : Turn) (ts : List Turn) (k : Identifier) (c : Channel)
      → WasAsked ts k c
      → WasAsked (t ∷ ts) k c
  WasAsked-later t ts k c (u, account, m, e, p) = (u, account, inr m, e, p)

  -- So was every subscription that the adapter has.
  abbrev pub AreAsked : List Turn → Adapter → Type 0
  AreAsked turns a =
      (k : Identifier) (sub : Subscription) → Has a price k sub → WasAsked turns k sub.channel

  subscribed-AreAsked :
      (t : Turn) (ts : List Turn) (account : String) (tx : Channel) (key : Identifier) (a : Adapter)
      → t.event ≡ received (subscribe_price account tx)
      → env.parse account ≡ some key
      → AreAsked (t ∷ ts) a
      → AreAsked (t ∷ ts) (handle_subscribe_price key tx a).1
  subscribed-AreAsked t ts account tx key a e p h k sub m =
      elim (subscribe-from price key tx a price k sub m) [
        | inl old ↦ h k sub old
        | inr (_, same, new) ↦
            subst (λ s. WasAsked (t ∷ ts) k s.channel) new
              (subst (λ i. WasAsked (t ∷ ts) i tx) same (t, account, inl refl, e, p))
      ]

  scheduled-AreAsked :
      (ts : List Turn) (tx : Channel) (key : Identifier) (a : Adapter)
      → AreAsked ts a
      → AreAsked ts (handle_subscribe_price_sched key tx a).1
  scheduled-AreAsked ts tx key a h k sub m = elim (subscribe-from sched key tx a price k sub m) [
    | inl old ↦ h k sub old
    | inr (differ, _, _) ↦ absurd cc
  ]

  event-AreAsked :
      (t : Turn) (ts : List Turn) (a : Adapter) (e : Event)
      → t.event ≡ e
      → AreAsked (t ∷ ts) a
      → AreAsked (t ∷ ts) (handle_event t.inputs e a).1
  unfolding handle_event handle_message
  event-AreAsked t ts a tick e h = h
  event-AreAsked t ts a (received (global_store_update u)) e h = h
  event-AreAsked t ts a (received get_product_list) e h = h
  event-AreAsked t ts a (received get_all_products) e h = h
  event-AreAsked t ts a (received (get_product account)) e h =
      with_account-cases (λ r. AreAsked (t ∷ ts) r.1) account a _ h (λ key k. h)
  event-AreAsked t ts a (received (update_price account p conf status)) e h =
      with_account-cases (λ r. AreAsked (t ∷ ts) r.1) account a _ h (λ key k. h)
  event-AreAsked t ts a (received (subscribe_price account tx)) e h =
      with_account-cases (λ r. AreAsked (t ∷ ts) r.1) account a _ h
        (λ key k. (subscribed-AreAsked t ts account tx key a e k h))
  event-AreAsked t ts a (received (subscribe_price_sched account tx)) e h =
      with_account-cases (λ r. AreAsked (t ∷ ts) r.1) account a _ h
        (λ key k. scheduled-AreAsked (t ∷ ts) tx key a h)

  dropped-AreAsked :
      (t : Turn) (ts : List Turn) (a : Adapter)
      → AreAsked ts a
      → AreAsked (t ∷ ts) (drop_closed_subscriptions t.was_open a)
  dropped-AreAsked t ts a h k sub m =
      WasAsked-later t ts k sub.channel (h k sub ((drop-Keeps t.was_open a).from price k sub m))

  pub step-AreAsked :
      (t : Turn) (ts : List Turn) (a : Adapter) → AreAsked ts a → AreAsked (t ∷ ts) (step t a).1
  unfolding step
  step-AreAsked t ts a h =
      event-AreAsked t ts (drop_closed_subscriptions t.was_open a) t.event refl
        (dropped-AreAsked t ts a h)

  -- The notices of a turn that takes an update: each is one of a subscription to the update's price.
  pub In-update_notices :
      (t : Turn) (ts : List Turn) (u : GlobalStoreUpdate) (a : Adapter) (n : Notice)
      → t.event ≡ received (global_store_update u)
      → AreAsked ts a
      → In n (step t a).0.sent
      → (sub : Subscription) × WasAsked (t ∷ ts) u.price_identifier sub.channel
        × (price_notice u sub ≡ n)
  unfolding step handle_event handle_message handle_global_store_update
  In-update_notices t ts u a n e h m =
      let s = drop_closed_subscriptions t.was_open a in
      let g = subst (λ x. In n (handle_event t.inputs x s).0.sent) e m in
      let (sub, i, same) =
        In-send_all n t.inputs.is_open (price_notice u)
          (subscriptions_of u.price_identifier s.notify_price_subscriptions) g in
      (sub, dropped-AreAsked t ts a h u.price_identifier sub i, same)
