-- ===== src/Pythd/Adapter/Notify.antt =====
-- Who is notified.
use pyth_agent.Prelude.{
  ◌≡◌, refl, sym, ap, ◌∙◌, subst, arith, inl, inr, Bool, true, List, [], ◌∷◌, ◌++◌, ok, retain, map,
  Bool-cases,
}
use pyth_agent.Prelude.Maps.{lookup, nat_key}
use pyth_agent.Solana.{Identifier, Env}
use pyth_agent.Store.Global.{GlobalStoreUpdate}
use pyth_agent.Pythd.Adapter.{
  Event, Channel, Subscription, Subscriptions, Adapter, Notice, Inputs, Output, Turn, received,
  tick, global_store_update, subscriptions_of, retain_open, drop_closed_subscriptions, send_all,
  flatten_values, sched_notice, price_notice, send_notify_price_sched, handle_global_store_update,
  handle_message, handle_event, step,
}

-- The subscriptions whose channel is open.
abbrev pub open_ones : (Channel → Bool) → List Subscription → List Subscription
open_ones is_open = retain (λ sub. is_open sub.channel)

pub subscriptions_of-retain_open :
    (is_open : Channel → Bool) (k : Identifier) (m : Subscriptions)
    → subscriptions_of k (retain_open is_open m) ≡ open_ones is_open (subscriptions_of k m)
unfolding retain_open subscriptions_of lookup retain
subscriptions_of-retain_open is_open k [] = refl
subscriptions_of-retain_open is_open k ((j, subs) ∷ m) =
    ground (arith, subscriptions_of-retain_open is_open k m)

retain-append :
    {A : Type 0} (p : A → Bool) (xs ys : List A) → retain p (xs ++ ys) ≡ retain p xs ++ retain p ys
unfolding retain
retain-append p [] ys = refl
retain-append p (x ∷ xs) ys = ground (arith, retain-append p xs ys)

flatten_values-retain_open :
    (is_open : Channel → Bool) (m : Subscriptions)
    → flatten_values (retain_open is_open m) ≡ open_ones is_open (flatten_values m)
unfolding retain_open flatten_values retain
flatten_values-retain_open is_open [] = refl
flatten_values-retain_open is_open ((j, subs) ∷ m) =
    ap (λ l. open_ones is_open subs ++ l) (flatten_values-retain_open is_open m)
    ∙ sym (retain-append (λ sub. is_open sub.channel) subs (flatten_values m))

-- Every channel that was open when closed subscriptions were dropped is still open.
abbrev pub StaysOpen : (was_open is_open : Channel → Bool) → Type 0
StaysOpen was_open is_open = (c : Channel) → was_open c ≡ true → is_open c ≡ true

send_all-open_ones :
    (was_open is_open : Channel → Bool) (notice : Subscription → Notice) (subs : List Subscription)
    → StaysOpen was_open is_open
    → send_all is_open notice (open_ones was_open subs)
      ≡ (ok tt, map notice (open_ones was_open subs))
unfolding send_all retain
send_all-open_ones was_open is_open notice [] h = refl
send_all-open_ones was_open is_open notice (sub ∷ subs) h =
    let rest = send_all-open_ones was_open is_open notice subs h in
    elim (Bool-cases (was_open sub.channel)) [
      | inl e ↦ rw (e, retain, h sub.channel e, send_all, rest) refl
      | inr e ↦ rw (e, retain) rest
    ]

-- One notification to each of `subs`, in this order, and no error.
abbrev pub Notified : (Subscription → Notice) → List Subscription → Output → Type 0
Notified notice subs out = (out.sent ≡ map notice subs) × (out.result ≡ ok tt)

module _ ⦃env : Env⦄ (was_open : Channel → Bool) (inputs : Inputs) (s : Adapter)
    (stays : StaysOpen was_open inputs.is_open) where
  price-Notified :
      (u : GlobalStoreUpdate)
      → Notified
          (price_notice u)
          (open_ones was_open (subscriptions_of u.price_identifier s.notify_price_subscriptions))
          (handle_event inputs
            (received (global_store_update u))
            (drop_closed_subscriptions was_open s)).0
  unfolding handle_event handle_message handle_global_store_update drop_closed_subscriptions
  price-Notified u =
      let m = s.notify_price_subscriptions in
      rw (subscriptions_of-retain_open was_open u.price_identifier m) (
        rw
          (send_all-open_ones was_open inputs.is_open (price_notice u)
            (subscriptions_of u.price_identifier m) stays)
          (refl, refl))

  sched-Notified :
      Notified sched_notice
        (open_ones was_open (flatten_values s.notify_price_sched_subscriptions))
        (handle_event inputs tick (drop_closed_subscriptions was_open s)).0
  unfolding handle_event send_notify_price_sched drop_closed_subscriptions
  sched-Notified =
      let m = s.notify_price_sched_subscriptions in
      rw (flatten_values-retain_open was_open m) (
        rw (send_all-open_ones was_open inputs.is_open sched_notice (flatten_values m) stays)
          (refl, refl))

module _ ⦃env : Env⦄ (t : Turn) (s : Adapter) (stays : StaysOpen t.was_open t.inputs.is_open) where
  -- Where no channel closes during a turn: an update of the global store is sent to each subscription
  -- to its price whose channel is open, once, in the order of subscription; the scheduled
  -- notification is sent to each subscription to it with an open channel; and neither is an error.
  pub step-Notified :
      ((u : GlobalStoreUpdate)
        → t.event ≡ received (global_store_update u)
        → Notified
            (price_notice u)
            (open_ones t.was_open
              (subscriptions_of u.price_identifier s.notify_price_subscriptions))
            (step t s).0)
      × (t.event ≡ tick
          → Notified sched_notice
              (open_ones t.was_open (flatten_values s.notify_price_sched_subscriptions))
              (step t s).0)
  unfolding step
  step-Notified =
      let after =
        λ (e : Event). (handle_event t.inputs e (drop_closed_subscriptions t.was_open s)).0 in
      let priced = λ (u : GlobalStoreUpdate).
        open_ones t.was_open (subscriptions_of u.price_identifier s.notify_price_subscriptions) in
      let scheduled = open_ones t.was_open (flatten_values s.notify_price_sched_subscriptions) in
      (
        λ u e.
            subst (λ x. Notified (price_notice u) (priced u) (after x)) (sym e)
              (price-Notified t.was_open t.inputs s stays u),
        λ e.
            subst (λ x. Notified sched_notice scheduled (after x)) (sym e)
              (sched-Notified t.was_open t.inputs s stays),
      )
