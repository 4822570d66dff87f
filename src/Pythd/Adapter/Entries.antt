-- ===== src/Pythd/Adapter/Entries.antt =====
-- What a subscription does to the tables of adapter.rs.
use pyth_agent.Prelude.{
  ℕ, suc, ◌<◌, ◌^◌, ◌≡◌, refl, sym, ap, ◌∙◌, subst, arith, ◌⊎◌, inl, inr, Bool, [], ◌∷◌, ◌++◌,
  retain, In, In-retain, ℕ_discrete, In-append_cases, In-append_left, In-append_right,
}
use pyth_agent.Prelude.Int.{pos, ◌+ℤ◌, IsI64, wrap_i64_id}
use pyth_agent.Prelude.Maps.{nat_key, lookup-insert}
use pyth_agent.Solana.{Identifier}
use pyth_agent.Pythd.Api.{SubscriptionId}
use pyth_agent.Pythd.Adapter.{
  Channel, Subscription, Subscriptions, Adapter, push, next_subscription_id, handle_subscribe_price,
  handle_subscribe_price_sched, subscriptions_of, retain_open, drop_closed_subscriptions,
}
use pyth_agent.Pythd.Adapter.Notify.{subscriptions_of-retain_open}

pub data Kind : Type 0 where
  price sched : Kind

abbrev pub table : Kind → Adapter → Subscriptions
table price s = s.notify_price_subscriptions
table sched s = s.notify_price_sched_subscriptions

-- The subscription is in the table of its kind, under the key.
abbrev pub Has : Adapter → Kind → Identifier → Subscription → Type 0
Has s c k a = In a (subscriptions_of k (table c s))

push-same :
    (k : Identifier) (sub : Subscription) (m : Subscriptions)
    → subscriptions_of k (push k sub m) ≡ subscriptions_of k m ++ sub ∷ []
unfolding push subscriptions_of
push-same k sub m = ground (arith, lookup-insert k k (subscriptions_of k m ++ sub ∷ []) m)

push-other :
    (j k : Identifier) (sub : Subscription) (m : Subscriptions)
    → ¬ (k ≡ j)
    → subscriptions_of j (push k sub m) ≡ subscriptions_of j m
unfolding push subscriptions_of
push-other j k sub m other = ground (arith, lookup-insert j k (subscriptions_of k m ++ sub ∷ []) m)

In-push :
    (a : Subscription) (j k : Identifier) (sub : Subscription) (m : Subscriptions)
    → In a (subscriptions_of j (push k sub m))
    → In a (subscriptions_of j m) ⊎ ((k ≡ j) × (sub ≡ a))
In-push a j k sub m h = elim (ℕ_discrete k j) [
  | yes same ↦
      let g = subst (λ i. In a (subscriptions_of i (push k sub m))) (sym same) h in
      elim (In-append_cases a (subscriptions_of k m) (sub ∷ []) (rw (push-same k sub m) at g)) [
        | inl old ↦ inl (subst (λ i. In a (subscriptions_of i m)) same old)
        | inr (inl e) ↦ inr (same, e)
        | inr (inr m') ↦ absurd m'
      ]
  | no other ↦ inl (rw (push-other j k sub m other) at h)
]

In-push_old :
    (a : Subscription) (j k : Identifier) (sub : Subscription) (m : Subscriptions)
    → In a (subscriptions_of j m)
    → In a (subscriptions_of j (push k sub m))
In-push_old a j k sub m h = elim (ℕ_discrete k j) [
  | yes same ↦
      subst (λ i. In a (subscriptions_of i (push k sub m))) same
        (rw (push-same k sub m) (
          In-append_left a (subscriptions_of k m) (sub ∷ [])
            (subst (λ i. In a (subscriptions_of i m)) (sym same) h)))
  | no other ↦ rw (push-other j k sub m other) h
]

In-push_new :
    (k : Identifier) (sub : Subscription) (m : Subscriptions)
    → In sub (subscriptions_of k (push k sub m))
In-push_new k sub m =
    rw (push-same k sub m) (In-append_right sub (subscriptions_of k m) (sub ∷ []) (inl refl))

-- The next number of an adapter that has given out `n`.
pub next-pos :
    (n : ℕ) (s : Adapter)
    → s.subscription_id_count ≡ pos n
    → suc n < 2 ^ 63
    → next_subscription_id s ≡ pos (suc n)
unfolding next_subscription_id ◌+ℤ◌
next-pos n s e h =
    let fits : IsI64 (pos n +ℤ pos 1) = ground (arith, h) in
    let sum : pos n +ℤ pos 1 ≡ pos (suc n) = ground arith in
    rw e (wrap_i64_id (pos n +ℤ pos 1) fits ∙ sum)

-- No subscription is new.
pub record Keeps (s t : Adapter) : Type 0 where
  pub count : t.subscription_id_count ≡ s.subscription_id_count
  pub from : (c : Kind) (k : Identifier) (a : Subscription) → Has t c k a → Has s c k a

-- One subscription is new, and has the next number.
pub record Adds (s t : Adapter) : Type 0 where
  pub kind : Kind
  pub key : Identifier
  pub sub : Subscription
  pub number : sub.subscription_id ≡ next_subscription_id s
  pub count : t.subscription_id_count ≡ next_subscription_id s
  pub from :
      (c : Kind) (k : Identifier) (a : Subscription)
      → Has t c k a
      → Has s c k a ⊎ ((c ≡ kind) × (key ≡ k) × (sub ≡ a))

Keeps-refl : (s : Adapter) → Keeps s s
Keeps-refl s = record { count = refl; from = λ c k a h. h }

table-drop :
    (is_open : Channel → Bool) (s : Adapter) (c : Kind)
    → table c (drop_closed_subscriptions is_open s) ≡ retain_open is_open (table c s)
unfolding drop_closed_subscriptions
table-drop is_open s price = refl
table-drop is_open s sched = refl

pub Has-drop :
    (is_open : Channel → Bool) (s : Adapter) (c : Kind) (k : Identifier)
    → subscriptions_of k (table c (drop_closed_subscriptions is_open s))
      ≡ retain (λ sub. is_open sub.channel) (subscriptions_of k (table c s))
Has-drop is_open s c k =
    ap (subscriptions_of k) (table-drop is_open s c)
    ∙ subscriptions_of-retain_open is_open k (table c s)

pub drop-Keeps :
    (is_open : Channel → Bool) (s : Adapter) → Keeps s (drop_closed_subscriptions is_open s)
unfolding drop_closed_subscriptions
drop-Keeps is_open s = record {
  count = refl;
  from = λ c k a h.
      (In-retain a (λ sub. is_open sub.channel) (subscriptions_of k (table c s))
        (subst (In a) (Has-drop is_open s c k) h)).0;
}

-- A new subscription of one kind under a key.
abbrev pub subscribe : Kind → Identifier → Channel → Adapter → SubscriptionId × Adapter
subscribe price = handle_subscribe_price
subscribe sched = handle_subscribe_price_sched

abbrev pub new_sub : Channel → Adapter → Subscription
new_sub tx s = record { subscription_id = next_subscription_id s; channel = tx }

subscribe-count :
    (c : Kind) (k : Identifier) (tx : Channel) (s : Adapter)
    → (subscribe c k tx s).1.subscription_id_count ≡ next_subscription_id s
unfolding handle_subscribe_price handle_subscribe_price_sched
subscribe-count price k tx s = refl
subscribe-count sched k tx s = refl

pub subscribe-from :
    (d : Kind) (key : Identifier) (tx : Channel) (s : Adapter) (c : Kind) (k : Identifier)
    (a : Subscription)
    → Has (subscribe d key tx s).1 c k a
    → Has s c k a ⊎ ((c ≡ d) × (key ≡ k) × (new_sub tx s ≡ a))
unfolding handle_subscribe_price handle_subscribe_price_sched
subscribe-from price key tx s price k a h =
    elim (In-push a k key (new_sub tx s) s.notify_price_subscriptions h) [
      | inl old ↦ inl old
      | inr (i, e) ↦ inr (refl, i, e)
    ]
subscribe-from price key tx s sched k a h = inl h
subscribe-from sched key tx s price k a h = inl h
subscribe-from sched key tx s sched k a h =
    elim (In-push a k key (new_sub tx s) s.notify_price_sched_subscriptions h) [
      | inl old ↦ inl old
      | inr (i, e) ↦ inr (refl, i, e)
    ]

pub subscribe-old :
    (d : Kind) (key : Identifier) (tx : Channel) (s : Adapter) (c : Kind) (k : Identifier)
    (a : Subscription)
    → Has s c k a
    → Has (subscribe d key tx s).1 c k a
unfolding handle_subscribe_price handle_subscribe_price_sched
subscribe-old price key tx s price k a h = In-push_old a k key (new_sub tx s) _ h
subscribe-old price key tx s sched k a h = h
subscribe-old sched key tx s price k a h = h
subscribe-old sched key tx s sched k a h = In-push_old a k key (new_sub tx s) _ h

pub subscribe-new :
    (d : Kind) (key : Identifier) (tx : Channel) (s : Adapter)
    → Has (subscribe d key tx s).1 d key (new_sub tx s)
unfolding handle_subscribe_price handle_subscribe_price_sched
subscribe-new price key tx s = In-push_new key (new_sub tx s) s.notify_price_subscriptions
subscribe-new sched key tx s = In-push_new key (new_sub tx s) s.notify_price_sched_subscriptions

pub subscribe-Adds :
    (d : Kind) (key : Identifier) (tx : Channel) (s : Adapter) → Adds s (subscribe d key tx s).1
subscribe-Adds d key tx s = record {
  kind = d;
  key = key;
  sub = new_sub tx s;
  number = refl;
  count = subscribe-count d key tx s;
  from = subscribe-from d key tx s;
}
