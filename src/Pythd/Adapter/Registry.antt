-- ===== src/Pythd/Adapter/Registry.antt =====
-- The tables of subscriptions of src/agent/pythd/adapter.rs. The order in which a map of subscriptions
-- is read is not specified; here it is the order of the association list.
use pyth_agent.Prelude.{◌++◌, Bool, List, [], ◌∷◌, none, some, retain}
use pyth_agent.Prelude.Maps.{lookup, insert, nat_key}
use pyth_agent.Solana.{Identifier}
use pyth_agent.Pythd.Api.{SubscriptionId}
use pyth_agent.Pythd.Adapter.Messages.{Channel}

-- A subscription of either kind.
pub record Subscription : Type 0 where
  pub subscription_id : SubscriptionId
  pub channel : Channel

abbrev pub Subscriptions : Type 0
Subscriptions = List (Identifier × List Subscription)

-- The list under a key, or the empty one.
unfoldable pub subscriptions_of : Identifier → Subscriptions → List Subscription
subscriptions_of k m = elim (lookup k m) [ some subs ↦ subs | none ↦ [] ]

unfoldable pub push : Identifier → Subscription → Subscriptions → Subscriptions
unfolding subscriptions_of
push k sub m = insert k (subscriptions_of k m ++ sub ∷ []) m

unfoldable pub retain_open : (Channel → Bool) → Subscriptions → Subscriptions
retain_open is_open [] = []
retain_open is_open ((k, subs) ∷ m) =
    (k, retain (λ sub. is_open sub.channel) subs) ∷ retain_open is_open m

unfoldable pub flatten_values : Subscriptions → List Subscription
flatten_values [] = []
flatten_values ((k, subs) ∷ m) = subs ++ flatten_values m
