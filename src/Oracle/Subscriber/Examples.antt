-- ===== src/Oracle/Subscriber/Examples.antt =====
-- A subscription that lags once and then gives an update.
use pyth_agent.Prelude.{
  ℕ, ◌≡◌, refl, true, List, [], ◌∷◌, Option, some, none, ok, err, inl, inr, ◌==◌, if◌then◌else◌,
  ℕ_discrete,
}
use pyth_agent.Prelude.Maps.{lookup, nat_key}
use pyth_agent.Solana.{Pubkey, PriceEntry, CommitmentLevel}
use pyth_agent.Samples.{sample_env, account_at}
use pyth_agent.Store.Global.{run, new}
use pyth_agent.Oracle.{Data, default_data, shadow_failed}
use pyth_agent.Oracle.Delivery.{HasPrice, events}
use pyth_agent.Oracle.Tasks.{run_oracle}
use pyth_agent.Oracle.Subscriber.{
  Subscriber, Received, Shadow, start_shadow, forward_updates, updates_of,
}
use pyth_agent.Oracle.Subscriber as Subscriber
use pyth_agent.Oracle.Subscriber.Arrival.{all_sent, taken, subscription-Arrives}

abbrev subscriber : Subscriber
subscriber = record {
  rpc_url = "http://node";
  wss_url = "ws://node";
  rpc_timeout = 10000000000;
  commitment = CommitmentLevel.confirmed;
  account_key = 50;
}

abbrev received : Received ℕ
received = none ∷ some (4, 12) ∷ []

-- Only the program's key gives a subscription.
abbrev shadow : Shadow ℕ
shadow key options = if key == 50 then some received else none

abbrev known : Data
known = record default_data { price_accounts = (4, account_at 10) ∷ [] }

abbrev load : ℕ → Option PriceEntry
load a = some (account_at a)

started : start_shadow shadow subscriber ≡ ok received
unfolding start_shadow
started = refl

refused :
    Subscriber.run shadow (λ _. true) (record subscriber { account_key = 51 }) ≡ err shadow_failed
unfolding Subscriber.run start_shadow
refused = refl

has_account : lookup 4 known.price_accounts ≡ some (account_at 10)
unfolding lookup ℕ_discrete
has_account = refl

subscription-Arrives_example :
    (us : List (Pubkey × ℕ)) × (Subscriber.run shadow (λ _. true) subscriber ≡ ok us)
    × HasPrice 4
        (account_at 12)
        (run (events (all_sent (run_oracle load (taken us) known).0)) (new ℕ)).1
subscription-Arrives_example =
    subscription-Arrives load shadow (λ _. true) subscriber received known (new ℕ) 4 12
      (account_at 12) (λ _. refl) started (inr (inl refl)) refl (account_at 10, has_account)
