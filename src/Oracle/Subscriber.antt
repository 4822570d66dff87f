-- ===== src/Oracle/Subscriber.antt =====
-- The `Subscriber` of oracle.rs, which passes the account updates of a subscription on to the oracle.
-- The subscription is the library `solana_shadow`'s, and a parameter.
pub mod Arrival
mod Examples
use pyth_agent.Prelude.{
  In, inl, inr, ℕ, suc, ◌≡◌, refl, ap, Bool, true, false, List, [], ◌∷◌, ◌++◌, Option, none, some,
  Result, ok, err, ok_or, ◌>>=◌, String,
}
use pyth_agent.Solana.{Pubkey, CommitmentLevel}
use pyth_agent.Exporter.{Duration}
use pyth_agent.Oracle.{Error, shadow_failed, shadow_gone, failed_to_forward}

pub record Subscriber : Type 0 where
  pub rpc_url : String
  pub wss_url : String
  pub rpc_timeout : Duration
  pub commitment : CommitmentLevel
  pub account_key : Pubkey

-- The options that the subscriber sets; the others are the library's defaults.
pub record SyncOptions : Type 0 where
  pub network : String × String
  pub commitment : CommitmentLevel
  pub rpc_timeout : Duration
  pub max_lag : Option ℕ

-- What the channel of a subscription gives in order, `none` where it lags or is closed.
abbrev pub Received : (Account : Type 0) → Type 0
Received Account = List (Option (Pubkey × Account))

-- `BlockchainShadow::new_for_program` with the channel of its updates, if it succeeds.
abbrev pub Shadow : (Account : Type 0) → Type 0
Shadow Account = Pubkey → SyncOptions → Option (Received Account)

module _ {Account : Type 0} where
  unfoldable pub start_shadow : Shadow Account → Subscriber → Result Error (Received Account)
  start_shadow new_for_program s =
      ok_or
        (new_for_program s.account_key (record {
          network = (s.rpc_url, s.wss_url);
          commitment = s.commitment;
          rpc_timeout = s.rpc_timeout;
          max_lag = some 10000;
        }))
        shadow_failed

  -- Whether the oracle's channel takes an update.
  unfoldable pub forward_update :
      Option (Pubkey × Account)
      → (updates_open : Bool) → Result Error (Unit {0}) × List (Pubkey × Account)
  forward_update none updates_open = (err shadow_gone, [])
  forward_update (some update) true = (ok tt, update ∷ [])
  forward_update (some update) false = (err failed_to_forward, [])

  -- An error is logged, and the next update is awaited. The oracle's channel is open or not at each
  -- round.
  unfoldable pub forward_updates :
      (updates_open : ℕ → Bool) → ℕ → Received Account → List (Pubkey × Account)
  unfolding forward_update
  forward_updates updates_open round [] = []
  forward_updates updates_open round (received ∷ rest) =
      (forward_update received (updates_open round)).1
      ++ forward_updates updates_open (suc round) rest

  -- The subscriber ends at once where the subscription fails.
  unfoldable pub run :
      Shadow Account
      → (updates_open : ℕ → Bool) → Subscriber
      → Result Error (List (Pubkey × Account))
  run new_for_program updates_open s = do
    received ← start_shadow new_for_program s
    ok (forward_updates updates_open 0 received)

  -- The updates among what is received, in order.
  unfoldable pub updates_of : Received Account → List (Pubkey × Account)
  updates_of [] = []
  updates_of (none ∷ rest) = updates_of rest
  updates_of (some update ∷ rest) = update ∷ updates_of rest

  pub In-updates_of :
      (u : Pubkey × Account) (received : Received Account)
      → In (some u) received
      → In u (updates_of received)
  unfolding updates_of
  In-updates_of u [] m = absurd m
  In-updates_of u (none ∷ rest) (inl same) = cc
  In-updates_of u (none ∷ rest) (inr m) = In-updates_of u rest m
  In-updates_of u (some v ∷ rest) (inl same) = inl (cc)
  In-updates_of u (some v ∷ rest) (inr m) = inr (In-updates_of u rest m)

  forward_updates-all :
      (updates_open : ℕ → Bool) (round : ℕ) (received : Received Account)
      → ((n : ℕ) → updates_open n ≡ true)
      → forward_updates updates_open round received ≡ updates_of received
  unfolding forward_updates updates_of
  forward_updates-all updates_open round [] h = refl
  forward_updates-all updates_open round (none ∷ rest) h =
      forward_updates-all updates_open (suc round) rest h
  forward_updates-all updates_open round (some update ∷ rest) h =
      rw (h round) (ap (λ us. update ∷ us) (forward_updates-all updates_open (suc round) rest h))

  -- While the oracle takes them, each account update that the subscription gives goes to the oracle,
  -- once and in order, whatever errors the subscription reports between them.
  pub run-updates_of :
      (new_for_program : Shadow Account) (updates_open : ℕ → Bool) (s : Subscriber)
      (received : Received Account)
      → ((n : ℕ) → updates_open n ≡ true)
      → start_shadow new_for_program s ≡ ok received
      → run new_for_program updates_open s ≡ ok (updates_of received)
  unfolding run
  run-updates_of new_for_program updates_open s received all_open started =
      rw started (ap ok (forward_updates-all updates_open 0 received all_open))
