-- ===== src/Pythd/Adapter/Accounts.antt =====
-- Handlers of adapter.rs that begin with the text of a key.
use pyth_agent.Prelude.{◌≡◌, inl, inr, some, String, Option-cases}
use pyth_agent.Solana.{Pubkey, Env}
use pyth_agent.Pythd.Adapter.{Adapter, Output, failed, invalid_account, with_account}

module _ ⦃env : Env⦄ where
  -- What holds where the text is no key, and of the handler where it is one.
  pub with_account-cases :
      (P : Output × Adapter → Type 0) (account : String) (s : Adapter)
      (handle : Pubkey → Output × Adapter)
      → P (failed invalid_account, s)
      → ((key : Pubkey) → env.parse account ≡ some key → P (handle key))
      → P (with_account account s handle)
  unfolding with_account
  with_account-cases P account s handle none_such found = elim (Option-cases (env.parse account)) [
    | inl e ↦ rw (with_account, e) none_such
    | inr (key, e) ↦ rw (with_account, e) (found key e)
  ]
