-- ===== src/Oracle/Poller/Chain.antt =====
-- When the walk along the mapping accounts ends.
use pyth_agent.Prelude.{
  inl, inr, ℕ, zero, suc, ◌≤◌, ◌≡◌, ◌↔◌, refl, arith, true, false, List, [], ok, Bool-cases,
  Result-cases,
}
use pyth_agent.Prelude.Maps.{insert, nat_key}
use pyth_agent.Solana.{Pubkey, MappingAccount}
use pyth_agent.Oracle.Poller.{Node, is_set, load_mapping, fetch_mapping_accounts}

module _ {Account : Type 0} (node : Node Account) where
  -- From the key, a chain of mapping accounts that load, each the next of the one before, of this
  -- length, with the default key at its end.
  pub data IsChain : Pubkey → ℕ → Type 0 where
    chain_end : (key : Pubkey) → is_set key ≡ false → IsChain key 0
    link :
        (key : Pubkey) (account : MappingAccount) (n : ℕ)
        → is_set key ≡ true
        → load_mapping node key ≡ ok account
        → IsChain account.next n
        → IsChain key (suc n)

  walk-end :
      (fuel : ℕ) (key : Pubkey) (m : List (Pubkey × MappingAccount))
      → is_set key ≡ false
      → fetch_mapping_accounts node fuel key m ≡ ok m
  unfolding fetch_mapping_accounts
  walk-end zero key m e = rw e refl
  walk-end (suc fuel) key m e = rw e refl

  walk-link :
      (fuel : ℕ) (key : Pubkey) (account : MappingAccount) (m : List (Pubkey × MappingAccount))
      → is_set key ≡ true
      → load_mapping node key ≡ ok account
      → fetch_mapping_accounts node (suc fuel) key m
        ≡ fetch_mapping_accounts node fuel account.next (insert key account m)
  unfolding fetch_mapping_accounts
  walk-link fuel key account m e f = rw (e, f) refl

  walk_of_IsChain :
      (n fuel : ℕ) (key : Pubkey) (m : List (Pubkey × MappingAccount))
      → IsChain key n
      → n ≤ fuel
      → (accounts : List (Pubkey × MappingAccount)) × (fetch_mapping_accounts node fuel key m
          ≡ ok accounts)
  walk_of_IsChain n fuel key m (chain_end _ e) h = (m, walk-end fuel key m e)
  walk_of_IsChain n zero key m (link _ account k e f c) h = absurd (omega arith)
  walk_of_IsChain n (suc fuel) key m (link _ account k e f c) h =
      rw (walk-link fuel key account m e f)
        (walk_of_IsChain k fuel account.next (insert key account m) c (omega arith))

  walk-IsChain :
      (fuel : ℕ) (key : Pubkey) (m accounts : List (Pubkey × MappingAccount))
      → fetch_mapping_accounts node fuel key m ≡ ok accounts
      → (n : ℕ) × (n ≤ fuel) × IsChain key n
  unfolding fetch_mapping_accounts
  walk-IsChain zero key m accounts h = elim (Bool-cases (is_set key)) [
    | inl e ↦ absurd (let g = rw (e, fetch_mapping_accounts) at h in cc)
    | inr e ↦ (0, omega arith, chain_end key e)
  ]
  walk-IsChain (suc fuel) key m accounts h = elim (Bool-cases (is_set key)) [
    | inr e ↦ (0, omega arith, chain_end key e)
    | inl e ↦ elim (Result-cases (load_mapping node key)) [
      | inr (x, f) ↦ absurd (let g = rw (e, fetch_mapping_accounts, f) at h in cc)
      | inl (account, f) ↦
          let g = rw (e, fetch_mapping_accounts, f) at h in
          let (n, le, c) = walk-IsChain fuel account.next (insert key account m) accounts g in
          (suc n, omega arith, link key account n e f c)
    ]
  ]

  -- With this fuel the walk from a key returns accounts exactly if there is a chain from it that is no
  -- longer than the fuel.
  pub fetch_mapping_accounts_iff :
      (fuel : ℕ) (key : Pubkey)
      → ((accounts : List (Pubkey × MappingAccount)) × (fetch_mapping_accounts node fuel key []
            ≡ ok accounts))
        ↔ ((n : ℕ) × (n ≤ fuel) × IsChain key n)
  fetch_mapping_accounts_iff fuel key = (
    λ (accounts, h). walk-IsChain fuel key [] accounts h,
    λ (n, le, c). walk_of_IsChain n fuel key [] c le,
  )
