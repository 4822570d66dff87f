-- ===== src/KeypairLoader/Uploads.antt =====
-- Which keypairs an upload brings in.
use pyth_agent.Prelude.{
  ℕ, ◌*◌, ◌^◌, ◌<◌, ◌≡◌, ◌⊎◌, inl, inr, refl, subst, arith, List, Option, some, String, ok, err,
  Option-cases, Bool-cases, ltb,
}
use pyth_agent.Solana.{Env}
use pyth_agent.KeypairLoader.{
  upload_ok, bad_request, Balances, lamports_in_sol, below_threshold, check_balance,
  validate_keypair, handle_new_keypair,
}

-- The bytes are those of a keypair whose balance the node knows, and it is above the minimum.
pub record IsFunded ⦃env : Env⦄ (get_balance : Balances) (bytes : List ℕ) (min : ℕ)
    (rpc_url : String) (kp : env.Keypair) : Type 0 where
  pub decoded : env.from_bytes bytes ≡ some kp
  pub balance : ℕ
  pub known : get_balance rpc_url (env.pubkey kp) ≡ some balance
  pub enough : min * lamports_in_sol < balance

module _ ⦃env : Env⦄ (get_balance : Balances) (bytes : List ℕ) (min : ℕ) (rpc_url : String)
    (room : min * lamports_in_sol < 2 ^ 64) where
  -- The two ends of the check.
  check_passed : (balance : ℕ) → min * lamports_in_sol < balance → check_balance min balance ≡ ok tt
  unfolding check_balance
  check_passed balance h = ground arith

  check_refused :
      (balance : ℕ)
      → ¬ (min * lamports_in_sol < balance)
      → check_balance min balance ≡ err below_threshold
  unfolding check_balance
  check_refused balance h = ground arith

  validated :
      (kp : env.Keypair) (balance : ℕ)
      → get_balance rpc_url (env.pubkey kp) ≡ some balance
      → validate_keypair get_balance kp min rpc_url ≡ check_balance min balance
  unfolding validate_keypair
  validated kp balance e = rw (e, validate_keypair) refl

  -- The balance of a funded keypair is the one that the node tells.
  funded_balance :
      (kp j : env.Keypair)
      → env.from_bytes bytes ≡ some kp
      → IsFunded get_balance bytes min rpc_url j
      → (balance : ℕ) × (get_balance rpc_url (env.pubkey kp) ≡ some balance)
        × (min * lamports_in_sol < balance)
  funded_balance kp j d f =
      let g = f.decoded in
      let same : j ≡ kp = cc in
      (
        f.balance,
        subst (λ k. get_balance rpc_url (env.pubkey k) ≡ some f.balance) same f.known,
        f.enough,
      )

  -- Where the minimum fits into a `u64` of lamports: the upload is answered with OK exactly if the
  -- bytes are a keypair with more than the minimum, and the slot then holds that keypair; otherwise
  -- the answer is an error, and the slot stays as it was.
  pub handle_new_keypair_cases :
      (slot : Option env.Keypair)
      → let r = handle_new_keypair get_balance slot bytes min rpc_url in
        ((kp : env.Keypair) × IsFunded get_balance bytes min rpc_url kp
          × (r ≡ (upload_ok, some kp)))
        ⊎ (((kp : env.Keypair) → ¬ IsFunded get_balance bytes min rpc_url kp)
            × (r ≡ (bad_request, slot)))
  unfolding handle_new_keypair
  handle_new_keypair_cases slot = elim (Option-cases (env.from_bytes bytes)) [
    | inl d ↦ inr (λ kp f. let g = f.decoded in absurd cc, rw (d, handle_new_keypair) refl)
    | inr (kp, d) ↦ elim (Option-cases (get_balance rpc_url (env.pubkey kp))) [
      | inl e ↦ inr (
        λ j f. let (_, known, _) = funded_balance kp j d f in absurd cc,
        rw (d, handle_new_keypair, validate_keypair, e) refl,
      )
      | inr (balance, e) ↦ elim (Bool-cases (ltb (min * lamports_in_sol) balance)) [
        | inl t ↦
            let enough : min * lamports_in_sol < balance = ground (arith, t) in
            inl (
              kp,
              record { decoded = d; balance = balance; known = e; enough = enough },
              rw (d, handle_new_keypair, validated kp balance e, check_passed balance enough) refl,
            )
        | inr t ↦
            let short : ¬ (min * lamports_in_sol < balance) = ground (arith, t) in
            inr (
              λ j f.
                  let (b, known, enough) = funded_balance kp j d f in
                  let same : b ≡ balance = cc in
                  short (subst (λ n. min * lamports_in_sol < n) same enough),
              rw (d, handle_new_keypair, validated kp balance e, check_refused balance short) refl,
            )
      ]
    ]
  ]
