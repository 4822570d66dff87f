-- ===== src/Oracle/Subscriber/Arrival.antt =====
-- What the subscriber passes on arrives in the global store.
use pyth_agent.Prelude.{
  ℕ, Bool, true, ◌≡◌, refl, sym, subst, arith, inl, inr, List, [], ◌∷◌, ◌++◌, Option, some, ok, In,
  In-append_left, In-append_right, Option-cases, ℕ_discrete,
}
use pyth_agent.Prelude.Maps.{lookup, lookup-insert, nat_key}
use pyth_agent.Solana.{Pubkey, PriceEntry, Env}
use pyth_agent.Store.Global.{Update, price_account_update, Store, run}
use pyth_agent.Oracle.{
  Data, Event, account_update, Output, handle_account_update, handle_price_account_update,
  handle_next,
}
use pyth_agent.Oracle.Delivery.{HasPrice, events, run-HasPrice}
use pyth_agent.Oracle.Tasks.{run_oracle}
use pyth_agent.Oracle.Subscriber.{
  Subscriber, Received, Shadow, start_shadow, updates_of, In-updates_of, run-updates_of,
}
use pyth_agent.Oracle.Subscriber as Subscriber

-- What a run of the oracle sends.
abbrev pub all_sent : List Output → List Update
all_sent [] = []
all_sent (out ∷ outs) = out.sent ++ all_sent outs

-- The updates as the oracle takes them, while the global store listens.
abbrev pub taken : {Account : Type 0} → List (Pubkey × Account) → List (Bool × Event Account)
taken [] = []
taken (u ∷ us) = (true, account_update u.0 u.1) ∷ taken us

-- The oracle has the price account.
abbrev pub Knows : Data → Pubkey → Type 0
Knows d k = (known : PriceEntry) × (lookup k d.price_accounts ≡ some known)

module _ {Account : Type 0} (load : Account → Option PriceEntry) where
  Knows-handle_next :
      (j k : Pubkey) (a : Account) (d : Data)
      → Knows d k
      → Knows (handle_next load true (account_update j a) d).1 k
  unfolding handle_next
  Knows-handle_next j k a d (known, e) = elim (Option-cases (lookup j d.price_accounts)) [
    | inl f ↦ rw (f, handle_account_update) (known, e)
    | inr (old, f) ↦ elim (Option-cases (load a)) [
      | inl g ↦ rw (f, handle_account_update, g, handle_price_account_update) (known, e)
      | inr (new, g) ↦
          rw (f, handle_account_update, g, handle_price_account_update)
            (elim (ℕ_discrete j k) [
              | yes same ↦ (new, ground (arith, lookup-insert k j new d.price_accounts))
              | no other ↦ (known, ground (arith, lookup-insert k j new d.price_accounts))
            ])
    ]
  ]

  sent-handle_next :
      (k : Pubkey) (a : Account) (e : PriceEntry) (d : Data)
      → load a ≡ some e
      → Knows d k
      → (handle_next load true (account_update k a) d).0.sent ≡ price_account_update k e ∷ []
  unfolding handle_next
  sent-handle_next k a e d f (known, g) =
      rw (g, handle_account_update, f, handle_price_account_update) refl

  In-sent :
      (us : List (Pubkey × Account)) (k : Pubkey) (a : Account) (e : PriceEntry) (d : Data)
      → load a ≡ some e
      → Knows d k
      → In (k, a) us
      → In (price_account_update k e) (all_sent (run_oracle load (taken us) d).0)
  unfolding run_oracle
  In-sent [] k a e d f g m = absurd m
  In-sent (u ∷ us) k a e d f g (inl same) =
      let first : (handle_next load true (account_update u.0 u.1) d).0.sent
          ≡ price_account_update k e ∷ [] =
        subst
          (λ (x : Pubkey × Account).
            (handle_next load true (account_update x.0 x.1) d).0.sent
            ≡ price_account_update k e ∷ [])
          (sym same) (sent-handle_next k a e d f g) in
      In-append_left (price_account_update k e)
        (handle_next load true (account_update u.0 u.1) d).0.sent _
        (subst (λ us. In (price_account_update k e) us) (sym first) (inl refl))
  In-sent (u ∷ us) k a e d f g (inr m) =
      In-append_right (price_account_update k e)
        (handle_next load true (account_update u.0 u.1) d).0.sent _
        (In-sent us k a e (handle_next load true (account_update u.0 u.1) d).1 f
          (Knows-handle_next u.0 k u.1 d g) m)

module _ ⦃env : Env⦄ {Account : Type 0} (load : Account → Option PriceEntry)
    (new_for_program : Shadow Account) (updates_open : ℕ → Bool) (s : Subscriber) where
  -- While all channels are open: the subscriber passes on what a subscription gives, and of each
  -- update of a price account that the oracle knows and can read, the global store, whatever it held,
  -- then has the account, or one with a timestamp that is not older.
  pub subscription-Arrives :
      (received : Received Account) (d : Data) (store : Store env.F64) (k : Pubkey) (a : Account)
      (e : PriceEntry)
      → ((n : ℕ) → updates_open n ≡ true)
      → start_shadow new_for_program s ≡ ok received
      → In (some (k, a)) received
      → load a ≡ some e
      → Knows d k
      → (us : List (Pubkey × Account)) × (Subscriber.run new_for_program updates_open s ≡ ok us)
        × HasPrice k e (run (events (all_sent (run_oracle load (taken us) d).0)) store).1
  subscription-Arrives received d store k a e all_open started m f g = (
    updates_of received,
    run-updates_of new_for_program updates_open s received all_open started,
    run-HasPrice (all_sent (run_oracle load (taken (updates_of received)) d).0) k e store
        (In-sent load (updates_of received) k a e d f g (In-updates_of (k, a) received m)),
  )
