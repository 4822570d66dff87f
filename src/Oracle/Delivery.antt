-- ===== src/Oracle/Delivery.antt =====
-- The prices of the oracle arrive in the global store.
use pyth_agent.Prelude.{
  ◌≡◌, refl, sym, subst, ap, arith, inl, inr, true, List, [], ◌∷◌, Option, none, some, In,
  In-append_right, map, Bool-cases,
}
use pyth_agent.Prelude.Int.{◌≤ℤ◌}
use pyth_agent.Prelude.Maps.{lookup, lookup-insert, nat_key}
use pyth_agent.Solana.{Pubkey, PriceEntry, Env}
use pyth_agent.Store.Global.{
  Update, product_account_update, price_account_update, Event, primary, Store, run, handle_next,
  update_data, write_price, is_stale,
}
use pyth_agent.Store.Global.Data.{primary-data, run-IsLater, update_data_stale, update_data_sent}
use pyth_agent.Oracle.{Data, all_updates, send, send_all_data_to_global_store}

-- The events that the updates of the primary network's oracle are, while the adapter listens.
abbrev pub events : List Update → List Event
events [] = []
events (u ∷ us) = primary u true ∷ events us

In-price_updates :
    (k : Pubkey) (e : PriceEntry) (m : List (Pubkey × PriceEntry))
    → In (k, e) m
    → In (price_account_update k e) (map (λ x. price_account_update x.0 x.1) m)
In-price_updates k e [] h = absurd h
In-price_updates k e (x ∷ m) (inl h) =
    inl (ap (λ (p : Pubkey × PriceEntry). price_account_update p.0 p.1) h)
In-price_updates k e (x ∷ m) (inr h) = inr (In-price_updates k e m h)

sent_all : (us : List Update) → (send true us).sent ≡ us
unfolding send
sent_all [] = refl
sent_all (u ∷ us) = refl

module _ ⦃env : Env⦄ where
  -- The store has the account, or a newer one.
  abbrev pub HasPrice : Pubkey → PriceEntry → Store env.F64 → Type 0
  HasPrice k e s =
      (b : PriceEntry) × (lookup k s.account_data.price_accounts ≡ some b)
      × (e.timestamp ≤ℤ b.timestamp)

  update_data-HasPrice :
      (k : Pubkey) (e : PriceEntry) (s : Store env.F64)
      → HasPrice k e (update_data (price_account_update k e) true s).1
  unfolding write_price is_stale
  update_data-HasPrice k e s =
      elim (Bool-cases (is_stale (lookup k s.account_data.price_accounts) e)) [
        | inl stale ↦
            rw (update_data_stale k e true s stale)
              (held stale (lookup k s.account_data.price_accounts) refl)
        | inr fresh ↦
            rw (update_data_sent k e s fresh)
              (e, ground (arith, lookup-insert k k e s.account_data.price_accounts), omega arith)
      ]
    where
      held :
          is_stale (lookup k s.account_data.price_accounts) e ≡ true
          → (old : Option PriceEntry) → lookup k s.account_data.price_accounts ≡ old
          → HasPrice k e s
      held stale none f = let g = rw (f, is_stale) at stale in absurd cc
      held stale (some b) f = let g = rw (f, is_stale) at stale in (b, f, ground (arith, g))

  pub run-HasPrice :
      (us : List Update) (k : Pubkey) (e : PriceEntry) (s : Store env.F64)
      → In (price_account_update k e) us
      → HasPrice k e (run (events us) s).1
  unfolding run
  run-HasPrice [] k e s h = absurd h
  run-HasPrice (u ∷ us) k e s (inl same) =
      let t = (handle_next (primary u true) s).1 in
      let first : HasPrice k e t =
        subst (λ x. HasPrice k e (handle_next (primary x true) s).1) (sym same)
          (rw (primary-data (price_account_update k e) true s) (update_data-HasPrice k e s)) in
      let (b, f, le) = first in
      let (c, g, le') = run-IsLater (events us) t k b f in (c, g, omega arith)
  run-HasPrice (u ∷ us) k e s (inr h) = run-HasPrice us k e (handle_next (primary u true) s).1 h

  -- When the oracle sends all its data, and the global store and the adapter take them: the store,
  -- whatever it held before, then has each price account of the data, or one with a timestamp that is
  -- not older.
  pub send_all-HasPrice :
      (d : Data) (s : Store env.F64) (k : Pubkey) (e : PriceEntry)
      → In (k, e) d.price_accounts
      → HasPrice k e (run (events (send_all_data_to_global_store true d).sent) s).1
  unfolding send_all_data_to_global_store all_updates
  send_all-HasPrice d s k e h = rw (sent_all (all_updates d)) (
      run-HasPrice (all_updates d) k e s (
        In-append_right (price_account_update k e)
          (map (λ x. product_account_update x.0 x.1) d.product_accounts) _
          (In-price_updates k e d.price_accounts h)))
