-- ===== src/Agent/Reading/Origin.antt =====
-- The price accounts that the oracle of the primary network reads, and what the oracle and the global
-- store pass on of them.
use pyth_agent.Prelude.{
  ◌≡◌, refl, subst, ◌⊎◌, inl, inr, Bool, true, false, List, [], ◌∷◌, map, Option, none, some, In,
  All, All-append, Bool-cases, Option-cases,
}
use pyth_agent.Prelude.Maps.{lookup, insert, nat_key, In-insert}
use pyth_agent.Solana.{Pubkey, PriceEntry, ProductEntry, Env}
use pyth_agent.Store.Global.{
  Update, product_account_update, price_account_update, GlobalStoreUpdate, Store, notice, is_stale,
  update_data, write_price,
}
use pyth_agent.Store.Global.Data.{update_data_stale, update_data_sent, update_data_unsent}
use pyth_agent.Oracle.{
  Data, Event, account_update, data_update, send, all_updates, send_all_data_to_global_store,
  handle_price_account_update, handle_account_update, handle_next,
}

module _ {Account : Type 0} (load_price_account : Account → Option PriceEntry) where
  -- A poll found the price account under the key, or it is what an account under the key holds that the
  -- subscriber passed on.
  abbrev pub WasRead : List (Event Account) → Pubkey → PriceEntry → Type 0
  WasRead events k e =
      ((d : Data) × In (data_update d) events × In (k, e) d.price_accounts)
      ⊎ ((account : Account) × In (account_update k account) events
          × (load_price_account account ≡ some e))

  pub WasRead-later :
      (ev : Event Account) (events : List (Event Account)) (k : Pubkey) (e : PriceEntry)
      → WasRead events k e
      → WasRead (ev ∷ events) k e
  WasRead-later ev events k e (inl (d, m, n)) = inl (d, inr m, n)
  WasRead-later ev events k e (inr (account, m, l)) = inr (account, inr m, l)

  abbrev pub AreRead : List (Event Account) → List (Pubkey × PriceEntry) → Type 0
  AreRead events m = (x : Pubkey × PriceEntry) → In x m → WasRead events x.0 x.1

  abbrev pub IsReadUpdate : List (Event Account) → Update → Type 0
  IsReadUpdate events (price_account_update k e) = WasRead events k e
  IsReadUpdate events (product_account_update k e) = Unit

  pub IsReadUpdate-later :
      (ev : Event Account) (events : List (Event Account)) (u : Update)
      → IsReadUpdate events u
      → IsReadUpdate (ev ∷ events) u
  IsReadUpdate-later ev events (price_account_update k e) h = WasRead-later ev events k e h
  IsReadUpdate-later ev events (product_account_update k e) h = tt

  -- The message tells of such an account.
  abbrev pub IsReadNotice : List (Event Account) → GlobalStoreUpdate → Type 0
  IsReadNotice events g = (k : Pubkey) × (e : PriceEntry) × WasRead events k e × (notice k e ≡ g)

  insert-AreRead :
      (events : List (Event Account)) (k : Pubkey) (e : PriceEntry) (m : List (Pubkey × PriceEntry))
      → WasRead events k e
      → AreRead events m
      → AreRead events (insert k e m)
  insert-AreRead events k e m r h x n = elim (In-insert x k e m n) [
    | inl same ↦ subst (λ y. WasRead events y.0 y.1) same r
    | inr old ↦ h x old
  ]

  products-AreRead :
      (events : List (Event Account)) (m : List (Pubkey × ProductEntry))
      → All (IsReadUpdate events) (map (λ x. product_account_update x.0 x.1) m)
  products-AreRead events [] = tt
  products-AreRead events (x ∷ m) = (tt, products-AreRead events m)

  prices-AreRead :
      (events : List (Event Account)) (m : List (Pubkey × PriceEntry))
      → AreRead events m
      → All (IsReadUpdate events) (map (λ x. price_account_update x.0 x.1) m)
  prices-AreRead events [] h = tt
  prices-AreRead events (x ∷ m) h = (h x (inl refl), prices-AreRead events m (λ y n. h y (inr n)))

  send-AreRead :
      (events : List (Event Account)) (open_tx : Bool) (us : List Update)
      → All (IsReadUpdate events) us
      → All (IsReadUpdate events) (send open_tx us).sent
  unfolding send
  send-AreRead events open_tx [] h = tt
  send-AreRead events true (u ∷ us) h = h
  send-AreRead events false (u ∷ us) h = tt

  loaded-AreRead :
      (open_tx : Bool) (events : List (Event Account)) (k : Pubkey) (loaded : Option PriceEntry)
      (d : Data)
      → ((e : PriceEntry) → loaded ≡ some e → WasRead events k e)
      → AreRead events d.price_accounts
      → let r = handle_price_account_update load_price_account open_tx k loaded d in
        AreRead events r.1.price_accounts × All (IsReadUpdate events) r.0.sent
  unfolding handle_price_account_update
  loaded-AreRead open_tx events k none d r h = (h, tt)
  loaded-AreRead open_tx events k (some e) d r h = (
    insert-AreRead events k e d.price_accounts (r e refl) h,
    send-AreRead events open_tx (price_account_update k e ∷ []) (r e refl, tt),
  )

  -- What the oracle holds and sends was read.
  pub handle_next-AreRead :
      (open_tx : Bool) (ev : Event Account) (events : List (Event Account)) (d : Data)
      → AreRead events d.price_accounts
      → let r = handle_next load_price_account open_tx ev d in
        AreRead (ev ∷ events) r.1.price_accounts × All (IsReadUpdate (ev ∷ events)) r.0.sent
  unfolding handle_next handle_account_update send_all_data_to_global_store all_updates
  handle_next-AreRead open_tx (data_update fresh) events d h =
      let polled : AreRead (data_update fresh ∷ events) fresh.price_accounts =
        λ x n. inl (fresh, inl refl, n) in
      (
        polled,
        send-AreRead (data_update fresh ∷ events) open_tx (all_updates fresh) (
            All-append (IsReadUpdate (data_update fresh ∷ events))
              (map (λ x. product_account_update x.0 x.1) fresh.product_accounts) _
              (products-AreRead (data_update fresh ∷ events) fresh.product_accounts)
              (prices-AreRead (data_update fresh ∷ events) fresh.price_accounts polled)),
      )
  handle_next-AreRead open_tx (account_update k account) events d h =
      let later : AreRead (account_update k account ∷ events) d.price_accounts =
        λ x n. WasRead-later (account_update k account) events x.0 x.1 (h x n) in
      elim (Option-cases (lookup k d.price_accounts)) [
        | inl e ↦ rw (handle_account_update, e) (later, tt)
        | inr (known, e) ↦
            rw (handle_account_update, e)
              (loaded-AreRead open_tx (account_update k account ∷ events) k
                (load_price_account account) d (λ x l. inr (account, inl refl, l)) later)
      ]

  module _ ⦃env : Env⦄ where
    -- So does the global store.
    pub update_data-AreRead :
        (u : Update) (adapter_open : Bool) (events : List (Event Account)) (s : Store env.F64)
        → IsReadUpdate events u
        → AreRead events s.account_data.price_accounts
        → let r = update_data u adapter_open s in
          AreRead events r.1.account_data.price_accounts × All (IsReadNotice events) r.0.sent
    unfolding update_data write_price
    update_data-AreRead (product_account_update k e) adapter_open events s r h = (h, tt)
    update_data-AreRead (price_account_update k e) adapter_open events s r h =
        elim (Bool-cases (is_stale (lookup k s.account_data.price_accounts) e)) [
          | inl stale ↦ rw (update_data_stale k e adapter_open s stale) (h, tt)
          | inr fresh ↦ fresh_price adapter_open fresh
        ]
      where
        written : AreRead events (insert k e s.account_data.price_accounts)
        written = insert-AreRead events k e s.account_data.price_accounts r h

        fresh_price :
            (open_tx : Bool)
            → is_stale (lookup k s.account_data.price_accounts) e ≡ false
            → let r = update_data (price_account_update k e) open_tx s in
              AreRead events r.1.account_data.price_accounts × All (IsReadNotice events) r.0.sent
        fresh_price true fresh = rw (update_data_sent k e s fresh) (written, ((k, e, r, refl), tt))
        fresh_price false fresh = rw (update_data_unsent k e s fresh) (written, tt)
