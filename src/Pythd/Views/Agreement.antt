-- ===== src/Pythd/Views/Agreement.antt =====
-- The two answers about products agree.
use pyth_agent.Prelude.{
  Bool, ◌≡◌, ◌↔◌, refl, subst, ap, ◌∙◌, arith, inl, inr, List, [], ◌∷◌, some, In, map, Option-cases,
}
use pyth_agent.Prelude.Maps.{
  lookup, nat_key, HasUniqueKeys, insert-HasUniqueKeys, In-lookup, lookup-In,
}
use pyth_agent.Solana.{Pubkey, ProductEntry, Env}
use pyth_agent.Store.Global.{
  AllAccountsData, Store, Event, primary, secondary, reader, Update, product_account_update,
  price_account_update, new, run, handle_next, update_data, write_price,
}
use pyth_agent.Store.Global.Data.{primary-data, update_metadata-data}
use pyth_agent.Pythd.Api.{ProductAccount}
use pyth_agent.Pythd.Views.{product_account_to_api, get_product, get_all_products}

In-map_to : {A B : Type 0} (f : A → B) (a : A) (xs : List A) → In a xs → In (f a) (map f xs)
In-map_to f a [] m = absurd m
In-map_to f a (x ∷ xs) (inl e) = inl (ap f e)
In-map_to f a (x ∷ xs) (inr m) = inr (In-map_to f a xs m)

In-map_from :
    {A B : Type 0} (f : A → B) (b : B) (xs : List A)
    → In b (map f xs)
    → (a : A) × In a xs × (f a ≡ b)
In-map_from f b [] m = absurd m
In-map_from f b (x ∷ xs) (inl e) = (x, inl refl, e)
In-map_from f b (x ∷ xs) (inr m) = let (a, h, e) = In-map_from f b xs m in (a, inr h, e)

module _ ⦃env : Env⦄ where
  get_product-some :
      (d : AllAccountsData) (key : Pubkey) (p : ProductAccount)
      → get_product d key ≡ some p
      → (e : ProductEntry) × (lookup key d.product_accounts ≡ some e)
        × (product_account_to_api d (key, e) ≡ p)
  unfolding get_product
  get_product-some d key p h = elim (Option-cases (lookup key d.product_accounts)) [
    | inl e ↦ absurd (let g = rw (e, get_product) at h in cc)
    | inr (x, e) ↦ (x, e, let g = rw (e, get_product) at h in cc)
  ]

  get_product-found :
      (d : AllAccountsData) (key : Pubkey) (e : ProductEntry)
      → lookup key d.product_accounts ≡ some e
      → get_product d key ≡ some (product_account_to_api d (key, e))
  unfolding get_product
  get_product-found d key e h = rw (h, get_product) refl

  agreement :
      (d : AllAccountsData) (p : ProductAccount)
      → HasUniqueKeys d.product_accounts
      → In p (get_all_products d) ↔ ((key : Pubkey) × (get_product d key ≡ some p))
  unfolding get_all_products
  agreement d p unique = (
    λ m.
        let ((key, e), h, same) = In-map_from (product_account_to_api d) p d.product_accounts m in
        (
          key,
          get_product-found d key e (lookup-In key e d.product_accounts unique h) ∙ ap some same,
        ),
    λ (key, f).
        let (e, h, same) = get_product-some d key p f in
        subst (λ q. In q (get_all_products d)) same
          (In-map_to (product_account_to_api d) (key, e) d.product_accounts
            (In-lookup key e d.product_accounts h)),
  )

  update_data-HasUniqueKeys :
      (u : Update) (o : Bool) (s : Store env.F64)
      → HasUniqueKeys s.account_data.product_accounts
      → HasUniqueKeys (update_data u o s).1.account_data.product_accounts
  unfolding update_data write_price
  update_data-HasUniqueKeys (product_account_update key account) o s h =
      insert-HasUniqueKeys key account s.account_data.product_accounts h
  update_data-HasUniqueKeys (price_account_update key account) o s h = ground arith

  handle_next-HasUniqueKeys :
      (e : Event) (s : Store env.F64)
      → HasUniqueKeys s.account_data.product_accounts
      → HasUniqueKeys (handle_next e s).1.account_data.product_accounts
  unfolding handle_next
  handle_next-HasUniqueKeys (primary u o) s h =
      rw (primary-data u o s) (update_data-HasUniqueKeys u o s h)
  handle_next-HasUniqueKeys (secondary u) s h = rw (update_metadata-data u s) h
  handle_next-HasUniqueKeys (reader l o) s h = h

  run-HasUniqueKeys :
      (es : List Event) (s : Store env.F64)
      → HasUniqueKeys s.account_data.product_accounts
      → HasUniqueKeys (run es s).1.account_data.product_accounts
  unfolding run
  run-HasUniqueKeys [] s h = h
  run-HasUniqueKeys (e ∷ es) s h =
      run-HasUniqueKeys es (handle_next e s).1 (handle_next-HasUniqueKeys e s h)

  -- For the accounts that the global store holds after any history: the list of all products has a
  -- product exactly if asking for some key returns it.
  pub get_all_products_iff :
      (es : List Event) (p : ProductAccount)
      → let accounts = (run es (new env.F64)).1.account_data in
        In p (get_all_products accounts) ↔ ((key : Pubkey) × (get_product accounts key ≡ some p))
  unfolding new
  get_all_products_iff es p =
      agreement (run es (new env.F64)).1.account_data p (run-HasUniqueKeys es (new env.F64) tt)
