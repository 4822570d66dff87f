-- ===== src/Oracle/Poller/Permissions.antt =====
-- The permissions that the poller finds, and what the exporter makes of them.
use pyth_agent.Prelude.{
  ℕ, ◌≡◌, ◌↔◌, ◌⊎◌, inl, inr, refl, sym, subst, ap, ◌∙◌, arith, true, List, [], ◌∷◌, ◌++◌, ok, In,
  Result-cases,
}
use pyth_agent.Prelude.Maps.{
  lookup, contains, set_insert, contains-set_insert, lookup-insert, nat_key,
}
use pyth_agent.Solana.{Pubkey, PriceEntry, PriceComp}
use pyth_agent.Oracle.{Data}
use pyth_agent.Oracle as Oracle
use pyth_agent.Oracle.Poller.{
  Node, Prices, permitted, add_permission, add_components, permissions, poll,
  fetch_mapping_accounts, fetch_product_and_price_accounts,
}
use pyth_agent.Exporter.{update_our_prices}
use pyth_agent.Exporter.Selection.{update_our_prices-last}

-- The map gives the publisher the price.
abbrev pub Permits : Pubkey → Pubkey → Oracle.Permissions → Type 0
Permits publisher key m = contains key (permitted publisher m) ≡ true

-- A component of the publisher.
abbrev pub IsComponent : Pubkey → List PriceComp → Type 0
IsComponent publisher comp = (c : PriceComp) × In c comp × (c.publisher ≡ publisher)

-- A price account of the list has a component of the publisher.
abbrev pub IsPublished : Pubkey → Pubkey → Prices → Type 0
IsPublished publisher key prices =
    (e : PriceEntry) × In (key, e) prices × IsComponent publisher e.comp

add_permission_iff :
    (k : Pubkey) (c : PriceComp) (m : Oracle.Permissions) (publisher key : Pubkey)
    → Permits publisher key (add_permission k c m)
      ↔ (Permits publisher key m ⊎ ((c.publisher ≡ publisher) × (k ≡ key)))
unfolding add_permission
add_permission_iff k c m publisher key =
    let old = permitted c.publisher m in
    (
      λ h. ground (
        arith,
        lookup-insert publisher c.publisher (set_insert k old) m,
        contains-set_insert key k old,
        h,
      ),
      λ h. ground (
        arith,
        lookup-insert publisher c.publisher (set_insert k old) m,
        contains-set_insert key k old,
        h,
      ),
    )

add_components_iff :
    (k : Pubkey) (cs : List PriceComp) (m : Oracle.Permissions) (publisher key : Pubkey)
    → Permits publisher key (add_components k cs m)
      ↔ (Permits publisher key m ⊎ (IsComponent publisher cs × (k ≡ key)))
unfolding add_components
add_components_iff k [] m publisher key =
    (λ h. inl h, λ h. elim h [ inl p ↦ p | inr ((c, m', e), _) ↦ absurd m' ])
add_components_iff k (c ∷ cs) m publisher key =
    let rest = add_components_iff k cs (add_permission k c m) publisher key in
    let first = add_permission_iff k c m publisher key in
    (
      λ h. elim (rest.0 h) [
        | inl p ↦ elim (first.0 p) [ inl q ↦ inl q | inr (e, same) ↦ inr ((c, inl refl, e), same) ]
        | inr ((d, m', e), same) ↦ inr ((d, inr m', e), same)
      ],
      λ h. elim h [
        | inl p ↦ rest.1 (inl (first.1 (inl p)))
        | inr ((d, inl here, e), same) ↦
            rest.1 (inl (first.1 (inr (ap (λ x. x.publisher) here ∙ e, same))))
        | inr ((d, inr m', e), same) ↦ rest.1 (inr ((d, m', e), same))
      ],
    )

permissions_iff :
    (prices : Prices) (m : Oracle.Permissions) (publisher key : Pubkey)
    → Permits publisher key (permissions prices m)
      ↔ (Permits publisher key m ⊎ IsPublished publisher key prices)
unfolding permissions
permissions_iff [] m publisher key =
    (λ h. inl h, λ h. elim h [ inl p ↦ p | inr (e, m', c) ↦ absurd m' ])
permissions_iff ((k, e) ∷ prices) m publisher key =
    let rest = permissions_iff prices (add_components k e.comp m) publisher key in
    let first = add_components_iff k e.comp m publisher key in
    (
      λ h. elim (rest.0 h) [
        | inl p ↦ elim (first.0 p) [
          | inl q ↦ inl q
          | inr (c, same) ↦ inr (e, inl (ap (λ (j : Pubkey). (j, e)) same), c)
        ]
        | inr (d, m', c) ↦ inr (d, inr m', c)
      ],
      λ h. elim h [
        | inl p ↦ rest.1 (inl (first.1 (inl p)))
        | inr (d, inl here, c) ↦ rest.1 (
            inl (
              first.1 (
                inr (
                  subst (λ x. IsComponent publisher x.comp) (sym (ap (λ p. p.1) here)) c,
                  ap (λ p. p.0) here,
                ))))
        | inr (d, inr m', c) ↦ rest.1 (inr (d, m', c))
      ],
    )

module _ {Account : Type 0} (node : Node Account) where
  poll-permissions :
      (fuel size : ℕ) (mapping_key : Pubkey) (d : Data)
      → poll node fuel size mapping_key ≡ ok d
      → d.publisher_permissions ≡ permissions d.price_accounts []
  unfolding poll
  poll-permissions fuel size mapping_key d e =
      elim (Result-cases (fetch_mapping_accounts node fuel mapping_key [])) [
        | inl (ms, f) ↦ elim (Result-cases (fetch_product_and_price_accounts node fuel size ms)) [
          | inl (r, g) ↦
              let h = rw (f, poll, g) at e in
              let polled : Data = record {
                mapping_accounts = ms;
                product_accounts = r.0;
                price_accounts = r.1;
                publisher_permissions = permissions r.1 [];
              } in
              let same : polled ≡ d = cc in
              subst (λ x. x.publisher_permissions ≡ permissions x.price_accounts []) same refl
          | inr (x, g) ↦ let h = rw (f, poll, g) at e in absurd cc
        ]
        | inr (x, f) ↦ let h = rw (f, poll) at e in absurd cc
      ]

  -- The exporter that gets the permissions of a poll as its last message publishes for a price account
  -- exactly if the poll found the account and the publisher is among the account's components.
  pub poll-our_prices_iff :
      (fuel size : ℕ) (mapping_key : Pubkey) (d : Data)
      → poll node fuel size mapping_key ≡ ok d
      → (before : List Oracle.Permissions) (ours : List Pubkey) (publisher key : Pubkey)
      → (contains key (update_our_prices publisher (before ++ d.publisher_permissions ∷ []) ours)
          ≡ true)
        ↔ IsPublished publisher key d.price_accounts
  unfolding permissions lookup contains
  poll-our_prices_iff fuel size mapping_key d e before ours publisher key =
      let found = permissions_iff d.price_accounts [] publisher key in
      let same = poll-permissions fuel size mapping_key d e in
      let last = update_our_prices-last publisher before d.publisher_permissions ours in
      (
        λ h.
            elim (found.0
              (subst (Permits publisher key) same (subst (λ ks. contains key ks ≡ true) last h))) [
                | inl none_yet ↦ absurd cc
                | inr p ↦ p
              ],
        λ p.
            subst (λ ks. contains key ks ≡ true) (sym last)
              (subst (Permits publisher key) (sym same) (found.1 (inr p))),
      )
