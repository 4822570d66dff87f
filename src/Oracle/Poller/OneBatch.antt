-- ===== src/Oracle/Poller/OneBatch.antt =====
-- One batch of the poller of oracle.rs: its products list the price accounts that it finds.
use pyth_agent.Prelude.{
  ℕ, zero, suc, ◌≡◌, refl, subst, inl, inr, arith, true, false, List, [], ◌∷◌, ◌++◌, Option, none,
  some, ok, ok_or, In, In-append_left, In-append_right, Option-cases, bind-ok, ok_inj, ℕ_discrete,
  map,
}
use pyth_agent.Prelude.Maps.{
  lookup, insert, contains, lookup-insert, In-insert, nat_key, HasUniqueKeys, AreDistinct,
  insert-HasUniqueKeys,
}
use pyth_agent.Solana.{Pubkey, PriceEntry, ProductEntry}
use pyth_agent.Oracle.{rpc_failed, not_loaded}
use pyth_agent.Oracle.Poller.{
  Node, Products, Prices, Found, add_price, fill_prices, fill_products, follow_prices, fetch_batch,
}

-- The product is there, and lists the price account.
abbrev pub Lists : Products → (product price : Pubkey) → Type 0
Lists products product price =
    (p : ProductEntry) × (lookup product products ≡ some p) × In price p.price_accounts

pub contains-append :
    (j : Pubkey) (xs ys : List Pubkey)
    → contains j (xs ++ ys) ≡ (elim (contains j xs) [ true ↦ true | false ↦ contains j ys ])
unfolding contains
contains-append j [] ys = refl
contains-append j (x ∷ xs) ys = ground (arith, contains-append j xs ys)

pub distinct-right : (xs ys : List Pubkey) → AreDistinct (xs ++ ys) → AreDistinct ys
distinct-right [] ys h = h
distinct-right (x ∷ xs) ys h = distinct-right xs ys h.1

pub distinct-apart :
    (j : Pubkey) (xs ys : List Pubkey)
    → AreDistinct (xs ++ ys)
    → contains j xs ≡ true
    → contains j ys ≡ false
unfolding contains
distinct-apart j [] ys h m = cc
distinct-apart j (x ∷ xs) ys h m =
    ground (arith, distinct-apart j xs ys h.1, contains-append x xs ys)

-- What holds of the products and prices found for some product keys.
pub record IsListed (keys : List Pubkey) (products : Products) (prices : Prices) : Type 0 where
  pub unique : HasUniqueKeys products
  pub within : (j : Pubkey) (p : ProductEntry) → lookup j products ≡ some p → contains j keys ≡ true
  pub listed : (x : Pubkey × PriceEntry) → In x prices → Lists products x.1.prod x.0

module _ {Account : Type 0} (node : Node Account) where
  add_price-IsListed :
      (keys : List Pubkey) (key : Pubkey) (price : PriceEntry) (f : Found node)
      → IsListed keys f.products f.prices
      → IsListed keys (add_price node key price f).products (add_price node key price f).prices
  unfolding add_price
  add_price-IsListed keys key price f h = elim (Option-cases (lookup price.prod f.products)) [
    | inl e ↦ rw (add_price, e) h
    | inr (p, e) ↦ rw (add_price, e) (added p e)
  ]
    where
      grown : ProductEntry → ProductEntry
      grown p = record p { price_accounts = p.price_accounts ++ key ∷ [] }

      keeps :
          (p : ProductEntry)
          → lookup price.prod f.products ≡ some p
          → (product j : Pubkey) → Lists f.products product j
          → Lists (insert price.prod (grown p) f.products) product j
      keeps p e product j (q, g, m) = elim (ℕ_discrete price.prod product) [
        | yes same ↦
            let known = subst (λ i. lookup i f.products ≡ some p) same e in
            let equal : q ≡ p = cc in
            (
              grown p,
              ground (arith, lookup-insert product price.prod (grown p) f.products),
              In-append_left j p.price_accounts (key ∷ [])
                  (subst (λ (r : ProductEntry). In j r.price_accounts) equal m),
            )
        | no other ↦ (q, ground (arith, lookup-insert product price.prod (grown p) f.products), m)
      ]

      added :
          (p : ProductEntry)
          → lookup price.prod f.products ≡ some p
          → IsListed keys (insert price.prod (grown p) f.products) (insert key price f.prices)
      added p e = record {
        unique = insert-HasUniqueKeys price.prod (grown p) f.products h.unique;
        within = λ j r g. elim (ℕ_discrete price.prod j) [
          | yes same ↦ subst (λ i. contains i keys ≡ true) same (h.within price.prod p e)
          | no other ↦
              h.within j r (ground (arith, g, lookup-insert j price.prod (grown p) f.products))
        ];
        listed = λ x m. elim (In-insert x key price f.prices m) [
          | inl same ↦
              subst
                (λ (y : Pubkey × PriceEntry).
                  Lists (insert price.prod (grown p) f.products) y.1.prod y.0)
                same
                (
                  grown p,
                  ground (arith, lookup-insert price.prod price.prod (grown p) f.products),
                  In-append_right key p.price_accounts (key ∷ []) (inl refl),
                )
          | inr old ↦ keeps p e x.1.prod x.0 (h.listed x old)
        ];
      }

  fill_prices-IsListed :
      (batch keys : List Pubkey) (accounts : List (Option Account)) (f g : Found node)
      → fill_prices node keys accounts f ≡ ok g
      → IsListed batch f.products f.prices
      → IsListed batch g.products g.prices
  unfolding fill_prices
  fill_prices-IsListed batch [] accounts f g e h =
      subst (λ x. IsListed batch x.products x.prices) (ok_inj f g e) h
  fill_prices-IsListed batch (key ∷ keys) [] f g e h =
      subst (λ x. IsListed batch x.products x.prices) (ok_inj f g e) h
  fill_prices-IsListed batch (key ∷ keys) (none ∷ accounts) f g e h =
      fill_prices-IsListed batch keys accounts f g e h
  fill_prices-IsListed batch (key ∷ keys) (some account ∷ accounts) f g e h =
      let (price, _, rest) = bind-ok (ok_or (node.load_price_account account) not_loaded) _ g e in
      fill_prices-IsListed batch keys accounts (add_price node key price f) g rest
        (add_price-IsListed batch key price f h)

  follow_prices-IsListed :
      (batch : List Pubkey) (fuel : ℕ) (keys : List Pubkey) (products : Products) (prices : Prices)
      (r : Products × Prices)
      → follow_prices node fuel keys products prices ≡ ok r
      → IsListed batch products prices
      → IsListed batch r.0 r.1
  unfolding follow_prices
  follow_prices-IsListed batch fuel [] products prices r e h =
      subst (λ x. IsListed batch x.0 x.1) (ok_inj (products, prices) r e) h
  follow_prices-IsListed batch zero (key ∷ keys) products prices r e h = cc
  follow_prices-IsListed batch (suc fuel) (key ∷ keys) products prices r e h =
      let (accounts, _, filled) =
        bind-ok (ok_or (node.get_multiple_accounts (key ∷ keys)) rpc_failed) _ r e in
      let start : Found node = record { products = products; prices = prices; next_todo = [] } in
      let (f, g, rest) = bind-ok (fill_prices node (key ∷ keys) accounts start) _ r filled in
      follow_prices-IsListed batch fuel f.next_todo f.products f.prices r rest
        (fill_prices-IsListed batch (key ∷ keys) accounts start f g h)

  -- The products of a batch have its keys.
  fill_products-IsListed :
      (batch keys : List Pubkey) (accounts : List (Option Account)) (m r : Products)
      → ((j : Pubkey) → contains j keys ≡ true → contains j batch ≡ true)
      → fill_products node keys accounts m ≡ ok r
      → IsListed batch m []
      → IsListed batch r []
  unfolding fill_products contains
  fill_products-IsListed batch [] accounts m r sub e h =
      subst (λ x. IsListed batch x []) (ok_inj m r e) h
  fill_products-IsListed batch (key ∷ keys) [] m r sub e h =
      subst (λ x. IsListed batch x []) (ok_inj m r e) h
  fill_products-IsListed batch (key ∷ keys) (none ∷ accounts) m r sub e h =
      fill_products-IsListed batch keys accounts m r (λ j c. sub j (ground arith)) e h
  fill_products-IsListed batch (key ∷ keys) (some account ∷ accounts) m r sub e h =
      let (product, _, rest) =
        bind-ok (ok_or (node.load_product_account account) not_loaded) _ r e in
      let new : ProductEntry = record { account_data = product; price_accounts = [] } in
      fill_products-IsListed batch keys accounts (insert key new m) r (λ j c. sub j (ground arith))
        rest
        (record {
          unique = insert-HasUniqueKeys key new m h.unique;
          within = λ j p g. elim (ℕ_discrete key j) [
            | yes same ↦ sub j (ground arith)
            | no other ↦ h.within j p (ground (arith, g, lookup-insert j key new m))
          ];
          listed = λ x n. absurd n;
        })

  pub fetch_batch-IsListed :
      (fuel : ℕ) (batch : List Pubkey) (r : Products × Prices)
      → fetch_batch node fuel batch ≡ ok r
      → IsListed batch r.0 r.1
  unfolding fetch_batch lookup
  fetch_batch-IsListed fuel batch r e =
      let (accounts, _, filled) =
        bind-ok (ok_or (node.get_multiple_accounts batch) rpc_failed) _ r e in
      let (products, f, rest) = bind-ok (fill_products node batch accounts []) _ r filled in
      follow_prices-IsListed batch fuel (map (λ p. p.1.account_data.px_acc) products) products [] r
        rest
        (fill_products-IsListed batch batch accounts [] products (λ j c. c) f
          (record { unique = tt; within = λ j p g. cc; listed = λ x n. absurd n }))
