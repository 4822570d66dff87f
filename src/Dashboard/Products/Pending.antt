-- ===== src/Dashboard/Products/Pending.antt =====
-- What holds of the products that `build_dashboard_data` in dashboard.rs has still to add.
use pyth_agent.Prelude.{
  ◌≡◌, sym, ◌∙◌, ap, subst, inl, inr, Option-cases, Bool-cases, true, false, List, ◌∷◌, none, some,
  String, arith,
}
use mathlib.Core.Logic.{if_neg}
use pyth_agent.Prelude.Maps.{lookup, contains, nat_key, string_key, dec_string}
use pyth_agent.Solana.{Pubkey, Env}
use pyth_agent.Store.Global.{ProductAccountMetadata}
use pyth_agent.Dashboard.{State, price_view, symbol_name, add_product}
use pyth_agent.Dashboard.Products.{
  metadata_of, metadata_of-add_product, add_product-none, lookup-add_product,
  price_view-add_product,
}

pub differ :
    (j k : Pubkey) (ks : List Pubkey) → contains k ks ≡ false → contains j ks ≡ true → ¬ (k ≡ j)
differ j k ks h m e = let n = subst (λ x. contains x ks ≡ false) e h in cc

pub contains-later :
    (j k : Pubkey) (ks : List Pubkey) → contains j ks ≡ true → contains j (k ∷ ks) ≡ true
unfolding contains
contains-later j k ks h = ground arith

module _ ⦃env : Env⦄ where
  -- No two products have one name or share a price account.
  pub record AreApart (s : State) : Type 0 where
    pub names :
        (j k : Pubkey) (m n : ProductAccountMetadata)
        → metadata_of j s ≡ some m
        → metadata_of k s ≡ some n
        → symbol_name j m ≡ symbol_name k n
        → j ≡ k
    pub prices :
        (j k : Pubkey) (m n : ProductAccountMetadata) (p : Pubkey)
        → metadata_of j s ≡ some m
        → metadata_of k s ≡ some n
        → contains p m.price_accounts ≡ true
        → contains p n.price_accounts ≡ true
        → j ≡ k

  -- What holds of the products that are left.
  pub record IsPending (origin s : State) (ks : List Pubkey) : Type 0 where
    pub meta : (j : Pubkey) → contains j ks ≡ true → metadata_of j s ≡ metadata_of j origin
    pub view :
        (j : Pubkey) (m : ProductAccountMetadata) (p : Pubkey)
        → contains j ks ≡ true
        → metadata_of j origin ≡ some m
        → contains p m.price_accounts ≡ true
        → price_view p s ≡ price_view p origin
    pub free :
        (j : Pubkey) (m : ProductAccountMetadata)
        → contains j ks ≡ true
        → metadata_of j origin ≡ some m
        → lookup (symbol_name j m) s.view ≡ none

  pub head_meta :
      (origin s : State) (k : Pubkey) (ks : List Pubkey)
      → IsPending origin s (k ∷ ks)
      → metadata_of k s ≡ metadata_of k origin
  unfolding contains
  head_meta origin s k ks h = h.meta k (ground arith)

  pub head_free :
      (origin s : State) (k : Pubkey) (ks : List Pubkey) (m : ProductAccountMetadata)
      → IsPending origin s (k ∷ ks)
      → metadata_of k origin ≡ some m
      → lookup (symbol_name k m) s.view ≡ none
  unfolding contains
  head_free origin s k ks m h e = h.free k m (ground arith) e

  module _ (origin : State) (apart : AreApart origin) where
    -- The table after a step, at a name that is not the product's.
    pub lookup-other :
        (name : String) (s : State) (k : Pubkey) (ks : List Pubkey)
        → IsPending origin s (k ∷ ks)
        → ((n : ProductAccountMetadata)
            → metadata_of k origin ≡ some n
            → ¬ (symbol_name k n ≡ name))
        → lookup name (add_product k s).view ≡ lookup name s.view
    lookup-other name s k ks h other = elim (Option-cases (metadata_of k s)) [
      | inl e ↦ ap (λ v. lookup name v) (add_product-none k s e).0
      | inr (n, e) ↦
          let known = sym (head_meta origin s k ks h) ∙ e in
          lookup-add_product name k n s e (head_free origin s k ks n h known)
          ∙ if_neg (dec_string (symbol_name k n) name) (other n known) _ _
    ]

    -- What is left for a price after a step, where it is not the product's.
    price_view-kept :
        (p : Pubkey) (s : State) (k : Pubkey) (ks : List Pubkey)
        → IsPending origin s (k ∷ ks)
        → ((n : ProductAccountMetadata)
            → metadata_of k origin ≡ some n
            → ¬ (contains p n.price_accounts ≡ true))
        → price_view p (add_product k s) ≡ price_view p s
    price_view-kept p s k ks h other = elim (Option-cases (metadata_of k s)) [
      | inl e ↦ (add_product-none k s e).1 p
      | inr (n, e) ↦
          let known = sym (head_meta origin s k ks h) ∙ e in
          elim (Bool-cases (contains p n.price_accounts)) [
            | inl there ↦ absurd (other n known there)
            | inr away ↦ price_view-add_product p k n s e away
          ]
    ]

    pub add_product-IsPending :
        (s : State) (k : Pubkey) (ks : List Pubkey)
        → contains k ks ≡ false
        → IsPending origin s (k ∷ ks)
        → IsPending origin (add_product k s) ks
    add_product-IsPending s k ks new h = record {
      meta = λ j c.
          metadata_of-add_product j k s (differ j k ks new c) ∙ h.meta j (contains-later j k ks c);
      view = λ j m p c e here.
          price_view-kept p s k ks h
            (λ n f there. differ j k ks new c (apart.prices k j n m p f e there here))
          ∙ h.view j m p (contains-later j k ks c) e here;
      free = λ j m c e.
          lookup-other (symbol_name j m) s k ks h
            (λ n f same. differ j k ks new c (apart.names k j n m f e same))
          ∙ h.free j m (contains-later j k ks c) e;
    }
