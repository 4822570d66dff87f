-- ===== src/Dashboard/Sets.antt =====
-- The sets and the maps of one product in dashboard.rs.
use pyth_agent.Prelude.{◌≡◌, refl, true, false, List, [], ◌∷◌, some, arith}
use pyth_agent.Prelude.Maps.{
  AreDistinct, lookup, insert, lookup-insert, lookup-remove, contains, set_insert,
  contains-set_insert, nat_key,
}
use pyth_agent.Solana.{Pubkey}
use pyth_agent.Dashboard.{
  DashboardPriceView, State, collect_keys, price_view, drop_price, take_prices,
}

set_insert-AreDistinct :
    (k : Pubkey) (ks : List Pubkey) → AreDistinct ks → AreDistinct (set_insert k ks)
unfolding set_insert
set_insert-AreDistinct k ks h = ground arith

pub collect_keys-AreDistinct : (ks : List Pubkey) → AreDistinct (collect_keys ks)
unfolding collect_keys
collect_keys-AreDistinct [] = tt
collect_keys-AreDistinct (k ∷ ks) =
    set_insert-AreDistinct k (collect_keys ks) (collect_keys-AreDistinct ks)

pub contains-collect_keys :
    (j : Pubkey) (ks : List Pubkey) → contains j (collect_keys ks) ≡ contains j ks
unfolding collect_keys contains
contains-collect_keys j [] = refl
contains-collect_keys j (k ∷ ks) =
    ground (arith, contains-collect_keys j ks, contains-set_insert j k (collect_keys ks))

-- Dropping a price leaves what the data has for the others.
price_view-drop_price :
    (j k : Pubkey) (s : State) → ¬ (k ≡ j) → price_view j (drop_price k s) ≡ price_view j s
unfolding price_view drop_price
price_view-drop_price j k s other = ground (
  arith,
  lookup-remove j k s.local_data,
  lookup-remove j k s.global_data.price_accounts,
  lookup-remove j k s.global_metadata.price_accounts_metadata,
)

pub lookup-take_prices :
    (j : Pubkey) (prices : List (Pubkey × DashboardPriceView)) (ks : List Pubkey) (s : State)
    → AreDistinct ks
    → lookup j (take_prices prices ks s).0
      ≡ (elim (contains j ks) [ true ↦ some (price_view j s) | false ↦ lookup j prices ])
unfolding take_prices contains
lookup-take_prices j prices [] s h = refl
lookup-take_prices j prices (k ∷ ks) s h = ground (
  arith,
  lookup-take_prices j (insert k (price_view k s) prices) ks (drop_price k s) h.1,
  lookup-insert j k (price_view k s) prices,
  price_view-drop_price j k s,
)

pub price_view-take_prices :
    (j : Pubkey) (prices : List (Pubkey × DashboardPriceView)) (ks : List Pubkey) (s : State)
    → contains j ks ≡ false
    → price_view j (take_prices prices ks s).1 ≡ price_view j s
unfolding take_prices contains
price_view-take_prices j prices [] s h = refl
price_view-take_prices j prices (k ∷ ks) s h = ground (
  arith,
  price_view-take_prices j (insert k (price_view k s) prices) ks (drop_price k s),
  price_view-drop_price j k s,
)
