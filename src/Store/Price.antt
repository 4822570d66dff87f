-- ===== src/Store/Price.antt =====
-- `PriceInfo` of src/agent/store/local.rs, a price that this publisher contributes.
use pyth_agent.Prelude.{ℕ, Bool, ◌&&◌, ◌≡◌, ℕ_discrete, ◌↔◌, arith}
use pyth_agent.Prelude.Int.{ℤ, ℤ-discrete}
use pyth_agent.Solana.{PriceStatus, PriceStatus-discrete}

pub record PriceInfo : Type 0 where
  pub status : PriceStatus
  pub price : ℤ
  pub conf : ℕ
  pub timestamp : ℤ

abbrev is_yes : {A : Type 0} → Dec A → Bool
is_yes (yes a) = Bool.true
is_yes (no n) = Bool.false

unfoldable pub cmp_no_timestamp : PriceInfo → PriceInfo → Bool
cmp_no_timestamp self other =
    is_yes (PriceStatus-discrete self.status other.status)
    && is_yes (ℤ-discrete self.price other.price)
    && is_yes (ℕ_discrete self.conf other.conf)

-- The comparison passes exactly where status, price and confidence agree.
pub cmp_no_timestamp_iff :
    (a b : PriceInfo)
    → (cmp_no_timestamp a b ≡ Bool.true)
      ↔ ((a.status ≡ b.status) × (a.price ≡ b.price) × (a.conf ≡ b.conf))
unfolding cmp_no_timestamp
cmp_no_timestamp_iff a b = ground arith
