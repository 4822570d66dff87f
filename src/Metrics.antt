-- ===== src/Metrics.antt =====
-- src/agent/metrics.rs: the metrics that the stores keep for Prometheus. A `Family` maps labels to a
-- metric, which `get_or_create` makes where it is missing; a label is the text of its key.
use Prim.Native.String.{◌++◌ as str_append}
use pyth_agent.Prelude.{ℕ, ◌+◌, Option, none, some, List, [], String}
use pyth_agent.Prelude.Int.{ℤ}
use pyth_agent.Prelude.Maps.{Key, lookup, insert, string_key, dec_string}
use pyth_agent.Store.Price.{PriceInfo}
use pyth_agent.Solana.{Pubkey, Env, PriceEntry}

abbrev pub Family : (K V : Type 0) → Type 0
Family K V = List (K × V)

-- `Option::unwrap_or`.
abbrev get_or : {A : Type 0} → A → Option A → A
get_or d none = d
get_or d (some a) = a

-- `get_or_create(label).inc()` on a family of counters.
unfoldable pub inc : {K : Type 0} ⦃key : Key K⦄ → K → Family K ℕ → Family K ℕ
inc label f = insert label (elim (lookup label f) [ none ↦ 1 | some n ↦ n + 1 ]) f

-- `get_or_create(label).set(v)` on a family of gauges.
abbrev pub set : {K V : Type 0} ⦃key : Key K⦄ → K → V → Family K V → Family K V
set label v f = insert label v f

pub record PriceLocalMetrics (F64 : Type 0) : Type 0 where
  pub price : Family String ℤ
  pub conf : Family String F64
  pub timestamp : Family String ℤ
  pub update_count : Family String ℕ

unfoldable pub new_local : (F64 : Type 0) → PriceLocalMetrics F64
new_local F64 = record { price = []; conf = []; timestamp = []; update_count = [] }

pub record PriceGlobalMetrics (F64 : Type 0) : Type 0 where
  pub price : Family String ℤ
  pub expo : Family String ℤ
  pub conf : Family String F64
  pub timestamp : Family String ℤ
  pub prev_price : Family String ℤ
  pub prev_conf : Family String F64
  pub prev_timestamp : Family String ℤ
  pub update_count : Family String ℕ

unfoldable pub new_price_global : (F64 : Type 0) → PriceGlobalMetrics F64
new_price_global F64 = record {
  price = [];
  expo = [];
  conf = [];
  timestamp = [];
  prev_price = [];
  prev_conf = [];
  prev_timestamp = [];
  update_count = [];
}

-- The labels of a product: its key's text and its symbol.
pub record ProductGlobalLabels : Type 0 where
  pub pubkey : String
  pub symbol : String

abbrev dec_labels : Discrete ProductGlobalLabels
dec_labels = hlevel dec_string

instance abbrev pub labels_key : Key ProductGlobalLabels
labels_key = record { dec = dec_labels }

-- `ProductGlobalMetrics`, which has one family.
abbrev pub ProductGlobalMetrics : Type 0
ProductGlobalMetrics = Family ProductGlobalLabels ℕ

module _ ⦃env : Env⦄ where
  -- `PriceLocalMetrics::update`.
  unfoldable pub update_local :
      Pubkey → PriceInfo → PriceLocalMetrics env.F64 → PriceLocalMetrics env.F64
  unfolding inc
  update_local price_id price_info m =
      let label = env.to_string price_id in
      record {
        price = set label price_info.price m.price;
        conf = set label (env.as_f64 price_info.conf) m.conf;
        timestamp = set label price_info.timestamp m.timestamp;
        update_count = inc label m.update_count;
      }

  -- `PriceGlobalMetrics::update`.
  unfoldable pub update_price_global :
      Pubkey → PriceEntry → PriceGlobalMetrics env.F64 → PriceGlobalMetrics env.F64
  unfolding inc
  update_price_global price_key account m =
      let label = env.to_string price_key in
      record {
        price = set label account.agg.price m.price;
        expo = set label account.expo m.expo;
        conf = set label (env.as_f64 account.agg.conf) m.conf;
        timestamp = set label account.timestamp m.timestamp;
        prev_price = set label account.prev_price m.prev_price;
        prev_conf = set label (env.as_f64 account.prev_conf) m.prev_conf;
        prev_timestamp = set label account.prev_timestamp m.prev_timestamp;
        update_count = inc label m.update_count;
      }

  -- `ProductGlobalMetrics::update`.
  unfoldable pub update_product_global :
      Pubkey → Option String → ProductGlobalMetrics → ProductGlobalMetrics
  unfolding inc
  update_product_global product_key maybe_symbol m =
      let name = env.to_string product_key in
      inc (record { pubkey = name; symbol = get_or (str_append "unknown_" name) maybe_symbol }) m
