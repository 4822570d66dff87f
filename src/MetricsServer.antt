-- ===== src/MetricsServer.antt =====
-- The pages of the server of src/agent/metrics.rs, and the registry that the stores fill when they are
-- made. The routes and the HTTP server are left out. The registry shares the families with the
-- stores, so it shows what they hold when it is asked.
pub mod Shown
mod Examples
use pyth_agent.Prelude.{
  ℕ, Bool, true, false, List, [], ◌∷◌, ◌++◌, Option, none, some, String, if◌then◌else◌, map,
}
use pyth_agent.Prelude.Int.{ℤ}
use pyth_agent.Prelude.Maps.{lookup, string_key, dec_string}
use pyth_agent.Metrics.{
  Family, PriceLocalMetrics, PriceGlobalMetrics, ProductGlobalLabels, ProductGlobalMetrics,
  labels_key,
}
use pyth_agent.Dashboard.Rows as Rows
use pyth_agent.Dashboard.Rows.{dashboard_response}
use pyth_agent.Prelude.{Result}

-- A family, by the kind of its metrics and its labels.
pub data Contents (F64 : Type 0) : Type 0 where
  gauge : Family String ℤ → Contents F64
  float_gauge : Family String F64 → Contents F64
  counter : Family String ℕ → Contents F64
  product_counter : Family ProductGlobalLabels ℕ → Contents F64

-- What `Registry::register` is given.
pub record Metric (F64 : Type 0) : Type 0 where
  pub name : String
  pub help : String
  pub contents : Contents F64

abbrev metric : {F64 : Type 0} → String → String → Contents F64 → Metric F64
metric name help contents = record { name = name; help = help; contents = contents }

-- `PriceLocalMetrics::new`.
unfoldable pub register_local : {F64 : Type 0} → PriceLocalMetrics F64 → List (Metric F64)
register_local m =
    metric "local_store_price" "Price value from the local store" (gauge m.price)
    ∷ metric "local_store_conf" "Confidence interval value from the local store"
        (float_gauge m.conf)
    ∷ metric "local_store_timestamp" "Publish timestamp value from the local store"
        (gauge m.timestamp)
    ∷ metric "local_store_update_count"
        "How many times we've seen an update for this price in the local store"
        (counter m.update_count)
    ∷ []

-- `ProductGlobalMetrics::new`.
unfoldable pub register_products : {F64 : Type 0} → ProductGlobalMetrics → List (Metric F64)
register_products update_count =
    metric "global_prod_update_count" "The global store's update count for a product account"
      (product_counter update_count)
    ∷ []

-- `PriceGlobalMetrics::new`.
unfoldable pub register_prices : {F64 : Type 0} → PriceGlobalMetrics F64 → List (Metric F64)
register_prices m =
    metric "global_price_price" "The global store's price value for a price account" (gauge m.price)
    ∷ metric "global_price_expo" "The global store's exponent value for a price account"
        (gauge m.expo)
    ∷ metric "global_price_conf" "The global store's confidence interval value for a price account"
        (float_gauge m.conf)
    ∷ metric "global_price_timestamp"
        "The global store's publish timestamp value for a price account" (gauge m.timestamp)
    ∷ metric "global_price_prev_price" "The global store's prev_price value for a price account"
        (gauge m.prev_price)
    ∷ metric "global_price_prev_conf"
        "The global store's prev_conf (previous confidence interval) value for a price account"
        (float_gauge m.prev_conf)
    ∷ metric "global_price_prev_timestamp"
        "The global store's prev_timestamp (last publish timestamp with status 'trading') value for a price account"
        (gauge m.prev_timestamp)
    ∷ metric "global_price_update_count" "The global store's update count for a price account"
        (counter m.update_count)
    ∷ []

-- The registry, which the two stores fill in one order or the other.
unfoldable pub registry :
    {F64 : Type 0}
    → (local_first : Bool) → PriceLocalMetrics F64
    → ProductGlobalMetrics
    → PriceGlobalMetrics F64
    → List (Metric F64)
unfolding register_local register_products register_prices
registry local_first local products prices =
    let global = register_products products ++ register_prices prices in
    if local_first then register_local local ++ global else global ++ register_local local

-- The HTTP status of a page.
pub data Status : Type 0 where
  ok_status internal_server_error : Status

-- `/metrics`: the registry as the library's `encode` writes it, if it can.
unfoldable pub metrics_page :
    {F64 : Type 0}
    → (encode : List (Metric F64) → Option String) → List (Metric F64)
    → Status × String
metrics_page encode registered = elim (encode registered) [
  | some buf ↦ (ok_status, buf)
  | none ↦ (internal_server_error, "Could not gather metrics. See logs for details")
]

-- `/dashboard`: a failure is reported in the page, with the status of a success.
unfoldable pub dashboard_page : Result Rows.Error String → Status × String
unfolding dashboard_response
dashboard_page rendered = (ok_status, dashboard_response rendered)

-- What a registry shows under a name and a label.
pub data Sample (F64 : Type 0) : Type 0 where
  int : ℤ → Sample F64
  float : F64 → Sample F64
  count : ℕ → Sample F64

unfoldable pub value_of : {F64 : Type 0} → String → Contents F64 → Option (Sample F64)
unfolding lookup dec_string
value_of label (gauge f) = elim (lookup label f) [ none ↦ none | some v ↦ some (int v) ]
value_of label (float_gauge f) = elim (lookup label f) [ none ↦ none | some v ↦ some (float v) ]
value_of label (counter f) = elim (lookup label f) [ none ↦ none | some v ↦ some (count v) ]
value_of label (product_counter f) = none

abbrev pub named : {F64 : Type 0} → List (Metric F64) → List (String × Contents F64)
named registered = map (λ m. (m.name, m.contents)) registered

unfoldable pub sample :
    {F64 : Type 0} → (name label : String) → List (Metric F64) → Option (Sample F64)
sample name label registered = elim (lookup name (named registered)) [
  | none ↦ none
  | some contents ↦ value_of label contents
]
