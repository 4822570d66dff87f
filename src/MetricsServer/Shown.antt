-- ===== src/MetricsServer/Shown.antt =====
-- What the metrics page shows of the stores.
use pyth_agent.Prelude.{map, Bool, true, false, ◌≡◌, refl, List, some, String}
use pyth_agent.Prelude.Maps.{lookup, nat_key, string_key, AreDistinct, contains, dec_string}
use pyth_agent.Solana.{Identifier, Pubkey, PriceEntry, Env, ParsesBack}
use pyth_agent.Prelude.Int.{ℤ}
use pyth_agent.Metrics.{Family, PriceLocalMetrics, PriceGlobalMetrics, ProductGlobalMetrics}
use pyth_agent.Store.Price.{PriceInfo}
use pyth_agent.Store.Local as Local
use pyth_agent.Store.Local.Sync.{run-new-IsSynced}
use pyth_agent.Store.Global as Global
use pyth_agent.Store.Global.Gauges.{run-new-AreShown}
use pyth_agent.MetricsServer.{
  Metric, gauge, float_gauge, int, float, registry, value_of, named, sample,
}

module _ {F64 : Type 0} where
  sample_int :
      (name label : String) (registered : List (Metric F64)) (f : Family String ℤ) (v : ℤ)
      → lookup name (named registered) ≡ some (gauge f)
      → lookup label f ≡ some v
      → sample name label registered ≡ some (int v)
  unfolding sample value_of
  sample_int name label registered f v e h = rw (e, sample, h, value_of) refl

  sample_float :
      (name label : String) (registered : List (Metric F64)) (f : Family String F64) (v : F64)
      → lookup name (named registered) ≡ some (float_gauge f)
      → lookup label f ≡ some v
      → sample name label registered ≡ some (float v)
  unfolding sample value_of
  sample_float name label registered f v e h = rw (e, sample, h, value_of) refl

  -- Each family stands in the registry under its name.
  record HasFamilies (l : PriceLocalMetrics F64) (g : PriceGlobalMetrics F64)
      (registered : List (Metric F64)) : Type 0 where
    local_price : lookup "local_store_price" (named registered) ≡ some (gauge l.price)
    local_conf : lookup "local_store_conf" (named registered) ≡ some (float_gauge l.conf)
    local_timestamp : lookup "local_store_timestamp" (named registered) ≡ some (gauge l.timestamp)
    price : lookup "global_price_price" (named registered) ≡ some (gauge g.price)
    expo : lookup "global_price_expo" (named registered) ≡ some (gauge g.expo)
    conf : lookup "global_price_conf" (named registered) ≡ some (float_gauge g.conf)
    timestamp : lookup "global_price_timestamp" (named registered) ≡ some (gauge g.timestamp)
    prev_price : lookup "global_price_prev_price" (named registered) ≡ some (gauge g.prev_price)
    prev_conf : lookup "global_price_prev_conf" (named registered) ≡ some (float_gauge g.prev_conf)
    prev_timestamp :
        lookup "global_price_prev_timestamp" (named registered) ≡ some (gauge g.prev_timestamp)

  registry-HasFamilies :
      (b : Bool) (l : PriceLocalMetrics F64) (p : ProductGlobalMetrics) (g : PriceGlobalMetrics F64)
      → HasFamilies l g (registry b l p g)
  unfolding registry lookup dec_string
  registry-HasFamilies true l p g = record {
    local_price = refl;
    local_conf = refl;
    local_timestamp = refl;
    price = refl;
    expo = refl;
    conf = refl;
    timestamp = refl;
    prev_price = refl;
    prev_conf = refl;
    prev_timestamp = refl;
  }
  registry-HasFamilies false l p g = record {
    local_price = refl;
    local_conf = refl;
    local_timestamp = refl;
    price = refl;
    expo = refl;
    conf = refl;
    timestamp = refl;
    prev_price = refl;
    prev_conf = refl;
    prev_timestamp = refl;
  }

  -- No two families have one name.
  registry-AreDistinct :
      (b : Bool) (l : PriceLocalMetrics F64) (p : ProductGlobalMetrics) (g : PriceGlobalMetrics F64)
      → AreDistinct (map (λ m. m.name) (registry b l p g))
  unfolding registry contains dec_string
  registry-AreDistinct true l p g = (
    refl,
    (
      refl,
      (refl, (refl, (refl, (refl, (refl, (refl, (refl, (refl, (refl, (refl, (refl, tt))))))))))),
    ),
  )
  registry-AreDistinct false l p g = (
    refl,
    (
      refl,
      (refl, (refl, (refl, (refl, (refl, (refl, (refl, (refl, (refl, (refl, (refl, tt))))))))))),
    ),
  )

module _ ⦃env : Env⦄ where
  -- The registry of the two stores.
  abbrev pub of_stores :
      (local_first : Bool) → Local.Store env.F64 → Global.Store env.F64 → List (Metric env.F64)
  of_stores local_first local global =
      registry local_first local.metrics global.product_metrics global.price_metrics

  -- The families have names of their own; the prices of the local store, and the price accounts of the global store, are shown.
  pub record ShowsStores (local : Local.Store env.F64) (global : Global.Store env.F64)
      (registered : List (Metric env.F64)) : Type 0 where
    pub names : AreDistinct (map (λ m. m.name) registered)
    pub local_price :
        (k : Identifier) (v : PriceInfo)
        → lookup k local.prices ≡ some v
        → (sample "local_store_price" (env.to_string k) registered ≡ some (int v.price))
          × (sample "local_store_conf" (env.to_string k) registered
              ≡ some (float (env.as_f64 v.conf)))
          × (sample "local_store_timestamp" (env.to_string k) registered ≡ some (int v.timestamp))
    pub global_price :
        (k : Pubkey) (e : PriceEntry)
        → lookup k global.account_data.price_accounts ≡ some e
        → (sample "global_price_price" (env.to_string k) registered ≡ some (int e.agg.price))
          × (sample "global_price_expo" (env.to_string k) registered ≡ some (int e.expo))
          × (sample "global_price_conf" (env.to_string k) registered
              ≡ some (float (env.as_f64 e.agg.conf)))
          × (sample "global_price_timestamp" (env.to_string k) registered ≡ some (int e.timestamp))
          × (sample "global_price_prev_price" (env.to_string k) registered
              ≡ some (int e.prev_price))
          × (sample "global_price_prev_conf" (env.to_string k) registered
              ≡ some (float (env.as_f64 e.prev_conf)))
          × (sample "global_price_prev_timestamp" (env.to_string k) registered
              ≡ some (int e.prev_timestamp))

  -- Whatever the two stores have handled, the families in the registry have different names, and it shows for each price of the local store and for
  -- each price account of the global store what the store has, under the names of the gauges.
  pub run-ShowsStores :
      ParsesBack env
      → (local_first : Bool) (ms : List Local.Message) (es : List Global.Event)
      → let local = Local.run ms (Local.new env.F64) in
        let global = (Global.run es (Global.new env.F64)).1 in
        ShowsStores local global (of_stores local_first local global)
  run-ShowsStores back local_first ms es =
      let local = Local.run ms (Local.new env.F64) in
      let global = (Global.run es (Global.new env.F64)).1 in
      let r = of_stores local_first local global in
      let has =
        registry-HasFamilies local_first local.metrics global.product_metrics
          global.price_metrics in
      record {
        names =
            registry-AreDistinct local_first local.metrics global.product_metrics
              global.price_metrics;
        local_price = λ k v e.
            let h = run-new-IsSynced ms back k v e in
            let label = env.to_string k in
            (
              sample_int "local_store_price" label r local.metrics.price v.price has.local_price
                  h.price,
              sample_float "local_store_conf" label r local.metrics.conf (env.as_f64 v.conf)
                  has.local_conf h.conf,
              sample_int "local_store_timestamp" label r local.metrics.timestamp v.timestamp
                  has.local_timestamp h.timestamp,
            );
        global_price = λ k e f.
            let h = run-new-AreShown es back k e f in
            let label = env.to_string k in
            let g = global.price_metrics in
            (
              sample_int "global_price_price" label r g.price e.agg.price has.price h.price,
              sample_int "global_price_expo" label r g.expo e.expo has.expo h.expo,
              sample_float "global_price_conf" label r g.conf (env.as_f64 e.agg.conf) has.conf
                  h.conf,
              sample_int "global_price_timestamp" label r g.timestamp e.timestamp has.timestamp
                  h.timestamp,
              sample_int "global_price_prev_price" label r g.prev_price e.prev_price has.prev_price
                  h.prev_price,
              sample_float "global_price_prev_conf" label r g.prev_conf (env.as_f64 e.prev_conf)
                  has.prev_conf h.prev_conf,
              sample_int "global_price_prev_timestamp" label r g.prev_timestamp e.prev_timestamp
                  has.prev_timestamp h.prev_timestamp,
            );
      }
