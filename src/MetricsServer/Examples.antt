-- ===== src/MetricsServer/Examples.antt =====
-- The pages after a few messages to the stores.
use pyth_agent.Prelude.{ℕ, true, ◌≡◌, refl, List, [], ◌∷◌, some, none, err, ℕ_discrete}
use pyth_agent.Prelude.Int.{pos}
use pyth_agent.Prelude.Maps.{lookup, insert, nat_key, dec_string}
use pyth_agent.Solana.{PriceStatus}
use pyth_agent.Samples.{sample_env, sample-ParsesBack, account_at, unary}
use pyth_agent.Metrics.{update_local}
use pyth_agent.Store.Price.{PriceInfo}
use pyth_agent.Store.Local as Local
use pyth_agent.Store.Global as Global
use pyth_agent.Dashboard.Rows as Rows
use pyth_agent.MetricsServer.{
  int, registry, sample, value_of, metrics_page, dashboard_page, ok_status, internal_server_error,
}
use pyth_agent.MetricsServer.Shown.{ShowsStores, of_stores, run-ShowsStores}

abbrev quote : PriceInfo
quote = record { status = PriceStatus.trading; price = pos 100; conf = 1; timestamp = pos 10 }

abbrev messages : List Local.Message
messages = Local.Message.update_price 7 quote ∷ []

abbrev events : List Global.Event
events = Global.Event.primary (Global.Update.price_account_update 4 (account_at 10)) true ∷ []

abbrev local : Local.Store ℕ
local = Local.run messages (Local.new ℕ)

abbrev global : Global.Store ℕ
global = (Global.run events (Global.new ℕ)).1

run-ShowsStores_example : ShowsStores local global (of_stores true local global)
run-ShowsStores_example = run-ShowsStores sample-ParsesBack true messages events

price_of_seven :
    sample "local_store_price" (unary 7) (of_stores true local global) ≡ some (int (pos 100))
unfolding sample value_of registry Local.run Local.handle Local.update Local.is_stale Local.new
    lookup insert dec_string unary ℕ_discrete update_local
price_of_seven = refl

not_encoded :
    metrics_page (λ r. none) (of_stores true local global)
    ≡ (internal_server_error, "Could not gather metrics. See logs for details")
unfolding metrics_page
not_encoded = refl

not_rendered :
    dashboard_page (err Rows.Error.store_gone)
    ≡ (ok_status, "Could not render dashboard! See the logs for details")
unfolding dashboard_page
not_rendered = refl
