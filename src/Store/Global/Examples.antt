-- ===== src/Store/Global/Examples.antt =====
-- Runs of the global store, and the theorems about it at concrete inputs.
use pyth_agent.Prelude.{◌≡◌, refl, ℕ, List, [], ◌∷◌, some, true, false, ℕ_discrete, retain}
use pyth_agent.Prelude.Int.{pos, ◌≤ℤ◌}
use pyth_agent.Prelude.Maps.{lookup, insert, extend, nat_key, dec_string}
use pyth_agent.Solana.{PriceEntry, ProductEntry}
use pyth_agent.Samples.{sample_env, unary, account_at}
use pyth_agent.Store.Global.{
  product_account_update, price_account_update, Event, primary, secondary, reader, Store,
  lookup_all_accounts_data, run, handle_next, new,
}
use pyth_agent.Store.Global.Data.{is_primary, run-IsLater, run-retain}
use pyth_agent.Store.Global.Metadata.{IsCovered, run-new-IsCovered}

abbrev lite : ProductEntry
lite = record {
  account_data = record { px_acc = 4; attributes = ("symbol", "LTC") ∷ [] };
  price_accounts = 4 ∷ [];
}

abbrev history : List Event
history =
    primary (product_account_update 3 lite) true
    ∷ primary (price_account_update 4 (account_at 10)) true
    ∷ secondary (price_account_update 4 (account_at 12))
    ∷ reader lookup_all_accounts_data false
    ∷ primary (price_account_update 4 (account_at 9)) true
    ∷ []

program : Unit {0}
unfolding run handle_next new lookup insert extend ℕ_discrete dec_string unary
program = tt

start : Store ℕ
start = (run history (new ℕ)).1

start_price : lookup 4 start.account_data.price_accounts ≡ some (account_at 10)
unfolding program start
start_price = refl

run-IsLater_example :
    (b : PriceEntry) × (lookup 4 (run history start).1.account_data.price_accounts ≡ some b)
    × (pos 10 ≤ℤ b.timestamp)
run-IsLater_example = run-IsLater history start 4 (account_at 10) start_price

run-retain_example :
    ((run history start).1.account_data ≡ (run (retain is_primary history) start).1.account_data)
    × ((run history start).0 ≡ (run (retain is_primary history) start).0)
run-retain_example = run-retain history start

run-new-IsCovered_example : IsCovered (run history (new ℕ)).1
run-new-IsCovered_example = run-new-IsCovered history (refl, (refl, (tt, (tt, (refl, tt)))))
