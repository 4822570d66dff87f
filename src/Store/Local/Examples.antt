-- ===== src/Store/Local/Examples.antt =====
-- Runs of the local store, and the theorems about it at concrete inputs.
use pyth_agent.Prelude.{◌≡◌, refl, ℕ, List, [], ◌∷◌, some, err, true, ℕ_discrete}
use pyth_agent.Prelude.Int.{pos}
use pyth_agent.Prelude.Maps.{lookup, insert, nat_key, dec_string}
use pyth_agent.Solana.{PriceStatus}
use pyth_agent.Samples.{sample_env, unary}
use pyth_agent.Store.Price.{PriceInfo}
use pyth_agent.Store.Local.{
  Message, update_price, lookup_all_price_info, Store, stale_timestamp, new, update, run, handle,
}
use pyth_agent.Store.Local.Outcome.{IsNewest}
use pyth_agent.Store.Local.Newest.{run-new-IsNewest}

abbrev quote : ℕ → ℕ → PriceInfo
quote price at = record {
  status = PriceStatus.trading;
  price = pos price;
  conf = 1;
  timestamp = pos at;
}

abbrev history : List Message
history =
    update_price 7 (quote 100 10)
    ∷ update_price 7 (quote 90 9)
    ∷ update_price 8 (quote 5 3)
    ∷ lookup_all_price_info true
    ∷ update_price 7 (quote 110 10)
    ∷ []

after : Store ℕ
after = run history (new ℕ)

program : Unit {0}
unfolding run handle update new lookup insert ℕ_discrete dec_string unary after
program = tt

after_price : lookup 7 (run history (new ℕ)).prices ≡ some (quote 110 10)
unfolding program
after_price = refl

-- An update with an older timestamp is refused.
refused_late : (update 7 (quote 90 9) after).0 ≡ err (stale_timestamp 7)
unfolding program
refused_late = refl

run-new-IsNewest_example : IsNewest 7 (quote 110 10) history
run-new-IsNewest_example = (run-new-IsNewest 7 history).0 (quote 110 10) after_price
