-- ===== src/Oracle/Examples.antt =====
-- A small chain of accounts, and the theorems about the poller at concrete inputs.
use pyth_agent.Prelude.{
  inl, In, ℕ, ◌≡◌, ◌≤◌, ◌↔◌, refl, true, List, [], ◌∷◌, ◌++◌, some, ok, err, ℕ_discrete, ◌==◌,
  if◌then◌else◌, map, retain,
}
use pyth_agent.Prelude.Maps.{lookup, insert, extend, contains, set_insert, nat_key}
use pyth_agent.Solana.{Pubkey, PriceEntry, MappingAccount}
use pyth_agent.Samples.{sample_env, account_at, agg_at}
use pyth_agent.Exporter.{update_our_prices}
use pyth_agent.Exporter.Batch.{chunks, chunks_fuel}
use pyth_agent.Store.Global.{new}
use pyth_agent.Oracle.{Data, send_all_data_to_global_store}
use pyth_agent.Oracle.Tasks.{poll_and_send}
use pyth_agent.Oracle.Tasks.Arrival.{Arrives, poll_and_send-Arrives}
use pyth_agent.Oracle as Oracle
use pyth_agent.Oracle.Poller.{
  Node, add_permission, add_components, permissions, is_set, product_keys, load_mapping,
  fetch_mapping_accounts, fill_products, add_price, fill_prices, follow_prices, fetch_batch,
  fetch_batches, fetch_product_and_price_accounts, poll,
}
use pyth_agent.Oracle.Poller.Permissions.{IsPublished, poll-our_prices_iff}
use pyth_agent.Oracle.Poller.OneBatch.{Lists}
use pyth_agent.Oracle.Poller.Listing.{poll-Lists}
use pyth_agent.Prelude.Maps.{AreDistinct}
use pyth_agent.Oracle.Poller.Chain.{IsChain, fetch_mapping_accounts_iff}

-- An account is its key: 1 and 2 are mapping accounts, 3 is a product, 4 a price of it, and 9 a
-- mapping account that comes back to itself.
abbrev mapping_of : ℕ → MappingAccount
mapping_of k =
    if k == 1
    then record { next = 2; products = 3 ∷ 0 ∷ [] }
    else if k == 9
    then record { next = 9; products = [] }
    else record { next = 0; products = [] }

abbrev price_of : ℕ → PriceEntry
price_of _ = record (account_at 10) {
  comp = record { publisher = 40; agg = agg_at 1; latest = agg_at 1 } ∷ [];
}

abbrev node : Node ℕ
node = record {
  get_account_data = λ k. some k;
  get_multiple_accounts = λ ks. some (map some ks);
  load_mapping_account = λ a. some (mapping_of a);
  load_product_account = λ a. some (record { px_acc = 4; attributes = [] });
  load_price_account = λ a. some (price_of a);
}

program : Unit {0}
unfolding lookup insert extend contains set_insert ℕ_discrete ◌==◌ retain chunks chunks_fuel
    add_permission add_components permissions is_set product_keys load_mapping
    fetch_mapping_accounts fill_products add_price fill_prices follow_prices fetch_batch
    fetch_batches fetch_product_and_price_accounts poll
program = tt

-- A chain that comes back runs out of any fuel; here, of 5.
cycle : fetch_mapping_accounts node 5 9 [] ≡ err Oracle.out_of_fuel
unfolding program
cycle = refl

polled : Data
polled = elim (poll node 4 10 1) [ ok d ↦ d | err e ↦ Oracle.default_data ]

poll_ok : poll node 4 10 1 ≡ ok polled
unfolding program polled
poll_ok = refl

permitted_price : polled.publisher_permissions ≡ (40, 4 ∷ []) ∷ []
unfolding program polled
permitted_price = refl

found : In (4, price_of 4) polled.price_accounts
unfolding program polled
found = inl refl

poll-our_prices_iff_example :
    (contains 4 (update_our_prices 40 ([] ++ polled.publisher_permissions ∷ []) []) ≡ true)
    ↔ IsPublished 40 4 polled.price_accounts
poll-our_prices_iff_example = poll-our_prices_iff node 4 10 1 polled poll_ok [] [] 40 4

distinct : AreDistinct (product_keys polled.mapping_accounts)
unfolding program polled
distinct = (refl, tt)

poll-Lists_example : Lists polled.product_accounts 3 4
poll-Lists_example = poll-Lists node 4 10 1 polled poll_ok distinct 4 (price_of 4) found

fetch_mapping_accounts_iff_example :
    ((accounts : List (Pubkey × MappingAccount)) × (fetch_mapping_accounts node 3 1 []
        ≡ ok accounts))
    ↔ ((n : ℕ) × (n ≤ 3) × IsChain node 1 n)
fetch_mapping_accounts_iff_example = fetch_mapping_accounts_iff node 3 1

poll_and_send-Arrives_example :
    Arrives
      (λ a. some (price_of a))
      polled
      (poll_and_send 10 1
        (record { node = node; fuel = 4; permissions_open = true; data_open = true }))
      Oracle.default_data
      (new ℕ)
poll_and_send-Arrives_example =
    poll_and_send-Arrives (λ a. some (price_of a)) 10 1
      (record { node = node; fuel = 4; permissions_open = true; data_open = true }) polled
      Oracle.default_data (new ℕ) poll_ok refl refl
