-- ===== src/Exporter/Samples.antt =====
-- A network, keys and prices for examples, and what a round of the exporter calls.
use pyth_agent.Prelude.{◌+◌, ℕ, suc, [], ◌∷◌, none, some, true, ℕ_discrete, retain, length}
use pyth_agent.Prelude.Int.{pos, ◌-ℤ◌, as_i64, sub_i64, wrap_i64}
use pyth_agent.Prelude.Maps.{lookup, insert, nat_key, extend, contains}
use pyth_agent.Solana.{PriceStatus}
use pyth_agent.Samples.{sample_env}
use pyth_agent.KeyStore.{KeyStore}
use pyth_agent.Store.Price.{PriceInfo, cmp_no_timestamp}
use pyth_agent.Store.Local.{Prices}
use pyth_agent.Exporter.{
  as_secs, is_newer, is_recent, is_due, fresh_updates, update_our_prices, permissioned_updates,
}
use pyth_agent.Exporter.Instruction.{
  Chain, create_instruction_without_accumulator, create_instruction_with_accumulator,
}
use pyth_agent.Exporter.Batch.{
  BatchInputs, chunks, chunks_fuel, stale_price, create_instruction, build, compute_budget,
  transaction, submit, publish_built, publish_refreshed, publish_batch,
}
use pyth_agent.Exporter.Publish.{
  collect, batch_state, finish, publish_keypair, publish_batches, publish_all, publish_with,
  publish_updates,
}
use pyth_agent.Exporter.Monitor.{
  received, tick, add_transaction, handle_next, pop_front, count_confirmed, poll_signatures,
  poll_transactions_status,
}
use pyth_agent.Exporter.Monitor as Monitor

abbrev pub quote : ℕ → ℕ → PriceInfo
quote price at = record {
  status = PriceStatus.trading;
  price = pos price;
  conf = 1;
  timestamp = pos at;
}

abbrev pub sample_chain : Chain
sample_chain = record {
  serialize = λ cmd. some (cmd.version ∷ cmd.cmd ∷ cmd.conf ∷ cmd.pub_slot ∷ []);
  find_program_address = λ seeds program. suc (program + length seeds);
  clock_id = 6;
}

abbrev pub keys : KeyStore ℕ
keys = record {
  publish_keypair = some 40;
  program_key = 50;
  mapping_key = 51;
  accumulator_key = none;
}

abbrev pub contents : Prices
contents = (7, quote 100 20) ∷ (8, quote 5 19) ∷ (9, quote 3 2) ∷ []

abbrev pub batch_inputs : BatchInputs
batch_inputs = record {
  local_store_contents = some contents;
  network_state = record { blockhash = 77; current_slot = 5 };
  clock = λ i. pos 21;
  signature = some 1001;
  monitor_open = true;
}

unfoldable pub program : Unit {0}
unfolding as_secs is_newer is_recent is_due fresh_updates update_our_prices permissioned_updates
    create_instruction_without_accumulator create_instruction_with_accumulator chunks_fuel chunks
    stale_price create_instruction build compute_budget transaction submit publish_built
    publish_refreshed publish_batch collect batch_state finish publish_keypair publish_batches
    publish_all publish_with publish_updates lookup insert extend contains retain cmp_no_timestamp
    as_i64 sub_i64 wrap_i64 ℕ_discrete ◌-ℤ◌ Monitor.new add_transaction handle_next Monitor.run
    pop_front count_confirmed poll_signatures poll_transactions_status
program = tt
