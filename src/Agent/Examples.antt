-- ===== src/Agent/Examples.antt =====
-- A price on its way from a client to the network, and the theorem about it.
use pyth_agent.Prelude.{ℕ, ◌≡◌, refl, [], ◌∷◌, none, some, true, length}
use pyth_agent.Prelude.Int.{pos}
use pyth_agent.Prelude.Maps.{dec_string}
use pyth_agent.Solana.{trading}
use pyth_agent.Samples.{sample_env, letters}
use pyth_agent.Store.Local as Local
use pyth_agent.Pythd.Status.{map_status}
use pyth_agent.Pythd.Adapter.{
  Turn, received, update_price, retain_open, drop_closed_subscriptions, with_account,
  handle_update_price, handle_message, handle_event,
}
use pyth_agent.Pythd.Adapter as Adapter
use pyth_agent.Pythd.Rpc.Backend.{local_messages}
use pyth_agent.Exporter as Exporter
use pyth_agent.Exporter.Samples.{sample_chain, keys, batch_inputs, program}
use pyth_agent.Exporter.Batch.{Transaction}
use pyth_agent.Exporter.Publish as Publish
use pyth_agent.Agent.{
  Config, State, sent_by, start, adapter_turn, store_turn, store_asked_by, primary_round,
}

abbrev config : Config ℕ
config = record {
  primary_network = record {
    chain = sample_chain;
    config = Exporter.default_config;
    key_store = keys;
  };
  secondary_network = none;
}

abbrev turn : Turn
turn = record {
  was_open = λ c. true;
  inputs = record {
    is_open = λ c. true;
    reader_open = true;
    all_accounts_metadata = none;
    all_accounts_data = none;
    local_store_open = true;
    now = pos 20;
  };
  event = received (update_price "xx" (pos 5) 1 "trading");
}

abbrev message : Local.Message
message =
    Local.update_price 2 (record { status = trading; price = pos 5; conf = 1; timestamp = pos 20 })

abbrev prices : Local.Prices
prices = (2, record { status = trading; price = pos 5; conf = 1; timestamp = pos 20 }) ∷ []

abbrev inputs : Publish.Inputs ℕ
inputs = record {
  local_store_contents = some prices;
  now = pos 21;
  remote_keypair = none;
  permissions = ((40, 2 ∷ []) ∷ []) ∷ [];
  batch = λ i. record batch_inputs { local_store_contents = some prices };
}

-- The update and a question are in the channel; then the local store has answered.
abbrev asked : State ℕ ℕ
asked = store_asked_by true (adapter_turn turn start)

abbrev answered : State ℕ ℕ
answered =
    store_turn (Local.lookup_all_price_info true) []
      (store_turn message (Local.lookup_all_price_info true ∷ []) asked)

abbrev published : State ℕ ℕ
published = primary_round config.primary_network inputs answered

whole_program : Unit {0}
unfolding program start adapter_turn store_turn store_asked_by primary_round sent_by local_messages
    Local.new Local.handle Local.update Local.get_all_price_infos Local.is_stale map_status
    dec_string letters retain_open drop_closed_subscriptions with_account handle_update_price
    handle_message handle_event Adapter.step Adapter.new Exporter.new
whole_program = tt

abbrev tx : Transaction ℕ
tx = elim published.sent [
  | first ∷ _ ↦ first
  | [] ↦ record { instructions = []; payer = 0; signers = []; blockhash = 0 }
]

one_update : length tx.instructions ≡ 2
unfolding whole_program
one_update = refl
