-- ===== src/Exporter/Examples.antt =====
-- Rounds of the exporter, and the theorems about it at concrete inputs.
use pyth_agent.Prelude.{
  ◌++◌, ◌>>=◌, inl, inr, ◌≡◌, ◌≤◌, ◌<◌, ◌↔◌, refl, subst, ℕ, List, [], ◌∷◌, none, some, ok, true,
  arith, In, length,
}
use pyth_agent.Prelude.Int.{pos, ◌-ℤ◌, IsI64}
use pyth_agent.Prelude.Maps.{lookup, nat_key}
use pyth_agent.Samples.{sample_env}
use pyth_agent.Store.Local.{Prices}
use pyth_agent.Exporter.{MonitorConfig, State, default_config, fresh_updates}
use pyth_agent.Exporter.Instruction.{
  create_instruction_without_accumulator, create_instruction_with_accumulator,
}
use pyth_agent.Exporter.Instruction.Accumulator.{accumulator_accounts, with_accumulator-extends}
use pyth_agent.Exporter.Batch.{Transaction, publish_batch}
use pyth_agent.Exporter.Samples.{quote, sample_chain, keys, contents, batch_inputs, program}
use pyth_agent.Exporter.Batch.Sending.{HasAll}
use pyth_agent.Exporter.Publish.{Inputs, Output, publish_keypair, publish_updates}
use pyth_agent.Exporter.Publish.Delivery.{IsSent, publish_updates-IsSent}
use pyth_agent.Exporter.Publish.Finish.{Records}
use pyth_agent.Exporter.Publish.Record.{candidates, publish_updates-Records}
use pyth_agent.Exporter.Publish.Permission.{Obeys, publish_updates-Obeys}
use pyth_agent.Exporter.Selection.{HasRoom, ShouldPublish, In-fresh_updates_iff}
use pyth_agent.Exporter.Monitor.{
  received, tick, add_transaction, handle_next, pop_front, count_confirmed, poll_signatures,
  poll_transactions_status,
}
use pyth_agent.Exporter.Monitor.Window.{run-new-last_n, poll-run_bounds}
use pyth_agent.Exporter.Monitor as Monitor

-- Identifier 7 was published before.
abbrev before : State
before = record { last_published_state = (7, quote 90 10) ∷ []; our_prices = [] }

abbrev inputs : Inputs ℕ
inputs = record {
  local_store_contents = some contents;
  now = pos 21;
  remote_keypair = none;
  permissions = ((40, 7 ∷ 9 ∷ []) ∷ []) ∷ [];
  batch = λ i. batch_inputs;
}

-- One permitted price is recent and newer than before: it alone is published and recorded.
round_record :
    (publish_updates sample_chain default_config keys inputs before).state.last_published_state
    ≡ (7, quote 100 20) ∷ []
unfolding program
round_record = refl

-- The two prices that are still recent are sent; the one of time 2 is not.
sent : Transaction ℕ
sent = elim (publish_batch sample_chain default_config keys 40 batch_inputs contents).sent [
  | some tx ↦ tx
  | none ↦ record { instructions = []; payer = 0; signers = []; blockhash = 0 }
]

two_updates : length sent.instructions ≡ 3
unfolding program sent
two_updates = refl

-- One price of the batch, which the local store has.
abbrev one : Prices
one = (7, quote 100 20) ∷ []

after : Output ℕ
after = publish_updates sample_chain default_config keys inputs before

publish_updates-Records_example :
    Records before (candidates sample_chain default_config keys inputs before after) after
unfolding after
publish_updates-Records_example =
    publish_updates-Records sample_chain default_config keys inputs before

publish_updates-Obeys_example :
    Obeys sample_chain default_config keys after.state.our_prices after.batches
unfolding after
publish_updates-Obeys_example = publish_updates-Obeys sample_chain default_config keys inputs before

published_before : lookup 7 before.last_published_state ≡ some (quote 90 10)
unfolding program
published_before = refl

has_keypair : publish_keypair sample_chain default_config keys inputs ≡ ok 40
unfolding program
has_keypair = refl

found_each :
    (lookup 7 contents ≡ some (quote 100 20))
    × (lookup 8 contents ≡ some (quote 5 19))
    × (lookup 9 contents ≡ some (quote 3 2))
unfolding program
found_each = (refl, refl, refl)

contents-HasAll : HasAll contents contents
contents-HasAll e (inl here) =
    (quote 100 20, subst (λ x. lookup x.0 contents ≡ some (quote 100 20)) here found_each.0)
contents-HasAll e (inr (inl here)) =
    (quote 5 19, subst (λ x. lookup x.0 contents ≡ some (quote 5 19)) here found_each.1)
contents-HasAll e (inr (inr (inl here))) =
    (quote 3 2, subst (λ x. lookup x.0 contents ≡ some (quote 3 2)) here found_each.2)
contents-HasAll e (inr (inr (inr none_left))) = absurd none_left

publish_updates-IsSent_example :
    IsSent sample_chain default_config keys 40 inputs.batch
      (candidates sample_chain default_config keys inputs before after)
      after
unfolding after
publish_updates-IsSent_example =
    publish_updates-IsSent sample_chain default_config keys (λ cmd. (_, refl)) 40 inputs before
      contents refl has_keypair (omega arith) (λ i. (contents, refl, contents-HasAll))

fits : IsI64 (pos 20 -ℤ pos 10)
unfolding program
fits = omega arith

room : HasRoom default_config before.last_published_state (pos 21) (7, quote 100 20)
unfolding program
room = record {
  staleness = omega arith;
  unchanged = omega arith;
  age = omega arith;
  delay = λ l e.
      let same : quote 90 10 ≡ l = cc in subst (λ u. IsI64 (pos 20 -ℤ u.timestamp)) same fits;
}

In-fresh_updates_iff_example :
    In
      (7, quote 100 20)
      (fresh_updates default_config before.last_published_state (pos 21) contents)
    ↔ (In (7, quote 100 20) contents
        × ShouldPublish default_config before.last_published_state (pos 21) (7, quote 100 20))
In-fresh_updates_iff_example =
    In-fresh_updates_iff default_config before.last_published_state (pos 21) 7 (quote 100 20) room
      contents

abbrev small : MonitorConfig
small = record { poll_interval_duration = 4000000000; max_transactions = 2 }

abbrev events : List Monitor.Event
events = received 5 ∷ received 6 ∷ tick none ∷ received 7 ∷ []

run-new-last_n_example : (Monitor.run events (Monitor.new small)).sent_transactions ≡ 6 ∷ 7 ∷ []
run-new-last_n_example = run-new-last_n small events

polled :
    poll_transactions_status (some (some true ∷ none ∷ [])) (Monitor.run events (Monitor.new small))
    ≡ ok (some (1, 2))
unfolding program
polled = refl

poll-run_bounds_example : (0 < 2) × (1 ≤ 2) × (2 ≤ 2)
poll-run_bounds_example = poll-run_bounds small events (some (some true ∷ none ∷ [])) 1 2 polled

with_accumulator-extends_example :
    create_instruction_with_accumulator sample_chain 50 40 7 (quote 100 20) 5 60 ≡ (
      create_instruction_without_accumulator sample_chain 50 40 7 (quote 100 20) 5 >>= λ ins.
      ok (record ins {
        accounts = ins.accounts ++ accumulator_accounts sample_chain 50 40 7 (quote 100 20) 5 60;
      }))
with_accumulator-extends_example = with_accumulator-extends sample_chain 50 40 7 (quote 100 20) 5 60
