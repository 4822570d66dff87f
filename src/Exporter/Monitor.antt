-- ===== src/Exporter/Monitor.antt =====
-- The `transaction_monitor` of exporter.rs, which watches the newest transactions, and the task that
-- reads the network's state. The percentage is logged as a float; here it is the two counts.
pub mod Window
use pyth_agent.Prelude.{
  ℕ, suc, Bool, true, false, List, [], ◌∷◌, ◌++◌, Option, none, some, Result, ok, err, ok_or, ◌>>=◌,
  length, ltb, if◌then◌else◌,
}
use pyth_agent.Exporter.{MonitorConfig}
use pyth_agent.Exporter.Batch.{Signature, NetworkState, Hash}

-- The signatures, oldest first.
pub record TransactionMonitor : Type 0 where
  pub config : MonitorConfig
  pub sent_transactions : List Signature

unfoldable pub new : MonitorConfig → TransactionMonitor
new config = record { config = config; sent_transactions = [] }

unfoldable pub pop_front : List Signature → List Signature
pop_front [] = []
pop_front (x ∷ xs) = xs

unfoldable pub add_transaction : Signature → TransactionMonitor → TransactionMonitor
unfolding pop_front
add_transaction signature m =
    let pushed = m.sent_transactions ++ signature ∷ [] in
    record m {
      sent_transactions =
          if ltb m.config.max_transactions (length pushed) then pop_front pushed else pushed;
    }

-- A status as the network returns it, for each signature or none: whether it satisfies the
-- commitment `confirmed`.
abbrev pub Statuses : Type 0
Statuses = List (Option Bool)

-- The statuses are paired with the signatures, so what goes beyond them does not count.
unfoldable pub count_confirmed : Statuses → List Signature → ℕ
count_confirmed [] sigs = 0
count_confirmed (s ∷ ss) [] = 0
count_confirmed (some true ∷ ss) (sig ∷ sigs) = suc (count_confirmed ss sigs)
count_confirmed (some false ∷ ss) (sig ∷ sigs) = count_confirmed ss sigs
count_confirmed (none ∷ ss) (sig ∷ sigs) = count_confirmed ss sigs

pub data Error : Type 0 where
  rpc_failed watchers_gone : Error

-- The counts of confirmed and of watched transactions; `none` where there is nothing to ask about.
unfoldable pub poll_signatures : Option Statuses → List Signature → Result Error (Option (ℕ × ℕ))
unfolding count_confirmed
poll_signatures answer [] = ok none
poll_signatures none (sig ∷ sigs) = err rpc_failed
poll_signatures (some statuses) (sig ∷ sigs) =
    ok (some (count_confirmed statuses (sig ∷ sigs), length (sig ∷ sigs)))

unfoldable pub poll_transactions_status :
    Option Statuses → TransactionMonitor → Result Error (Option (ℕ × ℕ))
unfolding poll_signatures
poll_transactions_status answer m = poll_signatures answer m.sent_transactions

-- The event that `handle_next` selects.
pub data Event : Type 0 where
  received : Signature → Event
  tick : (answer : Option Statuses) → Event

unfoldable pub handle_next : Event → TransactionMonitor → TransactionMonitor
unfolding add_transaction
handle_next (received signature) m = add_transaction signature m
handle_next (tick answer) m = m

unfoldable pub run : List Event → TransactionMonitor → TransactionMonitor
run [] m = m
run (e ∷ es) m = run es (handle_next e m)

-- The state that the exporter sees changes only if both requests succeed and it is still watched.
unfoldable pub query_network_state :
    Option ℕ
    → Option Hash
    → (watched : Bool) → NetworkState
    → Result Error (Unit {0}) × NetworkState
query_network_state none blockhash watched old = (err rpc_failed, old)
query_network_state (some slot) none watched old = (err rpc_failed, old)
query_network_state (some slot) (some hash) false old = (err watchers_gone, old)
query_network_state (some slot) (some hash) true old =
    (ok tt, record { blockhash = hash; current_slot = slot })
