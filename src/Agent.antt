-- ===== src/Agent.antt =====
-- The tasks of src/agent.rs that a price passes through, and the channels between them: the adapter, the
-- local store and the exporters of the networks. A step is a turn of one task, and the tasks take
-- their turns in any order.
pub mod Client
pub mod Updates
pub mod Provenance
pub mod Reading
mod Examples
use pyth_agent.Prelude.{Bool, ℕ, ◌≡◌, List, [], ◌∷◌, ◌++◌, Option, none, some, In, ◌⊎◌}
use pyth_agent.Solana.{Env}
use pyth_agent.KeyStore.{KeyStore}
use pyth_agent.Store.Local as Local
use pyth_agent.Store.Local.{Prices, Store}
use pyth_agent.Pythd.Adapter.{Adapter, Turn}
use pyth_agent.Pythd.Adapter as Adapter
use pyth_agent.Pythd.Rpc.Backend.{local_messages}
use pyth_agent.Exporter as Exporter
use pyth_agent.Exporter.Instruction.{Chain}
use pyth_agent.Exporter.Batch.{BatchOutput, Transaction}
use pyth_agent.Exporter.Publish as Publish

-- What the exporter of a network works with.
pub record Network (Keypair : Type 0) : Type 0 where
  pub chain : Chain
  pub config : Exporter.Config
  pub key_store : KeyStore Keypair

pub record Config (Keypair : Type 0) : Type 0 where
  pub primary_network : Network Keypair
  pub secondary_network : Option (Network Keypair)

-- The states of the tasks, the messages in the local store's channel, the answers that the local store
-- has given, the turns of the adapter so far, and the transactions that were handed to the networks.
pub record State (F64 Keypair : Type 0) : Type 0 where
  pub turns : List Turn
  pub adapter : Adapter
  pub local_store_rx : List Local.Message
  pub local_store : Store F64
  pub answers : List Prices
  pub primary_exporter : Exporter.State
  pub secondary_exporter : Exporter.State
  pub sent : List (Transaction Keypair)

unfoldable pub sent_by : {K : Type 0} → List (BatchOutput K) → List (Transaction K)
sent_by [] = []
sent_by (o ∷ os) = let rest = sent_by os in elim o.sent [ some tx ↦ tx ∷ rest | none ↦ rest ]

abbrev pub given : Option Prices → List Prices
given none = []
given (some contents) = contents ∷ []

-- An answer of the local store that an exporter works with: one that was given, or none.
abbrev pub IsAnswered : List Prices → Option Prices → Type 0
IsAnswered answers contents =
    (contents ≡ none) ⊎ ((prices : Prices) × (contents ≡ some prices) × In prices answers)

-- A round of an exporter reads the local store once, and again for each batch.
pub record HasAnswers {K : Type 0} (answers : List Prices) (inputs : Publish.Inputs K)
    : Type 0 where
  pub at_first : IsAnswered answers inputs.local_store_contents
  pub in_batches : (i : ℕ) → IsAnswered answers (inputs.batch i).local_store_contents

module _ ⦃env : Env⦄ where
  unfoldable pub start : State env.F64 env.Keypair
  start = record {
    turns = [];
    adapter = Adapter.new;
    local_store_rx = [];
    local_store = Local.new env.F64;
    answers = [];
    primary_exporter = Exporter.new;
    secondary_exporter = Exporter.new;
    sent = [];
  }

  unfoldable pub adapter_turn : Turn → State env.F64 env.Keypair → State env.F64 env.Keypair
  unfolding local_messages
  adapter_turn t s =
      let r = Adapter.step t s.adapter in
      record s {
        turns = t ∷ s.turns;
        adapter = r.1;
        local_store_rx = s.local_store_rx ++ local_messages (r.0 ∷ []);
      }

  unfoldable pub store_turn :
      Local.Message → List Local.Message → State env.F64 env.Keypair → State env.F64 env.Keypair
  store_turn m rest s =
      let r = Local.handle m s.local_store in
      record s { local_store_rx = rest; local_store = r.2; answers = given r.1 ++ s.answers }

  abbrev pub round :
      Network env.Keypair → Publish.Inputs env.Keypair → Exporter.State → Publish.Output env.Keypair
  round n inputs s = Publish.publish_updates n.chain n.config n.key_store inputs s

  unfoldable pub primary_round :
      Network env.Keypair
      → Publish.Inputs env.Keypair
      → State env.F64 env.Keypair
      → State env.F64 env.Keypair
  unfolding sent_by
  primary_round n inputs s =
      let out = round n inputs s.primary_exporter in
      record s { primary_exporter = out.state; sent = s.sent ++ sent_by out.batches }

  unfoldable pub secondary_round :
      Network env.Keypair
      → Publish.Inputs env.Keypair
      → State env.F64 env.Keypair
      → State env.F64 env.Keypair
  unfolding sent_by
  secondary_round n inputs s =
      let out = round n inputs s.secondary_exporter in
      record s { secondary_exporter = out.state; sent = s.sent ++ sent_by out.batches }

  -- An exporter or the metrics server asks the local store.
  unfoldable pub store_asked_by : Bool → State env.F64 env.Keypair → State env.F64 env.Keypair
  store_asked_by result_tx_open s = record s {
    local_store_rx = s.local_store_rx ++ Local.lookup_all_price_info result_tx_open ∷ [];
  }

  pub data Step (config : Config env.Keypair) (s : State env.F64 env.Keypair)
      : State env.F64 env.Keypair → Type 0 where
    adapter_turns : (t : Turn) → Step config s (adapter_turn t s)
    store_asked : (result_tx_open : Bool) → Step config s (store_asked_by result_tx_open s)
    store_turns :
        (m : Local.Message) (rest : List Local.Message)
        → s.local_store_rx ≡ m ∷ rest
        → Step config s (store_turn m rest s)
    primary_publishes :
        (inputs : Publish.Inputs env.Keypair)
        → HasAnswers s.answers inputs
        → Step config s (primary_round config.primary_network inputs s)
    secondary_publishes :
        (n : Network env.Keypair) (inputs : Publish.Inputs env.Keypair)
        → config.secondary_network ≡ some n
        → HasAnswers s.answers inputs
        → Step config s (secondary_round n inputs s)

  -- The states that the tasks can get to.
  pub data Reachable (config : Config env.Keypair) : State env.F64 env.Keypair → Type 0 where
    at_start : Reachable config start
    after :
        {s t : State env.F64 env.Keypair}
        → Reachable config s
        → Step config s t
        → Reachable config t
