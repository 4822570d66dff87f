-- ===== src/Agent/Reading.antt =====
-- The other way through the tasks of src/agent.rs: from the oracle of the primary network through the
-- global store and the adapter to the clients that are notified. A step is a turn of one task, and the
-- tasks take their turns in any order.
pub mod Origin
pub mod Asked
pub mod Notices
pub mod History
mod Examples
use pyth_agent.Prelude.{◌≡◌, Bool, List, [], ◌∷◌, ◌++◌, Option}
use pyth_agent.Solana.{Pubkey, PriceEntry, Env}
use pyth_agent.Store.Global.{Update, GlobalStoreUpdate, Store, primary, secondary}
use pyth_agent.Store.Global as Global
use pyth_agent.Pythd.Adapter.{
  Adapter, Channel, Turn, Inputs, Event, Notice, received, tick, global_store_update, Message,
}
use pyth_agent.Pythd.Adapter as Adapter
use pyth_agent.Oracle.{Data, default_data}
use pyth_agent.Oracle as Oracle

-- What the oracle has taken from its channels, the turns of the adapter, the oracle's data, the updates in the global store's channel, the
-- global store, its messages in the adapter's channel, the adapter, and the notifications to clients.
pub record State (Account F64 : Type 0) : Type 0 where
  pub events : List (Oracle.Event Account)
  pub turns : List Turn
  pub oracle : Data
  pub primary_updates_rx : List Update
  pub global_store : Store F64
  pub adapter_rx : List GlobalStoreUpdate
  pub adapter : Adapter
  pub notices : List Notice

-- A turn of the adapter that does not take a message of the global store.
abbrev pub IsOwnTurn : Event → Type 0
IsOwnTurn (received (global_store_update u)) = ⊥
IsOwnTurn _ = Unit

abbrev pub turn_with : GlobalStoreUpdate → (Channel → Bool) → Inputs → Turn
turn_with u was_open inputs = record {
  was_open = was_open;
  inputs = inputs;
  event = received (global_store_update u);
}

module _ ⦃env : Env⦄ {Account : Type 0} (load_price_account : Account → Option PriceEntry) where
  unfoldable pub start : State Account env.F64
  start = record {
    events = [];
    turns = [];
    oracle = default_data;
    primary_updates_rx = [];
    global_store = Global.new env.F64;
    adapter_rx = [];
    adapter = Adapter.new;
    notices = [];
  }

  unfoldable pub oracle_turn :
      Bool → Oracle.Event Account → State Account env.F64 → State Account env.F64
  oracle_turn open_tx e s =
      let r = Oracle.handle_next load_price_account open_tx e s.oracle in
      record s {
        events = e ∷ s.events;
        oracle = r.1;
        primary_updates_rx = s.primary_updates_rx ++ r.0.sent;
      }

  unfoldable pub store_turn :
      Update → List Update → Bool → State Account env.F64 → State Account env.F64
  store_turn u rest adapter_open s =
      let r = Global.handle_next (primary u adapter_open) s.global_store in
      record s {
        primary_updates_rx = rest;
        global_store = r.1;
        adapter_rx = s.adapter_rx ++ r.0.sent;
      }

  unfoldable pub secondary_turn : Update → State Account env.F64 → State Account env.F64
  secondary_turn u s = record s {
    global_store = (Global.handle_next (secondary u) s.global_store).1;
  }

  unfoldable pub adapter_turn : Turn → State Account env.F64 → State Account env.F64
  adapter_turn t s =
      let r = Adapter.step t s.adapter in
      record s { turns = t ∷ s.turns; adapter = r.1; notices = s.notices ++ r.0.sent }

  unfoldable pub notify_turn :
      GlobalStoreUpdate
      → List GlobalStoreUpdate
      → (Channel → Bool)
      → Inputs
      → State Account env.F64
      → State Account env.F64
  unfolding adapter_turn
  notify_turn u rest was_open inputs s = record (adapter_turn (turn_with u was_open inputs) s) {
    adapter_rx = rest;
  }

  pub data Step (s : State Account env.F64) : State Account env.F64 → Type 0 where
    oracle_turns : (open_tx : Bool) (e : Oracle.Event Account) → Step s (oracle_turn open_tx e s)
    store_turns :
        (u : Update) (rest : List Update) (adapter_open : Bool)
        → s.primary_updates_rx ≡ u ∷ rest
        → Step s (store_turn u rest adapter_open s)
    secondary_turns : (u : Update) → Step s (secondary_turn u s)
    adapter_notifies :
        (u : GlobalStoreUpdate) (rest : List GlobalStoreUpdate) (was_open : Channel → Bool)
        (inputs : Inputs)
        → s.adapter_rx ≡ u ∷ rest
        → Step s (notify_turn u rest was_open inputs s)
    adapter_turns : (t : Turn) → IsOwnTurn t.event → Step s (adapter_turn t s)

  pub data Reachable : State Account env.F64 → Type 0 where
    at_start : Reachable start
    after : {s t : State Account env.F64} → Reachable s → Step s t → Reachable t
