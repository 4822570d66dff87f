-- ===== src/Agent/Reading/History.antt =====
-- Whatever the tasks do: what the global store holds, and what the clients are notified of.
use pyth_agent.Prelude.{
  ◌≡◌, refl, subst, Bool, List, ◌∷◌, Option, In, All, All-mono, All-In, All-append,
}
use pyth_agent.Solana.{PriceEntry, Env}
use pyth_agent.Store.Global.{GlobalStoreUpdate, notice, Update, primary, secondary}
use pyth_agent.Store.Global as Global
use pyth_agent.Store.Global.Data.{primary-data, primary-sent, secondary-quiet}
use pyth_agent.Pythd.Adapter.{
  Adapter, Channel, Subscription, Turn, Event, Notice, Answer, notify_price, notify_price_sched,
  received, tick, global_store_update, get_product_list, get_product, get_all_products,
  subscribe_price, subscribe_price_sched, update_price, with_account, handle_message, handle_event,
  step, drop_closed_subscriptions, reply, sched_notice, price_notice, send_notify_price_sched,
  handle_update_price, flatten_values, send_all, local_store_gone,
}
use pyth_agent.Pythd.Adapter as Adapter
use pyth_agent.Pythd.Adapter.{subscriptions_of}
use pyth_agent.Prelude.Maps.{lookup, nat_key}
use pyth_agent.Oracle as Oracle
use pyth_agent.Agent.Reading.{
  State, start, oracle_turn, store_turn, secondary_turn, adapter_turn, notify_turn, turn_with, Step,
  oracle_turns, store_turns, secondary_turns, adapter_notifies, adapter_turns, Reachable, at_start,
  after,
}
use pyth_agent.Agent.Reading.Origin.{
  WasRead-later, AreRead, IsReadUpdate, IsReadUpdate-later, IsReadNotice, handle_next-AreRead,
  update_data-AreRead,
}
use pyth_agent.Agent.Reading.Asked.{AreAsked, step-AreAsked}
use pyth_agent.Agent.Reading.Notices.{
  IsTrue, IsTrue-read, IsTrue-asked, IsReadNotice-later, notify-IsTrue, own-IsTrue,
}

module _ ⦃env : Env⦄ {Account : Type 0} (load_price_account : Account → Option PriceEntry) where
  -- Every price account on its way was read, and every notification is true.
  record IsTraced (s : State Account env.F64) : Type 0 where
    oracle : AreRead load_price_account s.events s.oracle.price_accounts
    updates : All (IsReadUpdate load_price_account s.events) s.primary_updates_rx
    store : AreRead load_price_account s.events s.global_store.account_data.price_accounts
    messages : All (IsReadNotice load_price_account s.events) s.adapter_rx
    asked : AreAsked s.turns s.adapter
    notices : All (IsTrue load_price_account s.events s.turns) s.notices

  oracle_turn-IsTraced :
      (open_tx : Bool) (ev : Oracle.Event Account) (s : State Account env.F64)
      → IsTraced s
      → IsTraced (oracle_turn load_price_account open_tx ev s)
  unfolding oracle_turn
  oracle_turn-IsTraced open_tx ev s h =
      let r = handle_next-AreRead load_price_account open_tx ev s.events s.oracle h.oracle in
      record {
        oracle = r.0;
        updates =
            All-append (IsReadUpdate load_price_account (ev ∷ s.events)) s.primary_updates_rx _
              (All-mono s.primary_updates_rx
                (λ u. IsReadUpdate-later load_price_account ev s.events u) h.updates)
              r.1;
        store = λ x m. WasRead-later load_price_account ev s.events x.0 x.1 (h.store x m);
        messages =
            All-mono s.adapter_rx (λ g. IsReadNotice-later load_price_account ev s.events g)
              h.messages;
        asked = h.asked;
        notices =
            All-mono s.notices (λ n. IsTrue-read load_price_account ev s.events s.turns n)
              h.notices;
      }

  store_turn-IsTraced :
      (u : Update) (rest : List Update) (adapter_open : Bool) (s : State Account env.F64)
      → s.primary_updates_rx ≡ u ∷ rest
      → IsTraced s
      → IsTraced (store_turn load_price_account u rest adapter_open s)
  unfolding store_turn
  store_turn-IsTraced u rest adapter_open s e h =
      let taken = subst (All (IsReadUpdate load_price_account s.events)) e h.updates in
      let r =
        update_data-AreRead load_price_account u adapter_open s.events s.global_store taken.0
          h.store in
      record {
        oracle = h.oracle;
        updates = taken.1;
        store = rw (primary-data u adapter_open s.global_store) r.0;
        messages =
            All-append (IsReadNotice load_price_account s.events) s.adapter_rx _ h.messages
              (rw (primary-sent u adapter_open s.global_store) r.1);
        asked = h.asked;
        notices = h.notices;
      }

  adapter_turn-IsTraced :
      (t : Turn) (s : State Account env.F64)
      → IsTraced s
      → All (IsTrue load_price_account s.events (t ∷ s.turns)) (step t s.adapter).0.sent
      → IsTraced (adapter_turn load_price_account t s)
  unfolding adapter_turn
  adapter_turn-IsTraced t s h fresh = record {
    oracle = h.oracle;
    updates = h.updates;
    store = h.store;
    messages = h.messages;
    asked = step-AreAsked t s.turns s.adapter h.asked;
    notices =
        All-append (IsTrue load_price_account s.events (t ∷ s.turns)) s.notices _
          (All-mono s.notices (λ n. IsTrue-asked load_price_account s.events t s.turns n) h.notices)
          fresh;
  }

  Step-IsTraced :
      (s t : State Account env.F64) → IsTraced s → Step load_price_account s t → IsTraced t
  unfolding secondary_turn notify_turn step
  Step-IsTraced s _ h (oracle_turns open_tx ev) = oracle_turn-IsTraced open_tx ev s h
  Step-IsTraced s _ h (store_turns u rest adapter_open e) =
      store_turn-IsTraced u rest adapter_open s e h
  Step-IsTraced s _ h (secondary_turns u) = record {
    oracle = h.oracle;
    updates = h.updates;
    store = rw ((secondary-quiet u s.global_store).0) h.store;
    messages = h.messages;
    asked = h.asked;
    notices = h.notices;
  }
  Step-IsTraced s _ h (adapter_notifies u rest was_open inputs e) =
      let taken = subst (All (IsReadNotice load_price_account s.events)) e h.messages in
      let r = adapter_turn-IsTraced (turn_with u was_open inputs) s h (
        notify-IsTrue load_price_account s.events s.turns (turn_with u was_open inputs) u s.adapter
          refl taken.0 h.asked) in
      record {
        oracle = r.oracle;
        updates = r.updates;
        store = r.store;
        messages = taken.1;
        asked = r.asked;
        notices = r.notices;
      }
  Step-IsTraced s _ h (adapter_turns t own) = adapter_turn-IsTraced t s h (
      own-IsTrue load_price_account s.events (t ∷ s.turns) t
        (drop_closed_subscriptions t.was_open s.adapter) t.event own)

  Reachable-IsTraced : (s : State Account env.F64) → Reachable load_price_account s → IsTraced s
  unfolding start Global.new Adapter.new subscriptions_of lookup
  Reachable-IsTraced _ at_start = record {
    oracle = λ x m. absurd m;
    updates = tt;
    store = λ x m. absurd m;
    messages = tt;
    asked = λ k sub m. absurd m;
    notices = tt;
  }
  Reachable-IsTraced t (after {s} r next) = Step-IsTraced s t (Reachable-IsTraced s r) next

  -- However the tasks take their turns: each price account in the global store was read by the oracle of
  -- the primary network, and each notification of a price goes to a client that asked for that price, and
  -- tells the price, the confidence, the status and the slots of an account that the oracle read under
  -- that key.
  pub Reachable-IsTrue :
      (s : State Account env.F64)
      → Reachable load_price_account s
      → AreRead load_price_account s.events s.global_store.account_data.price_accounts
        × ((n : Notice) → In n s.notices → IsTrue load_price_account s.events s.turns n)
  Reachable-IsTrue s r =
      let h = Reachable-IsTraced s r in
      (h.store, λ n m. All-In (IsTrue load_price_account s.events s.turns) n s.notices h.notices m)
