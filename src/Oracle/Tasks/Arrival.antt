-- ===== src/Oracle/Tasks/Arrival.antt =====
-- What the poller sends arrives in the global store.
use pyth_agent.Prelude.{ℕ, ◌≡◌, refl, true, Option, some, ok, In}
use pyth_agent.Prelude.Maps.{nat_key}
use pyth_agent.Solana.{Pubkey, PriceEntry, Env}
use pyth_agent.Store.Global.{Store, run}
use pyth_agent.Oracle.{Data, data_update, handle_next}
use pyth_agent.Oracle.Delivery.{HasPrice, events, send_all-HasPrice}
use pyth_agent.Oracle.Poller.{poll}
use pyth_agent.Oracle.Tasks.{PollInputs, PollOutput, poll_and_send}

module _ ⦃env : Env⦄ {Account : Type 0} (load_price_account : Account → Option PriceEntry) where
  -- The exporter is told the permissions, and the oracle gets the data, and passes each of the price
  -- accounts on to the global store.
  pub record Arrives (d : Data) (out : PollOutput) (before : Data) (s : Store env.F64)
      : Type 0 where
    pub permissions : out.permissions ≡ some d.publisher_permissions
    pub fresh_data : out.fresh_data ≡ some d
    pub kept : (handle_next load_price_account true (data_update d) before).1 ≡ d
    pub stored :
        (k : Pubkey) (e : PriceEntry)
        → In (k, e) d.price_accounts
        → HasPrice k e
            (run (events (handle_next load_price_account true (data_update d) before).0.sent) s).1

  -- A poll that succeeds while all channels are open: the exporter is told its permissions, and the
  -- oracle, whatever data it had, has its data and passes them on, so that the global store has each
  -- price account of the poll, or one with a timestamp that is not older.
  pub poll_and_send-Arrives :
      (size : ℕ) (mapping_key : Pubkey) (inputs : PollInputs Account) (d before : Data)
      (s : Store env.F64)
      → poll inputs.node inputs.fuel size mapping_key ≡ ok d
      → inputs.permissions_open ≡ true
      → inputs.data_open ≡ true
      → Arrives d (poll_and_send size mapping_key inputs) before s
  unfolding poll_and_send handle_next
  poll_and_send-Arrives size mapping_key inputs d before s e p o = record {
    permissions = rw (p, o, e) refl;
    fresh_data = rw (p, o, e) refl;
    kept = refl;
    stored = λ k x m. send_all-HasPrice d s k x m;
  }
