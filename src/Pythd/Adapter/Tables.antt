-- ===== src/Pythd/Adapter/Tables.antt =====
-- What an event does to the tables of subscriptions.
use pyth_agent.Prelude.{◌≡◌, refl, ◌⊎◌, inl, inr, String}
use pyth_agent.Prelude.Maps.{nat_key}
use pyth_agent.Solana.{Pubkey, Identifier, Env}
use pyth_agent.Pythd.Adapter.{
  Channel, Adapter, Inputs, Output, Event, Message, received, tick, global_store_update,
  get_product_list, get_product, get_all_products, subscribe_price, subscribe_price_sched,
  update_price, with_account, handle_message, handle_event,
}
use pyth_agent.Pythd.Adapter.Accounts.{with_account-cases}
use pyth_agent.Pythd.Adapter.Entries.{price, sched, Kind, subscribe}

-- An event leaves the adapter as it is, or adds a subscription.
abbrev pub Shape : Adapter → Adapter → Type 0
Shape s t =
    (s ≡ t) ⊎ ((c : Kind) × (k : Identifier) × (tx : Channel) × ((subscribe c k tx s).1 ≡ t))

module _ ⦃env : Env⦄ where
  with_account-Shape :
      (account : String) (s : Adapter) (handle : Pubkey → Output × Adapter)
      → ((k : Pubkey) → Shape s (handle k).1)
      → Shape s (with_account account s handle).1
  with_account-Shape account s handle h =
      with_account-cases (λ r. Shape s r.1) account s handle (inl refl) (λ k e. h k)

  handle_message-Shape :
      (inputs : Inputs) (m : Message) (s : Adapter) → Shape s (handle_message inputs m s).1
  unfolding handle_message
  handle_message-Shape inputs get_product_list s = inl refl
  handle_message-Shape inputs (get_product account) s =
      with_account-Shape account s _ (λ k. inl refl)
  handle_message-Shape inputs get_all_products s = inl refl
  handle_message-Shape inputs (subscribe_price account tx) s =
      with_account-Shape account s _ (λ k. inr (price, k, tx, refl))
  handle_message-Shape inputs (subscribe_price_sched account tx) s =
      with_account-Shape account s _ (λ k. inr (sched, k, tx, refl))
  handle_message-Shape inputs (update_price account p conf status) s =
      with_account-Shape account s _ (λ k. inl refl)
  handle_message-Shape inputs (global_store_update u) s = inl refl

  pub handle_event-Shape :
      (inputs : Inputs) (e : Event) (s : Adapter) → Shape s (handle_event inputs e s).1
  unfolding handle_event
  handle_event-Shape inputs (received m) s = handle_message-Shape inputs m s
  handle_event-Shape inputs tick s = inl refl
