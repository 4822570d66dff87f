-- ===== src/Agent/Reading/Notices.antt =====
-- What the clients are notified of.
use pyth_agent.Prelude.{
  ◌≡◌, refl, sym, subst, ap, inl, inr, Bool, true, false, List, [], ◌∷◌, Option, In, All, arith,
}
use pyth_agent.Prelude.{ℕ}
use pyth_agent.Prelude.Int.{ℤ}
use pyth_agent.Solana.{Pubkey, PriceStatus, Identifier, PriceEntry, Env}
use pyth_agent.Store.Global.{GlobalStoreUpdate}
use pyth_agent.Pythd.Api.{PriceUpdate}
use pyth_agent.Pythd.Status.{price_status_to_str}
use pyth_agent.Pythd.Adapter.Accounts.{with_account-cases}
use pyth_agent.Pythd.Adapter.{
  Inputs, Adapter, Channel, Subscription, Turn, Event, Notice, Answer, notify_price,
  notify_price_sched, received, tick, global_store_update, get_product_list, get_product,
  get_all_products, subscribe_price, subscribe_price_sched, update_price, handle_message,
  handle_event, step, reply, sched_notice, price_notice, send_notify_price_sched,
  handle_update_price, flatten_values, send_all,
}
use pyth_agent.Oracle as Oracle
use pyth_agent.Agent.Reading.{IsOwnTurn}
use pyth_agent.Agent.Reading.Origin.{WasRead, WasRead-later, IsReadNotice}
use pyth_agent.Agent.Reading.Asked.{
  WasAsked, WasAsked-later, AreAsked, In-send_all, In-update_notices,
}

module _ ⦃env : Env⦄ {Account : Type 0} (load_price_account : Account → Option PriceEntry) where
  -- What a client is told of an account.
  abbrev pub told : PriceEntry → PriceUpdate
  told e = record {
    price = e.agg.price;
    conf = e.agg.conf;
    status = price_status_to_str e.agg.status;
    valid_slot = e.valid_slot;
    pub_slot = e.agg.pub_slot;
  }

  -- A notification of a price goes to a client that asked for it, and tells of an account under its
  -- key that the oracle of the primary network read.
  abbrev pub IsTrue : List (Oracle.Event Account) → List Turn → Notice → Type 0
  IsTrue events turns (notify_price c n) =
      (k : Identifier) × (e : PriceEntry) × WasRead load_price_account events k e
      × WasAsked turns k c
      × (n.result ≡ told e)
  IsTrue events turns (notify_price_sched c n) = Unit

  pub IsTrue-read :
      (ev : Oracle.Event Account) (events : List (Oracle.Event Account)) (turns : List Turn)
      (n : Notice)
      → IsTrue events turns n
      → IsTrue (ev ∷ events) turns n
  IsTrue-read ev events turns (notify_price c n) (k, e, r, a, same) =
      (k, e, WasRead-later load_price_account ev events k e r, a, same)
  IsTrue-read ev events turns (notify_price_sched c n) h = tt

  pub IsTrue-asked :
      (events : List (Oracle.Event Account)) (t : Turn) (turns : List Turn) (n : Notice)
      → IsTrue events turns n
      → IsTrue events (t ∷ turns) n
  IsTrue-asked events t turns (notify_price c n) (k, e, r, a, same) =
      (k, e, r, WasAsked-later t turns k c a, same)
  IsTrue-asked events t turns (notify_price_sched c n) h = tt

  pub IsReadNotice-later :
      (ev : Oracle.Event Account) (events : List (Oracle.Event Account)) (g : GlobalStoreUpdate)
      → IsReadNotice load_price_account events g
      → IsReadNotice load_price_account (ev ∷ events) g
  IsReadNotice-later ev events g (k, e, r, same) =
      (k, e, WasRead-later load_price_account ev events k e r, same)

  all-In : {A : Type 0} (P : A → Type 0) (xs : List A) → ((x : A) → In x xs → P x) → All P xs
  all-In P [] h = tt
  all-In P (x ∷ xs) h = (h x (inl refl), all-In P xs (λ y m. h y (inr m)))

  pub notify-IsTrue :
      (events : List (Oracle.Event Account)) (turns : List Turn) (t : Turn) (u : GlobalStoreUpdate)
      (a : Adapter)
      → t.event ≡ received (global_store_update u)
      → IsReadNotice load_price_account events u
      → AreAsked turns a
      → All (IsTrue events (t ∷ turns)) (step t a).0.sent
  unfolding price_notice
  notify-IsTrue events turns t u a event (k, e, r, same) h =
      all-In (IsTrue events (t ∷ turns)) (step t a).0.sent λ n m.
        let (sub, asked, made) = In-update_notices t turns u a n event h m in
        subst (IsTrue events (t ∷ turns)) made (
          k,
          e,
          r,
          subst (λ i. WasAsked (t ∷ turns) i sub.channel)
              (sym (ap (λ (g : GlobalStoreUpdate). g.price_identifier) same)) asked,
          ap
              (λ (g : GlobalStoreUpdate). record {
                price = g.price;
                conf = g.conf;
                status = price_status_to_str g.status;
                valid_slot = g.valid_slot;
                pub_slot = g.pub_slot;
              })
              (sym same),
        )

  sched-IsTrue :
      (events : List (Oracle.Event Account)) (turns : List Turn) (is_open : Channel → Bool)
      (subs : List Subscription)
      → All (IsTrue events turns) (send_all is_open sched_notice subs).1
  sched-IsTrue events turns is_open subs =
      all-In (IsTrue events turns) (send_all is_open sched_notice subs).1 λ n m.
        let (sub, i, made) = In-send_all n is_open sched_notice subs m in
        subst (IsTrue events turns) made tt

  reply-quiet : (reader_open : Bool) (answer : Answer) → (reply reader_open answer).sent ≡ []
  unfolding reply
  reply-quiet true answer = refl
  reply-quiet false answer = refl

  update-quiet :
      (inputs : Inputs) (k : Pubkey) (p : ℤ) (c : ℕ) (status : Option PriceStatus)
      → (handle_update_price inputs k p c status).sent ≡ []
  unfolding handle_update_price
  update-quiet inputs k p c status = ground arith

  pub own-IsTrue :
      (events : List (Oracle.Event Account)) (turns : List Turn) (t : Turn) (a : Adapter)
      (e : Event)
      → IsOwnTurn e
      → All (IsTrue events turns) (handle_event t.inputs e a).0.sent
  unfolding handle_event handle_message send_notify_price_sched
  own-IsTrue events turns t a tick own =
      sched-IsTrue events turns t.inputs.is_open (flatten_values a.notify_price_sched_subscriptions)
  own-IsTrue events turns t a (received (global_store_update u)) own = absurd own
  own-IsTrue events turns t a (received get_product_list) own =
      rw (reply-quiet t.inputs.reader_open _) tt
  own-IsTrue events turns t a (received get_all_products) own =
      rw (reply-quiet t.inputs.reader_open _) tt
  own-IsTrue events turns t a (received (get_product account)) own =
      with_account-cases (λ r. All (IsTrue events turns) r.0.sent) account a _ tt
        (λ key k. rw (reply-quiet t.inputs.reader_open _) tt)
  own-IsTrue events turns t a (received (subscribe_price account tx)) own =
      with_account-cases (λ r. All (IsTrue events turns) r.0.sent) account a _ tt
        (λ key k. rw (reply-quiet t.inputs.reader_open _) tt)
  own-IsTrue events turns t a (received (subscribe_price_sched account tx)) own =
      with_account-cases (λ r. All (IsTrue events turns) r.0.sent) account a _ tt
        (λ key k. rw (reply-quiet t.inputs.reader_open _) tt)
  own-IsTrue events turns t a (received (update_price account p c status)) own =
      with_account-cases (λ r. All (IsTrue events turns) r.0.sent) account a _ tt
        (λ key k. rw (update-quiet t.inputs key p c _) tt)
