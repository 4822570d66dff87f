-- ===== src/Pythd/Rpc/Backend/Requests.antt =====
-- Requests of the API and what the adapter makes of them, together.
use pyth_agent.Prelude.{
  ℕ, ◌≡◌, refl, false, List, [], ◌∷◌, ◌++◌, Option, none, some, String, Result, err, ok_or, ◌>>=◌,
  if◌then◌else◌, inl, inr, Bool-cases, Option-cases,
}
use pyth_agent.Solana.{Env}
use pyth_agent.Store.Local as Local
use pyth_agent.Pythd.Api.{ProductAccount}
use pyth_agent.Pythd.Status.{map_status}
use pyth_agent.Pythd.Views as Views
use pyth_agent.Pythd.Adapter.{
  Inputs, run, step, handle_event, handle_message, with_account, handle_get_product, reply,
  handle_update_price, global_store_gone, product_not_found,
}
use pyth_agent.Pythd.Rpc.{
  Jrpc, Error, adapter_gone, no_answer, adapter_failed, not_encoded, product, zero_result,
  get_product, update_price, UpdatePriceParams,
}
use pyth_agent.Pythd.Rpc.Dispatch.{
  Channels, deserialize_params, received, encoded, taken_result, perform,
}
use pyth_agent.Pythd.Rpc.Backend.{World, Backend, local_messages, ask, port}

module _ ⦃env : Env⦄ where
  -- The product that a request for an account is about, or the first reason that there is none.
  abbrev pub product_for : World → String → Result Error ProductAccount
  product_for w account =
      if w.is_gone
      then err adapter_gone
      else (ok_or (env.parse account) no_answer >>= λ key.
          ok_or w.inputs.all_accounts_data (adapter_failed global_store_gone) >>= λ accounts.
          ok_or (Views.get_product accounts key) (adapter_failed product_not_found))

  -- The message that an update makes for the local store: none where the account is no key, the status is
  -- none, or the local store does not listen.
  abbrev pub accepted : Inputs → UpdatePriceParams → List Local.Message
  accepted inputs p = elim (env.parse p.account) [
    | none ↦ []
    | some key ↦ elim (map_status p.status) [
      | none ↦ []
      | some status ↦
          if inputs.local_store_open
          then Local.update_price key
              (record { status = status; price = p.price; conf = p.conf; timestamp = inputs.now })
            ∷ []
          else []
    ]
  ]

  module _ (lib : Jrpc) (tx : Channels) (world : ℕ → World) where
    -- A request for a product is answered with the product that the global store has then for the key that
    -- the account stands for. Otherwise it is answered with the first of these that fails: the parameters,
    -- the adapter's channel, the key, the global store, the lookup, the encoding of the result.
    pub get_product-result :
        (params : Option lib.Json) (b : Backend)
        → (perform lib (port world) tx get_product params b).0 ≡ (
            deserialize_params lib.get_product_params params >>= λ p.
            product_for (world b.asked) p.account >>= λ v.
            ok_or (lib.to_value (product v)) not_encoded)
    unfolding perform deserialize_params encoded received port ask step handle_event handle_message
        with_account handle_get_product reply
    get_product-result none b = refl
    get_product-result (some json) b = elim (Option-cases (lib.get_product_params json)) [
      | inl e ↦ rw (e) refl
      | inr (p, e) ↦ elim (Bool-cases (world b.asked).is_gone) [
        | inl g ↦ rw (e, g) refl
        | inr g ↦ elim (Option-cases (env.parse p.account)) [
          | inl n ↦ rw (e, g, step, with_account, n) refl
          | inr (key, k) ↦ elim (Option-cases (world b.asked).inputs.all_accounts_data) [
            | inl d ↦ rw (e, g, step, with_account, k, handle_get_product, d) refl
            | inr (accounts, d) ↦ elim (Option-cases (Views.get_product accounts key)) [
              | inl v ↦ rw (e, g, step, with_account, k, handle_get_product, d, v) refl
              | inr (view, v) ↦ rw (e, g, step, with_account, k, handle_get_product, d, v) refl
            ]
          ]
        ]
      ]
    ]

    -- Where the parameters of an update are read and the adapter is not gone, the response does not depend
    -- on the update. The adapter sends the local store the price with the clock's time, after the
    -- messages that it had to send before, exactly where the account is a key, the status is one, and the
    -- local store listens.
    pub perform-update_price :
        (json : lib.Json) (p : UpdatePriceParams) (b : Backend)
        → lib.update_price_params json ≡ some p
        → (world b.asked).is_gone ≡ false
        → let w = world b.asked in
          let r = perform lib (port world) tx update_price (some json) b in
          (r.0 ≡ ok_or (lib.to_value zero_result) not_encoded)
          × (r.1.to_local_store
              ≡ b.to_local_store
                ++ local_messages (run w.before b.adapter).0
                ++ accepted w.inputs p)
    unfolding perform deserialize_params taken_result port ask step handle_event handle_message
        with_account handle_update_price local_messages
    perform-update_price json p b e g = elim (Option-cases (env.parse p.account)) [
      | inl n ↦ rw (e, g, accepted, step, with_account, n) (refl, refl)
      | inr (key, k) ↦ elim (Option-cases (map_status p.status)) [
        | inl n ↦ rw (e, g, accepted, step, with_account, k, handle_update_price, n) (refl, refl)
        | inr (status, h) ↦ elim (Bool-cases (world b.asked).inputs.local_store_open) [
          | inl o ↦
              rw (e, g, accepted, step, with_account, k, handle_update_price, h, o) (refl, refl)
          | inr o ↦
              rw (e, g, accepted, step, with_account, k, handle_update_price, h, o) (refl, refl)
        ]
      ]
    ]
