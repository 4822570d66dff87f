-- ===== src/Pythd/Rpc/Dispatch.antt =====
-- One request: `dispatch_and_catch_error` of api.rs and the handlers that it calls.
use pyth_agent.Prelude.{
  Bool, true, false, List, [], ◌∷◌, Option, none, some, Result, ok, err, ok_or, ◌>>=◌,
}
use pyth_agent.Pythd.Adapter.{Channel}
use pyth_agent.Pythd.Rpc.{
  Method, get_product_list, get_product, get_all_products, subscribe_price, notify_price,
  subscribe_price_sched, notify_price_sched, update_price, Request, Error, unsupported_method,
  missing_params, bad_params, not_encoded, adapter_gone, no_answer, adapter_failed, Response,
  success, error, Payload, product_list, product, all_products, subscription, zero_result, Jrpc,
  Reply, gone, dropped, answered, AdapterPort,
}

-- The two ends of a connection's channels for notifications.
pub record Channels : Type 0 where
  pub notify_price_tx : Channel
  pub notify_price_sched_tx : Channel

unfoldable pub received : {A : Type 0} → Reply A → Result Error A
received gone = err adapter_gone
received dropped = err no_answer
received (answered (ok a)) = ok a
received (answered (err e)) = err (adapter_failed e)

unfoldable pub deserialize_params : {T J : Type 0} → (J → Option T) → Option J → Result Error T
deserialize_params decode value =
    ok_or value missing_params >>= λ json. ok_or (decode json) bad_params

module _ (lib : Jrpc) where
  -- A payload as JSON.
  unfoldable pub encoded : {A : Type 0} → (A → Payload) → Reply A → Result Error lib.Json
  unfolding received
  encoded payload r = received r >>= λ a. ok_or (lib.to_value (payload a)) not_encoded

  -- The adapter has taken the update; it tells no result.
  unfoldable pub taken_result : (taken : Bool) → Result Error lib.Json
  taken_result true = ok_or (lib.to_value zero_result) not_encoded
  taken_result false = err adapter_gone

  abbrev pub request_id : Request lib.RequestId lib.Json → lib.RequestId
  request_id request = elim request.id [ some id ↦ id | none ↦ lib.id_zero ]

  abbrev pub to_response : lib.RequestId → Result Error lib.Json → Response lib.RequestId lib.Json
  to_response id (ok payload) = success id payload
  to_response id (err e) = error id e

module _ (lib : Jrpc) {S : Type 0} (port : AdapterPort S) (tx : Channels) where
  -- With the parameters, or the error that they make.
  abbrev pub with_params :
      {T : Type 0}
      → Result Error T
      → S
      → (T → Result Error lib.Json × S)
      → Result Error lib.Json × S
  with_params (ok params) s handle = handle params
  with_params (err e) s handle = (err e, s)

  abbrev pub answer : {A : Type 0} → (A → Payload) → Reply A × S → Result Error lib.Json × S
  answer payload r = (encoded lib payload r.0, r.1)

  unfoldable pub perform : Method → Option lib.Json → S → Result Error lib.Json × S
  unfolding encoded deserialize_params taken_result
  perform get_product_list params s = answer product_list (port.get_product_list s)
  perform get_product params s =
      with_params (deserialize_params lib.get_product_params params) s
        λ p. answer product (port.get_product p.account s)
  perform get_all_products params s = answer all_products (port.get_all_products s)
  perform subscribe_price params s =
      with_params (deserialize_params lib.subscribe_price_params params) s λ p.
        answer (λ n. subscription (record { subscription = n }))
          (port.subscribe_price p.account tx.notify_price_tx s)
  perform subscribe_price_sched params s =
      with_params (deserialize_params lib.subscribe_price_sched_params params) s λ p.
        answer (λ n. subscription (record { subscription = n }))
          (port.subscribe_price_sched p.account tx.notify_price_sched_tx s)
  perform update_price params s =
      with_params (deserialize_params lib.update_price_params params) s λ p.
        (let r = port.update_price p.account p.price p.conf p.status s in
          (taken_result lib r.0, r.1))
  perform notify_price params s = (err (unsupported_method notify_price), s)
  perform notify_price_sched params s = (err (unsupported_method notify_price_sched), s)

  unfoldable pub dispatch_and_catch_error :
      Request lib.RequestId lib.Json → S → Response lib.RequestId lib.Json × S
  unfolding perform
  dispatch_and_catch_error request s =
      let r = perform request.method request.params s in
      (to_response lib (request_id lib request) r.0, r.1)

  -- The requests of a message, one after the other.
  unfoldable pub dispatch_all :
      List (Request lib.RequestId lib.Json) → S → List (Response lib.RequestId lib.Json) × S
  unfolding dispatch_and_catch_error
  dispatch_all [] s = ([], s)
  dispatch_all (request ∷ requests) s =
      let r = dispatch_and_catch_error request s in
      let rest = dispatch_all requests r.1 in (r.0 ∷ rest.0, rest.1)
