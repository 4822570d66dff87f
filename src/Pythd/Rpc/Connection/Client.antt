-- ===== src/Pythd/Rpc/Connection/Client.antt =====
-- The loop of a connection of api.rs.
use pyth_agent.Prelude.{
  ◌≡◌, refl, Bool, true, false, List, [], ◌∷◌, none, some, Result, ok, err, inl, inr, Bool-cases,
}
use pyth_agent.Pythd.Rpc.{Frame, Error, Jrpc, AdapterPort}
use pyth_agent.Pythd.Rpc.Dispatch.{Channels}
use pyth_agent.Pythd.Rpc.Connection.{
  Output, WsMessage, text, other, Event, ws_message, ws_end, notified_price, notified_price_sched,
  Requests, send_text, send_encoded, send_error, parse, handle_parsed, handle, handle_next,
  is_closed, consume,
}

-- The events up to the end of the websocket, the end included.
abbrev pub until_end : List (Bool × Event) → List (Bool × Event)
until_end [] = []
until_end ((ws_open, ws_end) ∷ es) = (ws_open, ws_end) ∷ []
until_end ((ws_open, ws_message m) ∷ es) = (ws_open, ws_message m) ∷ until_end es
until_end ((ws_open, notified_price n) ∷ es) = (ws_open, notified_price n) ∷ until_end es
until_end ((ws_open, notified_price_sched n) ∷ es) =
    (ws_open, notified_price_sched n) ∷ until_end es

module _ (lib : Jrpc) where
  send_text-is_closed :
      (ws_open : Bool) (f : Frame lib.RequestId lib.Json)
      → is_closed (send_text lib ws_open f).result ≡ false
  unfolding send_text
  send_text-is_closed true f = refl
  send_text-is_closed false f = refl

  send_error-is_closed :
      (ws_open : Bool) (e : Error) → is_closed (send_error lib ws_open e).result ≡ false
  unfolding send_error
  send_error-is_closed ws_open e = send_text-is_closed ws_open _

  send_encoded-is_closed :
      (ws_open : Bool) (f : Frame lib.RequestId lib.Json)
      → is_closed (send_encoded lib ws_open f).result ≡ false
  unfolding send_encoded
  send_encoded-is_closed ws_open f = elim (Bool-cases (lib.is_encodable f)) [
    | inl e ↦ rw (e) (send_text-is_closed ws_open f)
    | inr e ↦ rw (e) refl
  ]

  module _ {S : Type 0} (port : AdapterPort S) (tx : Channels) where
    handle_parsed-is_closed :
        (ws_open : Bool) (parsed : Result Error (Requests lib × Bool)) (s : S)
        → is_closed (handle_parsed lib port tx ws_open parsed s).0.result ≡ false
    unfolding handle_parsed
    handle_parsed-is_closed ws_open (err e) s = send_error-is_closed ws_open e
    handle_parsed-is_closed ws_open (ok (requests, is_batch)) s = send_encoded-is_closed ws_open _

    handle-is_closed :
        (ws_open : Bool) (m : WsMessage) (s : S)
        → is_closed (handle lib port tx ws_open m s).0.result ≡ false
    unfolding handle
    handle-is_closed ws_open other s = refl
    handle-is_closed ws_open (text t) s = handle_parsed-is_closed ws_open (parse lib t) s

    -- One event after the other, whatever comes out.
    abbrev pub run_all : List (Bool × Event) → S → List (Output lib.RequestId lib.Json) × S
    run_all [] s = ([], s)
    run_all ((ws_open, e) ∷ es) s =
        let r = handle_next lib port tx ws_open e s in
        let rest = run_all es r.1 in (r.0 ∷ rest.0, rest.1)

    -- The loop handles each event in turn up to the end of the websocket, whatever error an event makes,
    -- and nothing after that end.
    pub consume-run_all :
        (es : List (Bool × Event)) (s : S) → consume lib port tx es s ≡ run_all (until_end es) s
    unfolding consume handle_next
    consume-run_all [] s = refl
    consume-run_all ((ws_open, ws_end) ∷ es) s = refl
    consume-run_all ((ws_open, ws_message none) ∷ es) s =
        rw (send_error-is_closed ws_open _, consume-run_all es s) refl
    consume-run_all ((ws_open, ws_message (some m)) ∷ es) s =
        rw (handle-is_closed ws_open m s, consume-run_all es (handle lib port tx ws_open m s).1)
          refl
    consume-run_all ((ws_open, notified_price n) ∷ es) s =
        rw (send_text-is_closed ws_open _, consume-run_all es s) refl
    consume-run_all ((ws_open, notified_price_sched n) ∷ es) s =
        rw (send_text-is_closed ws_open _, consume-run_all es s) refl
