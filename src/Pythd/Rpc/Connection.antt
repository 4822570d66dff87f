-- ===== src/Pythd/Rpc/Connection.antt =====
-- A websocket connection of api.rs: `Connection::consume`, with what it calls for a message.
pub mod Answers
pub mod Client
use pyth_agent.Prelude.{
  ℕ, Bool, true, false, List, [], ◌∷◌, Option, none, some, String, Result, ok, err, ok_or, ◌>>=◌,
  if◌then◌else◌,
}
use pyth_agent.Pythd.Api.{NotifyPrice, NotifyPriceSched}
use pyth_agent.Pythd.Rpc.{
  Request, Error, bad_json, bad_request, not_encoded, websocket_failed, websocket_connection_closed,
  send_failed, Response, error, Frame, responses, response, error_response, price_notification,
  price_sched_notification, Jrpc, AdapterPort,
}
use pyth_agent.Pythd.Rpc.Dispatch.{Channels, dispatch_all}

-- A websocket message: a text, or one of another kind.
pub data WsMessage : Type 0 where
  text : String → WsMessage
  other : WsMessage

-- The event that `handle_next` selects. `ws_message` holds what the websocket gave, an error
-- included; `ws_end` is its end.
pub data Event : Type 0 where
  ws_message : Option WsMessage → Event
  ws_end : Event
  notified_price : NotifyPrice → Event
  notified_price_sched : NotifyPriceSched → Event

-- The result, and the frames sent.
pub record Output (RequestId Json : Type 0) : Type 0 where
  pub result : Result Error (Unit {0})
  pub sent : List (Frame RequestId Json)

abbrev pub is_closed : Result Error (Unit {0}) → Bool
is_closed (err websocket_connection_closed) = true
is_closed _ = false

module _ (lib : Jrpc) where
  abbrev pub Requests : Type 0
  Requests = List (Request lib.RequestId lib.Json)

  unfoldable pub parse_all : List lib.Json → Result Error Requests
  parse_all [] = ok []
  parse_all (json ∷ jsons) =
      let rest = parse_all jsons in
      ok_or (lib.to_string json) not_encoded >>= λ s.
      ok_or (lib.parse_request s) bad_request >>= λ request.
      rest >>= λ requests. ok (request ∷ requests)

  unfoldable pub parse_value : String → Option (List lib.Json) → Result Error (Requests × Bool)
  unfolding parse_all
  parse_value s (some array) = parse_all array >>= λ requests. ok (requests, true)
  parse_value s none = ok_or (lib.parse_request s) bad_request >>= λ single. ok (single ∷ [], false)

  -- The requests, and whether they are a batch.
  unfoldable pub parse : String → Result Error (Requests × Bool)
  unfolding parse_value
  parse s = ok_or (lib.from_str s) bad_json >>= λ json. parse_value s (lib.as_array json)

  -- `ws_open` says whether the websocket takes a text.
  unfoldable pub send_text :
      (ws_open : Bool) → Frame lib.RequestId lib.Json → Output lib.RequestId lib.Json
  send_text true frame = record { result = ok tt; sent = frame ∷ [] }
  send_text false frame = record { result = err send_failed; sent = [] }

  -- The text of responses is made by the JSON library, which may refuse.
  unfoldable pub send_encoded :
      (ws_open : Bool) → Frame lib.RequestId lib.Json → Output lib.RequestId lib.Json
  unfolding send_text
  send_encoded ws_open frame =
      if lib.is_encodable frame
      then send_text ws_open frame
      else record { result = err not_encoded; sent = [] }

  unfoldable pub send_error : (ws_open : Bool) → Error → Output lib.RequestId lib.Json
  unfolding send_text
  send_error ws_open e = send_text ws_open (error_response (error lib.id_zero e))

  -- `responses[0]` of a single request.
  unfoldable pub to_frame :
      Bool → List (Response lib.RequestId lib.Json) → Frame lib.RequestId lib.Json
  to_frame false (r ∷ rs) = response r
  to_frame false [] = responses []
  to_frame true rs = responses rs

module _ (lib : Jrpc) {S : Type 0} (port : AdapterPort S) (tx : Channels) where
  unfoldable pub handle_parsed :
      (ws_open : Bool) → Result Error (Requests lib × Bool) → S → Output lib.RequestId lib.Json × S
  unfolding dispatch_all send_encoded to_frame send_error
  handle_parsed ws_open (err e) s = (send_error lib ws_open e, s)
  handle_parsed ws_open (ok (requests, is_batch)) s =
      let r = dispatch_all lib port tx requests s in
      (send_encoded lib ws_open (to_frame lib is_batch r.0), r.1)

  -- Control and binary messages are ignored.
  unfoldable pub handle : (ws_open : Bool) → WsMessage → S → Output lib.RequestId lib.Json × S
  unfolding handle_parsed parse
  handle ws_open other s = (record { result = ok tt; sent = [] }, s)
  handle ws_open (text t) s = handle_parsed ws_open (parse lib t) s

  unfoldable pub handle_next : (ws_open : Bool) → Event → S → Output lib.RequestId lib.Json × S
  unfolding handle send_error send_text
  handle_next ws_open (ws_message (some msg)) s = handle ws_open msg s
  handle_next ws_open (ws_message none) s = (send_error lib ws_open websocket_failed, s)
  handle_next ws_open ws_end s = (record { result = err websocket_connection_closed; sent = [] }, s)
  handle_next ws_open (notified_price n) s = (send_text lib ws_open (price_notification n), s)
  handle_next ws_open (notified_price_sched n) s =
      (send_text lib ws_open (price_sched_notification n), s)

  -- The loop ends where the websocket has ended; any other error is logged.
  unfoldable pub consume : List (Bool × Event) → S → List (Output lib.RequestId lib.Json) × S
  unfolding handle_next
  consume [] s = ([], s)
  consume ((ws_open, e) ∷ es) s =
      let r = handle_next ws_open e s in
      let rest = consume es r.1 in
      if is_closed r.0.result then (r.0 ∷ [], r.1) else (r.0 ∷ rest.0, rest.1)
