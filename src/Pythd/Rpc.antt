-- ===== src/Pythd/Rpc.antt =====
-- The JSON RPC side of src/agent/pythd/api.rs: requests, responses, and what a connection needs of
-- the JSON library and of the adapter.
pub mod Dispatch
pub mod Backend
pub mod Server
pub mod Connection
mod Examples
use pyth_agent.Prelude.{ℕ, Bool, List, Option, String, Result}
use pyth_agent.Prelude.Int.{ℤ}
use pyth_agent.Pythd.Api.{
  ProductAccountMetadata, ProductAccount, SubscriptionId, NotifyPrice, NotifyPriceSched,
}
use pyth_agent.Pythd.Adapter.{Channel}
use pyth_agent.Pythd.Adapter as Adapter

pub data Method : Type 0 where
  get_product_list get_product get_all_products subscribe_price notify_price subscribe_price_sched
        notify_price_sched update_price :
      Method

pub record GetProductParams : Type 0 where
  pub account : String

pub record SubscribePriceParams : Type 0 where
  pub account : String

pub record SubscribePriceSchedParams : Type 0 where
  pub account : String

pub record UpdatePriceParams : Type 0 where
  pub account : String
  pub price : ℤ
  pub conf : ℕ
  pub status : String

pub record SubscribeResult : Type 0 where
  pub subscription : SubscriptionId

-- A request without an identifier is a notification.
pub record Request (RequestId Json : Type 0) : Type 0 where
  pub method : Method
  pub id : Option RequestId
  pub params : Option Json

pub data Error : Type 0 where
  unsupported_method : Method → Error
  missing_params bad_params bad_json bad_request not_encoded : Error
  adapter_gone no_answer : Error
  adapter_failed : Adapter.Error → Error
  websocket_failed websocket_connection_closed send_failed : Error

-- Every error has the code `InternalError`.
pub data Response (RequestId Json : Type 0) : Type 0 where
  success : RequestId → Json → Response RequestId Json
  error : RequestId → Error → Response RequestId Json

-- What a successful request is answered with, before it becomes JSON.
pub data Payload : Type 0 where
  product_list : List ProductAccountMetadata → Payload
  product : ProductAccount → Payload
  all_products : List ProductAccount → Payload
  subscription : SubscribeResult → Payload
  zero_result : Payload

-- What is sent on the websocket: the responses to a batch, the response to a single request, the
-- response to a message that is no request, or a notification.
pub data Frame (RequestId Json : Type 0) : Type 0 where
  responses : List (Response RequestId Json) → Frame RequestId Json
  response : Response RequestId Json → Frame RequestId Json
  error_response : Response RequestId Json → Frame RequestId Json
  price_notification : NotifyPrice → Frame RequestId Json
  price_sched_notification : NotifyPriceSched → Frame RequestId Json

-- The libraries: JSON values and their texts, the parser of requests, the decoding of parameters and
-- the encoding of results. A frame's own text is `none` where it cannot be encoded.
pub record Jrpc : Type 1 where
  pub RequestId : Type 0
  pub id_zero : RequestId
  pub Json : Type 0
  pub from_str : String → Option Json
  pub as_array : Json → Option (List Json)
  pub to_string : Json → Option String
  pub parse_request : String → Option (Request RequestId Json)
  pub get_product_params : Json → Option GetProductParams
  pub subscribe_price_params : Json → Option SubscribePriceParams
  pub subscribe_price_sched_params : Json → Option SubscribePriceSchedParams
  pub update_price_params : Json → Option UpdatePriceParams
  pub to_value : Payload → Option Json
  pub is_encodable : Frame RequestId Json → Bool

-- What comes back for a message to the adapter: its channel is closed, or the sender of the answer
-- was dropped, or the adapter's answer.
pub data Reply (A : Type 0) : Type 0 where
  gone dropped : Reply A
  answered : Result Adapter.Error A → Reply A

-- The adapter as a connection sees it. `S` is the state of everything behind its channel.
pub record AdapterPort (S : Type 0) : Type 0 where
  pub get_product_list : S → Reply (List ProductAccountMetadata) × S
  pub get_product : String → S → Reply ProductAccount × S
  pub get_all_products : S → Reply (List ProductAccount) × S
  pub subscribe_price : String → Channel → S → Reply SubscriptionId × S
  pub subscribe_price_sched : String → Channel → S → Reply SubscriptionId × S
  pub update_price : String → ℤ → ℕ → String → S → (taken : Bool) × S
