-- ===== src/Pythd/Rpc/Examples.antt =====
-- A small JSON library, and the theorems about the API at concrete inputs.
use Prim.Native.String.{String}
use pyth_agent.Prelude.{
  ℕ, ◌≡◌, refl, Bool, true, false, List, [], ◌∷◌, map, Option, none, some, ok, err, if◌then◌else◌,
  ◌==◌,
}
use pyth_agent.Prelude.Int.{pos}
use pyth_agent.Samples.{sample_env, letters}
use pyth_agent.Solana.{trading}
use pyth_agent.Store.Local as Local
use pyth_agent.Prelude.Maps.{lookup, nat_key, dec_string}
use pyth_agent.Pythd.Status.{map_status}
use pyth_agent.Pythd.Views as Views
use pyth_agent.Pythd.Adapter as Adapter
use pyth_agent.Pythd.Adapter.{Inputs, Turn}
use pyth_agent.Store.Global.{GlobalStoreUpdate}
use pyth_agent.Pythd.Api.{NotifyPrice}
use pyth_agent.Pythd.Rpc.{Request, Jrpc, get_product, subscribe_price, update_price, adapter_failed}
use pyth_agent.Pythd.Rpc.Dispatch.{Channels, perform, deserialize_params}
use pyth_agent.Pythd.Rpc.Connection.{text, ws_message, ws_end, parse, consume, Event}
use pyth_agent.Pythd.Rpc.Connection.Client.{run_all, until_end, consume-run_all}
use pyth_agent.Pythd.Rpc.Backend.{World, Backend, port, local_messages}
use pyth_agent.Pythd.Rpc.Backend.Subscriptions.{IsNotified, subscribe_price-IsNotified}
use pyth_agent.Pythd.Rpc.Backend.Requests.{get_product-result, perform-update_price}

data Value : Type 0 where
  item : String → Value
  items : List String → Value

abbrev as_array : Value → Option (List Value)
as_array (item s) = none
as_array (items ss) = some (map item ss)

abbrev to_string : Value → Option String
to_string (item s) = some s
to_string (items ss) = none

-- Texts of one letter ask for a product, and longer ones are updates.
abbrev parse_request : String → Option (Request ℕ Value)
parse_request String.[] = none
parse_request (String.◌∷◌ c String.[]) =
    some (record { method = get_product; id = some 7; params = some (item "xx") })
parse_request (String.◌∷◌ c (String.◌∷◌ d s)) =
    some (record { method = update_price; id = none; params = some (item "xx") })

abbrev lib : Jrpc
lib = record {
  RequestId = ℕ;
  id_zero = 0;
  Json = Value;
  from_str = λ s. some (if letters s == 4 then items ("x" ∷ "xx" ∷ []) else item s);
  as_array = as_array;
  to_string = to_string;
  parse_request = parse_request;
  get_product_params =
      λ j. elim (to_string j) [ some s ↦ some (record { account = s }) | none ↦ none ];
  subscribe_price_params =
      λ j. elim (to_string j) [ some s ↦ some (record { account = s }) | none ↦ none ];
  subscribe_price_sched_params =
      λ j. elim (to_string j) [ some s ↦ some (record { account = s }) | none ↦ none ];
  update_price_params = λ j. elim (to_string j) [
    | some s ↦ some (record { account = s; price = pos 5; conf = 1; status = "trading" })
    | none ↦ none
  ];
  to_value = λ p. some (item "done");
  is_encodable = λ f. true;
}

abbrev tx : Channels
tx = record { notify_price_tx = 1; notify_price_sched_tx = 2 }

abbrev world : ℕ → World
world n = record {
  is_gone = false;
  before = [];
  was_open = λ c. true;
  inputs = record {
    is_open = λ c. true;
    reader_open = true;
    all_accounts_metadata = none;
    all_accounts_data = some (record { product_accounts = []; price_accounts = [] });
    local_store_open = true;
    now = pos 5;
  };
}

abbrev backend : Backend
backend = record { asked = 0; adapter = Adapter.new; to_local_store = [] }

abbrev events : List (Bool × Event)
events =
    (true, ws_message none)
    ∷ (true, ws_message (some (text "xx")))
    ∷ (true, ws_end)
    ∷ (true, ws_message (some (text "x")))
    ∷ []

consume-run_all_example :
    consume lib (port world) tx events backend
    ≡ run_all lib (port world) tx (until_end events) backend
consume-run_all_example = consume-run_all lib (port world) tx events backend

get_product-result_example :
    (perform lib (port world) tx get_product (some (item "xx")) backend).0
    ≡ err (adapter_failed Adapter.product_not_found)
unfolding letters deserialize_params Views.get_product lookup
get_product-result_example = get_product-result lib tx world (some (item "xx")) backend

perform-update_price_example :
    let r = perform lib (port world) tx update_price (some (item "xx")) backend in
    (r.0 ≡ ok (item "done"))
    × (r.1.to_local_store
        ≡ Local.update_price 2
            (record { status = trading; price = pos 5; conf = 1; timestamp = pos 5 })
          ∷ [])
unfolding letters map_status dec_string Adapter.run local_messages
perform-update_price_example =
    perform-update_price lib tx world (item "xx")
      (record { account = "xx"; price = pos 5; conf = 1; status = "trading" }) backend refl refl

abbrev update : GlobalStoreUpdate
update = record {
  price_identifier = 2;
  price = pos 100;
  conf = 1;
  status = trading;
  valid_slot = 8;
  pub_slot = 9;
}

abbrev turn_of : Adapter.Event → Turn
turn_of e = record { was_open = λ c. true; inputs = (world 0).inputs; event = e }

abbrev last : Turn
last = turn_of (Adapter.received (Adapter.global_store_update update))

is_two : sample_env.parse "xx" ≡ some 2
unfolding letters
is_two = refl

subscribe_price-IsNotified_example :
    ((perform lib (port world) tx subscribe_price (some (item "xx")) backend).0 ≡ ok (item "done"))
    × ((v : NotifyPrice) × IsNotified lib tx world
          (item "xx")
          (record { account = "xx" })
          2
          backend
          refl
          refl
          is_two
          (turn_of Adapter.tick ∷ [])
          last
          update
          v)
subscribe_price-IsNotified_example =
    subscribe_price-IsNotified lib tx world (item "xx") (record { account = "xx" }) 2 backend refl
      refl is_two (turn_of Adapter.tick ∷ []) last update (refl, tt) refl (λ c o. o) refl refl
