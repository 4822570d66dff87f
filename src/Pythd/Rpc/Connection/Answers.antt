-- ===== src/Pythd/Rpc/Connection/Answers.antt =====
-- What the messages to `Connection::handle` of api.rs are answered with.
use pyth_agent.Prelude.{◌≡◌, Bool, true, false, List, [], ◌∷◌, map, Result, ok, err}
use pyth_agent.Pythd.Rpc.{
  Error, Response, success, error, Frame, responses, response, error_response, Jrpc,
}
use pyth_agent.Pythd.Rpc.Dispatch.{request_id}
use pyth_agent.Pythd.Rpc.Connection.{Requests}

abbrev pub response_id : {RequestId J : Type 0} → Response RequestId J → RequestId
response_id (success id payload) = id
response_id (error id e) = id

module _ (lib : Jrpc) where
  -- The frame that answers what a message was parsed into: a message that is no request has one error
  -- with the identifier zero, a single request one response with its identifier, and a batch the
  -- responses with the identifiers of its requests in their order. No frame answers the empty list that
  -- is not a batch.
  abbrev pub IsAnswer : Result Error (Requests lib × Bool) → Frame lib.RequestId lib.Json → Type 0
  IsAnswer (err e) f = f ≡ error_response (error lib.id_zero e)
  IsAnswer (ok (requests, true)) f =
      (rs : List (Response lib.RequestId lib.Json)) × (f ≡ responses rs)
      × (map response_id rs ≡ map (request_id lib) requests)
  IsAnswer (ok (request ∷ [], false)) f =
      (r : Response lib.RequestId lib.Json) × (f ≡ response r)
      × (response_id r ≡ request_id lib request)
  IsAnswer (ok ([], false)) f = ⊥
  IsAnswer (ok (request ∷ more ∷ requests, false)) f = ⊥

  -- Only a list of one request is not a batch.
  abbrev IsSingle : Result Error (Requests lib × Bool) → Type 0
  IsSingle (err e) = Unit
  IsSingle (ok (requests, true)) = Unit
  IsSingle (ok ([], false)) = ⊥
  IsSingle (ok (request ∷ [], false)) = Unit
  IsSingle (ok (request ∷ more ∷ requests, false)) = ⊥
