-- ===== src/Startup/Ends.antt =====
-- Which channels a task reads and writes, and what goes through them.
use pyth_agent.Prelude.{
  Bool, true, false, ◌≡◌, inl, inr, subst, refl, List, [], ◌∷◌, ◌++◌, In, In-append_cases,
  Bool-cases, arith, ℕ_discrete, ite,
}
use mathlib.Core.Logic.{if_neg}
use pyth_agent.Startup.Tasks.{
  Channel, NetworkTask, subscriber, poller, oracle, network_state_querier, transaction_monitor,
  exporter, Task, network, global_store, local_store, adapter, api_server, metrics_server,
  keypair_requests, keypair_uploads,
}

-- What a channel carries, and for which network.
pub data Message : Type 0 where
  account_updates polled permissions prices network_state transactions keypair_requests_of :
      (primary : Bool) → Message
  lookups local_messages adapter_messages shutdown : Message

dec_message : Discrete Message
dec_message = hlevel

-- One end of a channel.
abbrev pub End : Type 0
End = Message × Channel

unfoldable pub dec_end : Discrete End
unfolding dec_message
dec_end = hlevel (ℕ_discrete, dec_message)

unfoldable pub network_sends : {K : Type 0} → Bool → NetworkTask K → List End
network_sends p (subscriber _ _ _ _ _ updates_tx) = (account_updates p, updates_tx) ∷ []
network_sends p (poller data_tx permissions_tx _ _ _ _ _ _) =
    (polled p, data_tx) ∷ (permissions p, permissions_tx) ∷ []
network_sends p (oracle _ _ global_store_tx) = (prices p, global_store_tx) ∷ []
network_sends p (network_state_querier _ _ _ network_state_tx) =
    (network_state p, network_state_tx) ∷ []
network_sends p (transaction_monitor _ _ _ _) = []
network_sends p (exporter _ _ _ _ local_store_tx _ transactions_tx _ keypair_request_tx) =
    (local_messages, local_store_tx)
    ∷ (transactions p, transactions_tx)
    ∷ (keypair_requests_of p, keypair_request_tx)
    ∷ []

unfoldable pub network_receives : {K : Type 0} → Bool → NetworkTask K → List End
network_receives p (subscriber _ _ _ _ _ _) = []
network_receives p (poller _ _ _ _ _ _ _ _) = []
network_receives p (oracle data_rx updates_rx _) =
    (polled p, data_rx) ∷ (account_updates p, updates_rx) ∷ []
network_receives p (network_state_querier _ _ _ _) = []
network_receives p (transaction_monitor _ _ _ transactions_rx) =
    (transactions p, transactions_rx) ∷ []
network_receives p (exporter _ _ _ _ _ network_state_rx _ permissions_rx _) =
    (network_state p, network_state_rx) ∷ (permissions p, permissions_rx) ∷ []

unfoldable pub sends : {K : Type 0} → Task K → List End
unfolding network_sends
sends (network p t) = network_sends p t
sends (global_store _ _ _ pythd_adapter_tx) = (adapter_messages, pythd_adapter_tx) ∷ []
sends (local_store _) = []
sends (adapter _ _ lookup_tx local_store_tx _) =
    (lookups, lookup_tx) ∷ (local_messages, local_store_tx) ∷ []
sends (api_server _ adapter_tx _) = (adapter_messages, adapter_tx) ∷ []
sends (metrics_server _ local_store_tx lookup_tx) =
    (local_messages, local_store_tx) ∷ (lookups, lookup_tx) ∷ []
sends (keypair_requests _ _ _ _ _) = []
sends (keypair_uploads _) = []

unfoldable pub receives : {K : Type 0} → Task K → List End
unfolding network_receives
receives (network p t) = network_receives p t
receives (global_store lookup_rx primary_rx secondary_rx _) =
    (lookups, lookup_rx) ∷ (prices true, primary_rx) ∷ (prices false, secondary_rx) ∷ []
receives (local_store rx) = (local_messages, rx) ∷ []
receives (adapter _ message_rx _ _ shutdown_rx) =
    (adapter_messages, message_rx) ∷ (shutdown, shutdown_rx) ∷ []
receives (api_server _ _ shutdown_rx) = (shutdown, shutdown_rx) ∷ []
receives (metrics_server _ _ _) = []
receives (keypair_requests primary_rx secondary_rx _ _ _) =
    (keypair_requests_of true, primary_rx) ∷ (keypair_requests_of false, secondary_rx) ∷ []
receives (keypair_uploads _) = []

module _ {K : Type 0} (ends : Task K → List End) where
  unfoldable pub all_ends : List (Task K) → List End
  all_ends [] = []
  all_ends (t ∷ ts) = ends t ++ all_ends ts

  -- An end that some task has.
  pub In-all_ends :
      (e : End) (ts : List (Task K)) → In e (all_ends ts) → (t : Task K) × In t ts × In e (ends t)
  unfolding all_ends
  In-all_ends e [] m = absurd m
  In-all_ends e (t ∷ ts) m = elim (In-append_cases e (ends t) (all_ends ts) m) [
    | inl h ↦ (t, inl refl, h)
    | inr h ↦ let (u, i, j) = In-all_ends e ts h in (u, inr i, j)
  ]

has : End → List End → Bool
unfolding dec_end
has e [] = false
has e (y ∷ ys) = ite (dec_end y e) true (has e ys)

has-In : (e : End) (ys : List End) → has e ys ≡ true → In e ys
unfolding has
has-In e [] h = cc
has-In e (y ∷ ys) h = elim (dec_end y e) [
  | yes p ↦ inl p
  | no n ↦ inr (has-In e ys (rw (if_neg _ n) at h))
]

-- Whether each end of the first list is in the second.
unfoldable pub included : List End → List End → Bool
unfolding has
included [] ys = true
included (x ∷ xs) ys = elim (has x ys) [ true ↦ included xs ys | false ↦ false ]

pub included-In : (e : End) (xs ys : List End) → included xs ys ≡ true → In e xs → In e ys
unfolding included
included-In e [] ys h m = absurd m
included-In e (x ∷ xs) ys h m = elim (Bool-cases (has x ys)) [
  | inl p ↦ elim m [
    | inl same ↦ subst (λ z. In z ys) same (has-In x ys p)
    | inr r ↦ included-In e xs ys (rw (p, included) at h) r
  ]
  | inr q ↦ ground arith
]
