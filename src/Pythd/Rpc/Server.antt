-- ===== src/Pythd/Rpc/Server.antt =====
-- The server of api.rs, which makes a connection of each websocket. The library that listens is left
-- out: what it brings is a list of events, and reading the address is a parameter. A channel is a
-- number that no other channel has.
pub mod Connections
mod Examples
use pyth_agent.Prelude.{
  ℕ, suc, ◌+◌, ◌<◌, ◌≤◌, ◌≡◌, refl, Bool, true, false, List, [], ◌∷◌, ◌++◌, Option, none, some,
  String, Result, ok, err, ok_or, ◌>>=◌, ◌&&◌, ℕ_discrete, arith, if◌then◌else◌, In, inl, inr,
  Bool-cases, All,
}
use pyth_agent.Prelude.Maps.{nat_key, contains, AreDistinct}
use pyth_agent.Startup.Config.{ServerConfig}
use pyth_agent.Pythd.Adapter.{Channel}
use pyth_agent.Pythd.Rpc.Dispatch.{Channels}

-- A websocket is opened, or the shutdown channel gives something or is closed.
pub data ServerEvent : Type 0 where
  upgraded shutdown : ServerEvent

-- The first channel that is not used, and the connections, in order. `none` is one whose task panicked
-- as it made its channels.
pub record Server : Type 0 where
  pub config : ServerConfig
  pub next_channel : Channel
  pub connections : List (Option Channels)

pub data ServerError : Type 0 where
  bad_address : ServerError

unfoldable pub new : ServerConfig → Channel → Server
new config first = record { config = config; next_channel = first; connections = [] }

module _ (takes_capacity : ℕ → Bool) where
  -- `Connection::new`, whose two channels have the capacities of the configuration.
  unfoldable pub new_connection : ServerConfig → Channel → Option Channels
  new_connection config first =
      if takes_capacity config.notify_price_tx_buffer
        && takes_capacity config.notify_price_sched_tx_buffer
      then some (record { notify_price_tx = first; notify_price_sched_tx = suc first })
      else none

  unfoldable pub accept : Server → Server
  unfolding new_connection
  accept s = record s {
    next_channel = suc (suc s.next_channel);
    connections = s.connections ++ new_connection s.config s.next_channel ∷ [];
  }

  -- Up to the shutdown.
  unfoldable pub accept_all : List ServerEvent → Server → Server
  unfolding accept
  accept_all [] s = s
  accept_all (shutdown ∷ es) s = s
  accept_all (upgraded ∷ es) s = accept_all es (accept s)

  -- `Server::serve`.
  unfoldable pub serve :
      {Address : Type 0}
      → (parse_address : String → Option Address) → List ServerEvent
      → Server
      → Result ServerError Server
  unfolding accept_all
  serve parse_address es s =
      ok_or (parse_address s.config.listen_address) bad_address >>= λ _. ok (accept_all es s)
