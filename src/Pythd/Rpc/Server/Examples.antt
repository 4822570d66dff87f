-- ===== src/Pythd/Rpc/Server/Examples.antt =====
-- Websockets before and after the shutdown.
use pyth_agent.Prelude.{
  ℕ, ◌≡◌, ◌+◌, refl, not, ◌==◌, List, [], ◌∷◌, none, some, ok, err, String, Option,
}
use pyth_agent.Startup.Config.{default_server}
use pyth_agent.Pythd.Rpc.Dispatch.{Channels}
use pyth_agent.Pythd.Rpc.Server.{
  ServerEvent, upgraded, shutdown, bad_address, new, accept_all, serve,
}

abbrev events : List ServerEvent
events = upgraded ∷ upgraded ∷ shutdown ∷ upgraded ∷ []

abbrev own : ℕ → Channels
own n = record { notify_price_tx = n; notify_price_sched_tx = n + 1 }

two_connections :
    serve (λ n. not (n == 0)) some events (new default_server 5)
    ≡ ok (record {
      config = default_server;
      next_channel = 9;
      connections = some (own 5) ∷ some (own 7) ∷ [];
    })
unfolding serve new
two_connections = refl

abbrev unreadable : String → Option ℕ
unreadable s = none

no_address : serve (λ n. not (n == 0)) unreadable events (new default_server 5) ≡ err bad_address
unfolding serve new
no_address = refl

no_buffer :
    accept_all
      (λ n. not (n == 0))
      events
      (new (record default_server { notify_price_tx_buffer = 0 }) 5)
    ≡ record {
      config = record default_server { notify_price_tx_buffer = 0 };
      next_channel = 9;
      connections = none ∷ none ∷ [];
    }
unfolding accept_all new
no_buffer = refl
