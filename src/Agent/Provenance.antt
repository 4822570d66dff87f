-- ===== src/Agent/Provenance.antt =====
-- Where the prices come from that the agent hands to the networks.
use pyth_agent.Prelude.{All}
use pyth_agent.Prelude.Maps.{nat_key}
use pyth_agent.Solana.{Env}
use pyth_agent.Store.Local as Local
use pyth_agent.Store.Local.{Prices, Store, is_stale}
use pyth_agent.Agent.{Config, State}
use pyth_agent.Agent.Client.{AreClientPrices, IsClientMessage}
use pyth_agent.Agent.Updates.{IsPublished}

module _ ⦃env : Env⦄ where
  -- Every price on its way is one that a client sent.
  record IsTraced (config : Config env.Keypair) (s : State env.F64 env.Keypair) : Type 0 where
    channel : All (IsClientMessage s.turns) s.local_store_rx
    stored : AreClientPrices s.turns s.local_store.prices
    answered : All (AreClientPrices s.turns) s.answers
    sent : All (IsPublished config s.turns) s.sent
