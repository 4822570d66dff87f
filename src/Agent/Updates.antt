-- ===== src/Agent/Updates.antt =====
-- The updates in the transactions of a round, where the local store holds what clients sent.
use pyth_agent.Prelude.{
  ℕ, ◌≡◌, refl, ◌⊎◌, inl, inr, subst, true, false, List, [], ◌∷◌, ◌++◌, map, Option, some, ok, In,
  All, All-mono, All-In, Bool-cases, Option-cases, length,
}
use pyth_agent.Prelude.Maps.{lookup, nat_key, In-insert, In-lookup}
use pyth_agent.Solana.{Pubkey, Identifier, Env}
use pyth_agent.Store.Price.{PriceInfo}
use pyth_agent.Store.Local as Local
use pyth_agent.Store.Local.{Prices, Store, is_stale}
use pyth_agent.Pythd.Adapter.{Turn}
use pyth_agent.Exporter as Exporter
use pyth_agent.Exporter.Instruction.{Instruction}
use pyth_agent.Exporter.Batch.{
  BatchOutput, Transaction, upd_price, compute_budget, create_instruction,
}
use pyth_agent.Exporter.Publish as Publish
use pyth_agent.Exporter.Publish.Sources.{IsOfBatch, publish_updates-IsOfBatch}
use pyth_agent.Agent.{Network, Config, sent_by, given, IsAnswered, HasAnswers, round}
use pyth_agent.Agent.Client.{ClientPrice, ClientPrice-later, AreClientPrices, IsClientMessage}

module _ ⦃env : Env⦄ where
  -- The instruction publishes the price that a client sent, for the identifier that it was sent for.
  pub record IsClientUpdate (n : Network env.Keypair) (turns : List Turn) (ins : Instruction)
      : Type 0 where
    pub identifier : Identifier
    pub price_info : PriceInfo
    pub from_client : ClientPrice turns identifier price_info
    pub publisher : Pubkey
    pub slot : ℕ
    pub made :
        create_instruction n.chain n.config n.key_store publisher identifier price_info slot
        ≡ ok ins

  -- A transaction for a network is made of such updates and the compute budget for their number.
  pub record PublishesClient (n : Network env.Keypair) (turns : List Turn)
      (tx : Transaction env.Keypair) : Type 0 where
    pub updates : List Instruction
    pub instructions :
        tx.instructions
        ≡ map upd_price updates ++ compute_budget n.chain n.config n.key_store (length updates)
    pub from_clients : All (IsClientUpdate n turns) updates

  -- A transaction for one of the agent's networks.
  abbrev pub IsPublished : Config env.Keypair → List Turn → Transaction env.Keypair → Type 0
  IsPublished config turns tx =
      PublishesClient config.primary_network turns tx
      ⊎ ((n : Network env.Keypair) × (config.secondary_network ≡ some n)
          × PublishesClient n turns tx)

  PublishesClient-later :
      (n : Network env.Keypair) (t : Turn) (ts : List Turn) (tx : Transaction env.Keypair)
      → PublishesClient n ts tx
      → PublishesClient n (t ∷ ts) tx
  PublishesClient-later n t ts tx p = record {
    updates = p.updates;
    instructions = p.instructions;
    from_clients =
        All-mono p.updates
          (λ ins u. record {
            identifier = u.identifier;
            price_info = u.price_info;
            from_client = ClientPrice-later t ts u.identifier u.price_info u.from_client;
            publisher = u.publisher;
            slot = u.slot;
            made = u.made;
          })
          p.from_clients;
  }

  pub IsPublished-later :
      (config : Config env.Keypair) (t : Turn) (ts : List Turn) (tx : Transaction env.Keypair)
      → IsPublished config ts tx
      → IsPublished config (t ∷ ts) tx
  IsPublished-later config t ts tx (inl p) =
      inl (PublishesClient-later config.primary_network t ts tx p)
  IsPublished-later config t ts tx (inr (n, e, p)) = inr (n, e, PublishesClient-later n t ts tx p)

  lookup-ClientPrice :
      (turns : List Turn) (id : Identifier) (info : PriceInfo) (m : Prices)
      → AreClientPrices turns m
      → lookup id m ≡ some info
      → ClientPrice turns id info
  lookup-ClientPrice turns id info m h e = h (id, info) (In-lookup id info m e)

  update-AreClientPrices :
      (turns : List Turn) (id : Identifier) (info : PriceInfo) (s : Store env.F64)
      → ClientPrice turns id info
      → AreClientPrices turns s.prices
      → AreClientPrices turns (Local.update id info s).1.prices
  unfolding Local.update
  update-AreClientPrices turns id info s p h =
      elim (Bool-cases (is_stale (lookup id s.prices) info)) [
        | inl stale ↦ rw (stale) h
        | inr fresh ↦ rw (fresh) (λ e m. elim (In-insert e id info s.prices m) [
          | inl same ↦ subst (λ x. ClientPrice turns x.0 x.1) same p
          | inr old ↦ h e old
        ])
      ]

  -- The local store keeps and answers what clients sent.
  pub handle-AreClientPrices :
      (turns : List Turn) (m : Local.Message) (s : Store env.F64)
      → IsClientMessage turns m
      → AreClientPrices turns s.prices
      → AreClientPrices turns (Local.handle m s).2.prices
        × All (AreClientPrices turns) (given (Local.handle m s).1)
  unfolding Local.handle Local.get_all_price_infos
  handle-AreClientPrices turns (Local.update_price id info) s p h =
      (update-AreClientPrices turns id info s p h, tt)
  handle-AreClientPrices turns (Local.lookup_all_price_info true) s p h = (h, (h, tt))
  handle-AreClientPrices turns (Local.lookup_all_price_info false) s p h = (h, tt)

  answered-AreClientPrices :
      (turns : List Turn) (answers : List Prices) (answer : Option Prices) (contents : Prices)
      → All (AreClientPrices turns) answers
      → IsAnswered answers answer
      → answer ≡ some contents
      → AreClientPrices turns contents
  answered-AreClientPrices turns answers answer contents h (inl gone) e = cc
  answered-AreClientPrices turns answers answer contents h (inr (prices, same, m)) e =
      let q : prices ≡ contents = cc in
      subst (AreClientPrices turns) q (All-In (AreClientPrices turns) prices answers h m)

  batch-PublishesClient :
      (n : Network env.Keypair) (turns : List Turn) (answers : List Prices)
      (inputs : Publish.Inputs env.Keypair) (tx : Transaction env.Keypair)
      → All (AreClientPrices turns) answers
      → HasAnswers answers inputs
      → IsOfBatch n.chain n.config n.key_store inputs.batch tx
      → PublishesClient n turns tx
  batch-PublishesClient n turns answers inputs tx h a b =
      let clients =
        answered-AreClientPrices turns answers (inputs.batch b.number).local_store_contents
          b.sent_for.contents h (a.in_batches b.number) b.sent_for.refreshed in
      record {
        updates = b.sent_for.updates;
        instructions = b.sent_for.instructions;
        from_clients =
            All-mono b.sent_for.updates
              (λ ins u. record {
                identifier = u.identifier;
                price_info = u.price_info;
                from_client =
                    lookup-ClientPrice turns u.identifier u.price_info b.sent_for.contents clients
                      u.stored;
                publisher = env.pubkey b.keypair;
                slot = (inputs.batch b.number).network_state.current_slot;
                made = u.made;
              })
              b.sent_for.made_for;
      }

  sent_by-All :
      (P : Transaction env.Keypair → Type 0) (outputs : List (BatchOutput env.Keypair))
      → ((o : BatchOutput env.Keypair) (tx : Transaction env.Keypair)
          → In o outputs
          → o.sent ≡ some tx
          → P tx)
      → All P (sent_by outputs)
  unfolding sent_by
  sent_by-All P [] h = tt
  sent_by-All P (o ∷ os) h =
      let rest = sent_by-All P os (λ x tx m e. h x tx (inr m) e) in
      elim (Option-cases o.sent) [
        | inl e ↦ rw (sent_by, e) rest
        | inr (tx, e) ↦ rw (sent_by, e) (h o tx (inl refl) e, rest)
      ]

  pub round-PublishesClient :
      (n : Network env.Keypair) (turns : List Turn) (answers : List Prices)
      (inputs : Publish.Inputs env.Keypair) (s : Exporter.State)
      → All (AreClientPrices turns) answers
      → HasAnswers answers inputs
      → All (PublishesClient n turns) (sent_by (round n inputs s).batches)
  round-PublishesClient n turns answers inputs s h a =
      sent_by-All (PublishesClient n turns) (round n inputs s).batches λ o tx m e.
        batch-PublishesClient n turns answers inputs tx h a
          (publish_updates-IsOfBatch n.chain n.config n.key_store inputs s o tx m e)
