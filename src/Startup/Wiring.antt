-- ===== src/Startup/Wiring.antt =====
-- The tasks of an agent that has started are joined by their channels.
use pyth_agent.Prelude.{
  Bool, true, false, ◌≡◌, refl, ap, ◌∙◌, sym, subst, ◌⊎◌, inl, inr, List, [], ◌∷◌, Option, none,
  some, ok, arith, In, In-append_cases, In-append_left, In-append_right, Bool-cases, All, All-In,
  ℕ_discrete, ◌++◌,
}
use pyth_agent.Prelude.Maps.{AreDistinct, nat_key, contains}
use pyth_agent.Solana.{Env}
use pyth_agent.KeyStore.{KeyStore, Files}
use pyth_agent.Startup.Config.{NetworkConfig, AgentConfig}
use pyth_agent.Startup.Tasks.{Channel, Task, World, nothing_started, Runtime, start}
use pyth_agent.Startup.Program.{spawn, spawn_components, spawn_loader}
use pyth_agent.Startup.Conditions.{
  SecondaryRuns, after_spawn, after_secondary, spawn_ok, spawn_runs, channels, opened,
}
use pyth_agent.Startup.Parts.{after_network}
use pyth_agent.Startup.Ends.{
  Message, account_updates, prices, keypair_requests_of, shutdown, End, sends, receives, all_ends,
  In-all_ends, included, included-In,
}

-- Channels that no task sends on: the shutdown channel, those of a secondary network that is not
-- configured, and the account updates of a network without a subscriber.
abbrev pub IsIdle : AgentConfig → Message → Type 0
IsIdle config shutdown = Unit
IsIdle config (account_updates true) = config.primary_network.oracle.subscriber_enabled ≡ false
IsIdle config (account_updates false) =
    (c : NetworkConfig) × (config.secondary_network ≡ some c)
    × (c.oracle.subscriber_enabled ≡ false)
IsIdle config (prices false) = config.secondary_network ≡ none
IsIdle config (keypair_requests_of false) = config.secondary_network ≡ none
IsIdle config _ = ⊥

-- All ends but those of the shutdown channel, which is a broadcast.
unfoldable pub single_receivers : List End → List Channel
single_receivers [] = []
single_receivers ((shutdown, c) ∷ es) = single_receivers es
single_receivers ((m, c) ∷ es) = c ∷ single_receivers es

-- Who sends is heard: some task receives on the channel what is sent there, for the same network. Who
-- receives is sent to, or the channel is idle. No channel but the broadcast has two receivers.
pub record IsWired {K : Type 0} (config : AgentConfig) (tasks : List (Task K)) : Type 0 where
  pub heard :
      (t : Task K) (e : End)
      → In t tasks
      → In e (sends t)
      → (u : Task K) × In u tasks × In e (receives u)
  pub fed :
      (u : Task K) (m : Message) (c : Channel)
      → In u tasks
      → In (m, c) (receives u)
      → ((t : Task K) × In t tasks × In (m, c) (sends t)) ⊎ IsIdle config m
  pub single : AreDistinct (single_receivers (all_ends receives tasks))

module _ {K : Type 0} (ends : Task K → List End) where
  all_ends-In :
      (e : End) (t : Task K) (ts : List (Task K))
      → In t ts
      → In e (ends t)
      → In e (all_ends ends ts)
  unfolding all_ends
  all_ends-In e t [] i m = absurd i
  all_ends-In e t (u ∷ us) (inl same) m =
      In-append_left e (ends u) (all_ends ends us) (subst (λ x. In e (ends x)) (sym same) m)
  all_ends-In e t (u ∷ us) (inr i) m =
      In-append_right e (ends u) (all_ends ends us) (all_ends-In e t us i m)

distinct : List Channel → Bool
unfolding contains
distinct [] = true
distinct (c ∷ cs) = elim (contains c cs) [ true ↦ false | false ↦ distinct cs ]

distinct-AreDistinct : (cs : List Channel) → distinct cs ≡ true → AreDistinct cs
unfolding distinct
distinct-AreDistinct [] h = tt
distinct-AreDistinct (c ∷ cs) h = elim (Bool-cases (contains c cs)) [
  | inl p ↦ ground arith
  | inr p ↦ (p, distinct-AreDistinct cs (rw (p, distinct) at h))
]

-- It is enough to compare the lists of ends.
all_ends-IsWired :
    {K : Type 0} (config : AgentConfig) (tasks : List (Task K)) (idle : List End)
    → included (all_ends sends tasks) (all_ends receives tasks) ≡ true
    → included (all_ends receives tasks) (all_ends sends tasks ++ idle) ≡ true
    → All (λ (e : End). IsIdle config e.0) idle
    → distinct (single_receivers (all_ends receives tasks)) ≡ true
    → IsWired config tasks
all_ends-IsWired config tasks idle there back resting apart = record {
  heard = λ t e i m. In-all_ends receives e tasks (
      included-In e (all_ends sends tasks) (all_ends receives tasks) there
        (all_ends-In sends e t tasks i m));
  fed = λ u m c i r.
      elim (In-append_cases (m, c) (all_ends sends tasks) idle
        (included-In (m, c) (all_ends receives tasks) (all_ends sends tasks ++ idle) back
          (all_ends-In receives (m, c) u tasks i r))) [
            | inl h ↦ inl (In-all_ends sends (m, c) tasks h)
            | inr h ↦ inr (All-In (λ (x : End). IsIdle config x.0) (m, c) idle resting h)
          ];
  single = distinct-AreDistinct _ apart;
}

module _ ⦃env : Env⦄ (files : Files env.Keypair) (runtime : Runtime) (config : AgentConfig) where
  -- The start with or without a secondary network.
  after_secondary-IsWired :
      (keys : KeyStore env.Keypair) (secondary : Option NetworkConfig)
      (h : SecondaryRuns files runtime secondary)
      → config.secondary_network ≡ secondary
      → IsWired config
          (spawn_components files runtime config channels (
            after_secondary files runtime secondary h (
              after_network files runtime true config.primary_network channels.local_store
                channels.primary_oracle_updates channels.primary_keypair_loader keys
                opened))).1.tasks
  unfolding spawn_components start spawn_loader all_ends sends receives included distinct
      single_receivers ℕ_discrete
  after_secondary-IsWired keys none h e =
      elim (Bool-cases config.primary_network.oracle.subscriber_enabled) [
        | inl d ↦
            all_ends-IsWired config _
              ((shutdown, 0) ∷ (prices false, 2) ∷ (keypair_requests_of false, 7) ∷ []) (rw d refl)
              (rw d refl) (tt, (e, (e, tt))) (rw d refl)
        | inr d ↦
            all_ends-IsWired config _
              ((shutdown, 0)
                ∷ (prices false, 2)
                ∷ (keypair_requests_of false, 7)
                ∷ (account_updates true, 9)
                ∷ [])
              (rw d refl) (rw d refl) (tt, (e, (e, (d, tt)))) (rw d refl)
      ]
  after_secondary-IsWired keys (some c) h e =
      elim (Bool-cases config.primary_network.oracle.subscriber_enabled) [
        | inl d ↦ elim (Bool-cases c.oracle.subscriber_enabled) [
          | inl f ↦
              all_ends-IsWired config _ ((shutdown, 0) ∷ []) (rw (d, f) refl) (rw (d, f) refl)
                (tt, tt) (rw (d, f) refl)
          | inr f ↦
              all_ends-IsWired config _ ((shutdown, 0) ∷ (account_updates false, 14) ∷ [])
                (rw (d, f) refl) (rw (d, f) refl) (tt, ((c, e, f), tt)) (rw (d, f) refl)
        ]
        | inr d ↦ elim (Bool-cases c.oracle.subscriber_enabled) [
          | inl f ↦
              all_ends-IsWired config _ ((shutdown, 0) ∷ (account_updates true, 9) ∷ [])
                (rw (d, f) refl) (rw (d, f) refl) (tt, (d, tt)) (rw (d, f) refl)
          | inr f ↦
              all_ends-IsWired config _
                ((shutdown, 0) ∷ (account_updates true, 9) ∷ (account_updates false, 14) ∷ [])
                (rw (d, f) refl) (rw (d, f) refl) (tt, (d, ((c, e, f), tt))) (rw (d, f) refl)
        ]
      ]

  -- If the agent starts, its tasks are joined by their channels: whoever sends is heard by a task of
  -- the right network, whoever receives is sent to unless the channel is idle by the configuration,
  -- and no channel but the shutdown channel has two receivers.
  pub spawn-IsWired :
      (w : World env.Keypair)
      → spawn files runtime config nothing_started ≡ (ok tt, w)
      → IsWired config w.tasks
  spawn-IsWired w h =
      let starts = spawn_runs files runtime config (ap (λ r. r.0) h) in
      let same : after_spawn files runtime config starts ≡ w =
        ap (λ r. r.1) (sym (spawn_ok files runtime config starts) ∙ h) in
      subst (λ v. IsWired config v.tasks) same
        (after_secondary-IsWired starts.1.0.0 config.secondary_network starts.2 refl)
