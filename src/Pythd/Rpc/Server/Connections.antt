-- ===== src/Pythd/Rpc/Server/Connections.antt =====
-- The connections of the API server have channels of their own.
use pyth_agent.Prelude.{
  ℕ, suc, ◌<◌, ◌≡◌, refl, sym, subst, ap, Bool, false, List, [], ◌∷◌, ◌++◌, Option, none, some,
  String, ok, inl, inr, arith, All, Bool-cases, ◌&&◌, Option-cases, ok_inj,
}
use pyth_agent.Prelude.Maps.{nat_key, contains, AreDistinct}
use pyth_agent.Startup.Config.{ServerConfig}
use pyth_agent.Pythd.Adapter.{Channel}
use pyth_agent.Pythd.Rpc.Dispatch.{Channels}
use pyth_agent.Pythd.Rpc.Server.{
  ServerEvent, upgraded, shutdown, Server, new, new_connection, accept, accept_all, serve,
}

-- The channels of the connections.
abbrev pub channels_of : List (Option Channels) → List Channel
channels_of [] = []
channels_of (none ∷ cs) = channels_of cs
channels_of (some c ∷ cs) = c.notify_price_tx ∷ c.notify_price_sched_tx ∷ channels_of cs

contains_below :
    (c n : Channel) (cs : List Channel)
    → c < n
    → contains c cs ≡ false
    → contains c (cs ++ n ∷ suc n ∷ []) ≡ false
unfolding contains
contains_below c n [] h e = ground arith
contains_below c n (d ∷ ds) h e = ground (arith, contains_below c n ds h)

AreDistinct-two_more :
    (n : Channel) (cs : List Channel)
    → All (λ c. c < n) cs
    → AreDistinct cs
    → AreDistinct (cs ++ n ∷ suc n ∷ [])
unfolding contains
AreDistinct-two_more n [] below h = (ground arith, (refl, tt))
AreDistinct-two_more n (c ∷ cs) below h =
    (contains_below c n cs below.0 h.0, AreDistinct-two_more n cs below.1 h.1)

All-two_more :
    (n : Channel) (cs : List Channel)
    → All (λ c. c < n) cs
    → All (λ c. c < suc (suc n)) (cs ++ n ∷ suc n ∷ [])
All-two_more n [] below = (omega arith, (omega arith, tt))
All-two_more n (c ∷ cs) below = (omega (arith, below.0), All-two_more n cs below.1)

All-later : (n : Channel) (cs : List Channel) → All (λ c. c < n) cs → All (λ c. c < suc (suc n)) cs
All-later n [] below = tt
All-later n (c ∷ cs) below = (omega (arith, below.0), All-later n cs below.1)

channels_of-append_some :
    (c : Channels) (cs : List (Option Channels))
    → channels_of (cs ++ some c ∷ [])
      ≡ channels_of cs ++ c.notify_price_tx ∷ c.notify_price_sched_tx ∷ []
channels_of-append_some c [] = refl
channels_of-append_some c (none ∷ cs) = channels_of-append_some c cs
channels_of-append_some c (some d ∷ cs) =
    ap (λ l. d.notify_price_tx ∷ d.notify_price_sched_tx ∷ l) (channels_of-append_some c cs)

channels_of-append_none :
    (cs : List (Option Channels)) → channels_of (cs ++ none ∷ []) ≡ channels_of cs
channels_of-append_none [] = refl
channels_of-append_none (none ∷ cs) = channels_of-append_none cs
channels_of-append_none (some d ∷ cs) =
    ap (λ l. d.notify_price_tx ∷ d.notify_price_sched_tx ∷ l) (channels_of-append_none cs)

-- No channel serves two connections or both kinds of notifications.
pub record HaveOwn (s : Server) : Type 0 where
  pub below : All (λ c. c < s.next_channel) (channels_of s.connections)
  pub distinct : AreDistinct (channels_of s.connections)

module _ (takes_capacity : ℕ → Bool) where
  accept-HaveOwn : (s : Server) → HaveOwn s → HaveOwn (accept takes_capacity s)
  unfolding accept new_connection
  accept-HaveOwn s h =
      elim (Bool-cases (
        takes_capacity s.config.notify_price_tx_buffer
        && takes_capacity s.config.notify_price_sched_tx_buffer)) [
          | inl made ↦
              let c : Channels = record {
                notify_price_tx = s.next_channel;
                notify_price_sched_tx = suc s.next_channel;
              } in
              rw made (record {
                below =
                    subst (All (λ x. x < suc (suc s.next_channel)))
                      (sym (channels_of-append_some c s.connections))
                      (All-two_more s.next_channel (channels_of s.connections) h.below);
                distinct = subst AreDistinct (sym (channels_of-append_some c s.connections)) (
                    AreDistinct-two_more s.next_channel (channels_of s.connections) h.below
                      h.distinct);
              })
          | inr refused ↦ rw refused (record {
            below =
                subst (All (λ x. x < suc (suc s.next_channel)))
                  (sym (channels_of-append_none s.connections))
                  (All-later s.next_channel (channels_of s.connections) h.below);
            distinct = subst AreDistinct (sym (channels_of-append_none s.connections)) h.distinct;
          })
        ]

  accept_all-HaveOwn :
      (es : List ServerEvent) (s : Server) → HaveOwn s → HaveOwn (accept_all takes_capacity es s)
  unfolding accept_all
  accept_all-HaveOwn [] s h = h
  accept_all-HaveOwn (shutdown ∷ es) s h = h
  accept_all-HaveOwn (upgraded ∷ es) s h =
      accept_all-HaveOwn es (accept takes_capacity s) (accept-HaveOwn s h)

  -- Whatever websockets are opened before the shutdown, no channel serves two connections, nor the two
  -- kinds of notifications of one.
  pub serve-HaveOwn :
      {Address : Type 0} (parse_address : String → Option Address) (es : List ServerEvent)
      (config : ServerConfig) (first : Channel) (s : Server)
      → serve takes_capacity parse_address es (new config first) ≡ ok s
      → HaveOwn s
  unfolding serve new
  serve-HaveOwn parse_address es config first s e =
      elim (Option-cases (parse_address config.listen_address)) [
        | inl bad ↦ let q = rw (bad) at e in cc
        | inr (address, good) ↦
            subst HaveOwn (ok_inj _ s (rw (good) at e))
              (accept_all-HaveOwn es (new config first) (record { below = tt; distinct = tt }))
      ]
