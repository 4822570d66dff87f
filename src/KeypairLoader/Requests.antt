-- ===== src/KeypairLoader/Requests.antt =====
-- What the requests for keypairs are answered with.
use pyth_agent.Prelude.{
  ℕ, ◌≡◌, ◌⊎◌, inl, inr, refl, sym, ap, ◌∙◌, List, [], ◌∷◌, Option, none, some, String, In, map,
  In-append_cases, In-append_left, In-append_right,
}
use pyth_agent.Solana.{Env, DecodesBack}
use pyth_agent.KeypairLoader.{
  Config, RemoteKeypairLoader, Queues, drain, handle_key_requests, Upload, run, new,
}
use pyth_agent.KeypairLoader.History.{CameToPrimary, CameToSecondary, HasRoom, run-new-Held}

-- A request is sent this answer.
abbrev pub Answered : {K : Type 0} → ℕ → Option K → List (ℕ × Option K) → Type 0
Answered r a answers = In (r, a) answers

module _ ⦃env : Env⦄ (decodes : DecodesBack env) where
  In-answers :
      (kp : env.Keypair) (rs : List ℕ) (r : ℕ) (a : Option env.Keypair)
      → Answered r a (map (λ r'. (r', env.from_bytes (env.to_bytes kp))) rs)
      → In r rs × (a ≡ some kp)
  In-answers kp [] r a m = absurd m
  In-answers kp (x ∷ rs) r a (inl e) = (inl (ap (λ p. p.0) e), sym (ap (λ p. p.1) e) ∙ decodes kp)
  In-answers kp (x ∷ rs) r a (inr m) = let (h, e) = In-answers kp rs r a m in (inr h, e)

  answers-In :
      (kp : env.Keypair) (rs : List ℕ) (r : ℕ)
      → In r rs
      → Answered r (some kp) (map (λ r'. (r', env.from_bytes (env.to_bytes kp))) rs)
  answers-In kp [] r m = absurd m
  answers-In kp (x ∷ rs) r (inl e) =
      inl (ap (λ (k : ℕ). (k, env.from_bytes (env.to_bytes kp))) e ∙ ap (λ a. (r, a)) (decodes kp))
  answers-In kp (x ∷ rs) r (inr m) = inr (answers-In kp rs r m)

  -- An answer carries the keypair held; a request is answered, or waits on where none is held.
  drain-Answered :
      (held : Option env.Keypair) (rs : List ℕ) (r : ℕ) (a : Option env.Keypair)
      → Answered r a (drain held rs).0
      → In r rs × ((kp : env.Keypair) × (held ≡ some kp) × (a ≡ some kp))
  unfolding drain
  drain-Answered none rs r a m = absurd m
  drain-Answered (some kp) rs r a m = let (h, e) = In-answers kp rs r a m in (h, (kp, refl, e))

  drain-kept :
      (held : Option env.Keypair) (rs : List ℕ) (r : ℕ)
      → In r rs
      → ((kp : env.Keypair) × (held ≡ some kp) × Answered r (some kp) (drain held rs).0)
        ⊎ ((held ≡ none) × In r (drain held rs).1)
  unfolding drain
  drain-kept none rs r m = inr (refl, m)
  drain-kept (some kp) rs r m = inl (kp, refl, answers-In kp rs r m)

  module _ (us : List Upload) (config : Config) (url : String) (second : Option String)
      (room : HasRoom config) (q : Queues) where
    abbrev held : RemoteKeypairLoader env.Keypair
    held = run us (new url second config)

    -- Where the minima fit into a `u64` of lamports, and a keypair is read back from its bytes: after any
    -- history of uploads, an answer goes to a request that waits, and carries a keypair that was
    -- uploaded to the request's network and had more than the minimal balance then.
    pub handle_key_requests-answers :
        (r : ℕ) (a : Option env.Keypair)
        → Answered r a (handle_key_requests (run us (new url second config)) q).0
        → (kp : env.Keypair) × (a ≡ some kp)
          × ((In r q.primary_rx × CameToPrimary us config url kp)
              ⊎ (In r q.secondary_rx × CameToSecondary us config second kp))
    unfolding handle_key_requests
    handle_key_requests-answers r a m =
        let h = run-new-Held us config url second room in
        elim (In-append_cases (r, a) (drain held.primary_current_keypair q.primary_rx).0
          (drain held.secondary_current_keypair q.secondary_rx).0 m) [
            | inl first ↦
                let (waits, (kp, e, same)) =
                  drain-Answered held.primary_current_keypair q.primary_rx r a first in
                (kp, same, inl (waits, h.primary kp e))
            | inr last ↦
                let (waits, (kp, e, same)) =
                  drain-Answered held.secondary_current_keypair q.secondary_rx r a last in
                (kp, same, inr (waits, h.secondary kp e))
          ]

  -- Where a keypair is read back from its bytes, no request is lost: one that waits for the primary
  -- network is answered with its keypair, or waits on where there is none; and so for the secondary
  -- network.
  pub handle_key_requests-keeps :
      (s : RemoteKeypairLoader env.Keypair) (q : Queues) (r : ℕ)
      → let out = handle_key_requests s q in
        (In r q.primary_rx
          → ((kp : env.Keypair) × (s.primary_current_keypair ≡ some kp)
              × Answered r (some kp) out.0)
            ⊎ ((s.primary_current_keypair ≡ none) × In r out.1.primary_rx))
        × (In r q.secondary_rx
            → ((kp : env.Keypair) × (s.secondary_current_keypair ≡ some kp)
                × Answered r (some kp) out.0)
              ⊎ ((s.secondary_current_keypair ≡ none) × In r out.1.secondary_rx))
  unfolding handle_key_requests
  handle_key_requests-keeps s q r =
      let first = drain s.primary_current_keypair q.primary_rx in
      let last = drain s.secondary_current_keypair q.secondary_rx in
      (
        λ m. elim (drain-kept s.primary_current_keypair q.primary_rx r m) [
          | inl (kp, e, h) ↦ inl (kp, e, In-append_left (r, some kp) first.0 last.0 h)
          | inr waits ↦ inr waits
        ],
        λ m. elim (drain-kept s.secondary_current_keypair q.secondary_rx r m) [
          | inl (kp, e, h) ↦ inl (kp, e, In-append_right (r, some kp) first.0 last.0 h)
          | inr waits ↦ inr waits
        ],
      )
