-- ===== src/KeypairLoader/History.antt =====
-- The keypairs that the loader holds after a history of uploads.
use pyth_agent.Prelude.{
  ℕ, ◌*◌, ◌^◌, ◌<◌, ◌≡◌, ◌⊎◌, inl, inr, refl, sym, subst, ap, ◌∙◌, List, [], ◌∷◌, Option, none,
  some, String, In,
}
use pyth_agent.Solana.{Env}
use pyth_agent.KeypairLoader.{
  Config, RemoteKeypairLoader, Balances, lamports_in_sol, handle_new_keypair, primary_upload,
  secondary_upload, upload_to_secondary, Upload, to_primary, to_secondary, upload, run, new,
}
use pyth_agent.KeypairLoader.Uploads.{IsFunded, handle_new_keypair_cases}

module _ ⦃env : Env⦄ where
  -- An upload of the history to the primary network brought the funded keypair.
  pub record CameToPrimary (us : List Upload) (config : Config) (url : String) (kp : env.Keypair)
      : Type 0 where
    pub get_balance : Balances
    pub bytes : List ℕ
    pub uploaded : In (to_primary get_balance bytes) us
    pub funded : IsFunded get_balance bytes config.primary_min_keypair_balance_sol url kp

  pub record CameToSecondary (us : List Upload) (config : Config) (url : Option String)
      (kp : env.Keypair) : Type 0 where
    pub get_balance : Balances
    pub bytes : List ℕ
    pub uploaded : In (to_secondary get_balance bytes) us
    pub rpc_url : String
    pub active : url ≡ some rpc_url
    pub funded : IsFunded get_balance bytes config.secondary_min_keypair_balance_sol rpc_url kp

  -- The minima fit into a `u64` of lamports.
  pub record HasRoom (config : Config) : Type 0 where
    pub primary : config.primary_min_keypair_balance_sol * lamports_in_sol < 2 ^ 64
    pub secondary : config.secondary_min_keypair_balance_sol * lamports_in_sol < 2 ^ 64

  slot_after :
      (get_balance : Balances) (bytes : List ℕ) (min : ℕ) (url : String)
      → min * lamports_in_sol < 2 ^ 64
      → (slot : Option env.Keypair) (kp : env.Keypair)
      → (handle_new_keypair get_balance slot bytes min url).1 ≡ some kp
      → (slot ≡ some kp) ⊎ IsFunded get_balance bytes min url kp
  slot_after get_balance bytes min url room slot kp e =
      elim (handle_new_keypair_cases get_balance bytes min url room slot) [
        | inl (j, f, r) ↦
            let here : some j ≡ some kp = sym (ap (λ x. x.1) r) ∙ e in
            let same : j ≡ kp = cc in inr (subst (λ k. IsFunded get_balance bytes min url k) same f)
        | inr (_, r) ↦ inl (sym (ap (λ x. x.1) r) ∙ e)
      ]

  -- Every keypair held was uploaded, and was funded then.
  pub record Held (us : List Upload) (config : Config) (url : String) (second : Option String)
      (s : RemoteKeypairLoader env.Keypair) : Type 0 where
    pub same_config : s.config ≡ config
    pub same_url : s.primary_rpc_url ≡ url
    pub same_second : s.secondary_rpc_url ≡ second
    pub primary :
        (kp : env.Keypair) → s.primary_current_keypair ≡ some kp → CameToPrimary us config url kp
    pub secondary :
        (kp : env.Keypair)
        → s.secondary_current_keypair ≡ some kp
        → CameToSecondary us config second kp

  module _ (us : List Upload) (config : Config) (url : String) (second : Option String)
      (room : HasRoom config) where
    primary_upload-Held :
        (get_balance : Balances) (bytes : List ℕ) (s : RemoteKeypairLoader env.Keypair)
        → In (to_primary get_balance bytes) us
        → Held us config url second s
        → Held us config url second (primary_upload get_balance bytes s).1
    unfolding primary_upload
    primary_upload-Held get_balance bytes s m h = record {
      same_config = h.same_config;
      same_url = h.same_url;
      same_second = h.same_second;
      primary = λ kp e.
          let min = config.primary_min_keypair_balance_sol in
          let here = rw (h.same_config, h.same_url) at e in
          elim (slot_after get_balance bytes min url room.primary s.primary_current_keypair kp
            here) [
              | inl old ↦ h.primary kp old
              | inr f ↦ record {
                get_balance = get_balance;
                bytes = bytes;
                uploaded = m;
                funded = f;
              }
            ];
      secondary = h.secondary;
    }

    secondary_upload-Held :
        (get_balance : Balances) (bytes : List ℕ) (s : RemoteKeypairLoader env.Keypair)
        → In (to_secondary get_balance bytes) us
        → Held us config url second s
        → (active : Option String) → active ≡ second
        → Held us config url second (upload_to_secondary get_balance bytes s active).1
    unfolding upload_to_secondary
    secondary_upload-Held get_balance bytes s m h none a = h
    secondary_upload-Held get_balance bytes s m h (some rpc_url) a = record {
      same_config = h.same_config;
      same_url = h.same_url;
      same_second = h.same_second;
      primary = h.primary;
      secondary = λ kp e.
          let min = config.secondary_min_keypair_balance_sol in
          let here = rw h.same_config at e in
          elim (slot_after get_balance bytes min rpc_url room.secondary s.secondary_current_keypair
            kp here) [
              | inl old ↦ h.secondary kp old
              | inr f ↦ record {
                get_balance = get_balance;
                bytes = bytes;
                uploaded = m;
                rpc_url = rpc_url;
                active = sym a;
                funded = f;
              }
            ];
    }

    upload-Held :
        (u : Upload) (s : RemoteKeypairLoader env.Keypair)
        → In u us
        → Held us config url second s
        → Held us config url second (upload u s).1
    unfolding upload secondary_upload
    upload-Held (to_primary get_balance bytes) s m h = primary_upload-Held get_balance bytes s m h
    upload-Held (to_secondary get_balance bytes) s m h =
        secondary_upload-Held get_balance bytes s m h s.secondary_rpc_url h.same_second

    run-Held :
        (vs : List Upload) (s : RemoteKeypairLoader env.Keypair)
        → ((u : Upload) → In u vs → In u us)
        → Held us config url second s
        → Held us config url second (run vs s)
    unfolding run
    run-Held [] s f h = h
    run-Held (v ∷ vs) s f h =
        run-Held vs (upload v s).1 (λ u m. f u (inr m)) (upload-Held v s (f v (inl refl)) h)

    -- Where the minima fit into a `u64` of lamports: after any history of uploads, a keypair that is
    -- held for a network was uploaded to it, and that network's node told a balance above the minimum.
    pub run-new-Held : Held us config url second (run us (new url second config))
    unfolding new
    run-new-Held =
        run-Held us (new url second config) (λ u m. m)
          (record {
            same_config = refl;
            same_url = refl;
            same_second = refl;
            primary = λ kp e. absurd cc;
            secondary = λ kp e. absurd cc;
          })
