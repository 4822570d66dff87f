-- ===== src/KeypairLoader.antt =====
-- src/agent/remote_keypair_loader.rs: keypairs uploaded at run time, and the requests for them. The
-- HTTP server, its body limit and its JSON decoding are left out: an upload is its bytes.
pub mod Uploads
pub mod History
pub mod Requests
mod Examples
use pyth_agent.Prelude.{
  ℕ, ◌*◌, ◌%◌, ◌^◌, Bool, true, false, List, [], ◌∷◌, ◌++◌, Option, none, some, String, Result, ok,
  err, ok_or, ◌>>=◌, ltb, if◌then◌else◌, map,
}
use pyth_agent.Solana.{Pubkey, Env}

pub record Config : Type 0 where
  pub primary_min_keypair_balance_sol : ℕ
  pub secondary_min_keypair_balance_sol : ℕ
  pub bind_address : String

abbrev pub default_config : Config
default_config = record {
  primary_min_keypair_balance_sol = 1;
  secondary_min_keypair_balance_sol = 1;
  bind_address = "127.0.0.1:9001";
}

pub record RemoteKeypairLoader (Keypair : Type 0) : Type 0 where
  pub primary_current_keypair : Option Keypair
  pub secondary_current_keypair : Option Keypair
  pub primary_rpc_url : String
  pub secondary_rpc_url : Option String
  pub config : Config

unfoldable pub new : {K : Type 0} → String → Option String → Config → RemoteKeypairLoader K
new primary_rpc_url secondary_rpc_url config = record {
  primary_current_keypair = none;
  secondary_current_keypair = none;
  primary_rpc_url = primary_rpc_url;
  secondary_rpc_url = secondary_rpc_url;
  config = config;
}

pub data Error : Type 0 where
  balance_unknown below_threshold : Error

-- The HTTP status of an answer.
pub data Status : Type 0 where
  upload_ok bad_request service_unavailable : Status

-- The balance of a key as the node at a URL tells it, if it does.
abbrev pub Balances : Type 0
Balances = (rpc_url : String) → Pubkey → Option ℕ

abbrev pub lamports_in_sol : ℕ
lamports_in_sol = 1000000000

-- The product is one of `u64`s.
unfoldable pub check_balance : ℕ → ℕ → Result Error (Unit {0})
check_balance min_keypair_balance_sol balance_lamports =
    if ltb ((min_keypair_balance_sol * lamports_in_sol) % 2 ^ 64) balance_lamports
    then ok tt
    else err below_threshold

module _ ⦃env : Env⦄ where
  unfoldable pub validate_keypair : Balances → env.Keypair → ℕ → String → Result Error (Unit {0})
  unfolding check_balance
  validate_keypair get_balance kp min_keypair_balance_sol rpc_url =
      ok_or (get_balance rpc_url (env.pubkey kp)) balance_unknown >>= λ balance_lamports.
      check_balance min_keypair_balance_sol balance_lamports

  abbrev pub keep_if :
      env.Keypair → Option env.Keypair → Result Error (Unit {0}) → Status × Option env.Keypair
  keep_if kp keypair_slot (ok _) = (upload_ok, some kp)
  keep_if kp keypair_slot (err e) = (bad_request, keypair_slot)

  -- The answer, and what the slot holds then.
  unfoldable pub handle_new_keypair :
      Balances → Option env.Keypair → List ℕ → ℕ → String → Status × Option env.Keypair
  unfolding validate_keypair
  handle_new_keypair get_balance keypair_slot new_keypair_bytes min_keypair_balance_sol rpc_url =
      elim (env.from_bytes new_keypair_bytes) [
        | some kp ↦
            keep_if kp keypair_slot
              (validate_keypair get_balance kp min_keypair_balance_sol rpc_url)
        | none ↦ (bad_request, keypair_slot)
      ]

  -- The two upload routes of `spawn`.
  unfoldable pub primary_upload :
      Balances → List ℕ → RemoteKeypairLoader env.Keypair → Status × RemoteKeypairLoader env.Keypair
  unfolding handle_new_keypair
  primary_upload get_balance kp s =
      let r =
        handle_new_keypair get_balance s.primary_current_keypair kp
          s.config.primary_min_keypair_balance_sol s.primary_rpc_url in
      (r.0, record s { primary_current_keypair = r.1 })

  -- With the URL of the secondary network, if it is active.
  unfoldable pub upload_to_secondary :
      Balances
      → List ℕ
      → RemoteKeypairLoader env.Keypair
      → Option String
      → Status × RemoteKeypairLoader env.Keypair
  unfolding handle_new_keypair
  upload_to_secondary get_balance kp s none = (service_unavailable, s)
  upload_to_secondary get_balance kp s (some rpc_url) =
      let r =
        handle_new_keypair get_balance s.secondary_current_keypair kp
          s.config.secondary_min_keypair_balance_sol rpc_url in
      (r.0, record s { secondary_current_keypair = r.1 })

  unfoldable pub secondary_upload :
      Balances → List ℕ → RemoteKeypairLoader env.Keypair → Status × RemoteKeypairLoader env.Keypair
  unfolding upload_to_secondary
  secondary_upload get_balance kp s = upload_to_secondary get_balance kp s s.secondary_rpc_url

  -- A request waits under the number of its sender. The keypair is copied through its bytes, and a
  -- copy that fails is a panic: it gives `none`.
  unfoldable pub drain : Option env.Keypair → List ℕ → List (ℕ × Option env.Keypair) × List ℕ
  drain none requests = ([], requests)
  drain (some kp) requests = (map (λ r. (r, env.from_bytes (env.to_bytes kp))) requests, [])

  -- The two channels of requests.
  pub record Queues : Type 0 where
    pub primary_rx : List ℕ
    pub secondary_rx : List ℕ

  -- One turn of the loop: what is sent back on both channels, and what waits on.
  unfoldable pub handle_key_requests :
      RemoteKeypairLoader env.Keypair → Queues → List (ℕ × Option env.Keypair) × Queues
  unfolding drain
  handle_key_requests s q =
      let primary = drain s.primary_current_keypair q.primary_rx in
      let secondary = drain s.secondary_current_keypair q.secondary_rx in
      (primary.0 ++ secondary.0, record { primary_rx = primary.1; secondary_rx = secondary.1 })

  -- A history of uploads.
  pub data Upload : Type 0 where
    to_primary to_secondary : (get_balance : Balances) (kp : List ℕ) → Upload

  unfoldable pub upload :
      Upload → RemoteKeypairLoader env.Keypair → Status × RemoteKeypairLoader env.Keypair
  unfolding primary_upload secondary_upload
  upload (to_primary get_balance kp) s = primary_upload get_balance kp s
  upload (to_secondary get_balance kp) s = secondary_upload get_balance kp s

  unfoldable pub run :
      List Upload → RemoteKeypairLoader env.Keypair → RemoteKeypairLoader env.Keypair
  unfolding upload
  run [] s = s
  run (u ∷ us) s = run us (upload u s).1
