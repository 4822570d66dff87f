-- ===== src/KeypairLoader/Examples.antt =====
-- Uploads and requests, and the theorems about them at concrete inputs.
use pyth_agent.Prelude.{ℕ, ◌≡◌, ◌*◌, ◌⊎◌, inl, inr, refl, arith, List, [], ◌∷◌, none, some, In}
use pyth_agent.Samples.{sample_env, sample-DecodesBack}
use pyth_agent.KeypairLoader.{
  RemoteKeypairLoader, default_config, Queues, Upload, to_primary, to_secondary, upload_ok,
  bad_request, Balances, check_balance, validate_keypair, handle_new_keypair, primary_upload,
  secondary_upload, upload_to_secondary, upload, run, new, drain, handle_key_requests,
}
use pyth_agent.KeypairLoader.Uploads.{IsFunded, handle_new_keypair_cases}
use pyth_agent.KeypairLoader.History.{Held, HasRoom, CameToPrimary, CameToSecondary, run-new-Held}
use pyth_agent.KeypairLoader.Requests.{
  Answered, handle_key_requests-answers, handle_key_requests-keeps,
}

abbrev rich : Balances
rich rpc_url key = some (key * 1000000000)

program : Unit {0}
unfolding check_balance validate_keypair handle_new_keypair primary_upload secondary_upload
    upload_to_secondary upload run new drain handle_key_requests
program = tt

-- Exactly the minimum is refused.
exact_minimum : handle_new_keypair rich none (1 ∷ []) 1 "primary" ≡ (bad_request, none)
unfolding program
exact_minimum = refl

-- A minimum of 0 does not disable the check: a keypair without balance is refused.
not_disabled : handle_new_keypair rich none (0 ∷ []) 0 "primary" ≡ (bad_request, none)
unfolding program
not_disabled = refl

handle_new_keypair_cases_example :
    let r = handle_new_keypair rich none (2 ∷ []) 1 "primary" in
    ((kp : ℕ) × IsFunded rich (2 ∷ []) 1 "primary" kp × (r ≡ (upload_ok, some kp)))
    ⊎ (((kp : ℕ) → ¬ IsFunded rich (2 ∷ []) 1 "primary" kp) × (r ≡ (bad_request, none)))
handle_new_keypair_cases_example =
    handle_new_keypair_cases rich (2 ∷ []) 1 "primary" (omega arith) none

abbrev uploads : List Upload
uploads = to_primary rich (2 ∷ []) ∷ to_secondary rich (3 ∷ []) ∷ to_primary rich (1 ∷ []) ∷ []

room : HasRoom default_config
room = record { primary = omega arith; secondary = omega arith }

run-new-Held_example :
    Held uploads default_config "a" (some "b") (run uploads (new "a" (some "b") default_config))
run-new-Held_example = run-new-Held uploads default_config "a" (some "b") room

abbrev queues : Queues
queues = record { primary_rx = 7 ∷ 8 ∷ []; secondary_rx = 9 ∷ [] }

abbrev loader : RemoteKeypairLoader ℕ
loader = run uploads (new "a" (some "b") default_config)

answered : Answered 8 (some 2) (handle_key_requests loader queues).0
unfolding program
answered = inr (inl refl)

handle_key_requests-answers_example :
    (kp : ℕ) × (some 2 ≡ some kp)
    × ((In 8 queues.primary_rx × CameToPrimary uploads default_config "a" kp)
        ⊎ (In 8 queues.secondary_rx × CameToSecondary uploads default_config (some "b") kp))
handle_key_requests-answers_example =
    handle_key_requests-answers sample-DecodesBack uploads default_config "a" (some "b") room queues
      8 (some 2) answered

handle_key_requests-keeps_example :
    let s : RemoteKeypairLoader ℕ = new "a" (some "b") default_config in
    let out = handle_key_requests s queues in
    ((kp : ℕ) × (s.primary_current_keypair ≡ some kp) × Answered 7 (some kp) out.0)
    ⊎ ((s.primary_current_keypair ≡ none) × In 7 out.1.primary_rx)
handle_key_requests-keeps_example =
    (handle_key_requests-keeps sample-DecodesBack (new "a" (some "b") default_config) queues 7).0
      (inl refl)
