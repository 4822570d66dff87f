-- ===== src/Exporter/Instruction/Accumulator.antt =====
-- What the accumulator adds to an instruction.
use pyth_agent.Prelude.{
  ℕ, ◌≡◌, refl, inl, inr, true, false, List, [], ◌∷◌, ◌++◌, ok, ◌>>=◌, Option-cases,
}
use pyth_agent.Solana.{Pubkey}
use pyth_agent.Store.Price.{PriceInfo}
use pyth_agent.Exporter.Instruction.{
  AccountMeta, Chain, text, key, upd_price_cmd, create_instruction_without_accumulator,
  create_instruction_with_accumulator,
}

module _ (chain : Chain) (program_key publish_pubkey price_id : Pubkey) (info : PriceInfo)
    (slot : ℕ) where
  abbrev readable : Pubkey → AccountMeta
  readable k = record { pubkey = k; is_signer = false; is_writable = false }

  abbrev writable : Pubkey → AccountMeta
  writable k = record { pubkey = k; is_signer = false; is_writable = true }

  abbrev authority : Pubkey → Pubkey
  authority accumulator =
      chain.find_program_address (text "upd_price_write" ∷ key accumulator ∷ []) program_key

  -- The accounts of the accumulator: its program, the whitelist, the authority of the oracle program,
  -- and the message buffer, the only one of them that is written.
  abbrev pub accumulator_accounts : Pubkey → List AccountMeta
  accumulator_accounts accumulator =
      readable accumulator
      ∷ readable (chain.find_program_address (text "message" ∷ text "whitelist" ∷ []) accumulator)
      ∷ readable (authority accumulator)
      ∷ writable (
          chain.find_program_address
            (key (authority accumulator) ∷ text "message" ∷ key price_id ∷ []) accumulator)
      ∷ []

  -- The instruction with the accumulator is the one without, with the accumulator's accounts after
  -- its own; both fail for the same commands.
  pub with_accumulator-extends :
      (accumulator : Pubkey)
      → create_instruction_with_accumulator chain program_key publish_pubkey price_id info slot
          accumulator
        ≡ (create_instruction_without_accumulator chain program_key publish_pubkey price_id info
              slot
            >>= λ ins.
                ok (record ins { accounts = ins.accounts ++ accumulator_accounts accumulator }))
  unfolding create_instruction_with_accumulator create_instruction_without_accumulator
  with_accumulator-extends accumulator =
      elim (Option-cases (chain.serialize (upd_price_cmd info slot))) [
        | inl e ↦ rw e refl
        | inr (bytes, e) ↦ rw e refl
      ]
