-- ===== src/Exporter/Instruction.antt =====
-- The instructions of exporter.rs that publish a price, without and with the accumulator.
pub mod Accumulator
use pyth_agent.Prelude.{
  ℕ, Bool, true, false, List, [], ◌∷◌, Option, String, Result, ok, ok_or, ◌>>=◌,
}
use pyth_agent.Prelude.Int.{ℤ}
use pyth_agent.Solana.{Pubkey, PriceStatus}
use pyth_agent.Store.Price.{PriceInfo}

abbrev pub pyth_oracle_version : ℕ
pyth_oracle_version = 2

abbrev pub update_price_no_fail_on_error : ℕ
update_price_no_fail_on_error = 13

pub record UpdPriceCmd : Type 0 where
  pub version : ℕ
  pub cmd : ℕ
  pub status : PriceStatus
  pub unused : ℕ
  pub price : ℤ
  pub conf : ℕ
  pub pub_slot : ℕ

-- `AccountMeta` and `Instruction` of the Solana library.
pub record AccountMeta : Type 0 where
  pub pubkey : Pubkey
  pub is_signer : Bool
  pub is_writable : Bool

pub record Instruction : Type 0 where
  pub program_id : Pubkey
  pub accounts : List AccountMeta
  pub payload : List ℕ

-- A seed of a program address: text, or the bytes of a key.
pub data Seed : Type 0 where
  text : String → Seed
  key : Pubkey → Seed

-- The libraries' part: the encoding of a command, program addresses, the clock account.
pub record Chain : Type 0 where
  pub serialize : UpdPriceCmd → Option (List ℕ)
  pub find_program_address : List Seed → Pubkey → Pubkey
  pub clock_id : Pubkey

pub data Error : Type 0 where
  local_store_closed : Error
  price_not_found : Pubkey → Error
  encoding_failed : Error
  rpc_failed : Error
  monitor_closed : Error
  keypair_unavailable : Error
  chunk_size_zero : Error

abbrev pub upd_price_cmd : PriceInfo → ℕ → UpdPriceCmd
upd_price_cmd price_info current_slot = record {
  version = pyth_oracle_version;
  cmd = update_price_no_fail_on_error;
  status = price_info.status;
  unused = 0;
  price = price_info.price;
  conf = price_info.conf;
  pub_slot = current_slot;
}

abbrev meta : Pubkey → Bool → Bool → AccountMeta
meta k signer writable = record { pubkey = k; is_signer = signer; is_writable = writable }

module _ (chain : Chain) where
  unfoldable pub create_instruction_without_accumulator :
      (program_key publish_pubkey price_id : Pubkey)
      → PriceInfo
      → (current_slot : ℕ) → Result Error Instruction
  create_instruction_without_accumulator program_key publish_pubkey price_id price_info
        current_slot =
      ok_or (chain.serialize (upd_price_cmd price_info current_slot)) encoding_failed >>= λ bytes.
      ok (record {
        program_id = program_key;
        accounts =
            meta publish_pubkey true true
            ∷ meta price_id false true
            ∷ meta chain.clock_id false false
            ∷ [];
        payload = bytes;
      })

  unfoldable pub create_instruction_with_accumulator :
      (program_key publish_pubkey price_id : Pubkey)
      → PriceInfo
      → (current_slot : ℕ) → (accumulator_program_key : Pubkey) → Result Error Instruction
  create_instruction_with_accumulator program_key publish_pubkey price_id price_info current_slot
        accumulator_program_key =
      let whitelist_pubkey =
        chain.find_program_address (text "message" ∷ text "whitelist" ∷ [])
          accumulator_program_key in
      let oracle_auth_pda =
        chain.find_program_address (text "upd_price_write" ∷ key accumulator_program_key ∷ [])
          program_key in
      let accumulator_data_pubkey =
        chain.find_program_address (key oracle_auth_pda ∷ text "message" ∷ key price_id ∷ [])
          accumulator_program_key in
      ok_or (chain.serialize (upd_price_cmd price_info current_slot)) encoding_failed >>= λ bytes.
      ok (record {
        program_id = program_key;
        accounts =
            meta publish_pubkey true true
            ∷ meta price_id false true
            ∷ meta chain.clock_id false false
            ∷ meta accumulator_program_key false false
            ∷ meta whitelist_pubkey false false
            ∷ meta oracle_auth_pda false false
            ∷ meta accumulator_data_pubkey false true
            ∷ [];
        payload = bytes;
      })
