-- ===== src/Solana.antt =====
-- The values that the agent takes from the Solana and Pyth libraries, with the fields that it uses,
-- and what it calls of those libraries.
use pyth_agent.Prelude.{ℕ, ◌≡◌, sym, ap, ◌∙◌, Option, some, List, String, Bool}
use pyth_agent.Prelude.Int.{ℤ}

-- A public key is 32 bytes, here the number that they spell. A price identifier holds the same
-- bytes as the key of its price account, so `Identifier::new(key.to_bytes())` changes nothing.
abbrev pub Pubkey : Type 0
Pubkey = ℕ

abbrev pub Identifier : Type 0
Identifier = Pubkey

-- `Pubkey::default()`: all bytes are zero.
abbrev pub default_pubkey : Pubkey
default_pubkey = 0

pub data PriceStatus : Type 0 where
  unknown trading halted auction ignored : PriceStatus

pub PriceStatus-discrete : Discrete PriceStatus
PriceStatus-discrete = hlevel

-- `pyth_sdk_solana::state::PriceInfo`.
pub record AggPrice : Type 0 where
  pub price : ℤ
  pub conf : ℕ
  pub status : PriceStatus
  pub pub_slot : ℕ

pub record PriceComp : Type 0 where
  pub publisher : Pubkey
  pub agg : AggPrice
  pub latest : AggPrice

-- `PriceAccount`, the account that the oracle program keeps for a price.
pub record PriceEntry : Type 0 where
  pub expo : ℤ
  pub valid_slot : ℕ
  pub ema_price_val : ℤ
  pub ema_conf_val : ℤ
  pub timestamp : ℤ
  pub prod : Pubkey
  pub next : Pubkey
  pub prev_slot : ℕ
  pub prev_price : ℤ
  pub prev_conf : ℕ
  pub prev_timestamp : ℤ
  pub agg : AggPrice
  pub comp : List PriceComp

-- `ProductAccount`: `attributes` is what its iterator yields.
pub record ProductData : Type 0 where
  pub px_acc : Pubkey
  pub attributes : List (String × String)

pub record MappingAccount : Type 0 where
  pub next : Pubkey
  pub products : List Pubkey

-- A product account with the price accounts found for it.
pub record ProductEntry : Type 0 where
  pub account_data : ProductData
  pub price_accounts : List Pubkey

-- `solana_sdk::commitment_config::CommitmentLevel`.
pub data CommitmentLevel : Type 0 where
  max recent root single single_gossip processed confirmed finalized : CommitmentLevel

-- What the agent calls of its libraries: the base58 text of a key and its parser, the conversion of a
-- `u64` to a float, the test `comp == PriceComp::default()`, and the signing keypairs with their bytes.
pub record Env : Type 1 where
  pub F64 : Type 0
  pub as_f64 : ℕ → F64
  pub to_string : Pubkey → String
  pub parse : String → Option Pubkey
  pub comp_is_default : PriceComp → Bool
  pub Keypair : Type 0
  pub pubkey : Keypair → Pubkey
  pub to_bytes : Keypair → List ℕ
  pub from_bytes : List ℕ → Option Keypair

-- Reading the text of a key gives the key back.
abbrev pub ParsesBack : Env → Type 0
ParsesBack env = (k : Pubkey) → env.parse (env.to_string k) ≡ some k

pub to_string_inj :
    ⦃env : Env⦄ → ParsesBack env → (j k : Pubkey) → env.to_string j ≡ env.to_string k → j ≡ k
to_string_inj ⦃env⦄ back j k e =
    let q : some j ≡ some k = sym (back j) ∙ ap env.parse e ∙ back k in cc

-- So do the bytes of a keypair.
abbrev pub DecodesBack : Env → Type 0
DecodesBack env = (k : env.Keypair) → env.from_bytes (env.to_bytes k) ≡ some k
