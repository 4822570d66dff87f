-- ===== src/Samples.antt =====
-- An environment for examples: a key's text is as many letters as the key says, and floats are
-- natural numbers.
use Prim.Native.String.{String}
use pyth_agent.Prelude.{ℕ, zero, suc, ◌≡◌, refl, ap, Option, some, ◌==◌}
use pyth_agent.Prelude.{List, [], ◌∷◌, none}
use pyth_agent.Prelude.Int.{pos, negsuc}
use pyth_agent.Solana.{Env, ParsesBack, DecodesBack, AggPrice, PriceEntry, PriceStatus}

unfoldable pub unary : ℕ → String
unary zero = String.[]
unary (suc n) = String.◌∷◌ "x" (unary n)

unfoldable pub letters : String → ℕ
letters String.[] = 0
letters (String.◌∷◌ c s) = suc (letters s)

letters-unary : (n : ℕ) → letters (unary n) ≡ n
unfolding letters unary
letters-unary zero = refl
letters-unary (suc n) = ap suc (letters-unary n)

abbrev head? : List ℕ → Option ℕ
head? [] = none
head? (n ∷ _) = some n

instance abbrev pub sample_env : Env
sample_env = record {
  F64 = ℕ;
  as_f64 = λ n. n;
  to_string = unary;
  parse = λ s. some (letters s);
  comp_is_default = λ c. c.publisher == 0;
  Keypair = ℕ;
  pubkey = λ k. k;
  to_bytes = λ k. k ∷ [];
  from_bytes = head?;
}

pub sample-ParsesBack : ParsesBack sample_env
sample-ParsesBack n = ap some (letters-unary n)

pub sample-DecodesBack : DecodesBack sample_env
sample-DecodesBack k = refl

abbrev pub agg_at : ℕ → AggPrice
agg_at slot = record { price = pos 100; conf = 2; status = PriceStatus.trading; pub_slot = slot }

-- A price account with a given timestamp, of the product 3.
abbrev pub account_at : ℕ → PriceEntry
account_at time = record {
  expo = negsuc 7;
  valid_slot = 20;
  ema_price_val = pos 99;
  ema_conf_val = pos 1;
  timestamp = pos time;
  prod = 3;
  next = 0;
  prev_slot = 19;
  prev_price = pos 98;
  prev_conf = 3;
  prev_timestamp = pos 1;
  agg = agg_at 20;
  comp = [];
}
