-- ===== src/Pythd/Status.antt =====
-- The texts of a price status: `map_status` and `price_status_to_str` of adapter.rs.
use pyth_agent.Prelude.{◌≡◌, ◌↔◌, refl, subst, arith, Option, none, some, String, ite}
use pyth_agent.Prelude.Maps.{dec_string}
use pyth_agent.Solana.{PriceStatus, unknown, trading, halted, auction, ignored}

unfoldable pub price_status_to_str : PriceStatus → String
price_status_to_str unknown = "unknown"
price_status_to_str trading = "trading"
price_status_to_str halted = "halted"
price_status_to_str auction = "auction"
price_status_to_str ignored = "ignored"

unfoldable pub map_status : String → Option PriceStatus
map_status status = ite (dec_string status "unknown") (some unknown) (
    ite (dec_string status "trading") (some trading) (
      ite (dec_string status "halted") (some halted) (
        ite (dec_string status "auction") (some auction)
          (ite (dec_string status "ignored") (some ignored) none))))

map_of_str : (s : PriceStatus) → map_status (price_status_to_str s) ≡ some s
unfolding map_status price_status_to_str dec_string
map_of_str unknown = refl
map_of_str trading = refl
map_of_str halted = refl
map_of_str auction = refl
map_of_str ignored = refl

-- A text is read as a status exactly if it is the text that the status is written as.
pub map_status_iff :
    (text : String) (s : PriceStatus) → (map_status text ≡ some s) ↔ (price_status_to_str s ≡ text)
unfolding map_status price_status_to_str
map_status_iff text s =
    (λ e. ground arith, λ e. subst (λ t. map_status t ≡ some s) e (map_of_str s))
