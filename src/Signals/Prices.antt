-- ===== src/Signals/Prices.antt =====
-- cost.py: `PriceBook.from_config`, of no file or of what stands under `models`.
use switchyard_llm.Prelude.{
  ℕ, ◌+◌, ◌*◌, ◌≡◌, refl, String, string_eq, [], ◌∷◌, Option, none, some, Dict, lookup, arith,
}
use switchyard_llm.Signals.{Price, PriceBook, cost_usd}

pub record PriceConfig : Type 0 where
  pub input : Option ℕ
  pub output : Option ℕ

abbrev pub or_zero : Option ℕ → ℕ
or_zero none = 0
or_zero (some n) = n

unfoldable pub price_of : PriceConfig → Price
price_of p = record { input = or_zero p.input; output = or_zero p.output }

unfoldable pub load_models : Dict String PriceConfig → PriceBook
unfolding price_of
load_models [] = []
load_models ((model, p) ∷ cfg) = (model, price_of p) ∷ load_models cfg

unfoldable pub load_prices : Option (Dict String PriceConfig) → PriceBook
unfolding load_models
load_prices none = []
load_prices (some cfg) = load_models cfg

-- The list price of tokens under an entry of the configuration.
abbrev pub listed : Option PriceConfig → ℕ → ℕ → ℕ
listed none prompt completion = 0
listed (some p) prompt completion = prompt * or_zero p.input + completion * or_zero p.output

-- A call costs what the configuration lists for its model, a price that is not given counting as 0,
-- and nothing if the model is not listed.
pub cost_usd-load_prices :
    (cfg : Dict String PriceConfig) (model : String) (prompt completion : ℕ)
    → cost_usd (load_prices (some cfg)) model prompt completion
      ≡ listed (lookup model cfg) prompt completion
unfolding cost_usd load_prices load_models lookup
cost_usd-load_prices [] model prompt completion = refl
cost_usd-load_prices ((m, p) ∷ cfg) model prompt completion =
    ground (arith, cost_usd-load_prices cfg model prompt completion)
