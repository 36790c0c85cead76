-- ===== src/Signals.antt =====
-- gateway/routing/signals.py and gateway/observability/cost.py: the live latency per provider and
-- the list prices. A latency is a fraction of whole numbers, so the moving average is exact; a price
-- is a whole number of price units per million tokens, and a cost is in millionths of that unit, so
-- the source's division by 1_000_000 is the change of unit.
pub mod Average
pub mod Prices
use switchyard_llm.Prelude.{
  string_eq, ℕ, ◌+◌, ◌-◌, ◌*◌, String, Bool, Option, none, some, Dict, lookup, insert, leb,
}

pub record Fraction : Type 0 where
  pub num : ℕ
  pub den : ℕ

abbrev pub leq : Fraction → Fraction → Bool
leq a b = leb (a.num * b.den) (b.num * a.den)

-- The list price of a model.
pub record Price : Type 0 where
  pub input : ℕ
  pub output : ℕ

abbrev pub PriceBook : Type 0
PriceBook = Dict String Price

unfoldable pub cost_usd : PriceBook → String → ℕ → ℕ → ℕ
cost_usd prices model prompt_tokens completion_tokens = elim (lookup model prices) [
  | none ↦ 0
  | some p ↦ prompt_tokens * p.input + completion_tokens * p.output
]

-- `alpha` is the fraction `alpha_num / alpha_den`.
pub record RoutingSignals : Type 0 where
  pub pricebook : PriceBook
  pub alpha_num : ℕ
  pub alpha_den : ℕ
  pub latencies : Dict String Fraction

-- `alpha * ms + (1 - alpha) * prev`
unfoldable pub smooth : ℕ → ℕ → Fraction → Fraction → Fraction
smooth a b ms prev = record {
  num = a * ms.num * prev.den + (b - a) * prev.num * ms.den;
  den = b * ms.den * prev.den;
}

-- `seconds * 1000.0`
unfoldable pub to_ms : Fraction → Fraction
to_ms seconds = record seconds { num = seconds.num * 1000 }

unfoldable pub record_latency : String → Fraction → RoutingSignals → RoutingSignals
unfolding to_ms
record_latency provider seconds s =
    let ms = to_ms seconds in
    elim (lookup provider s.latencies) [
      | none ↦ record s { latencies = insert provider ms s.latencies }
      | some prev ↦ record s {
        latencies = insert provider (smooth s.alpha_num s.alpha_den ms prev) s.latencies;
      }
    ]

unfoldable pub latency_ms : RoutingSignals → String → Option Fraction
latency_ms s provider = lookup provider s.latencies

unfoldable pub unit_cost : RoutingSignals → String → ℕ
unit_cost s model = cost_usd s.pricebook model 1 1
