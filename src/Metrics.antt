-- ===== src/Metrics.antt =====
-- gateway/observability/metrics.py: the series and what each call records. `Collector` is the
-- registry of `prometheus_client`: a counter grows by the amount of an `inc`, and no other series
-- changes; an observation of a histogram changes no counter. Amounts are whole numbers.
pub mod Sums
use switchyard_llm.Prelude.{
  ℕ, ◌+◌, ◌≡◌, String, string_eq, nat_eq, Bool, true, false, ◌&&◌, List, [], ◌∷◌, ◌==◌,
  if◌then◌else◌,
}

-- A counter and the values of its labels.
pub record Series : Type 0 where
  pub name : String
  pub labels : List String

abbrev pub labels_beq : List String → List String → Bool
labels_beq [] [] = true
labels_beq [] (u ∷ us) = false
labels_beq (t ∷ ts) [] = false
labels_beq (t ∷ ts) (u ∷ us) = (t == u) && labels_beq ts us

abbrev pub series_beq : Series → Series → Bool
series_beq a b = (a.name == b.name) && labels_beq a.labels b.labels

pub record Collector : Type 1 where
  pub State : Type 0
  pub value : State → Series → ℕ
  pub inc : Series → ℕ → State → State
  pub observe : Series → ℕ → State → State
  pub value-inc :
      (a b : Series) (n : ℕ) (s : State)
      → value (inc a n s) b ≡ (if series_beq a b then value s b + n else value s b)
  pub value-observe : (a b : Series) (n : ℕ) (s : State) → value (observe a n s) b ≡ value s b

unfoldable pub stream_label : Bool → String
stream_label true = "true"
stream_label false = "false"

abbrev pub requests : String → String → String → Bool → Series
requests alias provider outcome stream = record {
  name = "switchyard_requests";
  labels = alias ∷ provider ∷ outcome ∷ stream_label stream ∷ [];
}

abbrev pub latency : String → Bool → Series
latency provider stream = record {
  name = "switchyard_request_latency_seconds";
  labels = provider ∷ stream_label stream ∷ [];
}

abbrev pub cache_events : String → Series
cache_events event = record { name = "switchyard_cache_events"; labels = event ∷ [] }

abbrev pub errors : String → Series
errors type = record { name = "switchyard_errors"; labels = type ∷ [] }

abbrev pub provider_failures : String → String → Series
provider_failures provider reason = record {
  name = "switchyard_provider_failures";
  labels = provider ∷ reason ∷ [];
}

abbrev pub tokens : String → String → Series
tokens provider direction = record {
  name = "switchyard_tokens";
  labels = provider ∷ direction ∷ [];
}

abbrev pub cost : String → String → Series
cost tenant provider = record { name = "switchyard_cost_usd"; labels = tenant ∷ provider ∷ [] }

module _ (c : Collector) where
  unfoldable pub record_request : String → String → String → Bool → c.State → c.State
  record_request alias provider outcome stream = c.inc (requests alias provider outcome stream) 1

  unfoldable pub observe_latency : String → Bool → ℕ → c.State → c.State
  observe_latency provider stream seconds = c.observe (latency provider stream) seconds

  unfoldable pub record_cache : String → c.State → c.State
  record_cache event = c.inc (cache_events event) 1

  unfoldable pub record_error : String → c.State → c.State
  record_error type = c.inc (errors type) 1

  unfoldable pub record_provider_failure : String → String → c.State → c.State
  record_provider_failure provider reason = c.inc (provider_failures provider reason) 1

  unfoldable pub inc_if : Series → ℕ → c.State → c.State
  inc_if series n s = if n == 0 then s else c.inc series n s

  unfoldable pub record_usage : String → String → ℕ → ℕ → ℕ → c.State → c.State
  unfolding inc_if
  record_usage tenant provider prompt_tokens completion_tokens cost_usd s =
      let s' = inc_if (tokens provider "prompt") prompt_tokens s in
      let s'' = inc_if (tokens provider "completion") completion_tokens s' in
      inc_if (cost tenant provider) cost_usd s''
