-- ===== src/Metrics/Sums.antt =====
-- metrics.py: the counters are the sums of what was recorded.
use switchyard_llm.Prelude.{
  ℕ, ◌+◌, ◌≡◌, String, string_eq, nat_eq, Bool, List, [], ◌∷◌, if◌then◌else◌, arith,
}
use switchyard_llm.Metrics.{
  Series, series_beq, Collector, requests, latency, cache_events, errors, provider_failures, tokens,
  cost, record_request, observe_latency, record_cache, record_error, record_provider_failure,
  inc_if, record_usage,
}

-- The calls of the module.
pub data Event : Type 0 where
  request : (alias provider outcome : String) (stream : Bool) → Event
  timed : (provider : String) (stream : Bool) (seconds : ℕ) → Event
  cache : (event : String) → Event
  failed : (type : String) → Event
  provider_failed : (provider reason : String) → Event
  used : (tenant provider : String) (prompt_tokens completion_tokens cost_usd : ℕ) → Event

-- What an event is to add to a counter.
abbrev pub once : Series → Series → ℕ → ℕ
once a b n = if series_beq a b then n else 0

abbrev pub share : Series → Event → ℕ
share s (request alias provider outcome stream) = once (requests alias provider outcome stream) s 1
share s (timed provider stream seconds) = 0
share s (cache event) = once (cache_events event) s 1
share s (failed type) = once (errors type) s 1
share s (provider_failed provider reason) = once (provider_failures provider reason) s 1
share s (used tenant provider prompt completion price) =
    once (tokens provider "prompt") s prompt
    + once (tokens provider "completion") s completion
    + once (cost tenant provider) s price

abbrev pub shares : Series → List Event → ℕ
shares s [] = 0
shares s (e ∷ es) = share s e + shares s es

module _ (c : Collector) where
  unfoldable pub apply : Event → c.State → c.State
  unfolding record_request observe_latency record_cache record_error record_provider_failure
      record_usage
  apply (request alias provider outcome stream) = record_request c alias provider outcome stream
  apply (timed provider stream seconds) = observe_latency c provider stream seconds
  apply (cache event) = record_cache c event
  apply (failed type) = record_error c type
  apply (provider_failed provider reason) = record_provider_failure c provider reason
  apply (used tenant provider prompt completion price) =
      record_usage c tenant provider prompt completion price

  abbrev pub apply_all : List Event → c.State → c.State
  apply_all [] st = st
  apply_all (e ∷ es) st = apply_all es (apply e st)

  value-inc_if :
      (a b : Series) (n : ℕ) (st : c.State)
      → c.value (inc_if c a n st) b ≡ c.value st b + once a b n
  unfolding inc_if
  value-inc_if a b n st = ground (arith, c.value-inc a b n st, nat_eq.beq_iff n 0)

  value-inc_one :
      (a b : Series) (st : c.State) → c.value (c.inc a 1 st) b ≡ c.value st b + once a b 1
  value-inc_one a b st = ground (arith, c.value-inc a b 1 st)

  value-apply :
      (e : Event) (s : Series) (st : c.State) → c.value (apply e st) s ≡ c.value st s + share s e
  unfolding apply record_request observe_latency record_cache record_error record_provider_failure
      record_usage
  value-apply (request alias provider outcome stream) s st =
      value-inc_one (requests alias provider outcome stream) s st
  value-apply (timed provider stream seconds) s st =
      omega (arith, c.value-observe (latency provider stream) s seconds st)
  value-apply (cache event) s st = value-inc_one (cache_events event) s st
  value-apply (failed type) s st = value-inc_one (errors type) s st
  value-apply (provider_failed provider reason) s st =
      value-inc_one (provider_failures provider reason) s st
  value-apply (used tenant provider prompt completion price) s st =
      let st' = inc_if c (tokens provider "prompt") prompt st in
      let st'' = inc_if c (tokens provider "completion") completion st' in
      omega (
        arith,
        value-inc_if (tokens provider "prompt") s prompt st,
        value-inc_if (tokens provider "completion") s completion st',
        value-inc_if (cost tenant provider) s price st'',
      )

  -- After any calls, a counter has grown by the sum of their shares: 1 for each call with its name
  -- and labels, and for a call of `record_usage` the tokens of its provider and direction, or the
  -- cost of its tenant and provider.
  pub value-apply_all :
      (events : List Event) (s : Series) (st : c.State)
      → c.value (apply_all events st) s ≡ c.value st s + shares s events
  value-apply_all [] s st = omega arith
  value-apply_all (e ∷ es) s st =
      omega (arith, value-apply_all es s (apply e st), value-apply e s st)
