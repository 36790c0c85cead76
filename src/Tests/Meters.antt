-- ===== src/Tests/Meters.antt =====
-- A registry of counters as a concrete function.
use switchyard_llm.Prelude.{ℕ, ◌+◌, ◌≡◌, refl, false, [], ◌∷◌, if◌then◌else◌}
use switchyard_llm.Metrics.{Series, series_beq, Collector, tokens}
use switchyard_llm.Metrics.Sums.{request, used, shares, apply_all, value-apply_all}

abbrev pub meter : Collector
meter = record {
  State = Series → ℕ;
  value = λ s b. s b;
  inc = λ a n s b. if series_beq a b then s b + n else s b;
  observe = λ a n s. s;
  value-inc = λ a b n s. refl;
  value-observe = λ a b n s. refl;
}

value-apply_all_example :
    meter.value
      (apply_all meter
        (request "fast" "groq" "success" false
          ∷ used "acme" "groq" 3 0 7
          ∷ used "acme" "groq" 2 5 1
          ∷ [])
        (λ s. 0))
      (tokens "groq" "prompt")
    ≡ 0
      + shares (tokens "groq" "prompt") (
          request "fast" "groq" "success" false
          ∷ used "acme" "groq" 3 0 7
          ∷ used "acme" "groq" 2 5 1
          ∷ [])
value-apply_all_example =
    value-apply_all meter
      (request "fast" "groq" "success" false
        ∷ used "acme" "groq" 3 0 7
        ∷ used "acme" "groq" 2 5 1
        ∷ [])
      (tokens "groq" "prompt") (λ s. 0)
