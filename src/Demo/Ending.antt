-- ===== src/Demo/Ending.antt =====
-- demo_resilience.py: what `main` reports.
use switchyard_llm.Prelude.{
  ℕ, ◌+◌, ◌*◌, ◌≤◌, ◌≡◌, refl, ◌∙◌, ap, String, string_eq, Bool, true, false, [], Option, none,
  some, Dict, lookup, arith, leb, ◌==◌, if◌then◌else◌, Option-cases, inl, inr,
}
use switchyard_llm.Adapter.{Codec}
use switchyard_llm.Breaker.{CircuitState, closed, opened, half_open}
use switchyard_llm.Breaker.Registry.{
  Breakers, breaker_of, get, snapshot, state_value, lookup-snapshot,
}
use switchyard_llm.Cache.{Faiss}
use switchyard_llm.Demo.{DemoReport, drive, phases, main}
use switchyard_llm.Demo.Driving.{all_by, drive-Up, drive-Down}
use switchyard_llm.Demo.Outage.{fresh-Serving, Serving-Failing, Failing_end}
use switchyard_llm.Demo.Phases.{Speaks, demo_app, demo_starts}
use switchyard_llm.Executor.{Shared, nanoseconds}
use switchyard_llm.Gateway.{Outside}
use switchyard_llm.Limiter.{Redis}
use switchyard_llm.MockUpstream.{initial}
use switchyard_llm.Providers.{AdapterConfig, Text}
use switchyard_llm.Schemas.{Json}
use switchyard_llm.Signals.Prices.{PriceConfig, load_prices}
use switchyard_llm.Startup.{healthz}

-- Whether a circuit is shown as open.
abbrev pub shown_open : Option String → Bool
shown_open none = false
shown_open (some state) = state == "open"

shown_state :
    (c : CircuitState) (b : Bool)
    → c ≡ (if b then opened else closed)
    → shown_open (some (state_value c)) ≡ b
unfolding state_value
shown_state opened true h = refl
shown_state closed false h = refl
shown_state opened false h = absurd (ground (arith, h))
shown_state closed true h = absurd (ground (arith, h))
shown_state half_open true h = absurd (ground (arith, h))
shown_state half_open false h = absurd (ground (arith, h))

snapshot_open :
    (p : String) (r : Breakers) (b : Bool)
    → (breaker_of p r).state ≡ (if b then opened else closed)
    → shown_open (lookup p (snapshot r)) ≡ b
unfolding get
snapshot_open p r b h = elim (Option-cases (lookup p r)) [
  | inl gone ↦
      let hidden : lookup p (snapshot r) ≡ none = ground (arith, lookup-snapshot p r, gone) in
      ap shown_open hidden ∙ ground (arith, h, gone)
  | inr (x, here) ↦
      let shown : lookup p (snapshot r) ≡ some (state_value x.state) =
        ground (arith, lookup-snapshot p r, here) in
      ap shown_open shown ∙ shown_state x.state b (ground (arith, h, here))
]

-- What the demo reports, for `n` requests in each phase.
pub record Absorbed (n : ℕ) (r : DemoReport) : Type 0 where
  pub phase1 : r.phase1 ≡ all_by "mock_a" n
  pub phase2 : r.phase2 ≡ all_by "mock_b" n
  pub circuit : shown_open (lookup "mock_a" r.circuits) ≡ leb 3 n

module _ {redis : Redis} {faiss : Faiss} (second one : ℕ) (k : Codec) (encode : Json → Text)
    (http : ℕ → String) (o : Outside redis faiss AdapterConfig) (speaks : Speaks k encode)
    (getenv : Text → Option Text) (ninety : faiss.Similarity)
    (pricing : Option (Dict String PriceConfig)) (store : redis.Store)
    (kept : (n : ℕ) (x : Shared) → o.env.others n x ≡ x)
    (in_time : (m n : ℕ) → o.env.now n ≤ o.env.now m + 60 * nanoseconds) where
  phases-Absorbed :
      (n : ℕ)
      → Absorbed n (
          phases second one k encode http o
            (demo_app redis faiss second one ninety store (load_prices pricing))
            n)
  unfolding phases healthz get lookup
  phases-Absorbed n =
      let s0 = (demo_app redis faiss second one ninety store (load_prices pricing)).1 in
      let (counted, off, healthy, up) =
        drive-Up second one k encode http o speaks ninety store (load_prices pricing) kept in_time n
          0 n s0 (omega arith) refl fresh-Serving refl in
      let s1 =
        (drive second one k encode http o
          (demo_app redis faiss second one ninety store (load_prices pricing)).0 initial n []
          s0).1 in
      let (counted', down) =
        drive-Down second one k encode http o speaks ninety store (load_prices pricing) kept in_time
          n n 0 s1 (omega arith) off
          (Serving-Failing n (breaker_of "mock_a" s1.shared.breakers) healthy) up in
      record {
        phase1 = counted;
        phase2 = counted';
        circuit = snapshot_open "mock_a" _ (leb 3 n) (Failing_end n _ down);
      }

  -- With the gateway's calls one after another, with the mock's replies read as they are written, and
  -- with all of it within the deadline of a request, the demo reports: `mock_a` serves all requests
  -- of the first phase, `mock_b` all of the second, and the circuit of `mock_a` is shown as open in
  -- the end exactly if a phase has three requests or more.
  pub main-Absorbed :
      (n : ℕ)
      → (report : DemoReport) × (main second one k encode http o getenv ninety pricing store n
          ≡ some report)
        × Absorbed n report
  unfolding main
  main-Absorbed n = (
    phases second one k encode http o
        (demo_app redis faiss second one ninety store (load_prices pricing)) n,
    rw (demo_starts redis faiss second one getenv ninety pricing store, main) refl,
    phases-Absorbed n,
  )
