-- ===== src/Tests/Components.antt =====
-- The breaker, the routing, the streams and the request's header and estimate at concrete inputs.
use switchyard_llm.Prelude.{
  Dict, ℕ, ◌+◌, ◌≤◌, ◌≡◌, refl, min, String, string_eq, true, false, List, [], ◌∷◌, ◌++◌, map,
  Option, none, some, lookup, arith, if◌then◌else◌,
}
use switchyard_llm.Prelude.Int.{ℤ, pos, negsuc, ◌≤ℤ◌, ◌<ℤ◌}
use switchyard_llm.Schemas.{Json, Message, ChatCompletionRequest, Target}
use switchyard_llm.Schemas
use switchyard_llm.Breaker.{
  Config, CircuitBreaker, closed, opened, half_open, fresh, allow, record_success, record_failure,
  trips, Event, asks, succeeds, fails, step, run, answers,
}
use switchyard_llm.Breaker.Invariant.{IsValid, run-IsValid}
use switchyard_llm.Breaker.Window.{Trips, last, note, log_of, window-run, opens_only_at_rate}
use switchyard_llm.Breaker.Probes.{count_true, probes_granted, recovery}
use switchyard_llm.Signals.{Fraction, RoutingSignals}
use switchyard_llm.Routing.{Router, resolve, ordered, by_weight, enumerate, latency_aware}
use switchyard_llm.Routing.Orders.{InOrder, latency_aware-InOrder}
use switchyard_llm.Routing.Aliases.{resolve-Perm}
use switchyard_llm.Streaming.{
  Chunk, exhausted, stream_sse, gemini_stream, sent, finished, closed as stream_closed,
}
use switchyard_llm.Streaming.Frames.{
  stream_sse_lem, all_frames, chunks_of, taken, usage_in, last_usage, ran_out,
}
use switchyard_llm.Streaming.Lookahead.{Relayed, final, gemini_stream_usage}
use switchyard_llm.Tenancy.{estimate_tokens, input_tokens, count_text, content_text}
use switchyard_llm.Tenancy.Estimate.{estimate_negative}
use mathlib.Core.List.{Perm}

abbrev pub small : Config
small = record {
  window_size = 4;
  threshold_num = 1;
  threshold_den = 2;
  min_calls = 2;
  reset_timeout = 30;
  half_open_max = 1;
}

abbrev mixed : List Event
mixed = asks 1 ∷ succeeds ∷ asks 2 ∷ fails 3 ∷ asks 40 ∷ asks 41 ∷ succeeds ∷ fails 50 ∷ []

run-IsValid_example : IsValid small (run small fresh mixed)
run-IsValid_example = run-IsValid small mixed

window-run_example : (run small fresh mixed).window ≡ last 4 (log_of small fresh [] mixed)
window-run_example = window-run small mixed

opens_only_at_rate_example :
    ((now : ℕ) × (fails 9 ≡ fails now))
    × Trips small (
        last 4
          (note (run small fresh (fails 1 ∷ [])) (fails 9) (log_of small fresh [] (fails 1 ∷ []))))
unfolding run step record_failure trips
opens_only_at_rate_example = opens_only_at_rate small (fails 1 ∷ []) (fails 9) refl refl

abbrev pub tripped : CircuitBreaker
tripped = record {
  state = opened;
  window = false ∷ false ∷ [];
  opened_at = 100;
  half_open_calls = 0;
}

abbrev probing : CircuitBreaker
probing = record tripped { state = half_open }

probes_granted_example :
    count_true (answers small probing (map asks (130 ∷ 131 ∷ []))) + 0 ≡ min (0 + 2) 1
probes_granted_example = probes_granted small probing (130 ∷ 131 ∷ []) refl (omega arith)

recovery_example :
    let (b', granted) = allow small 130 tripped in
    (granted ≡ true)
    × (b'.state ≡ half_open)
    × ((record_success small b').state ≡ closed)
    × ((record_success small b').window ≡ [])
    × ((record_failure small 131 b').state ≡ opened)
    × ((record_failure small 131 b').opened_at ≡ 131)
    × ((record_failure small 131 b').window ≡ tripped.window)
recovery_example = recovery small tripped 130 131 refl (omega arith) (omega arith)

abbrev registered : Dict String CircuitBreaker
registered = ("gemini", fresh) ∷ ("groq", tripped) ∷ []

abbrev cold : RoutingSignals
cold = record {
  pricebook = ("m1", record { input = 5; output = 8 }) ∷ [];
  alpha_num = 3;
  alpha_den = 10;
  latencies = [];
}

abbrev in_ms : ℕ → Fraction
in_ms n = record { num = n; den = 1 }

abbrev pub targets : List Target
targets =
    record { provider = "gemini"; model = "m1"; weight = 3 }
    ∷ record { provider = "groq"; model = "m2"; weight = 1 }
    ∷ []

abbrev warm : RoutingSignals
warm = record cold { latencies = ("groq", in_ms 120) ∷ [] }

latency_aware-InOrder_example :
    (keyed : List (ℕ × Target)) × Perm keyed (enumerate 0 targets)
    × InOrder warm keyed
    × (map (λ (p : ℕ × Target). p.1) keyed ≡ latency_aware targets (some warm))
latency_aware-InOrder_example = latency_aware-InOrder warm targets

abbrev router : Router
router = record { aliases = ("fast", (by_weight, targets)) ∷ []; signals = some warm }

zero_draw : (k t : ℕ) → 0 ≤ t
zero_draw k t = omega arith

resolve-Perm_example :
    (ts : List Target) × (resolve router (λ k t. 0) 0 "fast" ≡ ordered ts) × Perm ts targets
unfolding lookup
resolve-Perm_example = resolve-Perm router (λ k t. 0) zero_draw 0 "fast" by_weight targets refl

abbrev pub chunk : ℕ → Chunk
chunk n = ("usage", Json.object (Schemas.field "total_tokens" (Json.count n) Schemas.end)) ∷ []

stream_sse_lem_example :
    stream_sse (some (chunk 1)) (chunk 2 ∷ []) exhausted (some 2)
    ≡ map sent (taken (some 2) (all_frames (chunks_of (some (chunk 1)) (chunk 2 ∷ [])) exhausted))
      ++ stream_closed
        ∷ (let over = ran_out (chunks_of (some (chunk 1)) (chunk 2 ∷ [])) exhausted (some 2) in
            finished
              (if over then last_usage (chunks_of (some (chunk 1)) (chunk 2 ∷ [])) else none)
              over
            ∷ [])
stream_sse_lem_example = stream_sse_lem (some (chunk 1)) (chunk 2 ∷ []) exhausted (some 2) refl

gemini_stream_usage_example :
    Relayed (chunk 1 ∷ chunk 2 ∷ []) (gemini_stream (chunk 1 ∷ chunk 2 ∷ []) exhausted)
    × (last_usage (gemini_stream (chunk 1 ∷ chunk 2 ∷ []) exhausted)
        ≡ usage_in (final (chunk 1) (chunk 2 ∷ [])))
gemini_stream_usage_example = gemini_stream_usage (chunk 1) (chunk 2 ∷ [])

abbrev pub request : Option ℤ → ChatCompletionRequest
request m = record {
  model = "fast";
  messages = record { role = "user"; content = Json.text "hello"; extra = [] } ∷ [];
  stream = false;
  temperature = Json.null;
  top_p = Json.null;
  max_tokens = m;
  n = none;
  stop = Json.null;
  extra = [];
}

no_limit : (m : ℤ) → none ≡ some m → pos 0 ≤ℤ m
no_limit m e = absurd (ground (arith, e))

estimate_negative_example :
    estimate_tokens (some (λ t. 2)) (λ j. "") (request (some (negsuc 99))) <ℤ pos 0
unfolding input_tokens count_text content_text
estimate_negative_example =
    estimate_negative (some (λ t. 2)) (λ j. "") (request (some (negsuc 99))) 99 refl (ground arith)

abbrev scheme : List ℕ
scheme = b'e' ∷ b'a' ∷ b'r' ∷ b'E' ∷ b'r' ∷ []
