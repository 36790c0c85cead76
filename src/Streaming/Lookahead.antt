-- ===== src/Streaming/Lookahead.antt =====
-- gemini.py: only the last chunk keeps its usage.
use switchyard_llm.Prelude.{
  String, ◌∙◌, if◌then◌else◌, ◌≡◌, refl, List, [], ◌∷◌, none, some, lookup, ◌==◌, arith, Bool-cases,
  inl, inr, string_eq,
}
use switchyard_llm.Streaming.{Chunk, exhausted, without_usage, lookahead, gemini_stream}
use switchyard_llm.Streaming.Frames.{last_usage, usage_in, older_none}

lookup-without_usage : (m : Chunk) → lookup "usage" (without_usage m) ≡ none
unfolding lookup without_usage
lookup-without_usage [] = refl
lookup-without_usage ((k, v) ∷ m) = elim (Bool-cases (k == "usage")) [
  | inl it ↦ rw it (lookup-without_usage m)
  | inr other ↦ rw (other, other) (lookup-without_usage m)
]

lookup-without_other :
    (k : String) (m : Chunk)
    → lookup k (without_usage m) ≡ (if k == "usage" then none else lookup k m)
unfolding lookup without_usage
lookup-without_other k [] = ground arith
lookup-without_other k ((j, v) ∷ m) = ground (
  arith,
  lookup-without_other k m,
  string_eq.beq_iff j "usage",
  string_eq.beq_iff k "usage",
  string_eq.beq_iff j k,
)

-- The chunks of `ds` are those of `cs`, in order: each but the last without its usage and otherwise
-- with the same fields, and the last as it is.
abbrev pub Relayed : List Chunk → List Chunk → Type 0
Relayed [] [] = Unit {0}
Relayed [] (d ∷ ds) = ⊥
Relayed (c ∷ cs) [] = ⊥
Relayed (c ∷ []) (d ∷ ds) = ◌≡◌ {A = List Chunk} (d ∷ ds) (c ∷ [])
Relayed (c ∷ e ∷ cs) (d ∷ ds) =
    ((k : String) → lookup k d ≡ (if k == "usage" then none else lookup k c)) × Relayed (e ∷ cs) ds

lookahead-Relayed :
    (c : Chunk) (cs : List Chunk) → Relayed (c ∷ cs) (lookahead (some c) cs exhausted)
unfolding lookahead
lookahead-Relayed c [] = refl
lookahead-Relayed c (d ∷ ds) = (λ k. lookup-without_other k c, lookahead-Relayed d ds)

usage-without_usage : (m : Chunk) → usage_in (without_usage m) ≡ none
usage-without_usage m = rw (usage_in, lookup-without_usage m) refl

-- The last of a list that starts with `c`.
abbrev pub final : Chunk → List Chunk → Chunk
final c [] = c
final c (d ∷ ds) = final d ds

lookahead_usage :
    (c : Chunk) (cs : List Chunk)
    → last_usage (lookahead (some c) cs exhausted) ≡ usage_in (final c cs)
unfolding lookahead
lookahead_usage c [] = refl
lookahead_usage c (d ∷ ds) = rw (usage-without_usage c) (older_none _) ∙ lookahead_usage d ds

-- Of a Gemini stream that comes to its end, every chunk is passed on in order: each but the last
-- without its usage and otherwise with the same fields, and the last as it is. So the usage that
-- `stream_sse` takes from the adapter's chunks is that of the last chunk of the upstream, if it has
-- one.
pub gemini_stream_usage :
    (c : Chunk) (cs : List Chunk)
    → Relayed (c ∷ cs) (gemini_stream (c ∷ cs) exhausted)
      × (last_usage (gemini_stream (c ∷ cs) exhausted) ≡ usage_in (final c cs))
unfolding gemini_stream lookahead
gemini_stream_usage c cs = (lookahead-Relayed c cs, lookahead_usage c cs)
