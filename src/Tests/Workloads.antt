-- ===== src/Tests/Workloads.antt =====
-- The workload at a concrete generator, and a spelling of its bases.
use switchyard_llm.Prelude.{
  ℕ, zero, suc, ◌≡◌, refl, ap, String, string_eq, List, [], some, length, arith, if◌then◌else◌, ltb,
}
use switchyard_llm.Workload.{
  Base, Random, WorkloadItem, all_bases, generate_workload, distinct_base_count,
}
use switchyard_llm.Workload.Corpus.{intents}
use switchyard_llm.Workload.Labels.{generate_workload-Labelled}
use switchyard_llm.Workload.Labelling.{Labelled}
use Prim.Native.Char.{code}
use Prim.Native.String.{◌∷◌ as cons, [] as empty}

-- A text of marks, a bar and marks.
abbrev marks : ℕ → String → String
marks zero t = t
marks (suc n) t = cons "i" (marks n t)

abbrev pub spell : Base → String
spell (i, j) = marks i (cons "|" (marks j empty))

abbrev lead : String → ℕ
lead empty = 0
lead (cons c t) = code c

marks_ends : (j l : ℕ) → marks j empty ≡ marks l empty → j ≡ l
marks_ends zero zero e = refl
marks_ends zero (suc l) e = absurd (omega (arith, ap lead e))
marks_ends (suc j) zero e = absurd (omega (arith, ap lead e))
marks_ends (suc j) (suc l) e = ap suc (marks_ends j l (ground (arith, e)))

spell_apart : (i j k l : ℕ) → spell (i, j) ≡ spell (k, l) → (i ≡ k) × (j ≡ l)
spell_apart zero j zero l e = (refl, marks_ends j l (ground (arith, e)))
spell_apart zero j (suc k) l e = absurd (omega (arith, ap lead e))
spell_apart (suc i) j zero l e = absurd (omega (arith, ap lead e))
spell_apart (suc i) j (suc k) l e =
    let (a, b) = spell_apart i j k l (ground (arith, e)) in (ap suc a, b)

pub same_base : (a b : Base) → spell a ≡ spell b → a ≡ b
same_base a b e =
    let (same_intent, same_row) = spell_apart a.0 a.1 b.0 b.1 e in λ t. (same_intent t, same_row t)

-- A generator that draws its own state, brought into the range, and counts; it shuffles nothing.
abbrev within : ℕ → ℕ → ℕ
within n s = if ltb s n then s else 0

abbrev between : ℕ → ℕ → ℕ → ℕ
between a b s = if ltb s a then a else (if ltb b s then b else s)

abbrev pub counter : Random
counter = record {
  State = ℕ;
  Rate = ℕ;
  seeded = λ seed. seed;
  shuffle = λ xs s. (xs, s);
  random_below = λ d s. (ltb s d, suc s);
  randint = λ a b s. (between a b s, suc s);
  randrange = λ n s. (within n s, suc s);
  choice = λ n s. (within n s, suc s);
  count-shuffle = λ p xs s. refl;
  randint-ge = λ a b s h. ground (arith, h);
  randint-le = λ a b s h. ground (arith, h);
  randrange-lt = λ n s h. ground (arith, h);
  choice-lt = λ n s h. ground (arith, h);
}

bases_counted : distinct_base_count intents ≡ 590
unfolding distinct_base_count all_bases
bases_counted = refl

generate_workload-Labelled_example :
    (items : List WorkloadItem) × (generate_workload counter spell intents 4 3 0 "fast"
      ≡ some items)
    × (length items ≡ 4)
    × Labelled [] items
generate_workload-Labelled_example = generate_workload-Labelled counter spell 4 3 0 "fast" same_base
