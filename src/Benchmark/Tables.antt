-- ===== src/Benchmark/Tables.antt =====
-- run_benchmark.py: the tables of the report.
use Prim.Native.String.{◌++◌ as append, ◌∷◌ as cons, [] as empty}
use switchyard_llm.Prelude.{
  ℕ, zero, suc, ◌+◌, ◌≡◌, refl, ap, ◌∙◌, String, List, [], ◌∷◌, ◌++◌, map, Option, none, some,
  length, All, arith,
}
use switchyard_llm.Benchmark.Summary.{Ratio, SweepRow}
use switchyard_llm.Benchmark.Results.{Bench, Report, Results, Config}
use switchyard_llm.Benchmark.Markdown.{
  bars, Texts, row, concat, opening, pctf, headline_cells, sweep_cells, scoping_parts, opening,
  sweep_title, sweep_lines, sweeps, markdown_lines,
}
use text.Mathlib.TextLemmas.{nil-append, cons-append}

bars-append : (a c : String) → bars (append a c) ≡ bars a + bars c
bars-append empty c = ap bars (nil-append c) ∙ omega arith
bars-append (cons x a) c = ap bars (cons-append x a c) ∙ omega (arith, bars-append a c)

-- A row has a bar before each cell and one at its end.
bars-row :
    (cells : List String) → All (λ t. bars t ≡ 0) cells → bars (row cells) ≡ suc (length cells)
bars-row [] plain = refl
bars-row (cell ∷ cells) (here, rest) = omega (
  arith,
  bars-append "| " (append cell (append " " (row cells))),
  bars-append cell (append " " (row cells)),
  bars-append " " (row cells),
  here,
  bars-row cells rest,
)

map-bars-append : (xs ys : List String) → map bars (xs ++ ys) ≡ map bars xs ++ map bars ys
map-bars-append [] ys = refl
map-bars-append (x ∷ xs) ys = ap (λ (l : List ℕ). bars x ∷ l) (map-bars-append xs ys)

-- The bars of the lines of a table with `rows` rows: titles, rule and rows.
abbrev pub repeated : ℕ → ℕ → List ℕ
repeated zero k = []
repeated (suc n) k = k ∷ repeated n k

abbrev pub table : ℕ → ℕ → List ℕ
table columns rows = suc columns ∷ suc columns ∷ repeated rows (suc columns)

-- The bars of the lines of the sweeps of `runs` runs with `rows` thresholds.
abbrev pub sweep_tables : ℕ → ℕ → List ℕ
sweep_tables zero rows = []
sweep_tables (suc runs) rows = (0 ∷ 0 ∷ 0 ∷ table 5 rows) ++ sweep_tables runs rows

-- The bars of the lines of a report, with `named` bars in the names of the models.
abbrev pub layout : ℕ → ℕ → ℕ → List ℕ
layout named runs rows = (0 ∷ 0 ∷ named ∷ 0 ∷ table 6 runs) ++ sweep_tables runs rows

bars-rows :
    {X : Type 0} (k : ℕ) (cells : X → List String)
    → ((x : X) → bars (row (cells x)) ≡ k)
    → (xs : List X) → map bars (map (λ x. row (cells x)) xs) ≡ repeated (length xs) k
bars-rows k cells each [] = refl
bars-rows k cells each (x ∷ xs) = rw (each x, bars-rows k cells each xs) refl

joined : {a c d e : List ℕ} → a ≡ c → d ≡ e → a ++ d ≡ c ++ e
joined p q = λ i. p i ++ q i

module _ (b : Bench) (t : Texts b) where
  bars-pctf : (x : Option Ratio) → bars (pctf b t x) ≡ 0
  unfolding pctf
  bars-pctf none = refl
  bars-pctf (some x) = t.bars-percent x

  bars-headline : (run : Report b) → bars (row (headline_cells b t run)) ≡ 7
  unfolding headline_cells
  bars-headline (h, rows) = bars-row (headline_cells b t (h, rows)) (
    t.bars-percent_rate h.d,
    (
      bars-pctf (some h.hit_rate),
      (
        bars-pctf (some h.cost_reduction),
        (
          bars-pctf (some h.p50_drop),
          (bars-pctf (some h.p95_drop), (bars-pctf (some h.p99_drop), tt)),
        ),
      ),
    ),
  )

  bars-sweep : (s : SweepRow b.faiss.Similarity) → bars (row (sweep_cells b t s)) ≡ 6
  unfolding sweep_cells
  bars-sweep s = bars-row (sweep_cells b t s) (
    t.bars-similarity s.threshold,
    (
      bars-pctf (some s.hit_rate),
      (bars-pctf (some s.false_hit_rate), (bars-pctf s.precision, (bars-pctf s.recall, tt))),
    ),
  )

  abbrev total : List String → ℕ
  total [] = 0
  total (x ∷ xs) = bars x + total xs

  bars-concat : (ts : List String) → bars (concat ts) ≡ total ts
  bars-concat [] = refl
  bars-concat (x ∷ xs) = omega (arith, bars-append x (concat xs), bars-concat xs)

  bars-scoping :
      (cfg : Config b)
      → bars (concat (scoping_parts b t cfg)) ≡ bars cfg.embedding_model + bars cfg.model
  unfolding scoping_parts
  bars-scoping cfg = omega (
    arith,
    bars-concat (scoping_parts b t cfg),
    t.bars-similarity cfg.threshold,
    t.bars-number cfg.n,
    t.bars-number cfg.seed,
    t.bars-real cfg.miss_latency_median_s,
    t.bars-real cfg.miss_latency_sigma,
  )

  bars-title : (run : Report b) → bars (concat (sweep_title b t run)) ≡ 0
  unfolding sweep_title
  bars-title (h, rows) =
      omega (arith, bars-concat (sweep_title b t (h, rows)), t.bars-percent_rate h.d)

  sweep_layout :
      (run : Report b) → map bars (sweep_lines b t run) ≡ 0 ∷ 0 ∷ 0 ∷ table 5 (length run.1)
  unfolding sweep_lines
  sweep_layout (h, rows) =
      rw (bars-title (h, rows), bars-rows 6 (sweep_cells b t) bars-sweep rows) refl

  sweeps_layout :
      (k : ℕ) (runs : List (Report b))
      → All (λ (run : Report b). length run.1 ≡ k) runs
      → map bars (sweeps b t runs) ≡ sweep_tables (length runs) k
  unfolding sweeps
  sweeps_layout k [] same = refl
  sweeps_layout k (run ∷ runs) (here, rest) =
      map-bars-append (sweep_lines b t run) (sweeps b t runs)
      ∙ joined (sweep_layout run ∙ ap (λ m. 0 ∷ 0 ∷ 0 ∷ table 5 m) here) (sweeps_layout k runs rest)

  opening_layout :
      (results : Results b)
      → map bars (opening b t results)
        ≡ 0
          ∷ 0
          ∷ (bars results.config.embedding_model + bars results.config.model)
          ∷ 0
          ∷ table 6 (length results.runs)
  unfolding opening
  opening_layout results =
      rw (bars-scoping results.config, bars-rows 7 (headline_cells b t) bars-headline results.runs)
        refl

  pub markdown_layout :
      (k : ℕ) (results : Results b)
      → All (λ (run : Report b). length run.1 ≡ k) results.runs
      → map bars (markdown_lines b t results)
        ≡ layout
            (bars results.config.embedding_model + bars results.config.model)
            (length results.runs)
            k
  unfolding markdown_lines
  markdown_layout k results same =
      map-bars-append (opening b t results) (sweeps b t results.runs)
      ∙ joined (opening_layout results) (sweeps_layout k results.runs same)
