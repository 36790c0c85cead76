-- ===== src/Benchmark/Markdown.antt =====
-- run_benchmark.py: `render_markdown` and `main`. `Texts` has the texts that Python's formatting
-- makes of the figures; a line of the report is a text.
use Prim.Native.Char.{code}
use Prim.Native.String.{◌++◌ as append, ◌∷◌ as cons, [] as empty}
use switchyard_llm.Prelude.{
  ℕ, ◌+◌, ◌≡◌, nat_eq, ◌==◌, if◌then◌else◌, String, string_eq, List, [], ◌∷◌, ◌++◌, map, Option,
  none, some,
}
use switchyard_llm.Signals.{PriceBook}
use switchyard_llm.Cache.Keys.{join_lines}
use switchyard_llm.Workload.Corpus.{intents}
use switchyard_llm.Benchmark.Summary.{◌>>=◌, Ratio, SweepRow}
use switchyard_llm.Benchmark.Results.{Bench, Report, Config, Results, benchmark}

-- The bars of a text.
abbrev pub bars : String → ℕ
bars empty = 0
bars (cons c t) = (if code c == 124 then 1 else 0) + bars t

-- `percent` and `percent_rate` are `f"{x * 100:.1f}%"`, the others `f"{x}"`;
-- none of these texts has a bar.
pub record Texts (b : Bench) : Type 0 where
  pub percent : Ratio → String
  pub percent_rate : b.random.Rate → String
  pub number : ℕ → String
  pub real : b.Real → String
  pub similarity : b.faiss.Similarity → String
  pub bars-percent : (x : Ratio) → bars (percent x) ≡ 0
  pub bars-percent_rate : (d : b.random.Rate) → bars (percent_rate d) ≡ 0
  pub bars-number : (n : ℕ) → bars (number n) ≡ 0
  pub bars-real : (x : b.Real) → bars (real x) ≡ 0
  pub bars-similarity : (x : b.faiss.Similarity) → bars (similarity x) ≡ 0

-- A row of a table: `| a | b |`.
abbrev pub row : List String → String
row [] = "|"
row (cell ∷ cells) = append "| " (append cell (append " " (row cells)))

abbrev pub concat : List String → String
concat [] = ""
concat (t ∷ ts) = append t (concat ts)

abbrev pub headline_titles : List String
headline_titles =
    "duplicate rate d" ∷ "hit rate (Z)" ∷ "cost ↓ (X)" ∷ "p50 ↓" ∷ "p95 ↓ (Y)" ∷ "p99 ↓" ∷ []

abbrev pub sweep_titles : List String
sweep_titles = "threshold" ∷ "hit rate" ∷ "false-hit rate" ∷ "precision" ∷ "recall" ∷ []

module _ (b : Bench) (t : Texts b) where
  -- `_pctf`
  unfoldable pub pctf : Option Ratio → String
  pctf none = "—"
  pctf (some x) = t.percent x

  unfoldable pub headline_cells : Report b → List String
  unfolding pctf
  headline_cells (h, rows) =
      t.percent_rate h.d
      ∷ pctf (some h.hit_rate)
      ∷ pctf (some h.cost_reduction)
      ∷ pctf (some h.p50_drop)
      ∷ pctf (some h.p95_drop)
      ∷ pctf (some h.p99_drop)
      ∷ []

  unfoldable pub sweep_cells : SweepRow b.faiss.Similarity → List String
  unfolding pctf
  sweep_cells s =
      t.similarity s.threshold
      ∷ pctf (some s.hit_rate)
      ∷ pctf (some s.false_hit_rate)
      ∷ pctf s.precision
      ∷ pctf s.recall
      ∷ []

  unfoldable pub scoping_parts : Config b → List String
  scoping_parts cfg =
      "**Scoping:** embedding=`"
      ∷ cfg.embedding_model
      ∷ "`, model=`"
      ∷ cfg.model
      ∷ "`, threshold="
      ∷ t.similarity cfg.threshold
      ∷ ", n="
      ∷ t.number cfg.n
      ∷ ", seed="
      ∷ t.number cfg.seed
      ∷ ", modeled miss latency = lognormal(median="
      ∷ t.real cfg.miss_latency_median_s
      ∷ "s, sigma="
      ∷ t.real cfg.miss_latency_sigma
      ∷ ")."
      ∷ []

  unfoldable pub sweep_title : Report b → List String
  sweep_title (h, rows) = "### Threshold sweep (d = " ∷ t.percent_rate h.d ∷ ")" ∷ []

  -- The lines of a run's threshold sweep.
  unfoldable pub sweep_lines : Report b → List String
  unfolding sweep_cells sweep_title
  sweep_lines (h, rows) =
      ""
      ∷ concat (sweep_title (h, rows))
      ∷ ""
      ∷ row sweep_titles
      ∷ "|---|---|---|---|---|"
      ∷ map (λ s. row (sweep_cells s)) rows

  unfoldable pub sweeps : List (Report b) → List String
  unfolding sweep_lines
  sweeps [] = []
  sweeps (run ∷ runs) = sweep_lines run ++ sweeps runs

  -- The lines of `render_markdown` up to the sweeps.
  unfoldable pub opening : Results b → List String
  unfolding headline_cells scoping_parts
  opening results =
      "## Semantic cache benchmark"
      ∷ ""
      ∷ concat (scoping_parts results.config)
      ∷ ""
      ∷ row headline_titles
      ∷ "|---|---|---|---|---|---|"
      ∷ map (λ run. row (headline_cells run)) results.runs

  -- The lines that `render_markdown` joins.
  unfoldable pub markdown_lines : Results b → List String
  unfolding opening sweeps
  markdown_lines results = opening results ++ sweeps results.runs

  unfoldable pub render_markdown : Results b → String
  unfolding markdown_lines join_lines
  render_markdown results = join_lines (markdown_lines results)

  -- `_parse_args`, of the options in the order of the source.
  pub record Args : Type 0 where
    pub n : ℕ
    pub d : List b.random.Rate
    pub threshold : b.faiss.Similarity
    pub sweep : List b.faiss.Similarity
    pub seed : ℕ
    pub miss_median : b.Real
    pub miss_sigma : b.Real
    pub model : String
    pub pricing : String
    pub json_out : Option String

  -- The defaults of the options, by what the float literals are read as.
  unfoldable pub default_args :
      (String → b.random.Rate) → (String → b.faiss.Similarity) → (String → b.Real) → Args
  default_args rate similarity real = record {
    n = 400;
    d = map rate ("0.2" ∷ "0.4" ∷ []);
    threshold = similarity "0.90";
    sweep =
        map similarity ("0.70" ∷ "0.75" ∷ "0.80" ∷ "0.83" ∷ "0.85" ∷ "0.88" ∷ "0.90" ∷ "0.95" ∷ []);
    seed = 42;
    miss_median = real "0.6";
    miss_sigma = real "0.5";
    model = "llama-3.3-70b-versatile";
    pricing = "config/pricing.yaml";
    json_out = none;
  }

  -- What `main` prints, and the results that it dumps into a file.
  pub record Output : Type 0 where
    pub printed : List String
    pub written : Option (String × Results b)

  unfoldable pub output_of : Option String → Results b → Output
  unfolding render_markdown
  output_of none results = record { printed = render_markdown results ∷ []; written = none }
  output_of (some path) results =
      if path == ""
      then record { printed = render_markdown results ∷ []; written = none }
      else record {
        printed =
            render_markdown results ∷ concat ("\n(raw results written to " ∷ path ∷ ")" ∷ []) ∷ [];
        written = some (path, results);
      }

  -- `from_config` is what the price book reads at a path.
  unfoldable pub main : (String → PriceBook) → Args → Option Output
  unfolding output_of
  main from_config args = do
    results ←
        benchmark b args.n args.d args.threshold args.sweep args.seed args.miss_median
          args.miss_sigma args.model (from_config args.pricing) intents
    some (output_of args.json_out results)
