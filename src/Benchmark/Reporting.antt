-- ===== src/Benchmark/Reporting.antt =====
-- run_benchmark.py: `main` and the report that it prints.
use switchyard_llm.Benchmark.Results.{Results}
