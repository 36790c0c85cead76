-- ===== src/Tests/Embedding.antt =====
-- Two threads that load the model of one embedder.
use switchyard_llm.Prelude.{ℕ, ◌≡◌, refl, Option, none, some, nat_eq}
use switchyard_llm.Embedder.{
  waiting, testing, returned, miss, acquire, see_now, miss_again, construct, store, release, read,
  System, step, Reach, start, next,
}
use switchyard_llm.Embedder.Loading.{returned_model}

-- Both threads find no model, the first takes the lock.
both_miss : (s : System) × Reach s × (s.pc 1 ≡ waiting) × (s.pc 0 ≡ testing) × (s.mem.model ≡ none)
both_miss = (
  _,
  next (next (next start (step 0 (miss refl))) (step 1 (miss refl))) (step 0 (acquire refl)),
  refl,
  refl,
  refl,
)

-- The first thread loads the model and returns it.
abbrev loaded : (s : System) × Reach s × (s.pc 0 ≡ returned (some 0)) × (s.pc 1 ≡ waiting)
loaded = (
  _,
  next
      (next
        (next
          (next
            (next
              (next (next (next start (step 0 (miss refl))) (step 1 (miss refl)))
                (step 0 (acquire refl)))
              (step 0 (miss_again refl)))
            (step 0 construct))
          (step 0 store))
        (step 0 release))
      (step 0 read),
  refl,
  refl,
)

-- The second finds it under the lock, and returns it too.
abbrev shared_model : (s : System) × Reach s × (s.pc 1 ≡ returned (some 0))
shared_model = (
  _,
  next
      (next (next (next loaded.1 (step 1 (acquire refl))) (step 1 (see_now refl))) (step 1 release))
      (step 1 read),
  refl,
)

returned_model_example :
    (◌≡◌ {A = Option ℕ} (some 0) (some 0)) × (shared_model.0.mem.constructed ≡ 1)
returned_model_example = returned_model 1 (some 0) shared_model.1 shared_model.2
