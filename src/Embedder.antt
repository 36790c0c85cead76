-- ===== src/Embedder.antt =====
-- gateway/cache/embedder.py: `SentenceTransformerEmbedder`, whose model the calls in the threadpool
-- load lazily. A thread's call of `_ensure_model` makes one access of what the threads share at a
-- time, and the threads interleave in any order. A model is a number: the count of those that were
-- constructed before it. A construction may raise, and then the `with` releases the lock.
-- The arguments `model_name` and `device` are left out, and encoding is the package's.
pub mod Loading
use switchyard_llm.Prelude.{
  ℕ, ◌+◌, ◌≡◌, Bool, true, false, Option, none, some, nat_eq, ◌==◌, if◌then◌else◌,
}

-- `_model` and `_lock`, with the number of models that were constructed.
pub record SentenceTransformerEmbedder : Type 0 where
  pub model : Option ℕ
  pub locked : Bool
  pub constructed : ℕ

-- Where a thread stands in `_ensure_model`.
pub data Pc : Type 0 where
  entering : Pc  -- before the first test
  waiting : Pc  -- before it takes the lock
  testing : Pc  -- before the second test
  constructing : Pc
  storing : ℕ → Pc  -- before the assignment of the model
  leaving : Pc  -- before the end of the `with`
  returning : Pc  -- before it reads what it returns
  returned : Option ℕ → Pc
  raised : Pc

-- One step of one thread.
pub data Move (e : SentenceTransformerEmbedder)
    : Pc → SentenceTransformerEmbedder → Pc → Type 0 where
  see : {x : ℕ} → e.model ≡ some x → Move e entering e returning
  miss : e.model ≡ none → Move e entering e waiting
  acquire : e.locked ≡ false → Move e waiting (record e { locked = true }) testing
  see_now : {x : ℕ} → e.model ≡ some x → Move e testing e leaving
  miss_again : e.model ≡ none → Move e testing e constructing
  construct :
      Move e constructing (record e { constructed = e.constructed + 1 }) (storing e.constructed)
  fail : Move e constructing (record e { locked = false }) raised
  store : {x : ℕ} → Move e (storing x) (record e { model = some x }) leaving
  release : Move e leaving (record e { locked = false }) returning
  read : Move e returning e (returned e.model)

-- The threads that have called, over one embedder: any number, by their index.
pub record System : Type 0 where
  pub mem : SentenceTransformerEmbedder
  pub pc : ℕ → Pc

abbrev pub update : (ℕ → Pc) → ℕ → Pc → ℕ → Pc
update pc i p j = if i == j then p else pc j

pub data Step (s : System) : System → Type 0 where
  step :
      (i : ℕ) {m : SentenceTransformerEmbedder} {p : Pc}
      → Move s.mem (s.pc i) m p
      → Step s (record { mem = m; pc = update s.pc i p })

-- A new embedder, `__init__`, before any call.
abbrev pub new : SentenceTransformerEmbedder
new = record { model = none; locked = false; constructed = 0 }

pub data Reach : System → Type 0 where
  start : Reach (record { mem = new; pc = λ i. entering })
  next : {s t : System} → Reach s → Step s t → Reach t
