-- ===== src/Embedder/Loading.antt =====
-- embedder.py: the double-checked lock loads one model, for all the threads.
use switchyard_llm.Prelude.{
  ℕ, ◌≤◌, ◌≡◌, refl, ◌⊎◌, inl, inr, Bool, true, false, Option, none, some, nat_eq, arith, sym,
  subst, Bool-cases, Option-cases,
}
use switchyard_llm.Embedder.{
  SentenceTransformerEmbedder, Pc, entering, waiting, testing, constructing, storing, leaving,
  returning, returned, raised, Move, see, miss, acquire, see_now, miss_again, construct, fail,
  store, release, read, System, update, step, Reach, start, next,
}

-- Whether a thread is inside the `with`.
abbrev pub inside : Pc → Bool
inside testing = true
inside constructing = true
inside (storing x) = true
inside leaving = true
inside p = false

-- What a thread's place says of the memory.
abbrev Knows : SentenceTransformerEmbedder → Pc → Type 0
Knows e testing = e.model ≡ none → e.constructed ≡ 0
Knows e constructing = (e.model ≡ none) × (e.constructed ≡ 0)
Knows e (storing x) = (e.model ≡ none) × (x ≡ 0) × (e.constructed ≡ 1)
Knows e leaving = e.model ≡ some 0
Knows e returning = e.model ≡ some 0
Knows e (returned r) = (r ≡ some 0) × (e.model ≡ some 0)
Knows e p = Unit

record Inv (e : SentenceTransformerEmbedder) (pc : ℕ → Pc) : Type 0 where
  pub first : (x : ℕ) → e.model ≡ some x → (x ≡ 0) × (e.constructed ≡ 1)
  pub few : e.constructed ≤ 1
  pub unloaded : e.locked ≡ false → e.model ≡ none → e.constructed ≡ 0
  pub knows : (i : ℕ) → Knows e (pc i)
  pub alone : (i j : ℕ) → inside (pc i) ≡ true → inside (pc j) ≡ true → i ≡ j
  pub held : (i : ℕ) → inside (pc i) ≡ true → e.locked ≡ true
  pub holder : e.locked ≡ true → (i : ℕ) × (inside (pc i) ≡ true)

module _ {e : SentenceTransformerEmbedder} {pc : ℕ → Pc} (inv : Inv e pc) (i : ℕ) where
  open inv use {first, few, unloaded, knows, alone, held, holder}

  Move-Knows :
      {e' : SentenceTransformerEmbedder} {p p' : Pc}
      → Move e p e' p'
      → pc i ≡ p
      → Knows e p
      → (j : ℕ) → Knows e' (update pc i p' j)
  Move-Knows (see {x} g) h k j = ground (arith, knows j, first x g)
  Move-Knows (miss g) h k j = ground (arith, knows j)
  Move-Knows (acquire g) h k j = ground (arith, knows j, unloaded)
  Move-Knows (see_now {x} g) h k j = ground (arith, knows j, first x g)
  Move-Knows (miss_again g) h k j = ground (arith, knows j)
  Move-Knows construct h k j = ground (arith, knows j, alone i j)
  Move-Knows fail h k j = ground (arith, knows j)
  Move-Knows (store {x}) h k j = ground (arith, knows j, alone i j)
  Move-Knows release h k j = ground (arith, knows j)
  Move-Knows read h k j = ground (arith, knows j)

  Move-first :
      {e' : SentenceTransformerEmbedder} {p p' : Pc}
      → Move e p e' p'
      → Knows e p
      → (x : ℕ) → e'.model ≡ some x
      → (x ≡ 0) × (e'.constructed ≡ 1)
  Move-first construct k x h = ground (arith, first x h)
  Move-first (store {x = y}) k x h = ground (arith, h)
  Move-first m k x h = ground (arith, first x h)

  Move-few :
      {e' : SentenceTransformerEmbedder} {p p' : Pc}
      → Move e p e' p'
      → Knows e p
      → e'.constructed ≤ 1
  Move-few read k = few
  Move-few m k = ground (arith, few)

  Move-unloaded :
      {e' : SentenceTransformerEmbedder} {p p' : Pc}
      → Move e p e' p'
      → pc i ≡ p
      → Knows e p
      → e'.locked ≡ false
      → e'.model ≡ none
      → e'.constructed ≡ 0
  Move-unloaded read h k free empty = unloaded free empty
  Move-unloaded m h k free empty = ground (arith, unloaded, held i)

  Move-held :
      {e' : SentenceTransformerEmbedder} {p p' : Pc}
      → Move e p e' p'
      → pc i ≡ p
      → (j : ℕ) → inside (update pc i p' j) ≡ true
      → e'.locked ≡ true
  Move-held read h j a = ground (arith, held j)
  Move-held m h j a = ground (arith, held i, held j, alone i j)

  Move-holder :
      {e' : SentenceTransformerEmbedder} {p p' : Pc}
      → Move e p e' p'
      → pc i ≡ p
      → e'.locked ≡ true
      → (j : ℕ) × (inside (update pc i p' j) ≡ true)
  Move-holder (acquire g) h a = (i, ground arith)
  Move-holder (see_now {x} g) h a = (i, ground arith)
  Move-holder (miss_again g) h a = (i, ground arith)
  Move-holder construct h a = (i, ground arith)
  Move-holder (store {x}) h a = (i, ground arith)
  Move-holder fail h a = cc
  Move-holder release h a = cc
  Move-holder m h a = let (j, b) = holder a in (j, ground (arith, h, b))

  Move-alone :
      {e' : SentenceTransformerEmbedder} {p p' : Pc}
      → Move e p e' p'
      → pc i ≡ p
      → (j k : ℕ) → inside (update pc i p' j) ≡ true
      → inside (update pc i p' k) ≡ true
      → j ≡ k
  Move-alone (acquire g) h j k a b = ground (arith, held j, held k)
  Move-alone m h j k a b = ground (arith, alone j k, alone i j, alone i k, h)

  Move-Inv :
      {e' : SentenceTransformerEmbedder} {p' : Pc} → Move e (pc i) e' p' → Inv e' (update pc i p')
  Move-Inv m = record {
    first = Move-first m (knows i);
    few = Move-few m (knows i);
    unloaded = Move-unloaded m refl (knows i);
    knows = Move-Knows m refl (knows i);
    alone = Move-alone m refl;
    held = Move-held m refl;
    holder = Move-holder m refl;
  }

Reach-Inv : {s : System} → Reach s → Inv s.mem s.pc
Reach-Inv start = record {
  first = λ x h. cc;
  few = omega arith;
  unloaded = λ free empty. refl;
  knows = λ i. tt;
  alone = λ i j a b. cc;
  held = λ i a. cc;
  holder = λ a. cc;
}
Reach-Inv (next r (step i m)) = Move-Inv (Reach-Inv r) i m

-- However many threads call, and however their steps interleave, a thread that has returned has the
-- first model, which is the only one that was constructed so far, and is not `None`.
pub returned_model :
    {s : System} (i : ℕ) (r : Option ℕ)
    → Reach s
    → s.pc i ≡ returned r
    → (r ≡ some 0) × (s.mem.constructed ≡ 1)
returned_model {s} i r reached h =
    let inv = Reach-Inv reached in ground (arith, inv.knows i, inv.first 0)

-- At most one model is ever constructed.
pub constructed-le-one : {s : System} → Reach s → s.mem.constructed ≤ 1
constructed-le-one reached = (Reach-Inv reached).few

-- A thread that stands at `p` has a next step.
abbrev pub CanMove : SentenceTransformerEmbedder → Pc → Type 0
CanMove e p = (m : SentenceTransformerEmbedder) × (q : Pc) × Move e p m q

inside-CanMove : (e : SentenceTransformerEmbedder) (p : Pc) → inside p ≡ true → CanMove e p
inside-CanMove e testing h = elim (Option-cases e.model) [
  | inl none_yet ↦ (_, _, miss_again none_yet)
  | inr (x, loaded) ↦ (_, _, see_now loaded)
]
inside-CanMove e constructing h = (_, _, construct)
inside-CanMove e (storing x) h = (_, _, store)
inside-CanMove e leaving h = (_, _, release)
inside-CanMove e entering h = cc
inside-CanMove e waiting h = cc
inside-CanMove e returning h = cc
inside-CanMove e (returned r) h = cc
inside-CanMove e raised h = cc

-- No deadlock: a thread that waits for the lock can take it, or a thread inside the `with` has a next
-- step, also after constructions that raised.
pub no_deadlock :
    {s : System} (i : ℕ)
    → Reach s
    → s.pc i ≡ waiting
    → CanMove s.mem (s.pc i) ⊎ ((j : ℕ) × (inside (s.pc j) ≡ true) × CanMove s.mem (s.pc j))
no_deadlock {s} i reached h = elim (Bool-cases s.mem.locked) [
  | inl taken ↦
      let (j, b) = (Reach-Inv reached).holder taken in inr (j, b, inside-CanMove s.mem (s.pc j) b)
  | inr free ↦ inl (subst (CanMove s.mem) (sym h) (_, _, acquire free))
]
