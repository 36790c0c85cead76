-- ===== src/Cache/Invariant.antt =====
-- semantic_cache.py: the invariant that ties the entries, the recency order and the indexes
-- together, and that dropping an entry keeps it.
use switchyard_llm.Prelude.{
  ◌≢◌, Option-cases, Bool-cases, insert, lookup-insert, nat_eq, string_eq, ◌∙◌, inl, inr, ℕ, ◌≤◌,
  ◌≡◌, refl, String, string_eq, nat_eq, Bool, true, false, ◌||◌, List, [], ◌∷◌, ◌++◌, Option, none,
  some, Dict, lookup, ◌==◌, if◌then◌else◌, arith,
}
use switchyard_llm.Cache.{
  remove_from_index, remove, Faiss, Entry, SemanticCache, pop, without, contains,
}

abbrev pub is_some {ℓ} : {A : Type ℓ} → Option A → Bool
is_some none = false
is_some (some a) = true

-- No identifier stands twice in the recency order.
abbrev pub Distinct : List ℕ → Type 0
Distinct [] = Unit {0}
Distinct (x ∷ xs) = (contains x xs ≡ false) × Distinct xs

pub record IsValid {faiss : Faiss} {Response : Type 0} (c : SemanticCache faiss Response)
    : Type 0 where
  -- The recency order lists exactly the identifiers of the entries.
  pub covered : (i : ℕ) → contains i c.lru ≡ is_some (lookup i c.entries)
  pub distinct : Distinct c.lru
  -- What the index of a scope holds is an entry of that scope.
  pub scoped :
      (scope : String) (index : faiss.Index) (i : ℕ)
      → lookup scope c.indexes ≡ some index
      → faiss.holds index i ≡ true
      → (e : Entry Response) × (lookup i c.entries ≡ some e) × (e.scope ≡ scope)
  -- Identifiers are not used again.
  pub fresh : (i : ℕ) → c.next_id ≤ i → lookup i c.entries ≡ none

pub lookup-pop {ℓ} :
    {V : Type ℓ} (i j : ℕ) (m : Dict ℕ V)
    → lookup j (pop i m) ≡ (if i == j then none else lookup j m)
unfolding lookup pop
lookup-pop i j [] = ground arith
lookup-pop i j ((k, v) ∷ m) = ground (arith, lookup-pop i j m)

pub contains-without :
    (i j : ℕ) (l : List ℕ) → contains j (without i l) ≡ (if i == j then false else contains j l)
unfolding contains without
contains-without i j [] = ground arith
contains-without i j (k ∷ l) = ground (arith, contains-without i j l)

pub contains-append : (j : ℕ) (l k : List ℕ) → contains j (l ++ k) ≡ (contains j l || contains j k)
unfolding contains
contains-append j [] k = refl
contains-append j (x ∷ l) k = ground (arith, contains-append j l k)

pub without-Distinct : (i : ℕ) (l : List ℕ) → Distinct l → Distinct (without i l)
unfolding without
without-Distinct i [] d = tt
without-Distinct i (x ∷ l) (p, d) =
    ground (arith, without-Distinct i l d, contains-without i x l, p)

pub append-Distinct :
    (i : ℕ) (l : List ℕ) → contains i l ≡ false → Distinct l → Distinct (l ++ i ∷ [])
unfolding contains
append-Distinct i [] p d = (refl, tt)
append-Distinct i (x ∷ l) p (q, d) =
    ground (arith, append-Distinct i l, contains-append x l (i ∷ []), p, q, d)

-- What an index holds, other than `i` itself, stays an entry when `i` is popped.
popped_entry :
    {Response : Type 0} (i j : ℕ) (scope : String) (m : Dict ℕ (Entry Response))
    (e : Entry Response)
    → j ≢ i
    → lookup j m ≡ some e
    → e.scope ≡ scope
    → (e' : Entry Response) × (lookup j (pop i m) ≡ some e') × (e'.scope ≡ scope)
popped_entry i j scope m e ne p q = (e, ground (arith, lookup-pop i j m, nat_eq.beq_iff i j), q)

module _ {faiss : Faiss} {Response : Type 0} where
  scoped_after_drop :
      (i : ℕ) (c : SemanticCache faiss Response)
      → IsValid c
      → (scope : String) (index : faiss.Index) (j : ℕ)
      → lookup scope (remove_from_index i c).indexes ≡ some index
      → faiss.holds index j ≡ true
      → (e : Entry Response) × (lookup j (pop i c.entries) ≡ some e) × (e.scope ≡ scope)
  unfolding remove_from_index
  scoped_after_drop i c v scope index j found held = elim (Option-cases (lookup i c.entries)) [
    | inl absent ↦
        let (e, p, q) = v.scoped scope index j (rw (absent, remove_from_index) at found) held in
        popped_entry i j scope c.entries e (λ same. ground (arith, absent, p, same)) p q
    | inr (entry, present) ↦ elim (Option-cases (lookup entry.scope c.indexes)) [
      | inl gone ↦
          let before = rw (present, gone, remove_from_index) at found in
          let (e, p, q) = v.scoped scope index j before held in
          popped_entry i j scope c.entries e
            (λ same. ground (arith, present, gone, p, q, same, before)) p q
      | inr (ix, here) ↦
          let after : lookup scope (insert entry.scope (faiss.remove_id i ix) c.indexes)
              ≡ some index =
            rw (present, here, remove_from_index) at found in
          let law = lookup-insert entry.scope scope (faiss.remove_id i ix) c.indexes in
          elim (Bool-cases (string_eq.beq entry.scope scope)) [
            | inl same ↦
                let scopes : entry.scope ≡ scope = (string_eq.beq_iff entry.scope scope).0 same in
                let is_it : index ≡ faiss.remove_id i ix = ground (arith, law, after, same) in
                let kept : faiss.holds (faiss.remove_id i ix) j ≡ true = rw (← is_it) held in
                let (e, p, q) =
                  v.scoped entry.scope ix j here
                    (ground (arith, faiss.holds-remove_id i j ix, kept)) in
                popped_entry i j scope c.entries e
                  (λ eq. ground (arith, faiss.holds-remove_id i j ix, kept, eq, nat_eq.beq_iff i j))
                  p (q ∙ scopes)
            | inr other ↦
                let (e, p, q) = v.scoped scope index j (ground (arith, law, after, other)) held in
                popped_entry i j scope c.entries e
                  (λ eq.
                    ground (arith, present, p, q, eq, other, string_eq.beq_iff entry.scope scope))
                  p q
          ]
    ]
  ]

  pub dropped_entries :
      (i : ℕ) (c : SemanticCache faiss Response)
      → ((remove_from_index i c).entries ≡ c.entries)
        × ((remove_from_index i c).lru ≡ c.lru)
        × ((remove_from_index i c).next_id ≡ c.next_id)
        × ((remove_from_index i c).max_entries ≡ c.max_entries)
        × ((remove_from_index i c).threshold ≡ c.threshold)
  unfolding remove_from_index
  dropped_entries i c = (ground arith, ground arith, ground arith, ground arith, ground arith)

  -- Dropping an entry, with its identifier gone from the recency order, keeps the invariant.
  pub drop-IsValid :
      (i : ℕ) (c : SemanticCache faiss Response) (lru : List ℕ)
      → IsValid c
      → Distinct lru
      → ((j : ℕ) → contains j lru ≡ (if i == j then false else contains j c.lru))
      → let c' = remove_from_index i c in
        IsValid (record c' { entries = pop i c'.entries; lru = lru })
  drop-IsValid i c lru v d h =
      let (entries, lru_same, next, limit, threshold) = dropped_entries i c in
      record {
        covered = λ j. rw entries (h j ∙ ground (arith, v.covered j, lookup-pop i j c.entries));
        distinct = d;
        scoped = λ scope index j found held.
            rw entries (scoped_after_drop i c v scope index j found held);
        fresh = λ j le.
            rw entries (ground (arith, lookup-pop i j c.entries, v.fresh j (rw (← next) le)));
      }

  pub remove-IsValid : (i : ℕ) (c : SemanticCache faiss Response) → IsValid c → IsValid (remove i c)
  unfolding remove
  remove-IsValid i c v = rw ((dropped_entries i c).1) (
      drop-IsValid i c (without i c.lru) v (without-Distinct i c.lru v.distinct)
        (λ j. contains-without i j c.lru))
