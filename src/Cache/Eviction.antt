-- ===== src/Cache/Eviction.antt =====
-- semantic_cache.py: `set` keeps the invariant, and eviction takes the least recently used first.
use switchyard_llm.Prelude.{
  ℕ, suc, ◌≤◌, ◌≡◌, refl, sym, ◌∙◌, inl, inr, String, string_eq, nat_eq, true, false, List, [], ◌∷◌,
  none, some, Dict, lookup, insert, lookup-insert, length, ltb, ◌==◌, if◌then◌else◌, arith,
  Option-cases, Bool-cases, drop,
}
use switchyard_llm.Cache.{
  Faiss, Entry, SemanticCache, pop, contains, remove_from_index, evict, store, set, index_of,
  dim_of, expiry,
}
use switchyard_llm.Cache.Invariant.{
  is_some, Distinct, IsValid, lookup-pop, contains-append, append-Distinct, drop-IsValid,
  dropped_entries,
}

no_entries {ℓ} :
    {V : Type ℓ} (m : Dict ℕ V) → ((j : ℕ) → is_some (lookup j m) ≡ false) → length m ≡ 0
unfolding lookup
no_entries [] h = refl
no_entries ((k, v) ∷ m) h = absurd (ground (arith, h k))

module _ {faiss : Faiss} {Response : Type 0} where
  -- What eviction makes of a cache: a cache with a suffix of its recency order, the entries of that
  -- suffix as they were, and at most `max_entries` of them.
  pub record Evicted (c c' : SemanticCache faiss Response) : Type 0 where
    pub valid : IsValid c'
    pub bounded : length c'.entries ≤ c.max_entries
    pub dropped : ℕ
    pub suffix : c'.lru ≡ drop dropped c.lru
    pub survivors :
        (j : ℕ) → lookup j c'.entries ≡ (if contains j c'.lru then lookup j c.entries else none)

  kept_all :
      (c : SemanticCache faiss Response)
      → IsValid c
      → (j : ℕ) → lookup j c.entries ≡ (if contains j c.lru then lookup j c.entries else none)
  kept_all c v j = ground (arith, v.covered j)

  empty_lru : (c : SemanticCache faiss Response) → c.lru ≡ [] → (j : ℕ) → contains j c.lru ≡ false
  unfolding contains
  empty_lru c e j = rw e refl

  evict_empty :
      (c : SemanticCache faiss Response)
      → c.lru ≡ []
      → IsValid c
      → (c' : SemanticCache faiss Response) × (evict [] c ≡ some c') × Evicted c c'
  unfolding evict
  evict_empty c e v =
      let empty : length c.entries ≡ 0 =
        no_entries c.entries (λ j. sym (v.covered j) ∙ empty_lru c e j) in
      (
        record c { lru = [] },
        ground (arith, empty),
        record {
          valid = rw (← e) v;
          bounded = omega (arith, empty);
          dropped = 0;
          suffix = sym e;
          survivors = rw (← e) (kept_all c v);
        },
      )

  -- The cache after one turn of the eviction.
  abbrev without_oldest : ℕ → List ℕ → SemanticCache faiss Response → SemanticCache faiss Response
  without_oldest oldest lru c =
      let c' = remove_from_index oldest c in
      record c' { entries = pop oldest c'.entries; lru = lru }

  without_oldest-IsValid :
      (oldest : ℕ) (lru : List ℕ) (c : SemanticCache faiss Response)
      → c.lru ≡ oldest ∷ lru
      → IsValid c
      → IsValid (without_oldest oldest lru c)
  unfolding contains
  without_oldest-IsValid oldest lru c e v =
      let (here, rest) : Distinct (oldest ∷ lru) = rw e at v.distinct in
      drop-IsValid oldest c lru v rest (λ j. rw e (ground (arith, here)))

  popped :
      (oldest : ℕ) (lru : List ℕ) (c : SemanticCache faiss Response) (j : ℕ)
      → lookup j (without_oldest oldest lru c).entries
        ≡ (if oldest == j then none else lookup j c.entries)
  popped oldest lru c j = rw (dropped_entries oldest c).0 (lookup-pop oldest j c.entries)

  further_Evicted :
      (oldest : ℕ) (lru : List ℕ) (c c' : SemanticCache faiss Response)
      → c.lru ≡ oldest ∷ lru
      → IsValid c
      → Evicted (without_oldest oldest lru c) c'
      → Evicted c c'
  unfolding contains
  further_Evicted oldest lru c c' e v w = record {
    valid = w.valid;
    bounded = rw (← (dropped_entries oldest c).3) w.bounded;
    dropped = suc w.dropped;
    suffix = rw e w.suffix;
    survivors = λ j. ground (arith, w.survivors j, w.valid.covered j, popped oldest lru c j);
  }

  evict_lem :
      (lru : List ℕ) (c : SemanticCache faiss Response)
      → c.lru ≡ lru
      → IsValid c
      → (c' : SemanticCache faiss Response) × (evict lru c ≡ some c') × Evicted c c'
  unfolding evict
  evict_lem [] c e v = evict_empty c e v
  evict_lem (oldest ∷ lru) c e v = elim (Bool-cases (ltb c.max_entries (length c.entries))) [
    | inl over ↦
        let (c', runs, w) =
          evict_lem lru (without_oldest oldest lru c) refl
            (without_oldest-IsValid oldest lru c e v) in
        (c', rw (evict, over) runs, further_Evicted oldest lru c c' e v w)
    | inr fits ↦ (
      c,
      rw (evict, fits, ← e) refl,
      record {
        valid = v;
        bounded = ground (arith, fits);
        dropped = 0;
        suffix = refl;
        survivors = kept_all c v;
      },
    )
  ]

  -- What an index holds before an insertion, and the inserted identifier, are entries after it.
  kept_entry :
      (i : ℕ) (scope : String) (c : SemanticCache faiss Response) (new e : Entry Response)
      → IsValid c
      → lookup i c.entries ≡ some e
      → e.scope ≡ scope
      → (e' : Entry Response) × (lookup i (insert c.next_id new c.entries) ≡ some e')
        × (e'.scope ≡ scope)
  kept_entry i scope c new e v p q =
      (e, ground (arith, p, lookup-insert c.next_id i new c.entries, v.fresh i), q)

  -- What an index holds after the addition is the new identifier or was held by the old index.
  stored_scoped :
      (scope scope' : String) (vec : faiss.Vector) (d : ℕ) (c : SemanticCache faiss Response)
      (new : Entry Response)
      → new.scope ≡ scope
      → (index : faiss.Index) (i : ℕ) → IsValid c
      → lookup scope' (
          insert scope
            (faiss.add_with_id vec c.next_id (index_of faiss d (lookup scope c.indexes)))
            c.indexes)
        ≡ some index
      → faiss.holds index i ≡ true
      → (e : Entry Response) × (lookup i (insert c.next_id new c.entries) ≡ some e)
        × (e.scope ≡ scope')
  stored_scoped scope scope' vec d c new named index i v found held =
      let old = index_of faiss d (lookup scope c.indexes) in
      let law = lookup-insert scope scope' (faiss.add_with_id vec c.next_id old) c.indexes in
      elim (Bool-cases (string_eq.beq scope scope')) [
        | inr other ↦
            let (e, p, q) = v.scoped scope' index i (ground (arith, law, found, other)) held in
            kept_entry i scope' c new e v p q
        | inl same ↦
            let scopes : scope ≡ scope' = (string_eq.beq_iff scope scope').0 same in
            let is_it : index ≡ faiss.add_with_id vec c.next_id old =
              ground (arith, law, found, same) in
            let kept : (if c.next_id == i then true else faiss.holds old i) ≡ true =
              sym (faiss.holds-add_with_id vec c.next_id i old) ∙ rw (← is_it) held in
            elim (Bool-cases (nat_eq.beq c.next_id i)) [
              | inl it ↦
                  (new, ground (arith, lookup-insert c.next_id i new c.entries, it), named ∙ scopes)
              | inr differs ↦ elim (Option-cases (lookup scope c.indexes)) [
                | inl gone ↦ absurd (ground (arith, kept, differs, gone, faiss.holds-new_index d i))
                | inr (ix, here) ↦
                    let held' : faiss.holds ix i ≡ true = ground (arith, kept, differs, here) in
                    let (e, p, q) = v.scoped scope ix i here held' in
                    kept_entry i scope' c new e v p (q ∙ scopes)
              ]
            ]
      ]

  -- `store` keeps the invariant: the new identifier is fresh, so it enters the recency order once.
  store-IsValid :
      (now : ℕ) (scope : String) (vec : faiss.Vector) (response : Response)
      (c : SemanticCache faiss Response)
      → IsValid c
      → IsValid (store now scope vec response c)
  unfolding store contains
  store-IsValid now scope vec response c v =
      let unused : lookup c.next_id c.entries ≡ none = v.fresh c.next_id (omega arith) in
      record {
        covered = λ j. ground (
          arith,
          contains-append j c.lru (c.next_id ∷ []),
          v.covered j,
          lookup-insert c.next_id j
              (record { scope = scope; response = response; expires_at = expiry now c.ttl })
              c.entries,
        );
        distinct =
            append-Distinct c.next_id c.lru (ground (arith, v.covered c.next_id, unused))
              v.distinct;
        scoped = λ scope' index i found held.
            stored_scoped scope scope' vec (dim_of faiss vec c.dim) c
              (record { scope = scope; response = response; expires_at = expiry now c.ttl }) refl
              index i v found held;
        fresh = λ j le. ground (
          arith,
          v.fresh j,
          le,
          lookup-insert c.next_id j
              (record { scope = scope; response = response; expires_at = expiry now c.ttl })
              c.entries,
        );
      }

  -- From any valid cache, `set` returns; what it leaves is valid, holds at most `max_entries`
  -- entries, and is the stored cache less the least recently used entries.
  pub set_total :
      (now : ℕ) (scope : String) (vec : faiss.Vector) (response : Response)
      (c : SemanticCache faiss Response)
      → IsValid c
      → (c' : SemanticCache faiss Response) × (set now scope vec response c ≡ some c')
        × Evicted (store now scope vec response c) c'
  unfolding set
  set_total now scope vec response c v =
      let c1 = store now scope vec response c in
      evict_lem c1.lru c1 refl (store-IsValid now scope vec response c v)
