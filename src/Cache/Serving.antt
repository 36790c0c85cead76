-- ===== src/Cache/Serving.antt =====
-- semantic_cache.py: what `get` serves, and that it keeps the invariant.
use mathlib.Core.List.{Mem, mem-cons_self, mem-cons_of_mem}
use switchyard_llm.Prelude.{
  ℕ, ◌≡◌, refl, sym, subst, inl, inr, String, string_eq, nat_eq, true, false, List, [], ◌∷◌, ◌++◌,
  Option, none, some, lookup, ◌==◌, arith, Option-cases, Bool-cases, All, min,
}
use switchyard_llm.Cache.{
  Found, Faiss, Entry, SemanticCache, pop, contains, without, remove, scan, get, is_expired,
}
use switchyard_llm.Cache.Invariant.{
  IsValid, lookup-pop, contains-append, contains-without, without-Distinct, append-Distinct,
  dropped_entries, remove-IsValid,
}

module _ {faiss : Faiss} {Response : Type 0} where
  -- A served response is that of an entry of the scope which has not expired and which one of the
  -- search results names, with a similarity that reaches the threshold.
  pub record Served (now : ℕ) (scope : String) (results : List (faiss.Similarity × Option ℕ))
      (c : SemanticCache faiss Response) (response : Response) : Type 0 where
    pub entry_id : ℕ
    pub entry : Entry Response
    pub similarity : faiss.Similarity
    pub present : lookup entry_id c.entries ≡ some entry
    pub is_it : response ≡ entry.response
    pub in_scope : entry.scope ≡ scope
    pub unexpired : is_expired now entry.expires_at ≡ false
    pub result : Mem (similarity, some entry_id) results
    pub close : faiss.at_least similarity c.threshold ≡ true

  abbrev Scanned :
      ℕ
      → String
      → List (faiss.Similarity × Option ℕ)
      → SemanticCache faiss Response
      → SemanticCache faiss Response × Option Response
      → Type 0
  Scanned now scope results c (c', none) = IsValid c'
  Scanned now scope results c (c', some response) = IsValid c' × Served now scope results c response

  -- What the index of the scope finds for the vector: at most 5 results.
  abbrev pub Nearest :
      String
      → faiss.Vector
      → SemanticCache faiss Response
      → List (faiss.Similarity × Option ℕ)
      → Type 0
  Nearest scope vec c results =
      (index : faiss.Index) × (lookup scope c.indexes ≡ some index)
      × (results ≡ faiss.search index vec (min (faiss.ntotal index) 5))

  abbrev pub Answered :
      ℕ
      → String
      → faiss.Vector
      → SemanticCache faiss Response
      → SemanticCache faiss Response × Option Response
      → Type 0
  Answered now scope vec c (c', none) = IsValid c'
  Answered now scope vec c (c', some response) =
      IsValid c'
      × (results : List (faiss.Similarity × Option ℕ)) × Nearest scope vec c results
      × Served now scope results c response

  abbrev InScope : String → SemanticCache faiss Response → faiss.Similarity × Option ℕ → Type 0
  InScope scope c (sim, none) = Unit {0}
  InScope scope c (sim, some i) =
      (e : Entry Response) → lookup i c.entries ≡ some e → e.scope ≡ scope

  pub removed_entry :
      (i j : ℕ) (c : SemanticCache faiss Response) (e : Entry Response)
      → lookup j (remove i c).entries ≡ some e
      → lookup j c.entries ≡ some e
  unfolding remove
  removed_entry i j c e p =
      let q : lookup j (pop i c.entries) ≡ some e = rw (← (dropped_entries i c).0) p in
      ground (arith, lookup-pop i j c.entries, q)

  removed_InScope :
      (i : ℕ) (scope : String) (c : SemanticCache faiss Response)
      (results : List (faiss.Similarity × Option ℕ))
      → All (InScope scope c) results
      → All (InScope scope (remove i c)) results
  removed_InScope i scope c [] a = tt
  removed_InScope i scope c ((sim, none) ∷ results) (p, a) =
      (tt, removed_InScope i scope c results a)
  removed_InScope i scope c ((sim, some j) ∷ results) (p, a) =
      (λ e q. p e (removed_entry i j c e q), removed_InScope i scope c results a)

  -- A scan that passes a result over, and perhaps removes its entry.
  later_Scanned :
      (now : ℕ) (scope : String) (x : faiss.Similarity × Option ℕ)
      (results : List (faiss.Similarity × Option ℕ)) (c : SemanticCache faiss Response)
      (r : SemanticCache faiss Response × Option Response)
      → Scanned now scope results c r
      → Scanned now scope (x ∷ results) c r
  later_Scanned now scope x results c (c', none) v = v
  later_Scanned now scope x results c (c', some response) (v, s) = (
    v,
    record {
      entry_id = s.entry_id;
      entry = s.entry;
      similarity = s.similarity;
      present = s.present;
      is_it = s.is_it;
      in_scope = s.in_scope;
      unexpired = s.unexpired;
      result = mem-cons_of_mem x s.result;
      close = s.close;
    },
  )

  removed_Scanned :
      (now : ℕ) (scope : String) (results : List (faiss.Similarity × Option ℕ)) (i : ℕ)
      (c : SemanticCache faiss Response) (r : SemanticCache faiss Response × Option Response)
      → Scanned now scope results (remove i c) r
      → Scanned now scope results c r
  unfolding remove
  removed_Scanned now scope results i c (c', none) v = v
  removed_Scanned now scope results i c (c', some response) (v, s) = (
    v,
    record {
      entry_id = s.entry_id;
      entry = s.entry;
      similarity = s.similarity;
      present = removed_entry i s.entry_id c s.entry s.present;
      is_it = s.is_it;
      in_scope = s.in_scope;
      unexpired = s.unexpired;
      result = s.result;
      close = rw (← (dropped_entries i c).4) s.close;
    },
  )

  touch-IsValid :
      (i : ℕ) (c : SemanticCache faiss Response) (e : Entry Response)
      → IsValid c
      → lookup i c.entries ≡ some e
      → IsValid (record c { lru = without i c.lru ++ i ∷ [] })
  unfolding contains
  touch-IsValid i c e v p = record {
    covered = λ j. ground (
      arith,
      contains-append j (without i c.lru) (i ∷ []),
      contains-without i j c.lru,
      v.covered j,
      p,
    );
    distinct =
        append-Distinct i (without i c.lru) (ground (arith, contains-without i i c.lru))
          (without-Distinct i c.lru v.distinct);
    scoped = v.scoped;
    fresh = v.fresh;
  }

  scan-Scanned :
      (now : ℕ) (scope : String) (results : List (faiss.Similarity × Option ℕ))
      (c : SemanticCache faiss Response)
      → IsValid c
      → All (InScope scope c) results
      → Scanned now scope results c (scan now results c)
  unfolding scan
  scan-Scanned now scope [] c v a = v
  scan-Scanned now scope ((sim, none) ∷ results) c v (p, a) =
      later_Scanned now scope (sim, none) results c (scan now results c)
        (scan-Scanned now scope results c v a)
  scan-Scanned now scope ((sim, some i) ∷ results) c v (p, a) =
      elim (Option-cases (lookup i c.entries)) [
        | inl absent ↦
            let opened : scan now ((sim, some i) ∷ results) c ≡ scan now results c =
              ground (arith, absent) in
            subst (Scanned now scope ((sim, some i) ∷ results) c) (sym opened) (
              later_Scanned now scope (sim, some i) results c (scan now results c)
                (scan-Scanned now scope results c v a))
        | inr (e, here) ↦ elim (Bool-cases (is_expired now e.expires_at)) [
          | inl expired ↦
              let opened : scan now ((sim, some i) ∷ results) c ≡ scan now results (remove i c) =
                ground (arith, here, expired) in
              subst (Scanned now scope ((sim, some i) ∷ results) c) (sym opened) (
                later_Scanned now scope (sim, some i) results c (scan now results (remove i c))
                  (removed_Scanned now scope results i c (scan now results (remove i c)) (
                    scan-Scanned now scope results (remove i c) (remove-IsValid i c v)
                      (removed_InScope i scope c results a))))
          | inr unexpired ↦ elim (Bool-cases (faiss.at_least sim c.threshold)) [
            | inl close ↦
                let opened : scan now ((sim, some i) ∷ results) c
                    ≡ (record c { lru = without i c.lru ++ i ∷ [] }, some e.response) =
                  ground (arith, here, unexpired, close) in
                subst (Scanned now scope ((sim, some i) ∷ results) c) (sym opened) (
                  touch-IsValid i c e v here,
                  record {
                    entry_id = i;
                    entry = e;
                    similarity = sim;
                    present = here;
                    is_it = refl;
                    in_scope = p e here;
                    unexpired = unexpired;
                    result = mem-cons_self;
                    close = close;
                  },
                )
            | inr far ↦
                let opened : scan now ((sim, some i) ∷ results) c ≡ (c, none) =
                  ground (arith, here, unexpired, far) in
                subst (Scanned now scope ((sim, some i) ∷ results) c) (sym opened) v
          ]
        ]
      ]

  Found-InScope :
      (scope : String) (index : faiss.Index) (c : SemanticCache faiss Response)
      (results : List (faiss.Similarity × Option ℕ))
      → IsValid c
      → lookup scope c.indexes ≡ some index
      → All (Found (faiss.holds index)) results
      → All (InScope scope c) results
  Found-InScope scope index c [] v here f = tt
  Found-InScope scope index c ((sim, none) ∷ results) v here (p, f) =
      (tt, Found-InScope scope index c results v here f)
  Found-InScope scope index c ((sim, some i) ∷ results) v here (p, f) = (
    λ e q. (let (e', q', named) = v.scoped scope index i here p in ground (arith, q, q', named)),
    Found-InScope scope index c results v here f,
  )

  Scanned-Answered :
      (now : ℕ) (scope : String) (vec : faiss.Vector) (results : List (faiss.Similarity × Option ℕ))
      (c : SemanticCache faiss Response) (r : SemanticCache faiss Response × Option Response)
      → Nearest scope vec c results
      → Scanned now scope results c r
      → Answered now scope vec c r
  Scanned-Answered now scope vec results c (c', none) near v = v
  Scanned-Answered now scope vec results c (c', some response) near (v, s) = (v, results, near, s)

  -- In a valid cache, a response that `get` serves is that of an entry of the asked scope, which has
  -- not expired at `now` and which the search of the scope's index for the vector found among its
  -- results, at most 5, with a similarity that reaches the threshold; a hit or not, the cache stays
  -- valid.
  pub get-Answered :
      (now : ℕ) (scope : String) (vec : faiss.Vector) (c : SemanticCache faiss Response)
      → IsValid c
      → Answered now scope vec c (get now scope vec c)
  unfolding get
  get-Answered now scope vec c v = elim (Option-cases (lookup scope c.indexes)) [
    | inl gone ↦
        let opened : get now scope vec c ≡ (c, none) = ground (arith, gone) in
        subst (Answered now scope vec c) (sym opened) v
    | inr (index, here) ↦ elim (Bool-cases (faiss.ntotal index == 0)) [
      | inl nothing ↦
          let opened : get now scope vec c ≡ (c, none) = ground (arith, here, nothing) in
          subst (Answered now scope vec c) (sym opened) v
      | inr some_left ↦
          let k = min (faiss.ntotal index) 5 in
          let opened : get now scope vec c ≡ scan now (faiss.search index vec k) c =
            ground (arith, here, some_left) in
          subst (Answered now scope vec c) (sym opened) (
            Scanned-Answered now scope vec (faiss.search index vec k) c
              (scan now (faiss.search index vec k) c) (index, here, refl)
              (scan-Scanned now scope (faiss.search index vec k) c v (
                Found-InScope scope index c (faiss.search index vec k) v here
                  (faiss.search-Found index vec k))))
    ]
  ]
