-- ===== src/Cache/Kept.antt =====
-- semantic_cache.py: the entries that `get` and `set` leave.
use switchyard_llm.Prelude.{
  ℕ, ◌≡◌, sym, subst, inl, inr, String, string_eq, nat_eq, List, [], ◌∷◌, Option, none, some,
  lookup, insert, lookup-insert, ◌==◌, arith, Option-cases, Bool-cases, min, ◌⊎◌,
}
use switchyard_llm.Cache.{Faiss, Entry, SemanticCache, remove, scan, get, is_expired, store, expiry}
use switchyard_llm.Cache.Eviction.{Evicted}
use switchyard_llm.Cache.Serving.{removed_entry}

module _ {faiss : Faiss} {Response : Type 0} where
  -- The entries of the first cache are entries of the second.
  abbrev pub EntriesOf : SemanticCache faiss Response → SemanticCache faiss Response → Type 0
  EntriesOf c' c =
      (j : ℕ) (e : Entry Response) → lookup j c'.entries ≡ some e → lookup j c.entries ≡ some e

  scan-EntriesOf :
      (now : ℕ) (results : List (faiss.Similarity × Option ℕ)) (c : SemanticCache faiss Response)
      → EntriesOf (scan now results c).0 c
  unfolding scan
  scan-EntriesOf now [] c = λ j e p. p
  scan-EntriesOf now ((sim, none) ∷ results) c = scan-EntriesOf now results c
  scan-EntriesOf now ((sim, some i) ∷ results) c = elim (Option-cases (lookup i c.entries)) [
    | inl absent ↦
        let opened : scan now ((sim, some i) ∷ results) c ≡ scan now results c =
          ground (arith, absent) in
        subst (λ r. EntriesOf r.0 c) (sym opened) (scan-EntriesOf now results c)
    | inr (e, here) ↦ elim (Bool-cases (is_expired now e.expires_at)) [
      | inl expired ↦
          let opened : scan now ((sim, some i) ∷ results) c ≡ scan now results (remove i c) =
            ground (arith, here, expired) in
          subst (λ r. EntriesOf r.0 c) (sym opened)
            (λ j e' p. removed_entry i j c e' (scan-EntriesOf now results (remove i c) j e' p))
      | inr unexpired ↦ λ j e' p. ground (arith, here, unexpired, p)
    ]
  ]

  -- `get` adds no entry.
  pub get-EntriesOf :
      (now : ℕ) (scope : String) (vec : faiss.Vector) (c : SemanticCache faiss Response)
      → EntriesOf (get now scope vec c).0 c
  unfolding get
  get-EntriesOf now scope vec c = elim (Option-cases (lookup scope c.indexes)) [
    | inl gone ↦ λ j e p. ground (arith, gone, p)
    | inr (index, here) ↦ elim (Bool-cases (faiss.ntotal index == 0)) [
      | inl nothing ↦ λ j e p. ground (arith, here, nothing, p)
      | inr some_left ↦
          let k = min (faiss.ntotal index) 5 in
          let opened : get now scope vec c ≡ scan now (faiss.search index vec k) c =
            ground (arith, here, some_left) in
          subst (λ r. EntriesOf r.0 c) (sym opened)
            (scan-EntriesOf now (faiss.search index vec k) c)
    ]
  ]

  -- An entry that `set` leaves is an old one or holds the response that was set.
  pub set_entry :
      (now : ℕ) (scope : String) (vec : faiss.Vector) (response : Response)
      (c c' : SemanticCache faiss Response) (j : ℕ) (e : Entry Response)
      → Evicted (store now scope vec response c) c'
      → lookup j c'.entries ≡ some e
      → (lookup j c.entries ≡ some e) ⊎ (e.response ≡ response)
  unfolding store
  set_entry now scope vec response c c' j e kept p =
      let new : Entry Response = record {
        scope = scope;
        response = response;
        expires_at = expiry now c.ttl;
      } in
      let law = lookup-insert c.next_id j new c.entries in
      let stored : lookup j (insert c.next_id new c.entries) ≡ some e =
        ground (arith, kept.survivors j, p) in
      elim (Bool-cases (c.next_id == j)) [
        | inl it ↦ inr (ground (arith, stored, law, it))
        | inr other ↦ inl (ground (arith, stored, law, other))
      ]
