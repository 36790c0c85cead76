-- ===== src/Cache.antt =====
-- gateway/cache/semantic_cache.py: `SemanticCache`.
-- FAISS is the parameter `Faiss`: an index of identified vectors with the documented effects of
-- `add_with_ids`, `remove_ids` and `search`. A search result's identifier -1 is `none`. Times are
-- the readings of `now`; an entry that never expires has `none`. `set` is `none` where the source
-- raises the KeyError of `popitem` on an empty dict.
pub mod Keys
pub mod Invariant
pub mod Eviction
pub mod Serving
pub mod Kept
use switchyard_llm.Prelude.{
  ℕ, suc, ◌+◌, ◌≡◌, String, string_eq, nat_eq, Bool, true, false, ◌||◌, not, List, [], ◌∷◌, ◌++◌,
  Option, none, some, Dict, lookup, insert, length, min, ltb, leb, ◌==◌, if◌then◌else◌, All,
}

-- `contains i` of a search result: an identifier that is not -1 is in the index.
abbrev pub Found {ℓ} : {Sim : Type ℓ} → (ℕ → Bool) → Sim × Option ℕ → Type 0
Found held (sim, none) = Unit {0}
Found held (sim, some i) = held i ≡ true

pub record Faiss : Type 1 where
  pub Vector : Type 0
  pub Similarity : Type 0
  pub Index : Type 0
  pub at_least : Similarity → Similarity → Bool
  pub new_index : ℕ → Index
  pub dimension : Vector → ℕ
  pub ntotal : Index → ℕ
  pub holds : Index → ℕ → Bool
  pub add_with_id : Vector → ℕ → Index → Index
  pub remove_id : ℕ → Index → Index
  pub search : Index → Vector → ℕ → List (Similarity × Option ℕ)
  pub holds-new_index : (d i : ℕ) → holds (new_index d) i ≡ false
  pub holds-add_with_id :
      (v : Vector) (i j : ℕ) (x : Index)
      → holds (add_with_id v i x) j ≡ (if i == j then true else holds x j)
  pub holds-remove_id :
      (i j : ℕ) (x : Index) → holds (remove_id i x) j ≡ (if i == j then false else holds x j)
  pub search-Found : (x : Index) (v : Vector) (k : ℕ) → All (Found (holds x)) (search x v k)

-- `dict.pop(k, None)` and `OrderedDict.pop(k, None)`: keys are unique there, so all entries with the
-- key go.
unfoldable pub pop {ℓ} : {V : Type ℓ} → ℕ → Dict ℕ V → Dict ℕ V
pop k [] = []
pop k ((j, v) ∷ m) = let rest = pop k m in if j == k then rest else (j, v) ∷ rest

unfoldable pub without : ℕ → List ℕ → List ℕ
without k [] = []
without k (j ∷ l) = let rest = without k l in if j == k then rest else j ∷ rest

unfoldable pub contains : ℕ → List ℕ → Bool
contains k [] = false
contains k (j ∷ l) = (j == k) || contains k l

-- `_Entry`
pub record Entry (Response : Type 0) : Type 0 where
  pub scope : String
  pub response : Response
  pub expires_at : Option ℕ

module _ (faiss : Faiss) (Response : Type 0) where
  open faiss use {Vector, Similarity, Index}

  -- `lru` has the most recently used identifier at the end.
  pub record SemanticCache : Type 0 where
    pub threshold : Similarity
    pub ttl : Option ℕ
    pub max_entries : ℕ
    pub indexes : Dict String Index
    pub entries : Dict ℕ (Entry Response)
    pub lru : List ℕ
    pub next_id : ℕ
    pub dim : Option ℕ

-- `now >= entry.expires_at`
abbrev pub is_expired : ℕ → Option ℕ → Bool
is_expired now none = false
is_expired now (some t) = leb t now

-- `if self.ttl_s`: a time to live of 0 counts as none.
unfoldable pub expiry : ℕ → Option ℕ → Option ℕ
expiry now none = none
expiry now (some t) = if t == 0 then none else some (now + t)

abbrev pub dim_of : (faiss : Faiss) → faiss.Vector → Option ℕ → ℕ
dim_of faiss vec none = faiss.dimension vec
dim_of faiss vec (some d) = d

abbrev pub index_of : (faiss : Faiss) → ℕ → Option faiss.Index → faiss.Index
index_of faiss d none = faiss.new_index d
index_of faiss d (some x) = x

module _ {faiss : Faiss} {Response : Type 0} where
  open faiss use {Vector, Similarity, Index}

  -- `_remove_from_index`
  unfoldable pub remove_from_index : ℕ → SemanticCache faiss Response → SemanticCache faiss Response
  remove_from_index entry_id c = elim (lookup entry_id c.entries) [
    | none ↦ c
    | some entry ↦ elim (lookup entry.scope c.indexes) [
      | none ↦ c
      | some index ↦ record c {
        indexes = insert entry.scope (faiss.remove_id entry_id index) c.indexes;
      }
    ]
  ]

  -- `_remove`
  unfoldable pub remove : ℕ → SemanticCache faiss Response → SemanticCache faiss Response
  unfolding remove_from_index
  remove entry_id c =
      let c' = remove_from_index entry_id c in
      record c' { entries = pop entry_id c'.entries; lru = without entry_id c'.lru }

  -- The loop of `get` over the search results.
  unfoldable pub scan :
      ℕ
      → List (Similarity × Option ℕ)
      → SemanticCache faiss Response
      → SemanticCache faiss Response × Option Response
  scan now [] c = (c, none)
  scan now ((sim, none) ∷ results) c = scan now results c
  scan now ((sim, some entry_id) ∷ results) c = elim (lookup entry_id c.entries) [
    | none ↦ scan now results c
    | some entry ↦ elim (is_expired now entry.expires_at) [
      | true ↦ scan now results (remove entry_id c)
      | false ↦
          if faiss.at_least sim c.threshold
          then (record c { lru = without entry_id c.lru ++ entry_id ∷ [] }, some entry.response)
          else (c, none)
    ]
  ]

  unfoldable pub get :
      ℕ
      → String
      → Vector
      → SemanticCache faiss Response
      → SemanticCache faiss Response × Option Response
  get now scope vec c = elim (lookup scope c.indexes) [
    | none ↦ (c, none)
    | some index ↦
        if faiss.ntotal index == 0
        then (c, none)
        else scan now (faiss.search index vec (min (faiss.ntotal index) 5)) c
  ]

  -- `_evict_if_needed`, by recursion on the recency order that `popitem` takes from.
  unfoldable pub evict :
      List ℕ → SemanticCache faiss Response → Option (SemanticCache faiss Response)
  unfolding remove_from_index
  evict [] c = if ltb c.max_entries (length c.entries) then none else some (record c { lru = [] })
  evict (oldest ∷ lru) c =
      let c' = remove_from_index oldest c in
      let rest = evict lru (record c' { entries = pop oldest c'.entries; lru = lru }) in
      if ltb c.max_entries (length c.entries) then rest else some (record c { lru = oldest ∷ lru })

  -- `set` up to the eviction.
  unfoldable pub store :
      ℕ → String → Vector → Response → SemanticCache faiss Response → SemanticCache faiss Response
  unfolding expiry
  store now scope vec response c =
      let d = dim_of faiss vec c.dim in
      let index = index_of faiss d (lookup scope c.indexes) in
      record c {
        dim = some d;
        indexes = insert scope (faiss.add_with_id vec c.next_id index) c.indexes;
        next_id = suc c.next_id;
        entries =
            insert c.next_id
              (record { scope = scope; response = response; expires_at = expiry now c.ttl })
              c.entries;
        lru = c.lru ++ c.next_id ∷ [];
      }

  unfoldable pub set :
      ℕ
      → String
      → Vector
      → Response
      → SemanticCache faiss Response
      → Option (SemanticCache faiss Response)
  unfolding store evict
  set now scope vec response c = let c' = store now scope vec response c in evict c'.lru c'
