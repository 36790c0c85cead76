-- ===== src/Tests/Vectors.antt =====
-- An index of vectors as a concrete function, with the laws that the cache asks for, and the cache
-- at concrete inputs.
use switchyard_llm.Prelude.{
  ℕ, ◌≡◌, refl, sym, subst, String, string_eq, nat_eq, Bool, true, false, List, [], ◌∷◌, Option,
  none, some, All, Dict, lookup, insert, lookup-insert, Bool-cases, inl, inr, length, arith, ◌==◌,
  if◌then◌else◌, leb,
}
use switchyard_llm.Cache.{Faiss, Found, SemanticCache, Entry, contains, pop, set, get, store}
use switchyard_llm.Cache.Invariant.{IsValid, lookup-pop}
use switchyard_llm.Cache.Eviction.{Evicted, set_total}
use switchyard_llm.Cache.Serving.{Answered, get-Answered}

abbrev pub is_held : Option ℕ → Bool
is_held none = false
is_held (some v) = true

-- The first vector of the index, close if it is the one asked for.
abbrev pub first_of : Dict ℕ ℕ → ℕ → ℕ → List (ℕ × Option ℕ)
first_of [] v k = (0, none) ∷ []
first_of ((i, w) ∷ x) v k = ((if w == v then 100 else 0), some i) ∷ []

pub first_of-Found :
    (x : Dict ℕ ℕ) (v k : ℕ) → All (Found (λ i. is_held (lookup i x))) (first_of x v k)
unfolding lookup
first_of-Found [] v k = (tt, tt)
first_of-Found ((i, w) ∷ x) v k = (ground (arith, nat_eq.beq_iff i i), tt)

pub none_held : (i : ℕ) → is_held (lookup i []) ≡ false
unfolding lookup
none_held i = refl

abbrev pub flat : Faiss
flat = record {
  Vector = ℕ;
  Similarity = ℕ;
  Index = Dict ℕ ℕ;
  at_least = λ a b. leb b a;
  new_index = λ d. [];
  dimension = λ v. 1;
  ntotal = λ x. length x;
  holds = λ x i. is_held (lookup i x);
  add_with_id = λ v i x. insert i v x;
  remove_id = λ i x. pop i x;
  search = first_of;
  holds-new_index = λ d i. none_held i;
  holds-add_with_id = λ v i j x. ground (arith, lookup-insert i j v x);
  holds-remove_id = λ i j x. ground (arith, lookup-pop i j x);
  search-Found = first_of-Found;
}

abbrev one_entry : SemanticCache flat String
one_entry = record {
  threshold = 90;
  ttl = some 60;
  max_entries = 1;
  indexes = ("fast", (0, 7) ∷ []) ∷ [];
  entries = (0, record { scope = "fast"; response = "hi"; expires_at = some 100 }) ∷ [];
  lru = 0 ∷ [];
  next_id = 1;
  dim = some 1;
}

same_index : (x y : Dict ℕ ℕ) → some x ≡ some y → x ≡ y
same_index x y e = cc

one_entry_scoped :
    (scope : String) (index : Dict ℕ ℕ) (i : ℕ)
    → lookup scope one_entry.indexes ≡ some index
    → is_held (lookup i index) ≡ true
    → (e : Entry String) × (lookup i one_entry.entries ≡ some e) × (e.scope ≡ scope)
unfolding lookup
one_entry_scoped scope index i found held = elim (Bool-cases (string_eq.beq "fast" scope)) [
  | inl same ↦
      let it : (0, 7) ∷ [] ≡ index = same_index ((0, 7) ∷ []) index (rw same at found) in
      let held' : is_held (lookup i ((0, 7) ∷ [])) ≡ true =
        subst (λ x. is_held (lookup i x) ≡ true) (sym it) held in
      (
        record { scope = "fast"; response = "hi"; expires_at = some 100 },
        ground (arith, held'),
        (string_eq.beq_iff "fast" scope).0 same,
      )
  | inr other ↦ absurd (ground (arith, found, other))
]

one_entry-IsValid : IsValid one_entry
unfolding lookup contains
one_entry-IsValid = record {
  covered = λ i. ground arith;
  distinct = (refl, tt);
  scoped = λ scope index i found held. one_entry_scoped scope index i found held;
  fresh = λ i le. ground (arith, le);
}

set_total_example :
    (c' : SemanticCache flat String) × (set 50 "fast" 8 "ho" one_entry ≡ some c')
    × Evicted (store 50 "fast" 8 "ho" one_entry) c'
set_total_example = set_total 50 "fast" 8 "ho" one_entry one_entry-IsValid

get-Answered_example : Answered 50 "fast" 7 one_entry (get 50 "fast" 7 one_entry)
get-Answered_example = get-Answered 50 "fast" 7 one_entry one_entry-IsValid
