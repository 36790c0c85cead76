-- ===== src/Benchmark/Percentile.antt =====
-- run_benchmark.py: what `_pct` returns.
use switchyard_llm.Prelude.{
  ℕ, zero, suc, ◌+◌, ◌-◌, ◌*◌, ◌/◌, ◌≤◌, ◌<◌, ◌≡◌, min, refl, ap, subst, Bool, List, [], ◌∷◌, some,
  length, leb, ltb, leb→le, arith, nat_beq,
}
use switchyard_llm.Routing.{insert_by, sorted}
use switchyard_llm.Routing.Sort.{IsSorted, sorted-IsSorted}
use native.Mathlib.Nat.{mul-pos, mul-le-mul_right}
use switchyard_llm.Workload.Labelling.{get_elem?-some}
use switchyard_llm.Workload.{count, get_elem?}
use switchyard_llm.Benchmark.Summary.{pct}

count-insert_by :
    (p : ℕ → Bool) (x : ℕ) (l : List ℕ) → count p (insert_by leb x l) ≡ count p (x ∷ l)
unfolding insert_by count
count-insert_by p x [] = refl
count-insert_by p x (y ∷ ys) = ground (arith, count-insert_by p x ys)

count-sorted : (p : ℕ → Bool) (l : List ℕ) → count p (sorted leb l) ≡ count p l
unfolding sorted count
count-sorted p [] = refl
count-sorted p (x ∷ xs) = ground (arith, count-insert_by p x (sorted leb xs), count-sorted p xs)

length-insert_by : (x : ℕ) (l : List ℕ) → length (insert_by leb x l) ≡ suc (length l)
unfolding insert_by
length-insert_by x [] = refl
length-insert_by x (y ∷ ys) = ground (arith, length-insert_by x ys)

length-sorted : (l : List ℕ) → length (sorted leb l) ≡ length l
unfolding sorted
length-sorted [] = refl
length-sorted (x ∷ xs) = omega (arith, length-insert_by x (sorted leb xs), length-sorted xs)

tail_IsSorted : (x : ℕ) (l : List ℕ) → IsSorted leb (x ∷ l) → IsSorted leb l
tail_IsSorted x [] s = tt
tail_IsSorted x (y ∷ l) s = s.1

-- The head of a sorted list is its least.
head_least : (x : ℕ) (l : List ℕ) (k v : ℕ) → IsSorted leb (x ∷ l) → get_elem? l k ≡ some v → x ≤ v
unfolding get_elem?
head_least x [] k v s e = ground (arith, e)
head_least x (y ∷ l) zero v s e = ground (arith, s, e)
head_least x (y ∷ l) (suc k) v s e = ground (arith, leb→le x y s.0, head_least y l k v s.1 e)

-- The element at a place of a sorted list: as many elements and one more are at most it.
at_most :
    (l : List ℕ) (k v : ℕ)
    → IsSorted leb l
    → get_elem? l k ≡ some v
    → suc k ≤ count (λ u. leb u v) l
unfolding get_elem? count
at_most [] k v s e = ground (arith, e)
at_most (x ∷ l) zero v s e = ground (arith, e)
at_most (x ∷ l) (suc k) v s e =
    ground (arith, head_least x l k v s e, at_most l k v (tail_IsSorted x l s) e)

none_below :
    (v x : ℕ) (l : List ℕ) → v ≤ x → IsSorted leb (x ∷ l) → count (λ u. ltb u v) (x ∷ l) ≡ 0
unfolding count
none_below v x [] le s = ground (arith, le)
none_below v x (y ∷ l) le s =
    ground (arith, le, none_below v y l (omega (arith, le, leb→le x y s.0)) s.1)

-- No more elements than its place are below it.
below :
    (l : List ℕ) (k v : ℕ) → IsSorted leb l → get_elem? l k ≡ some v → count (λ u. ltb u v) l ≤ k
unfolding get_elem? count
below [] k v s e = ground (arith, e)
below (x ∷ l) zero v s e = ground (arith, e, none_below v x l (ground (arith, e)) s)
below (x ∷ l) (suc k) v s e = ground (arith, below l k v (tail_IsSorted x l s) e)

-- The nearest rank lies in the list.
rank :
    (p n : ℕ)
    → 0 < n
    → 0 < p
    → p ≤ 100
    → let k = min (n - 1) ((p * n + 99) / 100 - 1) in
      (k < n) × (p * n ≤ suc k * 100) × (k * 100 < p * n)
rank p n a b c =
    let m : 0 < p * n = mul-pos b a in
    let le : p * n ≤ 100 * n = mul-le-mul_right n c in
    (omega (arith, m, le, a), omega (arith, m, le, a), omega (arith, m, le, a))

element : (l : List ℕ) (k v : ℕ) → get_elem? l k ≡ some v → 0 < count (λ u. nat_beq u v) l
unfolding get_elem? count
element [] k v e = ground (arith, e)
element (x ∷ l) zero v e = ground (arith, e)
element (x ∷ l) (suc k) v e = ground (arith, element l k v e)

-- For 0 < p ≤ 100, the percentile of a list with elements is an element such that at least p percent
-- of the list are at most it, and less than p percent are below it.
pub pct_lem :
    (v : ℕ) (vs : List ℕ) (p : ℕ)
    → 0 < p
    → p ≤ 100
    → (x : ℕ) × (pct (v ∷ vs) p ≡ some x)
      × (0 < count (λ u. nat_beq u x) (v ∷ vs))
      × (p * length (v ∷ vs) ≤ count (λ u. leb u x) (v ∷ vs) * 100)
      × (count (λ u. ltb u x) (v ∷ vs) * 100 < p * length (v ∷ vs))
unfolding pct
pct_lem v vs p a b =
    let s : List ℕ = sorted leb (v ∷ vs) in
    let size : length s ≡ length (v ∷ vs) = length-sorted (v ∷ vs) in
    let ordered : IsSorted leb s = sorted-IsSorted leb (λ x y h. ground (arith, h)) (v ∷ vs) in
    let k : ℕ = min (length s - 1) ((p * length s + 99) / 100 - 1) in
    let (inside, up, down) = rank p (length s) (omega (arith, size)) a b in
    let (x, at) = get_elem?-some s k inside in
    (
      x,
      at,
      subst (λ c. 0 < c) (count-sorted (λ u. nat_beq u x) (v ∷ vs)) (element s k x at),
      omega (
        arith,
        up,
        at_most s k x ordered at,
        ap (λ (n : ℕ). p * n) size,
        count-sorted (λ u. leb u x) (v ∷ vs),
      ),
      omega (
        arith,
        down,
        below s k x ordered at,
        ap (λ (n : ℕ). p * n) size,
        count-sorted (λ u. ltb u x) (v ∷ vs),
      ),
    )
