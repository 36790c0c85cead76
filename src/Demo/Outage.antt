-- ===== src/Demo/Outage.antt =====
-- circuit_breaker.py with its defaults: a breaker over successes that are followed by failures.
use switchyard_llm.Prelude.{
  ℕ, zero, suc, ◌+◌, ◌-◌, ◌≤◌, ◌<◌, ◌≡◌, refl, sym, ◌∙◌, ap, subst, ◌⊎◌, inl, inr, Bool, true,
  false, List, [], ◌∷◌, ◌++◌, length, drop, min, ltb, leb, arith, Bool-cases, if◌then◌else◌,
}
use switchyard_llm.Breaker.{
  closed, opened, CircuitBreaker, append_bounded, count_false, trips, to_open, allow,
  record_success, record_failure, fresh,
}
use switchyard_llm.Executor.Rounds.{failed_turn}
use switchyard_llm.Startup.{breaker_defaults}

abbrev pub replicate : ℕ → Bool → List Bool
replicate zero x = []
replicate (suc n) x = x ∷ replicate n x

-- `i` successes and then `k` failures.
abbrev pub outcomes : ℕ → ℕ → List Bool
outcomes zero k = replicate k false
outcomes (suc i) k = true ∷ outcomes i k

replicate-snoc : (n : ℕ) (x : Bool) → replicate n x ++ x ∷ [] ≡ replicate (suc n) x
replicate-snoc zero x = refl
replicate-snoc (suc n) x = ap (λ (l : List Bool). x ∷ l) (replicate-snoc n x)

outcomes-snoc : (i k : ℕ) → outcomes i k ++ false ∷ [] ≡ outcomes i (suc k)
outcomes-snoc zero k = replicate-snoc k false
outcomes-snoc (suc i) k = ap (λ (l : List Bool). true ∷ l) (outcomes-snoc i k)

length-outcomes : (i k : ℕ) → length (outcomes i k) ≡ i + k
length-outcomes zero zero = omega arith
length-outcomes zero (suc k) = omega (arith, length-outcomes zero k)
length-outcomes (suc i) k = omega (arith, length-outcomes i k)

count_false-outcomes : (i k : ℕ) → count_false (outcomes i k) ≡ k
count_false-outcomes zero zero = refl
count_false-outcomes zero (suc k) = omega (arith, count_false-outcomes zero k)
count_false-outcomes (suc i) k = count_false-outcomes i k

successes-snoc : (i : ℕ) → outcomes i 0 ++ true ∷ [] ≡ outcomes (suc i) 0
successes-snoc zero = refl
successes-snoc (suc i) = ap (λ (l : List Bool). true ∷ l) (successes-snoc i)

-- What `append_bounded` makes of a window of at most 20, by the length.
abbrev cut : List Bool → List Bool
cut w = if ltb 20 (length w) then drop 1 w else w

cut_short : (w : List Bool) → length w ≤ 20 → cut w ≡ w
cut_short w h = ground arith

cut_long : (w : List Bool) → 20 < length w → cut w ≡ drop 1 w
cut_long w h = ground arith

-- A success after `i` of them, in a window of 20.
append_success :
    (i : ℕ) → i ≤ 20 → append_bounded 20 (outcomes i 0) true ≡ outcomes (min (i + 1) 20) 0
unfolding append_bounded
append_success i h = ap cut (successes-snoc i) ∙ elim (Bool-cases (ltb i 20)) [
  | inl room ↦
      let short : length (outcomes (suc i) 0) ≤ 20 =
        ground (arith, length-outcomes (suc i) 0, room) in
      let n : suc i ≡ min (i + 1) 20 = ground (arith, room) in
      cut_short (outcomes (suc i) 0) short ∙ ap (λ (n : ℕ). outcomes n 0) n
  | inr full ↦
      let long : 20 < length (outcomes (suc i) 0) =
        ground (arith, length-outcomes (suc i) 0, full) in
      let n : i ≡ min (i + 1) 20 = ground (arith, full) in
      cut_long (outcomes (suc i) 0) long ∙ ap (λ (n : ℕ). outcomes n 0) n
]

drop_oldest : (i k : ℕ) → 0 < i → drop 1 (outcomes i k) ≡ outcomes (i - 1) k
drop_oldest zero k h = absurd (omega arith)
drop_oldest (suc i) k h = ap (λ (n : ℕ). outcomes n k) (omega arith)

append_failure :
    (i k : ℕ)
    → i + k ≤ 20
    → k < 20
    → append_bounded 20 (outcomes i k) false ≡ outcomes (min i (19 - k)) (suc k)
unfolding append_bounded
append_failure i k h h' = ap cut (outcomes-snoc i k) ∙ elim (Bool-cases (ltb (i + k) 20)) [
  | inl room ↦
      let short : length (outcomes i (suc k)) ≤ 20 =
        ground (arith, length-outcomes i (suc k), room) in
      let n : i ≡ min i (19 - k) = ground (arith, room) in
      cut_short (outcomes i (suc k)) short ∙ ap (λ (n : ℕ). outcomes n (suc k)) n
  | inr full ↦
      let long : 20 < length (outcomes i (suc k)) =
        ground (arith, length-outcomes i (suc k), full) in
      let n : i - 1 ≡ min i (19 - k) = ground (arith, full) in
      cut_long (outcomes i (suc k)) long
      ∙ drop_oldest i (suc k) (ground (arith, full))
      ∙ ap (λ (n : ℕ). outcomes n (suc k)) n
]

-- A breaker after `n` successes.
pub record Serving (n : ℕ) (b : CircuitBreaker) : Type 0 where
  pub is_closed : b.state ≡ closed
  pub window : b.window ≡ outcomes (min n 20) 0

pub fresh-Serving : Serving 0 fresh
fresh-Serving = record { is_closed = refl; window = refl }

pub record_success-Serving :
    (n : ℕ) (b : CircuitBreaker) → Serving n b → Serving (n + 1) (record_success breaker_defaults b)
unfolding record_success
record_success-Serving n b v =
    let few : min n 20 ≤ 20 = omega arith in
    let m : min (min n 20 + 1) 20 ≡ min (n + 1) 20 = omega arith in
    let added : append_bounded 20 b.window true ≡ outcomes (min (n + 1) 20) 0 =
      ap (λ (w : List Bool). append_bounded 20 w true) v.window
      ∙ append_success (min n 20) few
      ∙ ap (λ (i : ℕ). outcomes i 0) m in
    record { is_closed = ground (arith, v.is_closed); window = ground (arith, v.is_closed, added) }

-- A breaker after `n` successes and `k` failing turns.
pub data Failing (n k : ℕ) (b : CircuitBreaker) : Type 0 where
  tripped : b.state ≡ opened → 3 ≤ n → Failing n k b
  holding :
      (i : ℕ)
      → b.state ≡ closed
      → b.window ≡ outcomes i k
      → i ≡ min n (20 - k)
      → (k < i) ⊎ (i + k < 5)
      → Failing n k b

-- A failing turn of an open breaker leaves it open: it refuses, or its probe fails.
failed_turn_opened :
    (now time : ℕ) (b : CircuitBreaker)
    → b.state ≡ opened
    → (failed_turn breaker_defaults now time b).state ≡ opened
unfolding allow record_failure
failed_turn_opened now time b h = ground (arith, h)

trips-outcomes :
    (i k : ℕ) → trips breaker_defaults (outcomes i k) ≡ (if leb 5 (i + k) then leb i k else false)
trips-outcomes i k = ground (arith, length-outcomes i k, count_false-outcomes i k)

below : (i k : ℕ) → (if leb 5 (i + k) then leb i k else false) ≡ false → (k < i) ⊎ (i + k < 5)
below i k h = elim (Bool-cases (leb 5 (i + k))) [
  | inl many ↦ inl (ground (arith, h, many))
  | inr few ↦ inr (ground (arith, few))
]

pub failed_turn-Failing :
    (n k now time : ℕ) (b : CircuitBreaker)
    → suc k ≤ n
    → Failing n k b
    → Failing n (suc k) (failed_turn breaker_defaults now time b)
unfolding allow record_failure to_open
failed_turn-Failing n k now time b h (tripped o few) = tripped (failed_turn_opened now time b o) few
failed_turn-Failing n k now time b h (holding i c w e low) =
    let i' = min i (19 - k) in
    let added : append_bounded 20 b.window false ≡ outcomes i' (suc k) =
      ap (λ (l : List Bool). append_bounded 20 l false) w
      ∙ append_failure i k (ground (arith, e, low)) (ground (arith, e, low)) in
    let before = record b { window = outcomes i' (suc k) } in
    let after = to_open time before in
    let turn : failed_turn breaker_defaults now time b ≡ (
        if trips breaker_defaults (outcomes i' (suc k))
        then to_open time (record b { window = outcomes i' (suc k) })
        else record b { window = outcomes i' (suc k) }) =
      ground (arith, c, added) in
    subst (Failing n (suc k)) (sym turn)
      (elim (Bool-cases (trips breaker_defaults (outcomes i' (suc k)))) [
        | inl over ↦
            subst (λ (t : Bool). Failing n (suc k) (if t then after else before)) (sym over)
              (tripped refl (ground (arith, trips-outcomes i' (suc k), over, e, low)))
        | inr under ↦
            subst (λ (t : Bool). Failing n (suc k) (if t then after else before)) (sym under)
              (holding i' c refl (ground (arith, e))
                (below i' (suc k) (ground (arith, trips-outcomes i' (suc k), under))))
      ])

-- The start of the failures.
pub Serving-Failing : (n : ℕ) (b : CircuitBreaker) → Serving n b → Failing n 0 b
Serving-Failing n b v =
    holding (min n 20) v.is_closed v.window (omega arith) (elim (Bool-cases (ltb 0 n)) [
      | inl more ↦ inl (ground (arith, more))
      | inr not_one ↦ inr (ground (arith, not_one))
    ])

-- After as many failing turns as there were successes, three or more, the breaker is open, and after
-- fewer it is closed.
pub Failing_end :
    (n : ℕ) (b : CircuitBreaker) → Failing n n b → b.state ≡ (if leb 3 n then opened else closed)
Failing_end n b (tripped o few) = ground (arith, o, few)
Failing_end n b (holding i c w e low) = ground (arith, c, e, low)
