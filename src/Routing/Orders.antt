-- ===== src/Routing/Orders.antt =====
-- policies.py: the orders of the latency-aware and the cost-aware policy.
use mathlib.Core.List.{Perm}
use mathlib.Core.List.Perm
use switchyard_llm.Prelude.{
  ℕ, ◌*◌, ◌≤◌, ◌<◌, lookup, string_eq, Bool-cases, ◌≡◌, Bool, true, false, List, [], ◌∷◌, inl, inr,
  arith, refl, subst, some, none, map, Option-cases, All,
}
use switchyard_llm.Schemas.{Target}
use switchyard_llm.Signals.{Fraction, leq, RoutingSignals, latency_ms}
use switchyard_llm.Routing.{
  sorted, enumerate, latency_key_le, cost_key_le, latency_aware, cost_aware,
}
use switchyard_llm.Routing.Sort.{IsSorted, sorted-Perm, sorted-IsSorted, enumerate_values}

-- `ts` lists the targets in the order of a comparison of indexed targets, the indices being the
-- places in the configuration.
pub record OrderedBy (le : ℕ × Target → ℕ × Target → Bool) (targets ts : List Target) : Type 0 where
  pub keyed : List (ℕ × Target)
  pub of_targets : Perm keyed (enumerate 0 targets)
  pub in_order : IsSorted le keyed
  pub values : map (λ (p : ℕ × Target). p.1) keyed ≡ ts

sorted-OrderedBy :
    (le : ℕ × Target → ℕ × Target → Bool) (targets : List Target)
    → ((x y : ℕ × Target) → le x y ≡ false → le y x ≡ true)
    → OrderedBy le targets (map (λ (p : ℕ × Target). p.1) (sorted le (enumerate 0 targets)))
sorted-OrderedBy le targets total = record {
  keyed = sorted le (enumerate 0 targets);
  of_targets = sorted-Perm le (enumerate 0 targets);
  in_order = sorted-IsSorted le total (enumerate 0 targets);
  values = refl;
}

latency_total :
    (s : RoutingSignals) (x y : ℕ × Target)
    → latency_key_le s x y ≡ false
    → latency_key_le s y x ≡ true
unfolding latency_key_le
latency_total s (i, t) (j, u) h = elim (Option-cases (latency_ms s t.provider)) [
  | inl cold ↦ elim (Option-cases (latency_ms s u.provider)) [
    | inl cold' ↦ ground (arith, h, cold, cold')
    | inr (y, warm') ↦ ground (arith, h, cold, warm')
  ]
  | inr (x, warm) ↦ elim (Option-cases (latency_ms s u.provider)) [
    | inl cold' ↦ ground (arith, h, warm, cold')
    | inr (y, warm') ↦ ground (arith, h, warm, warm')
  ]
]

cost_total :
    (s : RoutingSignals) (x y : ℕ × Target) → cost_key_le s x y ≡ false → cost_key_le s y x ≡ true
unfolding cost_key_le
cost_total s (i, t) (j, u) h = ground (arith, h)

pub latency_aware-OrderedBy :
    (s : RoutingSignals) (targets : List Target)
    → OrderedBy (latency_key_le s) targets (latency_aware targets (some s))
unfolding latency_aware
latency_aware-OrderedBy s targets = sorted-OrderedBy (latency_key_le s) targets (latency_total s)

-- One target may stand before another: it is faster, or as fast and earlier in the configuration;
-- it has a latency and the other has none; or neither has one and it is earlier.
pub data Before (s : RoutingSignals) : ℕ × Target → ℕ × Target → Type 0 where
  faster :
      (i j : ℕ) (t u : Target) (x y : Fraction)
      → lookup t.provider s.latencies ≡ some x
      → lookup u.provider s.latencies ≡ some y
      → x.num * y.den < y.num * x.den
      → Before s (i, t) (j, u)
  as_fast :
      (i j : ℕ) (t u : Target) (x y : Fraction)
      → lookup t.provider s.latencies ≡ some x
      → lookup u.provider s.latencies ≡ some y
      → x.num * y.den ≡ y.num * x.den
      → i ≤ j
      → Before s (i, t) (j, u)
  measured_first :
      (i j : ℕ) (t u : Target) (x : Fraction)
      → lookup t.provider s.latencies ≡ some x
      → lookup u.provider s.latencies ≡ none
      → Before s (i, t) (j, u)
  unmeasured :
      (i j : ℕ) (t u : Target)
      → lookup t.provider s.latencies ≡ none
      → lookup u.provider s.latencies ≡ none
      → i ≤ j
      → Before s (i, t) (j, u)

latency_key_le-Before :
    (s : RoutingSignals) (i j : ℕ) (t u : Target)
    → latency_key_le s (i, t) (j, u) ≡ true
    → Before s (i, t) (j, u)
unfolding latency_key_le latency_ms
latency_key_le-Before s i j t u h = elim (Option-cases (lookup t.provider s.latencies)) [
  | inl cold ↦ elim (Option-cases (lookup u.provider s.latencies)) [
    | inl cold' ↦ Before.unmeasured i j t u cold cold' (ground (arith, h, cold, cold'))
    | inr (y, warm') ↦ absurd (ground (arith, h, cold, warm'))
  ]
  | inr (x, warm) ↦ elim (Option-cases (lookup u.provider s.latencies)) [
    | inl cold' ↦ Before.measured_first i j t u x warm cold'
    | inr (y, warm') ↦ elim (Bool-cases (leq y x)) [
      | inl tie ↦
          Before.as_fast i j t u x y warm warm' (ground (arith, h, warm, warm', tie))
            (ground (arith, h, warm, warm', tie))
      | inr less ↦ Before.faster i j t u x y warm warm' (ground (arith, h, warm, warm', less))
    ]
  ]
]

-- Each target may stand before the next one.
abbrev pub InOrder : RoutingSignals → List (ℕ × Target) → Type 0
InOrder s [] = Unit {0}
InOrder s (p ∷ []) = Unit {0}
InOrder s (p ∷ q ∷ l) = Before s p q × InOrder s (q ∷ l)

sorted-InOrder :
    (s : RoutingSignals) (l : List (ℕ × Target)) → IsSorted (latency_key_le s) l → InOrder s l
sorted-InOrder s [] sort = tt
sorted-InOrder s (p ∷ []) sort = tt
sorted-InOrder s ((i, t) ∷ (j, u) ∷ l) (le, sort) =
    (latency_key_le-Before s i j t u le, sorted-InOrder s ((j, u) ∷ l) sort)

-- With signals, `latency_aware` lists the configured targets by ascending latency, a target of a
-- provider without a latency after those with one, and ties by the configured order.
pub latency_aware-InOrder :
    (s : RoutingSignals) (targets : List Target)
    → (keyed : List (ℕ × Target)) × Perm keyed (enumerate 0 targets)
      × InOrder s keyed
      × (map (λ (p : ℕ × Target). p.1) keyed ≡ latency_aware targets (some s))
latency_aware-InOrder s targets =
    let o = latency_aware-OrderedBy s targets in
    (o.keyed, o.of_targets, sorted-InOrder s o.keyed o.in_order, o.values)

-- With signals, `cost_aware` lists the configured targets by ascending list price, and ties by the
-- configured order.
pub cost_aware-OrderedBy :
    (s : RoutingSignals) (targets : List Target)
    → OrderedBy (cost_key_le s) targets (cost_aware targets (some s))
unfolding cost_aware
cost_aware-OrderedBy s targets = sorted-OrderedBy (cost_key_le s) targets (cost_total s)

pub OrderedBy-Perm :
    {le : ℕ × Target → ℕ × Target → Bool} (targets ts : List Target)
    → OrderedBy le targets ts
    → Perm ts targets
OrderedBy-Perm targets ts o =
    let p : Perm (map (λ (p : ℕ × Target). p.1) o.keyed)
        (map (λ (p : ℕ × Target). p.1) (enumerate 0 targets)) =
      Perm.map (λ (p : ℕ × Target). p.1) o.of_targets in
    subst (λ (l : List Target). Perm l targets) o.values
      (subst (λ (l : List Target). Perm (map (λ (p : ℕ × Target). p.1) o.keyed) l)
        (enumerate_values 0 targets) p)

abbrev measured : RoutingSignals → ℕ × Target → Bool
measured s (i, t) = elim (latency_ms s t.provider) [ none ↦ false | some x ↦ true ]

abbrev Cold : RoutingSignals → Target → Type 0
Cold s t = latency_ms s t.provider ≡ none

-- After a target without a latency there is none with one.
abbrev pub ColdLast : RoutingSignals → List Target → Type 0
ColdLast s [] = Unit {0}
ColdLast s (t ∷ ts) = (Cold s t → All (Cold s) ts) × ColdLast s ts

Cold-next :
    (s : RoutingSignals) (i j : ℕ) (t u : Target)
    → latency_key_le s (i, t) (j, u) ≡ true
    → Cold s t
    → Cold s u
unfolding latency_key_le
Cold-next s i j t u h cold = elim (Option-cases (latency_ms s u.provider)) [
  | inl c ↦ c
  | inr (y, warm) ↦ absurd (ground (arith, h, cold, warm))
]

All-Cold :
    (s : RoutingSignals) (i : ℕ) (t : Target) (l : List (ℕ × Target))
    → IsSorted (latency_key_le s) ((i, t) ∷ l)
    → Cold s t
    → All (Cold s) (map (λ (p : ℕ × Target). p.1) l)
All-Cold s i t [] sort cold = tt
All-Cold s i t ((j, u) ∷ l) (le, sort) cold =
    let c = Cold-next s i j t u le cold in (c, All-Cold s j u l sort c)

sorted-ColdLast :
    (s : RoutingSignals) (l : List (ℕ × Target))
    → IsSorted (latency_key_le s) l
    → ColdLast s (map (λ (p : ℕ × Target). p.1) l)
sorted-ColdLast s [] sort = tt
sorted-ColdLast s ((i, t) ∷ []) sort = (λ cold. tt, tt)
sorted-ColdLast s ((i, t) ∷ (j, u) ∷ l) (le, sort) =
    (λ cold. All-Cold s i t ((j, u) ∷ l) (le, sort) cold, sorted-ColdLast s ((j, u) ∷ l) sort)

-- With signals, `latency_aware` never puts a target of a provider that has a latency after one of
-- a provider that has none.
pub latency_aware-ColdLast :
    (s : RoutingSignals) (targets : List Target) → ColdLast s (latency_aware targets (some s))
latency_aware-ColdLast s targets =
    let o = latency_aware-OrderedBy s targets in
    subst (ColdLast s) o.values (sorted-ColdLast s o.keyed o.in_order)
