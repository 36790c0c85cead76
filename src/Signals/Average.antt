-- ===== src/Signals/Average.antt =====
-- signals.py: the moving average stays between the samples.
use native.Mathlib.Nat.{mul-le-mul_left}
use switchyard_llm.Prelude.{
  lookup-insert_self, subst, ◌⊎◌, ℕ, ◌+◌, ◌-◌, ◌*◌, ◌≤◌, ◌≡◌, String, string_eq, List, [], ◌∷◌,
  none, some, inl, inr, arith, All,
}
use switchyard_llm.Signals.{Fraction, RoutingSignals, smooth, to_ms, record_latency, latency_ms}

-- `lo` is at most the latency, as fractions.
abbrev pub AtMost : Fraction → Fraction → Type 0
AtMost a b = a.num * b.den ≤ b.num * a.den

smooth_low :
    (a k lo lod mn md pn pd : ℕ)
    → lo * md ≤ mn * lod
    → lo * pd ≤ pn * lod
    → lo * ((a + k) * md * pd) ≤ (a * mn * pd + k * pn * md) * lod
smooth_low a k lo lod mn md pn pd p q =
    omega (arith, mul-le-mul_left (a * pd) p, mul-le-mul_left (k * md) q)

smooth_high :
    (a k hi hid mn md pn pd : ℕ)
    → mn * hid ≤ hi * md
    → pn * hid ≤ hi * pd
    → (a * mn * pd + k * pn * md) * hid ≤ hi * ((a + k) * md * pd)
smooth_high a k hi hid mn md pn pd p q =
    omega (arith, mul-le-mul_left (a * pd) p, mul-le-mul_left (k * md) q)

-- Between two latencies.
abbrev pub Between : Fraction → Fraction → Fraction → Type 0
Between lo hi x = AtMost lo x × AtMost x hi

smooth-Between :
    (a b : ℕ) (lo hi ms prev : Fraction)
    → a ≤ b
    → Between lo hi ms
    → Between lo hi prev
    → Between lo hi (smooth a b ms prev)
unfolding smooth
smooth-Between a b lo hi ms prev le (p, q) (p', q') =
    subst
      (λ (c : ℕ). Between lo hi (record {
        num = a * ms.num * prev.den + (b - a) * prev.num * ms.den;
        den = c * ms.den * prev.den;
      }))
      whole
      (
        smooth_low a (b - a) lo.num lo.den ms.num ms.den prev.num prev.den p p',
        smooth_high a (b - a) hi.num hi.den ms.num ms.den prev.num prev.den q q',
      )
  where
    whole : a + (b - a) ≡ b
    whole = omega arith

-- Samples for one provider, folded in one after the other.
abbrev pub record_all : String → List Fraction → RoutingSignals → RoutingSignals
record_all provider [] s = s
record_all provider (x ∷ xs) s = record_all provider xs (record_latency provider x s)

-- The provider has a latency between the two.
abbrev pub Measured : Fraction → Fraction → String → RoutingSignals → Type 0
Measured lo hi provider s = (x : Fraction) × (latency_ms s provider ≡ some x) × Between lo hi x

record_latency-Measured :
    (lo hi seconds : Fraction) (provider : String) (s : RoutingSignals)
    → s.alpha_num ≤ s.alpha_den
    → Between lo hi (to_ms seconds)
    → (latency_ms s provider ≡ none) ⊎ Measured lo hi provider s
    → Measured lo hi provider (record_latency provider seconds s)
      × ((record_latency provider seconds s).alpha_num
          ≤ (record_latency provider seconds s).alpha_den)
unfolding record_latency latency_ms
record_latency-Measured lo hi seconds provider s le b (inl cold) =
    rw (cold, record_latency)
      ((to_ms seconds, lookup-insert_self provider (to_ms seconds) s.latencies, b), le)
record_latency-Measured lo hi seconds provider s le b (inr (prev, e, c)) =
    let x = smooth s.alpha_num s.alpha_den (to_ms seconds) prev in
    rw (e, record_latency)
      (
        (
          x,
          lookup-insert_self provider x s.latencies,
          smooth-Between s.alpha_num s.alpha_den lo hi (to_ms seconds) prev le b c,
        ),
        le,
      )

record_all-Measured :
    (lo hi : Fraction) (provider : String) (samples : List Fraction) (s : RoutingSignals)
    → s.alpha_num ≤ s.alpha_den
    → All (λ x. Between lo hi (to_ms x)) samples
    → Measured lo hi provider s
    → Measured lo hi provider (record_all provider samples s)
record_all-Measured lo hi provider [] s le b m = m
record_all-Measured lo hi provider (x ∷ xs) s le (b, bs) m =
    let (m', le') = record_latency-Measured lo hi x provider s le b (inr m) in
    record_all-Measured lo hi provider xs (record_latency provider x s) le' bs m'

-- From a cold start, with a smoothing factor of at most 1: after one or more samples for a provider
-- it has a smoothed latency, and that lies between any two bounds that all the samples lie between.
pub smoothed-Between :
    (lo hi : Fraction) (provider : String) (first : Fraction) (samples : List Fraction)
    (s : RoutingSignals)
    → s.alpha_num ≤ s.alpha_den
    → latency_ms s provider ≡ none
    → All (λ x. Between lo hi (to_ms x)) (first ∷ samples)
    → Measured lo hi provider (record_all provider (first ∷ samples) s)
smoothed-Between lo hi provider first samples s le cold (b, bs) =
    let (m, le') = record_latency-Measured lo hi first provider s le b (inl cold) in
    record_all-Measured lo hi provider samples (record_latency provider first s) le' bs m
