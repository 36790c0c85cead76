-- ===== src/Routing/Weighted.antt =====
-- policies.py: `weighted` orders all the targets.
use mathlib.Core.List.{Perm}
use mathlib.Core.List.Perm
use switchyard_llm.Prelude.{
  ℕ, zero, suc, ◌+◌, ◌≤◌, ◌≡◌, Bool, true, false, List, [], ◌∷◌, Bool-cases, inl, inr, arith, refl,
  leb, subst, some, length, string_eq, nat_eq, ◌||◌, nat_beq_iff,
}
use switchyard_llm.Schemas.{Target}
use switchyard_llm.Routing.{target_beq, total_weight, pick, remove_target, weighted}

pub target_beq_eq : (t u : Target) → target_beq t u ≡ true → t ≡ u
target_beq_eq t u h =
    let p : t.provider ≡ u.provider =
      (string_eq.beq_iff t.provider u.provider).0 (ground (arith, h)) in
    let q : t.model ≡ u.model = (string_eq.beq_iff t.model u.model).0 (ground (arith, h)) in
    let r : t.weight ≡ u.weight = (nat_beq_iff t.weight u.weight).0 (ground (arith, h)) in
    λ i. record { provider = p i; model = q i; weight = r i }

target_beq_self : (t : Target) → target_beq t t ≡ true
target_beq_self t =
    ground (arith, string_eq.beq_iff t.provider t.provider, string_eq.beq_iff t.model t.model)

abbrev listed : Target → List Target → Bool
listed t [] = false
listed t (u ∷ us) = target_beq u t || listed t us

pick-some :
    (r c : ℕ) (t : Target) (ts : List Target)
    → r ≤ c + total_weight (t ∷ ts)
    → (u : Target) × (pick r c (t ∷ ts) ≡ some u) × (listed u (t ∷ ts) ≡ true)
unfolding pick total_weight
pick-some r c t [] le = (t, ground (arith, le), ground (arith, target_beq_self t))
pick-some r c t (u ∷ us) le = elim (Bool-cases (leb r (c + t.weight))) [
  | inl reached ↦ (t, rw reached refl, ground (arith, target_beq_self t))
  | inr further ↦
      let (v, picked, there) = pick-some r (c + t.weight) u us (omega (arith, le)) in
      (v, rw further picked, ground (arith, there))
]

remove_target-Perm :
    (u : Target) (l : List Target)
    → listed u l ≡ true
    → Perm (u ∷ remove_target u l) l × (suc (length (remove_target u l)) ≡ length l)
unfolding remove_target
remove_target-Perm u [] h = absurd (ground (arith, h))
remove_target-Perm u (x ∷ xs) h = elim (Bool-cases (target_beq x u)) [
  | inl it ↦ (
    rw it (
        subst (λ (v : Target). Perm (v ∷ xs) (x ∷ xs)) (target_beq_eq x u it) (Perm.refl (x ∷ xs))),
    rw it refl,
  )
  | inr other ↦
      let (p, q) = remove_target-Perm u xs (ground (arith, h, other)) in
      (
        rw other (Perm.trans (Perm.swap x u (remove_target u xs)) (Perm.cons x p)),
        rw other (omega (arith, q)),
      )
]

weighted_all :
    (uniform : ℕ → ℕ → ℕ)
    → ((k t : ℕ) → uniform k t ≤ t)
    → (fuel k : ℕ) (targets : List Target) → length targets ≡ fuel
    → (ts : List Target) × (weighted uniform fuel k targets ≡ some ts) × Perm ts targets
unfolding weighted
weighted_all uniform h zero k [] e = ([], refl, Perm.refl [])
weighted_all uniform h (suc fuel) k [] e = ([], refl, Perm.refl [])
weighted_all uniform h zero k (t ∷ ts) e = absurd (omega (arith, e))
weighted_all uniform h (suc fuel) k (t ∷ ts) e =
    let drawn = uniform k (total_weight (t ∷ ts)) in
    let (u, picked, there) = pick-some drawn 0 t ts (omega (arith, h k (total_weight (t ∷ ts)))) in
    let (perm, shorter) = remove_target-Perm u (t ∷ ts) there in
    let (rest, runs, q) =
      weighted_all uniform h fuel (suc k) (remove_target u (t ∷ ts)) (omega (arith, e, shorter)) in
    (u ∷ rest, ground (arith, picked, runs), Perm.trans (Perm.cons u q) perm)

-- When every draw is at most the sum of the weights it is made for, `weighted` ends after one turn
-- for each target, with all the targets in some order.
pub weighted-Perm :
    (uniform : ℕ → ℕ → ℕ)
    → ((k t : ℕ) → uniform k t ≤ t)
    → (k : ℕ) (targets : List Target)
    → (ts : List Target) × (weighted uniform (length targets) k targets ≡ some ts) × Perm ts targets
weighted-Perm uniform h k targets = weighted_all uniform h (length targets) k targets refl
