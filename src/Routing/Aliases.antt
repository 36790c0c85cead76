-- ===== src/Routing/Aliases.antt =====
-- router.py: `resolve` keeps the targets of the alias, and a loaded configuration has targets for
-- each alias.
use mathlib.Core.List.{Perm}
use mathlib.Core.List.Perm
use switchyard_llm.Prelude.{
  ℕ, ◌≤◌, ◌<◌, ◌≡◌, List, [], ◌∷◌, Bool-cases, inl, inr, arith, refl, sym, subst, ◌⊎◌, Option, some,
  none, map, Option-cases, String, Dict, lookup, insert, lookup-insert, length, string_eq,
}
use switchyard_llm.Schemas.{Target}
use switchyard_llm.Signals.{RoutingSignals}
use switchyard_llm.Routing.{
  Policy, by_priority, by_weight, by_latency, by_cost, apply_policy, Router, ordered, resolve,
  priority, latency_aware, cost_aware, AliasConfig, TargetConfig, Loaded, unknown_policy,
  no_targets, loaded, from_config, target_of, policy_named, policy_or,
}
use switchyard_llm.Routing.Weighted.{weighted-Perm}
use switchyard_llm.Routing.Orders.{latency_aware-OrderedBy, cost_aware-OrderedBy, OrderedBy-Perm}

apply_policy-Perm :
    (uniform : ℕ → ℕ → ℕ)
    → ((k t : ℕ) → uniform k t ≤ t)
    → (policy : Policy) (k : ℕ) (signals : Option RoutingSignals) (targets : List Target)
    → (ts : List Target) × (apply_policy policy uniform k signals targets ≡ some ts)
      × Perm ts targets
unfolding apply_policy priority latency_aware cost_aware
apply_policy-Perm uniform h by_priority k signals targets = (targets, refl, Perm.refl targets)
apply_policy-Perm uniform h by_weight k signals targets = weighted-Perm uniform h k targets
apply_policy-Perm uniform h by_latency k none targets = (targets, refl, Perm.refl targets)
apply_policy-Perm uniform h by_latency k (some s) targets = (
  latency_aware targets (some s),
  refl,
  OrderedBy-Perm targets (latency_aware targets (some s)) (latency_aware-OrderedBy s targets),
)
apply_policy-Perm uniform h by_cost k none targets = (targets, refl, Perm.refl targets)
apply_policy-Perm uniform h by_cost k (some s) targets = (
  cost_aware targets (some s),
  refl,
  OrderedBy-Perm targets (cost_aware targets (some s)) (cost_aware-OrderedBy s targets),
)

-- Whatever the policy, when every draw is at most the sum of weights it is made for, `resolve` of an
-- alias of the router returns all the alias's targets in some order.
pub resolve-Perm :
    (router : Router) (uniform : ℕ → ℕ → ℕ)
    → ((k t : ℕ) → uniform k t ≤ t)
    → (k : ℕ) (alias : String) (policy : Policy) (targets : List Target)
    → lookup alias router.aliases ≡ some (policy, targets)
    → (ts : List Target) × (resolve router uniform k alias ≡ ordered ts) × Perm ts targets
unfolding resolve
resolve-Perm router uniform h k alias policy targets here =
    let (ts, runs, perm) = apply_policy-Perm uniform h policy k router.signals targets in
    (ts, ground (arith, here, runs), perm)

-- Every alias has a target.
abbrev pub Stocked : Dict String (Policy × List Target) → Type 0
Stocked aliases =
    (alias : String) (policy : Policy) (targets : List Target)
    → lookup alias aliases ≡ some (policy, targets)
    → 0 < length targets

-- What loading comes to: aliases that all have targets, or the name of an unknown policy, or an alias
-- without targets.
abbrev pub Checked : Loaded → Type 0
Checked (loaded aliases) = Stocked aliases
Checked (unknown_policy name policy) = policy_named policy ≡ none
Checked (no_targets name) = Unit {0}

insert-Stocked :
    (name : String) (policy : Policy) (t : Target) (ts : List Target)
    (aliases : Dict String (Policy × List Target))
    → Stocked aliases
    → Stocked (insert name (policy, t ∷ ts) aliases)
insert-Stocked name policy t ts aliases h alias policy' targets here =
    elim (Bool-cases (string_eq.beq name alias)) [
      | inl same ↦
          let found : ◌≡◌ {A = Option (Policy × List Target)} (some (policy, t ∷ ts))
              (some (policy', targets)) =
            ground (arith, lookup-insert name alias (policy, t ∷ ts) aliases, here, same) in
          ground (arith, found)
      | inr other ↦
          h alias policy' targets
            (ground (arith, lookup-insert name alias (policy, t ∷ ts) aliases, here, other))
    ]

pub List-cases {ℓ} : {A : Type ℓ} (l : List A) → (l ≡ []) ⊎ ((x : A) × (xs : List A) × (l ≡ x ∷ xs))
List-cases [] = inl refl
List-cases (x ∷ xs) = inr (x, xs, refl)

nothing_there {ℓ} : {V : Type ℓ} (k : String) (v : V) → ¬ (lookup k [] ≡ some v)
unfolding lookup
nothing_there k v here = absurd (ground (arith, here))

abbrev remaining :
    ℕ
    → String
    → Policy
    → TargetConfig
    → List TargetConfig
    → Dict String (Policy × List Target)
    → Dict String (Policy × List Target)
remaining one name policy t ts aliases =
    insert name (policy, target_of one t ∷ map (target_of one) ts) aliases

from_config_from :
    (one : ℕ) (cfg : List (String × AliasConfig)) (aliases : Dict String (Policy × List Target))
    → Stocked aliases
    → Checked (from_config one cfg aliases)
unfolding from_config
from_config_from one [] aliases h = h
from_config_from one ((name, acfg) ∷ cfg) aliases h =
    elim (Option-cases (policy_named (policy_or "priority" acfg.policy))) [
      | inl unknown ↦
          let opened : from_config one ((name, acfg) ∷ cfg) aliases
              ≡ unknown_policy name (policy_or "priority" acfg.policy) =
            ground (arith, unknown) in
          subst Checked (sym opened) unknown
      | inr (policy, known) ↦ elim (List-cases acfg.targets) [
        | inl empty ↦
            let opened : from_config one ((name, acfg) ∷ cfg) aliases ≡ no_targets name =
              ground (arith, known, empty) in
            subst Checked (sym opened) tt
        | inr (t, ts, full) ↦
            let opened : from_config one ((name, acfg) ∷ cfg) aliases
                ≡ from_config one cfg (remaining one name policy t ts aliases) =
              ground (arith, known, full) in
            subst Checked (sym opened) (
              from_config_from one cfg (remaining one name policy t ts aliases)
                (insert-Stocked name policy (target_of one t) (map (target_of one) ts) aliases h))
      ]
    ]

-- `from_config` gives a target to every alias that it loads; a ValueError for a policy names a
-- policy that does not exist.
pub from_config-Checked :
    (one : ℕ) (cfg : List (String × AliasConfig)) → Checked (from_config one cfg [])
from_config-Checked one cfg =
    from_config_from one cfg []
      (λ alias policy targets here. absurd (nothing_there alias (policy, targets) here))
