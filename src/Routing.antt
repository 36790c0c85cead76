-- ===== src/Routing.antt =====
-- gateway/routing/policies.py and gateway/routing/router.py: the order in which an alias's targets
-- are tried. `sorted` is a stable insertion sort. A weight is a whole number of units. `uniform k t`
-- is the k-th draw of `rng.uniform(0, t)`. The loop of `weighted` runs on fuel. A configuration is
-- what `yaml.safe_load` made of the file.
pub mod Sort
pub mod Weighted
pub mod Orders
pub mod Aliases
pub mod Configured
use switchyard_llm.Prelude.{
  ℕ, zero, suc, ◌+◌, String, string_eq, Bool, true, false, ◌&&◌, List, [], ◌∷◌, map, Option, none,
  some, Dict, lookup, insert, length, ltb, leb, nat_beq, ◌==◌, if◌then◌else◌,
}
use switchyard_llm.Schemas.{Target}
use switchyard_llm.Signals.{Fraction, leq, RoutingSignals, latency_ms, unit_cost}

module _ {ℓ} {A : Type ℓ} (le : A → A → Bool) where
  unfoldable pub insert_by : A → List A → List A
  insert_by x [] = x ∷ []
  insert_by x (y ∷ ys) = let rest = insert_by x ys in if le x y then x ∷ y ∷ ys else y ∷ rest

  unfoldable pub sorted : List A → List A
  unfolding insert_by
  sorted [] = []
  sorted (x ∷ xs) = insert_by x (sorted xs)

-- `enumerate`, from an index on.
abbrev pub enumerate {ℓ} : {A : Type ℓ} → ℕ → List A → List (ℕ × A)
enumerate i [] = []
enumerate i (x ∷ xs) = (i, x) ∷ enumerate (suc i) xs

-- `==` of the dataclass.
abbrev pub target_beq : Target → Target → Bool
target_beq t u = (t.provider == u.provider) && ((t.model == u.model) && nat_beq t.weight u.weight)

unfoldable pub total_weight : List Target → ℕ
total_weight [] = 0
total_weight (t ∷ ts) = t.weight + total_weight ts

-- The `for` loop of `weighted`: the target at which the running sum reaches `r`.
unfoldable pub pick : ℕ → ℕ → List Target → Option Target
pick r cumulative [] = none
pick r cumulative (t ∷ ts) =
    let rest = pick r (cumulative + t.weight) ts in
    if leb r (cumulative + t.weight) then some t else rest

-- `remaining.remove(t)`
unfoldable pub remove_target : Target → List Target → List Target
remove_target t [] = []
remove_target t (u ∷ us) = let rest = remove_target t us in if target_beq u t then us else u ∷ rest

abbrev pub chosen : Target → Option (List Target) → Option (List Target)
chosen t none = none
chosen t (some ts) = some (t ∷ ts)

unfoldable pub weighted : (ℕ → ℕ → ℕ) → ℕ → ℕ → List Target → Option (List Target)
unfolding pick remove_target total_weight
weighted uniform fuel k [] = some []
weighted uniform zero k (t ∷ ts) = none
weighted uniform (suc fuel) k (t ∷ ts) =
    elim (pick (uniform k (total_weight (t ∷ ts))) 0 (t ∷ ts)) [
      | none ↦ weighted uniform fuel (suc k) (t ∷ ts)
      | some u ↦ chosen u (weighted uniform fuel (suc k) (remove_target u (t ∷ ts)))
    ]

unfoldable pub priority : List Target → List Target
priority targets = targets

-- The comparison of the keys `(0, lat, idx)` and `(1, 0.0, idx)`.
unfoldable pub latency_key_le : RoutingSignals → ℕ × Target → ℕ × Target → Bool
unfolding latency_ms
latency_key_le s (i, t) (j, u) = elim (latency_ms s t.provider) [
  | none ↦ elim (latency_ms s u.provider) [ none ↦ leb i j | some y ↦ false ]
  | some x ↦ elim (latency_ms s u.provider) [
    | none ↦ true
    | some y ↦ if leq x y then (if leq y x then leb i j else true) else false
  ]
]

-- The comparison of the keys `(unit_cost, idx)`.
unfoldable pub cost_key_le : RoutingSignals → ℕ × Target → ℕ × Target → Bool
unfolding unit_cost
cost_key_le s (i, t) (j, u) =
    let x = unit_cost s t.model in
    let y = unit_cost s u.model in if ltb x y then true else (if ltb y x then false else leb i j)

unfoldable pub latency_aware : List Target → Option RoutingSignals → List Target
unfolding sorted
latency_aware targets none = targets
latency_aware targets (some s) =
    map (λ (p : ℕ × Target). p.1) (sorted (latency_key_le s) (enumerate 0 targets))

unfoldable pub cost_aware : List Target → Option RoutingSignals → List Target
unfolding sorted
cost_aware targets none = targets
cost_aware targets (some s) =
    map (λ (p : ℕ × Target). p.1) (sorted (cost_key_le s) (enumerate 0 targets))

pub data Policy : Type 0 where
  by_priority by_weight by_latency by_cost : Policy

-- `POLICIES`
unfoldable pub policy_named : String → Option Policy
policy_named name =
    if name == "priority"
    then some by_priority
    else (if name == "weighted"
        then some by_weight
        else (if name == "latency-aware"
            then some by_latency
            else (if name == "cost-aware" then some by_cost else none)))

unfoldable pub apply_policy :
    Policy → (ℕ → ℕ → ℕ) → ℕ → Option RoutingSignals → List Target → Option (List Target)
apply_policy by_priority uniform k signals targets = some (priority targets)
apply_policy by_weight uniform k signals targets = weighted uniform (length targets) k targets
apply_policy by_latency uniform k signals targets = some (latency_aware targets signals)
apply_policy by_cost uniform k signals targets = some (cost_aware targets signals)

pub record Router : Type 0 where
  pub aliases : Dict String (Policy × List Target)
  pub signals : Option RoutingSignals

-- `resolve`: the KeyError, a loop still running when its fuel is spent, or the targets.
pub data Resolved : Type 0 where
  key_error unfinished : Resolved
  ordered : List Target → Resolved

unfoldable pub resolve : Router → (ℕ → ℕ → ℕ) → ℕ → String → Resolved
unfolding apply_policy
resolve router uniform k alias = elim (lookup alias router.aliases) [
  | none ↦ key_error
  | some (policy, targets) ↦ elim (apply_policy policy uniform k router.signals targets) [
    | none ↦ unfinished
    | some ts ↦ ordered ts
  ]
]

-- A target and an alias of the configuration, absent fields being `none`.
pub record TargetConfig : Type 0 where
  pub provider : String
  pub model : String
  pub weight : Option ℕ

pub record AliasConfig : Type 0 where
  pub policy : Option String
  pub targets : List TargetConfig

abbrev pub weight_or : ℕ → Option ℕ → ℕ
weight_or d none = d
weight_or d (some w) = w

abbrev pub policy_or : String → Option String → String
policy_or d none = d
policy_or d (some p) = p

-- `one` is the number of units of the weight 1.0.
unfoldable pub target_of : ℕ → TargetConfig → Target
target_of one t = record { provider = t.provider; model = t.model; weight = weight_or one t.weight }

-- `from_config`: a ValueError for an unknown policy or an alias without targets, or the aliases.
pub data Loaded : Type 0 where
  unknown_policy : String → String → Loaded
  no_targets : String → Loaded
  loaded : Dict String (Policy × List Target) → Loaded

unfoldable pub from_config :
    ℕ → List (String × AliasConfig) → Dict String (Policy × List Target) → Loaded
unfolding policy_named target_of
from_config one [] aliases = loaded aliases
from_config one ((name, acfg) ∷ cfg) aliases =
    elim (policy_named (policy_or "priority" acfg.policy)) [
      | none ↦ unknown_policy name (policy_or "priority" acfg.policy)
      | some policy ↦ elim acfg.targets [
        | [] ↦ no_targets name
        | t ∷ ts ↦
            from_config one cfg
              (insert name (policy, target_of one t ∷ map (target_of one) ts) aliases)
      ]
    ]
