-- ===== src/Routing/Configured.antt =====
-- router.py: the aliases of a router are those of its configuration.
use switchyard_llm.Prelude.{
  ℕ, ◌≡◌, ◌⊎◌, inl, inr, String, string_eq, List, [], ◌∷◌, map, Option, some, Dict, lookup, insert,
  lookup-insert, arith, Option-cases, Bool-cases,
}
use switchyard_llm.Schemas.{Target}
use switchyard_llm.Routing.{
  Policy, AliasConfig, loaded, from_config, target_of, policy_named, policy_or,
}
use switchyard_llm.Routing.Aliases.{List-cases}

-- An entry of the configuration gives the alias this policy and these targets, in its order.
abbrev pub Lists : ℕ → List (String × AliasConfig) → String → Policy → List Target → Type 0
Lists one [] alias policy targets = ⊥
Lists one ((name, acfg) ∷ cfg) alias policy targets =
    ((name ≡ alias)
      × (policy_named (policy_or "priority" acfg.policy) ≡ some policy)
      × (targets ≡ map (target_of one) acfg.targets))
    ⊎ Lists one cfg alias policy targets

from_config_from :
    (one : ℕ) (cfg : List (String × AliasConfig)) (aliases l : Dict String (Policy × List Target))
    (alias : String) (policy : Policy) (targets : List Target)
    → from_config one cfg aliases ≡ loaded l
    → lookup alias l ≡ some (policy, targets)
    → Lists one cfg alias policy targets ⊎ (lookup alias aliases ≡ some (policy, targets))
unfolding from_config
from_config_from one [] aliases l alias policy targets e here = inr (ground (arith, e, here))
from_config_from one ((name, acfg) ∷ cfg) aliases l alias policy targets e here =
    elim (Option-cases (policy_named (policy_or "priority" acfg.policy))) [
      | inl unknown ↦ absurd (ground (arith, e, unknown))
      | inr (p, known) ↦ elim (List-cases acfg.targets) [
        | inl empty ↦ absurd (ground (arith, e, known, empty))
        | inr (t, ts, full) ↦
            let made : List Target = map (target_of one) (t ∷ ts) in
            elim (from_config_from one cfg (insert name (p, made) aliases) l alias policy targets
              (ground (arith, e, known, full)) here) [
                | inl later ↦ inl (inr later)
                | inr old ↦ elim (Bool-cases (string_eq.beq name alias)) [
                  | inl same ↦
                      let found : ◌≡◌ {A = Option (Policy × List Target)} (some (p, made))
                          (some (policy, targets)) =
                        ground (arith, lookup-insert name alias (p, made) aliases, old, same) in
                      inl (
                        inl (
                          (string_eq.beq_iff name alias).0 same,
                          ground (arith, known, found),
                          ground (arith, full, found),
                        ))
                  | inr other ↦
                      inr (ground (arith, lookup-insert name alias (p, made) aliases, old, other))
                ]
              ]
      ]
    ]

-- An alias of a loaded router has the policy and the targets of an entry of the configuration under
-- its name.
pub from_config-Lists :
    (one : ℕ) (cfg : List (String × AliasConfig)) (l : Dict String (Policy × List Target))
    (alias : String) (policy : Policy) (targets : List Target)
    → from_config one cfg [] ≡ loaded l
    → lookup alias l ≡ some (policy, targets)
    → Lists one cfg alias policy targets
unfolding lookup
from_config-Lists one cfg l alias policy targets e here =
    elim (from_config_from one cfg [] l alias policy targets e here) [
      | inl found ↦ found
      | inr nowhere ↦ absurd (ground (arith, nowhere))
    ]
