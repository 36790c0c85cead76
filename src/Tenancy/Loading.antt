-- ===== src/Tenancy/Loading.antt =====
-- auth.py: `TenantRegistry.from_config`, and the tenant that a header's key stands for. The file's
-- content is what `yaml.safe_load` made of it; a field is `none` where it is missing or `int` raises,
-- and a registry is `none` where `from_config` raises.
use switchyard_llm.Prelude.{
  ℕ, ◌≡◌, ap, ◌∙◌, String, List, [], ◌∷◌, ◌++◌, map, Option, none, some, Option-cases, inl, inr,
  arith, if◌then◌else◌,
}
use switchyard_llm.Tenancy.{
  Tenant, TenantRegistry, text_beq, find, resolve, extract_bearer, to_lower, bearer,
}
use switchyard_llm.Tenancy.Bearer.{IsWord, extract_bearer_key}

pub record TenantConfig : Type 0 where
  pub tenant : Option String
  pub requests_per_min : Option ℕ
  pub tokens_per_min : Option ℕ

-- The `Tenant` that an entry makes.
abbrev pub made_of : Option String → Option ℕ → Option ℕ → Option Tenant
made_of (some id) (some requests) (some tokens) =
    some (record { id = id; requests_per_min = requests; tokens_per_min = tokens })
made_of _ _ _ = none

abbrev pub tenant_of : TenantConfig → Option Tenant
tenant_of t = made_of t.tenant t.requests_per_min t.tokens_per_min

unfoldable pub load_entries : List (List ℕ × TenantConfig) → Option TenantRegistry
load_entries [] = some []
load_entries ((key, t) ∷ cfg) = elim (tenant_of t) [
  | none ↦ none
  | some tenant ↦ elim (load_entries cfg) [ none ↦ none | some r ↦ some ((key, tenant) ∷ r) ]
]

-- `from_config`, of no file or of the entries under `tenants`.
unfoldable pub load_tenants : Option (List (List ℕ × TenantConfig)) → Option TenantRegistry
unfolding load_entries
load_tenants none = some []
load_tenants (some cfg) = load_entries cfg

-- The tenant that a configuration has under a key.
abbrev pub tenant_under : List ℕ → List (List ℕ × TenantConfig) → Option Tenant
tenant_under key [] = none
tenant_under key ((k, t) ∷ cfg) = if text_beq k key then tenant_of t else tenant_under key cfg

find-load_entries :
    (key : List ℕ) (cfg : List (List ℕ × TenantConfig)) (r : TenantRegistry)
    → load_entries cfg ≡ some r
    → find key r ≡ tenant_under key cfg
unfolding load_entries find
find-load_entries key [] r e = ground (arith, e)
find-load_entries key ((k, t) ∷ cfg) r e = elim (Option-cases (tenant_of t)) [
  | inl bad ↦ absurd (ground (arith, e, bad))
  | inr (tenant, made) ↦ elim (Option-cases (load_entries cfg)) [
    | inl bad ↦ absurd (ground (arith, e, made, bad))
    | inr (rest, ok) ↦ ground (arith, e, made, ok, find-load_entries key cfg rest ok)
  ]
]

-- With the registry that `from_config` makes of a configuration: a header of a scheme that lowers to
-- "bearer", a space and a key without white space resolves to the tenant that the configuration has
-- under the key, if any, and so does a header of the key alone.
pub resolve-extract_bearer :
    (cfg : List (List ℕ × TenantConfig)) (r : TenantRegistry) (c d : ℕ) (scheme key : List ℕ)
    → load_tenants (some cfg) ≡ some r
    → IsWord (c ∷ scheme)
    → IsWord (d ∷ key)
    → map to_lower (c ∷ scheme) ≡ bearer
    → (resolve r (extract_bearer (some ((c ∷ scheme) ++ 32 ∷ d ∷ key)))
        ≡ tenant_under (d ∷ key) cfg)
      × (resolve r (extract_bearer (some (d ∷ key))) ≡ tenant_under (d ∷ key) cfg)
unfolding resolve load_tenants
resolve-extract_bearer cfg r c d scheme key loaded p q lower =
    let (with_scheme, alone) = extract_bearer_key c d scheme key p q lower in
    let under = find-load_entries (d ∷ key) cfg r loaded in
    (ap (resolve r) with_scheme ∙ under, ap (resolve r) alone ∙ under)
