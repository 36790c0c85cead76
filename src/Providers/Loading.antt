-- ===== src/Providers/Loading.antt =====
-- registry.py: which providers a configuration makes available.
use switchyard_llm.Prelude.{
  ℕ, sym, ap, ◌∙◌, subst, ◌≢◌, Bool, true, false, ◌==◌, Option-cases, Bool-cases, inl, inr, ◌≡◌,
  refl, String, string_eq, [], ◌∷◌, Option, none, some, Dict, lookup, insert, lookup-insert, arith,
}
use switchyard_llm.Providers.{
  Text, AdapterConfig, ProviderConfig, or_default, value_or, adapter_type, key_of, is_empty, Built,
  skipped, bad_type, built, build, from_config,
}

-- No name stands twice, as in a dict.
abbrev pub DistinctKeys : Dict String ProviderConfig → Type 0
DistinctKeys [] = Unit {0}
DistinctKeys ((name, v) ∷ d) = (lookup name d ≡ none) × DistinctKeys d

-- The adapter that a provider's configuration gets, if it gets one.
abbrev pub adapter_of : Built → Option AdapterConfig
adapter_of (built a) = some a
adapter_of skipped = none
adapter_of bad_type = none

abbrev pub registered : (Text → Option Text) → Option ProviderConfig → Option AdapterConfig
registered getenv none = none
registered getenv (some p) = adapter_of (build getenv p)

abbrev pub or_else {ℓ} : {A : Type ℓ} → Option A → Option A → Option A
or_else none b = b
or_else (some a) b = some a

data Cases (b : Built) : Type 0 where
  is_skipped : b ≡ skipped → Cases b
  is_bad : b ≡ bad_type → Cases b
  is_built : (a : AdapterConfig) → b ≡ built a → Cases b

ends_of_build : (b : Built) → Cases b
ends_of_build skipped = is_skipped refl
ends_of_build bad_type = is_bad refl
ends_of_build (built a) = is_built a refl

from_config_from :
    (getenv : Text → Option Text) (cfg : Dict String ProviderConfig)
    (adapters m : Dict String AdapterConfig) (name : String)
    → DistinctKeys cfg
    → from_config getenv cfg adapters ≡ some m
    → lookup name m ≡ or_else (registered getenv (lookup name cfg)) (lookup name adapters)
unfolding from_config lookup
from_config_from getenv [] adapters m name d e = ground (arith, e)
from_config_from getenv ((n, p) ∷ cfg) adapters m name (fresh, d) e =
    elim (ends_of_build (build getenv p)) [
      | is_skipped s ↦ ground (
        arith,
        s,
        fresh,
        string_eq.beq_iff n name,
        from_config_from getenv cfg adapters m name d (ground (arith, e, s)),
      )
      | is_bad b ↦ absurd (ground (arith, e, b))
      | is_built a b ↦ ground (
        arith,
        b,
        fresh,
        string_eq.beq_iff n name,
        lookup-insert n name a adapters,
        from_config_from getenv cfg (insert n a adapters) m name d (ground (arith, e, b)),
      )
    ]

-- When `from_config` returns, `get` has for every name exactly the adapter of its configuration, and
-- none for a name that is not configured or whose key is not set.
pub lookup-from_config :
    (getenv : Text → Option Text) (cfg : Dict String ProviderConfig) (m : Dict String AdapterConfig)
    (name : String)
    → DistinctKeys cfg
    → from_config getenv cfg [] ≡ some m
    → lookup name m ≡ registered getenv (lookup name cfg)
unfolding lookup
lookup-from_config getenv cfg m name d e = ground (arith, from_config_from getenv cfg [] m name d e)

-- The keys with which a provider may be called: none where its configuration asks for none, and else
-- the value of the variable that it names, which is set and not empty.
pub data Authorized (getenv : Text → Option Text) (p : ProviderConfig) : Text → Type 0 where
  needs_none : p.auth ≡ some "none" → Authorized getenv p []
  has_key :
      (v c : ℕ) (vs cs : Text)
      → p.auth ≢ some "none"
      → p.api_key_env ≡ some (v ∷ vs)
      → getenv (v ∷ vs) ≡ some (c ∷ cs)
      → Authorized getenv p (c ∷ cs)

abbrev keyless : ProviderConfig → Bool
keyless p = or_default "bearer" p.auth == "none"

keyless_none :
    (auth : Option String) → (or_default "bearer" auth == "none") ≡ true → auth ≡ some "none"
keyless_none none h = absurd (ground (arith, h))
keyless_none (some a) h = ap (λ (x : String). some x) ((string_eq.beq_iff a "none").0 h)

bearer_not_none : (p : ProviderConfig) → keyless p ≡ false → p.auth ≢ some "none"
bearer_not_none p h e =
    let bad : true ≡ false =
      subst (λ (x : Option String). (or_default "bearer" x == "none") ≡ false) e h in
    ground (arith, bad)

not_none_bearer : (p : ProviderConfig) → p.auth ≢ some "none" → keyless p ≡ false
not_none_bearer p h = elim (Bool-cases (keyless p)) [
  | inl none_named ↦ absurd (h (keyless_none p.auth none_named))
  | inr bearer ↦ bearer
]

value_cases : (o : Option Text) (c : ℕ) (cs : Text) → value_or [] o ≡ c ∷ cs → o ≡ some (c ∷ cs)
value_cases none c cs h = absurd (ground (arith, h))
value_cases (some []) c cs h = absurd (ground (arith, h))
value_cases (some (d ∷ ds)) c cs h = ap (λ (t : Text). some t) h

key_cases :
    (getenv : Text → Option Text) (env : Option Text) (c : ℕ) (cs : Text)
    → key_of getenv env ≡ c ∷ cs
    → (v : ℕ) × (vs : Text) × (env ≡ some (v ∷ vs)) × (getenv (v ∷ vs) ≡ some (c ∷ cs))
key_cases getenv none c cs h = absurd (ground (arith, h))
key_cases getenv (some []) c cs h = absurd (ground (arith, h))
key_cases getenv (some (v ∷ vs)) c cs h = (v, vs, refl, value_cases (getenv (v ∷ vs)) c cs h)

filled : (k : Text) → is_empty k ≡ false → (c : ℕ) × (cs : Text) × (k ≡ c ∷ cs)
filled [] h = absurd (ground (arith, h))
filled (c ∷ cs) h = (c, cs, refl)

build-Authorized :
    (getenv : Text → Option Text) (p : ProviderConfig) (a : AdapterConfig)
    → build getenv p ≡ built a
    → Authorized getenv p a.api_key
unfolding build
build-Authorized getenv p a h =
    elim (Option-cases (adapter_type (or_default "openai_compat" p.type))) [
      | inl bad ↦ absurd (ground (arith, h, bad))
      | inr (kind, known) ↦ elim (Bool-cases (keyless p)) [
        | inl open_to_all ↦
            let key : [] ≡ a.api_key = ground (arith, h, known, open_to_all) in
            subst (Authorized getenv p) key (needs_none (keyless_none p.auth open_to_all))
        | inr bearer ↦ elim (Bool-cases (is_empty (key_of getenv p.api_key_env))) [
          | inl missing ↦ absurd (ground (arith, h, known, bearer, missing))
          | inr there ↦
              let key : key_of getenv p.api_key_env ≡ a.api_key =
                ground (arith, h, known, bearer, there) in
              let (c, cs, full) = filled (key_of getenv p.api_key_env) there in
              let (v, vs, named, set_to) = key_cases getenv p.api_key_env c cs full in
              subst (Authorized getenv p) (sym full ∙ key)
                (has_key v c vs cs (bearer_not_none p bearer) named set_to)
        ]
      ]
    ]

-- A provider that is skipped has no key with which it may be called.
build-skipped :
    (getenv : Text → Option Text) (p : ProviderConfig) (key : Text)
    → build getenv p ≡ skipped
    → ¬ Authorized getenv p key
unfolding build
build-skipped getenv p key h (needs_none open_to_all) =
    let named : keyless p ≡ true =
      subst (λ (x : Option String). (or_default "bearer" x == "none") ≡ true) (sym open_to_all)
        refl in
    elim (Option-cases (adapter_type (or_default "openai_compat" p.type))) [
      | inl bad ↦ ground (arith, h, named, bad)
      | inr (kind, known) ↦ ground (arith, h, named, known)
    ]
build-skipped getenv p key h (has_key v c vs cs bearer named set_to) =
    let asks : keyless p ≡ false = not_none_bearer p bearer in
    let full : key_of getenv p.api_key_env ≡ c ∷ cs = rw (named, set_to) refl in
    elim (Option-cases (adapter_type (or_default "openai_compat" p.type))) [
      | inl bad ↦ ground (arith, h, asks, full, bad)
      | inr (kind, known) ↦ ground (arith, h, asks, full, known)
    ]

-- When `from_config` returns, no provider of the configuration has an unknown type.
known_types :
    (getenv : Text → Option Text) (cfg : Dict String ProviderConfig)
    (adapters m : Dict String AdapterConfig) (name : String) (p : ProviderConfig)
    → from_config getenv cfg adapters ≡ some m
    → lookup name cfg ≡ some p
    → build getenv p ≢ bad_type
unfolding from_config lookup
known_types getenv [] adapters m name p e found bad = ground (arith, found)
known_types getenv ((n, q) ∷ cfg) adapters m name p e found bad =
    elim (ends_of_build (build getenv q)) [
      | is_bad b ↦ ground (arith, e, b)
      | is_skipped s ↦ elim (Bool-cases (n == name)) [
        | inl here ↦
            let same : q ≡ p = ground (arith, found, here) in
            ground (arith, s, bad, ap (build getenv) same)
        | inr later ↦
            known_types getenv cfg adapters m name p (ground (arith, e, s))
              (ground (arith, found, later)) bad
      ]
      | is_built a b ↦ elim (Bool-cases (n == name)) [
        | inl here ↦
            let same : q ≡ p = ground (arith, found, here) in
            ground (arith, b, bad, ap (build getenv) same)
        | inr later ↦
            known_types getenv cfg (insert n a adapters) m name p (ground (arith, e, b))
              (ground (arith, found, later)) bad
      ]
    ]

-- When `from_config` returns, an adapter that it has made is that of a configured provider and keeps
-- a key with which that provider may be called.
pub registered-Authorized :
    (getenv : Text → Option Text) (cfg : Dict String ProviderConfig) (m : Dict String AdapterConfig)
    (name : String) (a : AdapterConfig)
    → DistinctKeys cfg
    → from_config getenv cfg [] ≡ some m
    → lookup name m ≡ some a
    → (p : ProviderConfig) × (lookup name cfg ≡ some p) × Authorized getenv p a.api_key
registered-Authorized getenv cfg m name a d e found =
    let is_it = sym found ∙ lookup-from_config getenv cfg m name d e in
    elim (Option-cases (lookup name cfg)) [
      | inl absent ↦ absurd (ground (arith, is_it, absent))
      | inr (p, there) ↦ elim (ends_of_build (build getenv p)) [
        | is_skipped s ↦ absurd (ground (arith, is_it, there, s))
        | is_bad b ↦ absurd (ground (arith, is_it, there, b))
        | is_built x b ↦
            let same : x ≡ a = ground (arith, is_it, there, b) in
            (p, there, build-Authorized getenv p a (b ∙ ap built same))
      ]
    ]

-- When `from_config` returns, a configured provider without an adapter has no key with which it may
-- be called.
pub missing_unauthorized :
    (getenv : Text → Option Text) (cfg : Dict String ProviderConfig) (m : Dict String AdapterConfig)
    (name : String) (p : ProviderConfig) (key : Text)
    → DistinctKeys cfg
    → from_config getenv cfg [] ≡ some m
    → lookup name cfg ≡ some p
    → lookup name m ≡ none
    → ¬ Authorized getenv p key
missing_unauthorized getenv cfg m name p key d e there missing auth =
    let is_it = sym missing ∙ lookup-from_config getenv cfg m name d e in
    elim (ends_of_build (build getenv p)) [
      | is_skipped s ↦ build-skipped getenv p key s auth
      | is_bad b ↦ known_types getenv cfg [] m name p e there b
      | is_built x b ↦ ground (arith, is_it, there, b)
    ]
