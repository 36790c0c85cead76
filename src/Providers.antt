-- ===== src/Providers.antt =====
-- gateway/providers/registry.py: `ProviderRegistry`, and the expansion of `${VAR}` and
-- `${VAR:-default}`. Text is code points. A configuration is what `yaml.safe_load` made of the file,
-- an absent field being `none`, and `getenv` is `os.getenv`. The regular expression's match at a
-- place is written out: its name cannot be shortened by backtracking, since what follows a name is
-- no character of a name.
pub mod Expansion
pub mod Loading
pub mod Configured
use switchyard_llm.Prelude.{
  ℕ, zero, suc, ◌+◌, ◌-◌, String, string_eq, Bool, true, false, not, ◌&&◌, ◌||◌, List, [], ◌∷◌,
  ◌++◌, reverse, Option, none, some, Dict, lookup, insert, length, leb, nat_beq, ◌==◌,
  if◌then◌else◌,
}

abbrev pub Text : Type 0
Text = List ℕ

abbrev pub is_letter : ℕ → Bool
is_letter c = (leb b'a' c && leb c b'z') || ((leb b'A' c && leb c b'Z') || nat_beq c b'_')

abbrev pub is_name_char : ℕ → Bool
is_name_char c = is_letter c || (leb b'0' c && leb c b'9')

abbrev pub not_brace : ℕ → Bool
not_brace c = not (nat_beq c b'}')

-- The longest prefix of characters that pass a test, and the rest.
unfoldable pub span : (ℕ → Bool) → Text → Text × Text
span p [] = ([], [])
span p (c ∷ cs) = let (xs, ys) = span p cs in if p c then (c ∷ xs, ys) else ([], c ∷ cs)

-- A reference: its name, its default (empty for none), and the number of characters that it takes.
pub record Reference : Type 0 where
  pub name : Text
  pub fallback : Text
  pub size : ℕ

-- After the name and the default: `}`.
unfoldable pub close_default : Text → Text × Text → Option Reference
close_default name (fallback, []) = none
close_default name (fallback, c ∷ rest) =
    some (record { name = name; fallback = fallback; size = length name + length fallback + 5 })

-- After the name and `:`: `-`, a default and `}`.
unfoldable pub close_colon : Text → Text → Option Reference
close_colon name [] = none
close_colon name (c ∷ rest) =
    if nat_beq c b'-' then close_default name (span not_brace rest) else none

-- After the name: `}`, or `:-`, a default and `}`.
unfoldable pub close_name : Text × Text → Option Reference
close_name (name, []) = none
close_name (name, c ∷ rest) =
    if nat_beq c b'}'
    then some (record { name = name; fallback = []; size = length name + 3 })
    else (if nat_beq c b':' then close_colon name rest else none)

-- A match of the pattern at the start of a text.
unfoldable pub match_reference : Text → Option Reference
match_reference (c ∷ d ∷ e ∷ rest) =
    if nat_beq c b'$' && (nat_beq d b'{' && is_letter e)
    then close_name (span is_name_char (e ∷ rest))
    else none
match_reference _ = none

-- `os.getenv(name) or (default or "")`
abbrev pub value_or : Text → Option Text → Text
value_or fallback none = fallback
value_or fallback (some []) = fallback
value_or fallback (some (c ∷ cs)) = c ∷ cs

-- `_expand_env`, with the number of characters of the last match that are still to pass.
unfoldable pub expand_env : (Text → Option Text) → ℕ → Text → Text
expand_env getenv n [] = []
expand_env getenv (suc n) (c ∷ cs) = expand_env getenv n cs
expand_env getenv zero (c ∷ cs) = elim (match_reference (c ∷ cs)) [
  | none ↦ c ∷ expand_env getenv 0 cs
  | some r ↦ value_or r.fallback (getenv r.name) ++ expand_env getenv (r.size - 1) cs
]

-- `rstrip("/")`, of the reversed text.
abbrev pub lstrip_slash : Text → Text
lstrip_slash [] = []
lstrip_slash (c ∷ cs) = let rest = lstrip_slash cs in if nat_beq c b'/' then rest else c ∷ cs

pub data Kind : Type 0 where
  openai_compat gemini : Kind

-- `ADAPTER_TYPES`
unfoldable pub adapter_type : String → Option Kind
adapter_type name =
    if name == "openai_compat"
    then some openai_compat
    else (if name == "gemini" then some gemini else none)

-- What the constructor of an adapter keeps.
pub record AdapterConfig : Type 0 where
  pub kind : Kind
  pub base_url : Text
  pub api_key : Text

pub record ProviderConfig : Type 0 where
  pub auth : Option String
  pub api_key_env : Option Text
  pub type : Option String
  pub base_url : Text

abbrev pub or_default : String → Option String → String
or_default d none = d
or_default d (some s) = s

-- `os.getenv(env_var, "") if env_var else ""`
abbrev pub key_of : (Text → Option Text) → Option Text → Text
key_of getenv none = []
key_of getenv (some []) = []
key_of getenv (some (c ∷ cs)) = value_or [] (getenv (c ∷ cs))

abbrev pub is_empty : Text → Bool
is_empty [] = true
is_empty (c ∷ cs) = false

-- What the loop of `from_config` makes of one provider: it skips it for want of a key, raises a
-- KeyError for its type, or makes its adapter.
pub data Built : Type 0 where
  skipped : Built
  bad_type : Built
  built : AdapterConfig → Built

unfoldable pub build : (Text → Option Text) → ProviderConfig → Built
unfolding adapter_type expand_env
build getenv p =
    let keyless = or_default "bearer" p.auth == "none" in
    let api_key = if keyless then [] else key_of getenv p.api_key_env in
    if not keyless && is_empty api_key
    then skipped
    else elim (adapter_type (or_default "openai_compat" p.type)) [
      | none ↦ bad_type
      | some kind ↦ built (record {
        kind = kind;
        base_url = reverse (lstrip_slash (reverse (expand_env getenv 0 p.base_url)));
        api_key = api_key;
      })
    ]

-- `from_config`, from the adapters made so far; `none` is the KeyError.
unfoldable pub from_config :
    (Text → Option Text)
    → Dict String ProviderConfig
    → Dict String AdapterConfig
    → Option (Dict String AdapterConfig)
unfolding build
from_config getenv [] adapters = some adapters
from_config getenv ((name, p) ∷ cfg) adapters = elim (build getenv p) [
  | skipped ↦ from_config getenv cfg adapters
  | bad_type ↦ none
  | built a ↦ from_config getenv cfg (insert name a adapters)
]

-- `available`
unfoldable pub available : Dict String AdapterConfig → List String
available [] = []
available ((name, a) ∷ adapters) = name ∷ available adapters
