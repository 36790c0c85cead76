-- ===== src/Tenancy.antt =====
-- gateway/tenancy/auth.py and gateway/ratelimit/estimate.py: who sends a request, and what it is
-- expected to cost. Header values and keys are lists of code points (a header is latin-1). The
-- encoder of `tiktoken` and Python's `str` of a JSON value are arguments.
pub mod Bearer
pub mod Estimate
pub mod Loading
use Prim.Native.String.{count}
use switchyard_llm.Prelude.{
  ℕ, ◌+◌, ◌/◌, String, string_eq, Bool, true, false, ◌&&◌, ◌||◌, List, [], ◌∷◌, map, Option, none,
  some, Dict, lookup, Eq, ltb, leb, nat_beq, if◌then◌else◌, ◌==◌, nat_eq,
}
use switchyard_llm.Prelude.Int.{ℤ, pos, ◌+ℤ◌, is_zero_ℤ}
use switchyard_llm.Schemas.{Json, Message, ChatCompletionRequest}

pub record Tenant : Type 0 where
  pub id : String
  pub requests_per_min : ℕ
  pub tokens_per_min : ℕ

abbrev pub text_beq : List ℕ → List ℕ → Bool
text_beq [] [] = true
text_beq [] (y ∷ ys) = false
text_beq (x ∷ xs) [] = false
text_beq (x ∷ xs) (y ∷ ys) = nat_beq x y && text_beq xs ys

-- `_by_key`
abbrev pub TenantRegistry : Type 0
TenantRegistry = List (List ℕ × Tenant)

unfoldable pub enabled : TenantRegistry → Bool
enabled [] = false
enabled (e ∷ es) = true

-- `dict.get`
unfoldable pub find : List ℕ → TenantRegistry → Option Tenant
find key [] = none
find key ((k, t) ∷ es) = if text_beq k key then some t else find key es

unfoldable pub resolve : TenantRegistry → Option (List ℕ) → Option Tenant
resolve r none = none
resolve r (some key) = find key r

-- `str.isspace` on latin-1.
unfoldable pub is_space : ℕ → Bool
is_space c = (leb 9 c && leb c 13) || ((leb 28 c && leb c 32) || (nat_beq c 133 || nat_beq c 160))

abbrev pub starts_word : List ℕ → Bool
starts_word [] = false
starts_word (d ∷ ds) = if is_space d then false else true

abbrev pub join_word : ℕ → Bool → List (List ℕ) → List (List ℕ)
join_word c true (w ∷ ws) = (c ∷ w) ∷ ws
join_word c true [] = (c ∷ []) ∷ []
join_word c false ws = (c ∷ []) ∷ ws

-- `str.split()`: the runs of characters between white space. A character joins the first run of the
-- rest, if the rest starts with one.
unfoldable pub split : List ℕ → List (List ℕ)
split [] = []
split (c ∷ cs) =
    let rest = split cs in if is_space c then rest else join_word c (starts_word cs) rest

-- `str.lower`, of a character.
abbrev pub to_lower : ℕ → ℕ
to_lower c = if leb b'A' c && leb c b'Z' then c + 32 else c

abbrev pub bearer : List ℕ
bearer = b'b' ∷ b'e' ∷ b'a' ∷ b'r' ∷ b'e' ∷ b'r' ∷ []

abbrev pub bearer_key : List ℕ → List (List ℕ) → List ℕ
bearer_key authorization (scheme ∷ key ∷ []) =
    if text_beq (map to_lower scheme) bearer then key else authorization
bearer_key authorization _ = authorization

unfoldable pub extract_bearer : Option (List ℕ) → Option (List ℕ)
unfolding split
extract_bearer none = none
extract_bearer (some []) = none
extract_bearer (some (c ∷ cs)) = some (bearer_key (c ∷ cs) (split (c ∷ cs)))

abbrev pub default_output_estimate : ℕ
default_output_estimate = 256

abbrev pub per_message_overhead : ℕ
per_message_overhead = 3

module _ (encoder : Option (String → ℕ)) (str : Json → String) where
  -- `_count_text`, over the number of tokens that the encoder gives a text.
  unfoldable pub count_text : String → ℕ
  count_text text =
      if text == ""
      then 0
      else elim encoder [ none ↦ count text / 4 + 1 | some encode ↦ encode text ]

  unfoldable pub content_text : Json → String
  content_text (Json.text s) = s
  content_text Json.null = ""
  content_text j = str j

  -- The loop over the messages.
  unfoldable pub input_tokens : List Message → ℕ
  unfolding count_text content_text
  input_tokens [] = 0
  input_tokens (m ∷ ms) =
      per_message_overhead + count_text (content_text m.content) + input_tokens ms

  -- `request.max_tokens or DEFAULT_OUTPUT_ESTIMATE`: 0 counts as not given.
  unfoldable pub output_estimate : Option ℤ → ℤ
  output_estimate none = pos default_output_estimate
  output_estimate (some n) = if is_zero_ℤ n then pos default_output_estimate else n

  unfoldable pub estimate_tokens : ChatCompletionRequest → ℤ
  unfolding input_tokens output_estimate
  estimate_tokens request =
      pos (input_tokens request.messages) +ℤ output_estimate request.max_tokens
