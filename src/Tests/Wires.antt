-- ===== src/Tests/Wires.antt =====
-- The lines and calls of the adapter, and the registries of providers and tenants, at concrete
-- inputs.
use switchyard_llm.Prelude.{
  ℕ, ◌≡◌, refl, string_eq, nat_beq, String, Bool, true, false, List, [], ◌∷◌, ◌++◌, map, Option,
  none, some, Dict, lookup, length, All, arith, if◌then◌else◌,
}
use switchyard_llm.Schemas.{Json, ChatCompletionRequest, ChatCompletionResponse}
use switchyard_llm.Streaming.{Chunk, exhausted, broken}
use switchyard_llm.Streaming.Frames.{all_frames}
use switchyard_llm.Executor.{returned, Env, World, run, escaped}
use switchyard_llm.Breaker.{asks, answers}
use switchyard_llm.Breaker.Registry.{breaker_of, get}
use switchyard_llm.Tenancy.{TenantRegistry, resolve, extract_bearer, bearer, is_space}
use switchyard_llm.Tenancy.Loading.{
  TenantConfig, load_tenants, load_entries, tenant_under, resolve-extract_bearer,
}
use switchyard_llm.Adapter
use switchyard_llm.Adapter.{
  Codec, Http, HttpResponse, response, object_of, read_lines, chat_completion, stream_payload,
}
use switchyard_llm.Adapter.Lines.{IsFaithful, all_lines, read_lines-frames}
use switchyard_llm.Adapter.Calls.{malformed_probe_blocks}
use switchyard_llm.Providers
use switchyard_llm.Providers.{
  ProviderConfig, AdapterConfig, from_config, expand_env, match_reference, build, adapter_type,
}
use switchyard_llm.Providers.Expansion.{value_in, expand_env-closed_with, closed_with}
use switchyard_llm.Tests.Components.{small, tripped, request, chunk}
use switchyard_llm.Tests.Requests.{settings, registry, gemini}

abbrev is_first : Adapter.Text → Bool
is_first (c ∷ d ∷ cs) = nat_beq d b'1'
is_first t = true

abbrev braces : Adapter.Text → Bool
braces (c ∷ cs) = nat_beq c b'{'
braces t = false

-- A codec that knows two chunks.
abbrev codec : Codec
codec = record {
  loads = λ t.
      if braces t
      then (if is_first t
          then some (Json.object (object_of (chunk 1)))
          else some (Json.object (object_of (chunk 2))))
      else none;
  dumps = λ (c : Chunk). elim c [
    | [] ↦ b'{' ∷ b'2' ∷ b'}' ∷ []
    | p ∷ d ↦ elim (p.1) [
      | Json.object fields ↦ b'{' ∷ b'1' ∷ b'}' ∷ []
      | _ ↦ b'{' ∷ b'2' ∷ b'}' ∷ []
    ]
  ];
  decode = λ t. "";
  validate = λ j. none;
  dump = λ r. [];
}

codec-IsFaithful : IsFaithful codec (chunk 1)
codec-IsFaithful = record { braced = (b'1' ∷ [], refl); read_back = refl }

read_lines-frames_example :
    read_lines codec (all_lines codec (all_frames (chunk 1 ∷ []) exhausted) ++ ([] ∷ [])) broken
    ≡ (chunk 1 ∷ [], exhausted)
read_lines-frames_example =
    read_lines-frames codec (chunk 1 ∷ []) ([] ∷ []) broken (codec-IsFaithful, tt)

abbrev malformed : ℕ → Bool → ChatCompletionRequest → Http HttpResponse
malformed n a x = response (record { status = 200; content = b'<' ∷ [] })

abbrev malformed_env : Env Bool ChatCompletionResponse
malformed_env = record {
  now = λ n. 200;
  uniform = λ n c. c;
  call = λ n a x. chat_completion codec (malformed n a x);
  others = λ n x. x;
}

abbrev tripped_world : World ChatCompletionResponse
tripped_world = record {
  tick = 0;
  shared = record { breakers = ("gemini", tripped) ∷ []; signals = none };
  failures = [];
  calls = [];
  slept = [];
}

malformed_probe_blocks_example :
    let (r, v) = run malformed_env settings (gemini ∷ []) registry (request none) tripped_world in
    (r ≡ escaped)
    × ((times : List ℕ)
        → All
            (λ a. a ≡ false)
            (answers small (breaker_of "gemini" v.shared.breakers) (map asks times)))
unfolding lookup get
malformed_probe_blocks_example =
    malformed_probe_blocks malformed_env settings codec (b'<' ∷ []) malformed gemini [] registry
      (request none) tripped_world false (λ n a x. refl) (λ n a x. refl) refl (omega arith) refl
      refl refl (omega arith) (λ n x. refl)

-- One variable is set: `K`.
abbrev getenv : Providers.Text → Option Providers.Text
getenv (c ∷ []) = if nat_beq c b'K' then some (b's' ∷ []) else none
getenv t = none

abbrev keyed : ProviderConfig
keyed = record {
  auth = none;
  api_key_env = some (b'K' ∷ []);
  type = none;
  base_url = b'u' ∷ b'/' ∷ [];
}

abbrev keyless : ProviderConfig
keyless = record keyed { api_key_env = some (b'L' ∷ []) }

abbrev configured : Dict String ProviderConfig
configured = ("groq", keyed) ∷ ("gemini", keyless) ∷ []

abbrev adapters : Dict String AdapterConfig
adapters =
    ("groq", record { kind = Providers.openai_compat; base_url = b'u' ∷ []; api_key = b's' ∷ [] })
    ∷ []

expand_env-closed_with_example :
    expand_env getenv 0 (b'u' ∷ b'$' ∷ b'{' ∷ b'L' ∷ closed_with (some (b'd' ∷ [])) (b'/' ∷ []))
    ≡ b'u' ∷ (value_in (some (b'd' ∷ [])) none ++ expand_env getenv 0 (b'/' ∷ []))
expand_env-closed_with_example =
    expand_env-closed_with getenv (b'u' ∷ []) b'L' [] (some (b'd' ∷ [])) (b'/' ∷ []) (refl, tt) refl
      tt (refl, tt)

abbrev upstream_env : Env AdapterConfig ℕ
upstream_env = record {
  now = λ n. 0;
  uniform = λ n c. c;
  call = λ n a x. returned (length a.api_key);
  others = λ n x. x;
}

abbrev quiet_world : World ℕ
quiet_world = record {
  tick = 0;
  shared = record { breakers = []; signals = none };
  failures = [];
  calls = [];
  slept = [];
}

abbrev tenants_file : List (List ℕ × TenantConfig)
tenants_file =
    (
      b's' ∷ b'k' ∷ [],
      record { tenant = some "acme"; requests_per_min = some 2; tokens_per_min = some 100 },
    )
    ∷ []

abbrev tenants : TenantRegistry
tenants =
    (b's' ∷ b'k' ∷ [], record { id = "acme"; requests_per_min = 2; tokens_per_min = 100 }) ∷ []

resolve-extract_bearer_example :
    (resolve tenants (extract_bearer (some (bearer ++ 32 ∷ b's' ∷ b'k' ∷ [])))
      ≡ tenant_under (b's' ∷ b'k' ∷ []) tenants_file)
    × (resolve tenants (extract_bearer (some (b's' ∷ b'k' ∷ [])))
        ≡ tenant_under (b's' ∷ b'k' ∷ []) tenants_file)
unfolding load_tenants load_entries is_space
resolve-extract_bearer_example =
    resolve-extract_bearer tenants_file tenants b'b' b's' (b'e' ∷ b'a' ∷ b'r' ∷ b'e' ∷ b'r' ∷ [])
      (b'k' ∷ []) refl (refl, (refl, (refl, (refl, (refl, (refl, tt)))))) (refl, (refl, tt)) refl
