-- ===== src/Adapter/Calls.antt =====
-- openai_compat.py: the body of a streaming call, and a success whose body is no JSON.
use switchyard_llm.Prelude.{
  ℕ, ◌+◌, ◌≤◌, ◌≡◌, subst, String, string_eq, true, false, List, ◌∷◌, none, some, Dict, lookup,
  insert, lookup-insert, map, arith, All, if◌then◌else◌, Option-cases, inl, inr, ◌==◌, ◌∙◌,
}
use switchyard_llm.Schemas.{Json, Fields, ChatCompletionRequest, ChatCompletionResponse, Target}
use switchyard_llm.Breaker.{opened, asks, answers}
use switchyard_llm.Breaker.Registry.{breaker_of}
use switchyard_llm.Executor.{escaped, Shared, Env, Settings, World, run}
use switchyard_llm.Executor.Leak.{crashed_probe_blocks}
use switchyard_llm.Adapter.{
  Text, Codec, Http, HttpResponse, response, chat_completion, dict_of, object_of, options_of,
  stream_payload,
}
use switchyard_llm.Adapter.Lines.{dict_of-object_of}

-- The streaming body `d` made of the payload `p`: it asks for a stream and for the usage, keeps every
-- other field, and keeps every other stream option.
pub record AsksForUsage (p d : Dict String Json) : Type 0 where
  pub options : Fields
  pub old_options : Dict String Json
  pub streams : lookup "stream" d ≡ some (Json.boolean true)
  pub has_options : lookup "stream_options" d ≡ some (Json.object options)
  pub asks_usage : lookup "include_usage" (dict_of options) ≡ some (Json.boolean true)
  pub old : options_of (lookup "stream_options" p) ≡ some old_options
  pub keeps_options :
      (key : String)
      → lookup key (dict_of options)
        ≡ (if "include_usage" == key then some (Json.boolean true) else lookup key old_options)
  pub keeps :
      (key : String)
      → lookup key d ≡ (
          if "stream_options" == key
          then some (Json.object options)
          else (if "stream" == key then some (Json.boolean true) else lookup key p))

payload_asks :
    (p options : Dict String Json)
    → options_of (lookup "stream_options" (insert "stream" (Json.boolean true) p)) ≡ some options
    → AsksForUsage p (
        insert "stream_options"
          (Json.object (object_of (insert "include_usage" (Json.boolean true) options)))
          (insert "stream" (Json.boolean true) p))
payload_asks p options good =
    let payload = insert "stream" (Json.boolean true) p in
    let asked = insert "include_usage" (Json.boolean true) options in
    let set = λ (key : String).
      lookup-insert "stream_options" key (Json.object (object_of asked)) payload in
    let old = λ (key : String). lookup-insert "stream" key (Json.boolean true) p in
    record {
      options = object_of asked;
      old_options = options;
      streams = set "stream" ∙ old "stream";
      has_options = set "stream_options";
      asks_usage =
          rw (dict_of-object_of asked)
            (lookup-insert "include_usage" "include_usage" (Json.boolean true) options);
      old = rw (← (old "stream_options")) good;
      keeps_options = λ key.
          rw (dict_of-object_of asked)
            (lookup-insert "include_usage" key (Json.boolean true) options);
      keeps = λ key. ground (arith, set key, old key);
    }

-- A streaming call whose body is made asks the upstream for the usage, and hands every other field
-- and stream option of the request on.
pub stream_payload-AsksForUsage :
    (k : Codec) (request : ChatCompletionRequest) (d : Dict String Json)
    → stream_payload k request ≡ some d
    → AsksForUsage (k.dump request) d
unfolding stream_payload
stream_payload-AsksForUsage k request d e =
    let p = k.dump request in
    let payload = insert "stream" (Json.boolean true) p in
    elim (Option-cases (options_of (lookup "stream_options" payload))) [
      | inl bad ↦ absurd (ground (arith, e, bad))
      | inr (options, good) ↦
          let asked = insert "include_usage" (Json.boolean true) options in
          let last = insert "stream_options" (Json.object (object_of asked)) payload in
          let made : last ≡ d = ground (arith, e, good) in
          subst (λ (x : Dict String Json). AsksForUsage p x) made (payload_asks p options good)
    ]

-- A half-open probe is answered with a success whose body is no JSON, and so are all calls. Then
-- `chat_completion` raises what `json` raises, the breaker is told nothing, and with one probe slot
-- and no other requests about it refuses every call from then on, at every time.
pub malformed_probe_blocks :
    {Adapter : Type 0} (env : Env Adapter ChatCompletionResponse) (s : Settings) (k : Codec)
    (content : Text) (wire : ℕ → Adapter → ChatCompletionRequest → Http HttpResponse) (t : Target)
    (rest : List Target) (registry : Dict String Adapter) (request : ChatCompletionRequest)
    (w : World ChatCompletionResponse) (adapter : Adapter)
    → ((n : ℕ) (a : Adapter) (x : ChatCompletionRequest)
        → env.call n a x ≡ chat_completion k (wire n a x))
    → ((n : ℕ) (a : Adapter) (x : ChatCompletionRequest)
        → wire n a x ≡ response (record { status = 200; content = content }))
    → k.loads content ≡ none
    → env.now (w.tick + 1) ≤ env.now w.tick + s.deadline
    → lookup t.provider registry ≡ some adapter
    → (breaker_of t.provider w.shared.breakers).state ≡ opened
    → s.breaker.half_open_max ≡ 1
    → (breaker_of t.provider w.shared.breakers).opened_at + s.breaker.reset_timeout
      ≤ env.now (w.tick + 1 + 1)
    → ((n : ℕ) (x : Shared) → env.others n x ≡ x)
    → let (r, v) = run env s (t ∷ rest) registry request w in
      (r ≡ escaped)
      × ((times : List ℕ)
          → All
              (λ a. a ≡ false)
              (answers s.breaker (breaker_of t.provider v.shared.breakers) (map asks times)))
unfolding chat_completion
malformed_probe_blocks env s k content wire t rest registry request w adapter calls answer bad time
      e open_now one due alone =
    crashed_probe_blocks env s t rest registry request w adapter time e open_now one due
      (λ n a x. ground (arith, calls n a x, answer n a x, bad)) alone
