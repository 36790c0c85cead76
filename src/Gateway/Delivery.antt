-- ===== src/Gateway/Delivery.antt =====
-- main.py: the delivery of a stream's frames, and `on_finish`.
use switchyard_llm.Prelude.{
  ℕ, String, string_eq, Bool, true, false, List, [], ◌∷◌, Option, none, some, ◌==◌, if◌then◌else◌,
}
use switchyard_llm.Prelude.Int.{ℤ, pos}
use switchyard_llm.Schemas.{
  Json, Fields, ChatCompletionRequest, ChatCompletionResponse, Target, Usage,
}
use switchyard_llm.Schemas
use switchyard_llm.Tenancy.{Tenant}
use switchyard_llm.Limiter.{Redis, reconcile}
use switchyard_llm.Cache.{Faiss}
use switchyard_llm.Signals.{cost_usd}
use switchyard_llm.Streaming.{Event, sent, closed, finished, stream_sse, truthy}
use switchyard_llm.Gateway.{
  Opened, stream_incomplete, error_metric, usage_metric, AppConfig, State, Outside, recorded,
  refund_tokens, tenant_id,
}

-- `dict.get` of a JSON object, None being `null`; on another value it raises.
abbrev pub field_of : String → Fields → Json
field_of key Schemas.end = Json.null
field_of key (Schemas.field k v fields) = if k == key then v else field_of key fields

abbrev pub fields_of : Json → Option Fields
fields_of (Json.object fields) = some fields
fields_of j = none

module _ {redis : Redis} {faiss : Faiss} {Adapter : Type 0} (g : AppConfig redis faiss Adapter)
    (o : Outside redis faiss Adapter) where
  -- `total_tokens`: none, or what the limiter's arithmetic makes of it.
  abbrev pub total_of : Json → Option (Option ℤ)
  total_of Json.null = some none
  total_of (Json.count n) = some (some (pos n))
  total_of j = elim (o.number_of j) [ none ↦ none | some z ↦ some (some z) ]

  -- `int(usage.get(…) or 0)`
  abbrev pub count_of : Json → Option ℕ
  count_of (Json.count n) = some n
  count_of j = if truthy j then o.int_of j else some 0

  -- The reconciliation of `on_finish`; `none` is an exception.
  unfoldable pub settle_stream :
      Option Tenant
      → ℤ
      → Option Json
      → Bool
      → State redis faiss Adapter
      → Option (State redis faiss Adapter)
  unfolding refund_tokens
  settle_stream none estimated usage completed s = some s
  settle_stream (some tenant) estimated usage false s =
      some (refund_tokens g o (some tenant) estimated s)
  settle_stream (some tenant) estimated none true s = some s
  settle_stream (some tenant) estimated (some usage) true s = elim (fields_of usage) [
    | none ↦ none
    | some fields ↦ elim (total_of (field_of "total_tokens" fields)) [
      | none ↦ none
      | some none ↦ some s
      | some (some total) ↦
          some (record s { store = reconcile redis g.window tenant total estimated s.store })
    ]
  ]

  -- The usage metric of `on_finish`.
  unfoldable pub record_stream_usage :
      Option Tenant
      → Target
      → Option Json
      → Bool
      → State redis faiss Adapter
      → Option (State redis faiss Adapter)
  record_stream_usage tenant target usage false s = some s
  record_stream_usage tenant target none true s = some s
  record_stream_usage tenant target (some usage) true s = elim (fields_of usage) [
    | none ↦ none
    | some fields ↦ elim (count_of (field_of "prompt_tokens" fields)) [
      | none ↦ none
      | some prompt ↦ elim (count_of (field_of "completion_tokens" fields)) [
        | none ↦ none
        | some completion ↦ some (
            recorded g o
              (usage_metric (tenant_id tenant) target.provider prompt completion
                (cost_usd g.pricebook target.model prompt completion))
              s)
      ]
    ]
  ]

  -- `on_finish`, of the state it leaves: an exception keeps what was done before it.
  unfoldable pub on_finish :
      Option Tenant
      → ℤ
      → Target
      → Option Json
      → Bool
      → State redis faiss Adapter
      → State redis faiss Adapter
  unfolding settle_stream record_stream_usage
  on_finish tenant estimated target usage completed s =
      let s1 = if completed then s else recorded g o (error_metric stream_incomplete) s in
      elim (settle_stream tenant estimated usage completed s1) [
        | none ↦ s1
        | some s2 ↦ elim (record_stream_usage tenant target usage completed s2) [
          | none ↦ s2
          | some s3 ↦ s3
        ]
      ]

  -- The events of a stream, of which `on_finish` changes the state.
  unfoldable pub play :
      Option Tenant
      → ℤ
      → Target
      → List Event
      → State redis faiss Adapter
      → State redis faiss Adapter
  unfolding on_finish
  play tenant estimated target [] s = s
  play tenant estimated target (finished usage completed ∷ events) s =
      play tenant estimated target events (on_finish tenant estimated target usage completed s)
  play tenant estimated target (sent frame ∷ events) s = play tenant estimated target events s
  play tenant estimated target (closed ∷ events) s = play tenant estimated target events s

  -- The streaming response, to a client that takes a number of frames.
  unfoldable pub deliver :
      Option Tenant
      → ℤ
      → Target
      → Opened
      → Option ℕ
      → State redis faiss Adapter
      → State redis faiss Adapter
  unfolding play
  deliver tenant estimated target (first, rest, ending) takes s =
      play tenant estimated target (stream_sse first rest ending takes) s
