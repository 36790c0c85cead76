-- ===== src/Gateway/Streams.antt =====
-- main.py: the charge of a stream after it has ended.
use switchyard_llm.Prelude.{
  ℕ, ◌*◌, ◌≡◌, refl, sym, ap, Bool, true, false, List, [], ◌∷◌, ◌++◌, map, Option, none, some,
  arith, if◌then◌else◌, Option-cases, inl, inr,
}
use switchyard_llm.Prelude.Int.{ℤ, pos, ◌+ℤ◌, ◌-ℤ◌, scale}
use switchyard_llm.Schemas.{Json, Fields, Target, ChatCompletionRequest}
use switchyard_llm.Tenancy.{
  Tenant, enabled, resolve as find_tenant, extract_bearer, estimate_tokens,
}
use switchyard_llm.Limiter.{
  Field, Redis, RateLimitResult, check, reconcile, level, request_key, token_key,
}
use switchyard_llm.Limiter.Script.{Holds, keys_differ}
use switchyard_llm.Limiter.Refund.{reconcile-Holds, reconcile_other, check_then_reconcile}
use switchyard_llm.Cache.{Faiss}
use switchyard_llm.Routing.{resolve, ordered}
use switchyard_llm.Streaming.{Chunk, Ending, Frame, Event, sent, closed, finished, unstarted}
use switchyard_llm.Streaming.Frames.{
  all_frames, chunks_of, taken, last_usage, ran_out, stream_sse_lem,
}
use switchyard_llm.Gateway.{
  AppConfig, Outside, State, streaming, Opened, refund_tokens, chat_completions, Metric, ErrorKind,
  recorded,
}
use switchyard_llm.Gateway.Delivery.{
  field_of, fields_of, total_of, settle_stream, record_stream_usage, on_finish, play, deliver,
}
use switchyard_llm.Gateway.Charge.{actual, reconcile_same}
use switchyard_llm.Gateway.Accounting.{request_store}

module _ {redis : Redis} {faiss : Faiss} {Adapter : Type 0} (g : AppConfig redis faiss Adapter)
    (o : Outside redis faiss Adapter) where
  -- The tokens that the end of a stream stands for: none of an incomplete one, and else the total of
  -- its usage, or the estimate if no total is reported. `none` is an exception.
  abbrev pub stream_total : ℤ → Option (Option ℤ) → Option ℤ
  stream_total est none = none
  stream_total est (some none) = some est
  stream_total est (some (some total)) = some total

  -- A reported total: `none` where it is absent, and an exception where the limiter's arithmetic
  -- does not take it for a number.
  abbrev pub read_as_number : Json → Option (Option ℤ)
  read_as_number j = elim (o.number_of j) [ none ↦ none | some z ↦ some (some z) ]

  abbrev pub total_in : Json → Option (Option ℤ)
  total_in Json.null = some none
  total_in (Json.count n) = some (some (pos n))
  total_in (Json.boolean b) = read_as_number (Json.boolean b)
  total_in (Json.number x) = read_as_number (Json.number x)
  total_in (Json.text t) = read_as_number (Json.text t)
  total_in (Json.array xs) = read_as_number (Json.array xs)
  total_in (Json.object fs) = read_as_number (Json.object fs)

  total_of-total_in : (j : Json) → total_of g o j ≡ total_in j
  total_of-total_in Json.null = refl
  total_of-total_in (Json.count n) = refl
  total_of-total_in (Json.boolean b) = refl
  total_of-total_in (Json.number x) = refl
  total_of-total_in (Json.text t) = refl
  total_of-total_in (Json.array xs) = refl
  total_of-total_in (Json.object fs) = refl

  abbrev pub object_total : ℤ → Option Fields → Option ℤ
  object_total est none = none
  object_total est (some fields) = stream_total est (total_in (field_of "total_tokens" fields))

  abbrev pub stream_actual : ℤ → Option Json → Bool → Option ℤ
  stream_actual est usage false = some (pos 0)
  stream_actual est none true = some est
  stream_actual est (some usage) true = object_total est (fields_of usage)

  settled :
      (tenant : Tenant) (est a : ℤ) (usage : Option Json) (completed : Bool)
      (s : State redis faiss Adapter)
      → stream_actual est usage completed ≡ some a
      → (s' : State redis faiss Adapter) × (settle_stream g o (some tenant) est usage completed s
          ≡ some s')
        × (s'.store ≡ reconcile redis g.window tenant a est s.store)
  unfolding settle_stream refund_tokens
  settled tenant est a usage false s e =
      let free : pos 0 ≡ a = ground (arith, e) in
      (refund_tokens g o (some tenant) est s, refl, rw (← free) refl)
  settled tenant est a none true s e =
      let kept : est ≡ a = ground (arith, e) in
      (s, refl, rw (← kept) (sym (reconcile_same g o tenant est s.store)))
  settled tenant est a (some usage) true s e = elim (Option-cases (fields_of usage)) [
    | inl bad ↦ absurd (ground (arith, e, bad))
    | inr (fields, object) ↦ elim (Option-cases (total_of g o (field_of "total_tokens" fields))) [
      | inl bad ↦
          absurd
            (ground (arith, e, object, bad, total_of-total_in (field_of "total_tokens" fields)))
      | inr (total, read) ↦ elim (Option-cases total) [
        | inl absent ↦
            let kept : est ≡ a = ground (
              arith,
              e,
              object,
              read,
              absent,
              total_of-total_in (field_of "total_tokens" fields),
            ) in
            (
              s,
              ground (arith, object, read, absent),
              rw (← kept) (sym (reconcile_same g o tenant est s.store)),
            )
        | inr (t, present) ↦
            let total_is : t ≡ a = ground (
              arith,
              e,
              object,
              read,
              present,
              total_of-total_in (field_of "total_tokens" fields),
            ) in
            (
              record s { store = reconcile redis g.window tenant t est s.store },
              ground (arith, object, read, present),
              rw (← total_is) refl,
            )
      ]
    ]
  ]

  record_stream_usage_store :
      (tenant : Option Tenant) (target : Target) (usage : Option Json) (completed : Bool)
      (s s' : State redis faiss Adapter)
      → record_stream_usage g o tenant target usage completed s ≡ some s'
      → s'.store ≡ s.store
  unfolding record_stream_usage
  record_stream_usage_store tenant target usage false s s' e = ground (arith, e)
  record_stream_usage_store tenant target none true s s' e = ground (arith, e)
  record_stream_usage_store tenant target (some usage) true s s' e = ground (arith, e)

  on_finish_store :
      (tenant : Tenant) (est a : ℤ) (target : Target) (usage : Option Json) (completed : Bool)
      (s : State redis faiss Adapter)
      → stream_actual est usage completed ≡ some a
      → (on_finish g o (some tenant) est target usage completed s).store
        ≡ reconcile redis g.window tenant a est s.store
  unfolding on_finish
  on_finish_store tenant est a target usage completed s e =
      let s1 : State redis faiss Adapter =
        if completed then s else recorded g o (Metric.error_metric ErrorKind.stream_incomplete) s in
      let (s2, runs, store) = settled tenant est a usage completed s1 e in
      elim (Option-cases (record_stream_usage g o (some tenant) target usage completed s2)) [
        | inl bad ↦ ground (arith, runs, store, bad)
        | inr (s3, ok) ↦ ground (
          arith,
          runs,
          store,
          ok,
          record_stream_usage_store (some tenant) target usage completed s2 s3 ok,
        )
      ]

  play_sent :
      (tenant : Option Tenant) (est : ℤ) (target : Target) (frames : List Frame)
      (events : List Event) (s : State redis faiss Adapter)
      → play g o tenant est target (map sent frames ++ events) s
        ≡ play g o tenant est target events s
  unfolding play
  play_sent tenant est target [] events s = refl
  play_sent tenant est target (f ∷ frames) events s = play_sent tenant est target frames events s

  ended :
      (tenant : Tenant) (est a : ℤ) (target : Target) (usage : Option Json) (completed : Bool)
      (s : State redis faiss Adapter)
      → stream_actual est usage completed ≡ some a
      → (play g o (some tenant) est target (closed ∷ finished usage completed ∷ []) s).store
        ≡ reconcile redis g.window tenant a est s.store
  unfolding play
  ended tenant est a target usage completed s e =
      on_finish_store tenant est a target usage completed s e

  -- The usage that `on_finish` is called with.
  abbrev pub reported : List Chunk → Bool → Option Json
  reported chunks over = if over then last_usage chunks else none

  deliver_store :
      (tenant : Tenant) (est a : ℤ) (target : Target) (opened : Opened) (takes : Option ℕ)
      (s : State redis faiss Adapter)
      → unstarted takes ≡ false
      → let (first, rest, ending) = opened in
        let over = ran_out (chunks_of first rest) ending takes in
        stream_actual est (reported (chunks_of first rest) over) over ≡ some a
        → (deliver g o (some tenant) est target opened takes s).store
          ≡ reconcile redis g.window tenant a est s.store
  unfolding deliver
  deliver_store tenant est a target (first, rest, ending) takes s started e =
      let over = ran_out (chunks_of first rest) ending takes in
      rw
        (
          stream_sse_lem first rest ending takes started,
          play_sent (some tenant) est target
              (taken takes (all_frames (chunks_of first rest) ending)),
        )
        (ended tenant est a target (reported (chunks_of first rest) over) over s e)

  -- A request with a tenant's key, for an alias that resolves, whose check admits it with the levels
  -- `rtok` and `ttok` in the buckets, is answered with a stream, of which the client takes a frame.
  -- When the handler returns, one request and the estimated tokens are charged. Other requests may
  -- use the store while the stream runs: in any state that it ends in, the token bucket being there
  -- with the level `held`, and unless `on_finish` raises, the end gives the estimate back to that
  -- bucket and charges what the stream stands for, and leaves the request bucket alone: no tokens if
  -- the stream was broken or the client left before its end, and else the total in the last usage
  -- that the upstream reported, or the estimate if there is none.
  pub stream_bill :
      (request : ChatCompletionRequest) (authorization : Option (List ℕ)) (tenant : Tenant)
      (targets : List Target) (s : State redis faiss Adapter) (rtok ttok a : ℤ)
      (rl : RateLimitResult) (admitted : redis.Store) (first : Option Chunk) (rest : List Chunk)
      (ending : Ending) (target : Target) (takes : Option ℕ) (waiting : State redis faiss Adapter)
      (held : ℤ) (seen : ℕ)
      → enabled g.tenants ≡ true
      → find_tenant g.tenants (extract_bearer authorization) ≡ some tenant
      → resolve
          (record { aliases = g.aliases; signals = s.shared.signals })
          o.uniform
          s.tick
          request.model
        ≡ ordered targets
      → level redis
          (request_key redis g.window tenant)
          o.limiter_now
          (tenant.requests_per_min * g.window)
          tenant.requests_per_min
          s.store
        ≡ some rtok
      → level redis
          (token_key redis g.window tenant)
          o.limiter_now
          (tenant.tokens_per_min * g.window)
          tenant.tokens_per_min
          s.store
        ≡ some ttok
      → check redis g.window tenant o.limiter_now (estimate_tokens o.encoder o.str request) s.store
        ≡ some (rl, admitted)
      → rl.allowed ≡ true
      → (chat_completions g o request authorization s).0 ≡ streaming (first, rest, ending) target
      → unstarted takes ≡ false
      → stream_actual
          (estimate_tokens o.encoder o.str request)
          (reported (chunks_of first rest) (ran_out (chunks_of first rest) ending takes))
          (ran_out (chunks_of first rest) ending takes)
        ≡ some a
      → Holds redis (token_key redis g.window tenant) held seen waiting.store
      → let est = estimate_tokens o.encoder o.str request in
        let returned = (chat_completions g o request authorization s).1.store in
        let v = (deliver g o (some tenant) est target (first, rest, ending) takes waiting).store in
        Holds redis
          (token_key redis g.window tenant)
          (ttok -ℤ scale g.window est)
          o.limiter_now
          returned
        × Holds redis
            (request_key redis g.window tenant)
            (rtok -ℤ pos g.window)
            o.limiter_now
            returned
        × Holds redis (token_key redis g.window tenant) (held +ℤ scale g.window (est -ℤ a)) seen v
        × ((f : Field)
            → redis.hget (request_key redis g.window tenant) f v
              ≡ redis.hget (request_key redis g.window tenant) f waiting.store)
  stream_bill request authorization tenant targets s rtok ttok a rl admitted first rest ending
        target takes waiting held seen on known routed er et ran allowed streams started e there =
      let est = estimate_tokens o.encoder o.str request in
      let charged : actual est (chat_completions g o request authorization s).0 ≡ some est =
        ap (actual est) streams in
      let before =
        request_store g o request authorization tenant targets s est rl admitted on known routed ran
          allowed charged in
      let (tokens, requests) =
        check_then_reconcile redis g.window tenant o.limiter_now est est rtok ttok s.store admitted
          rl er et ran allowed in
      let store = deliver_store tenant est a target (first, rest, ending) takes waiting started e in
      (
        rw (before) tokens,
        rw (before) requests,
        rw (store) (reconcile-Holds redis g.window tenant held a est seen waiting.store there),
        λ f. rw (store) (
            reconcile_other redis g.window tenant (request_key redis g.window tenant) f a est
              waiting.store (keys_differ redis g.window tenant o.limiter_now est)),
      )
