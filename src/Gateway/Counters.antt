-- ===== src/Gateway/Counters.antt =====
-- main.py with observability/metrics.py: the request counters after a request.
use switchyard_llm.Prelude.{
  ℕ, ◌+◌, ◌≡◌, refl, sym, ap, subst, String, string_eq, Bool, true, false, Option, none, some, List,
  [], ◌∷◌, ◌++◌, arith, if◌then◌else◌, lookup, inl, inr, Option-cases, Bool-cases,
}
use switchyard_llm.Schemas.{ChatCompletionRequest}
use switchyard_llm.Tenancy.{Tenant, enabled, resolve as find_tenant, extract_bearer}
use switchyard_llm.Limiter.{Redis}
use switchyard_llm.Cache.{Faiss}
use switchyard_llm.Metrics.{Series, labels_beq, stream_label, Collector, requests}
use switchyard_llm.Metrics.Sums.{share, shares, apply_all, value-apply_all}
use switchyard_llm.Routing.{Router, Resolved, resolve}
use switchyard_llm.Gateway.{
  AppConfig, Outside, State, Metric, Reply, Outcome, success, throttled, error, route,
  chat_completions, ErrorKind, invalid_api_key, invalid_request_error, rate_limit_exceeded,
  all_targets_failed, stream_incomplete, upstream,
}
use switchyard_llm.Gateway.Refusals.{is_crash}
use switchyard_llm.Gateway.Attempts.{is_request, requests_of, refused_attempt, attempt_of}
use switchyard_llm.Gateway.Requests.{chat_completions-Attempted}
use switchyard_llm.Gateway.Calls.{call, calls}

abbrev pub flag : Bool → String
flag true = "true"
flag false = "false"

flag_lem : (b : Bool) → stream_label b ≡ flag b
unfolding stream_label
flag_lem true = refl
flag_lem false = refl

abbrev pub requests_counter : List String → Series
requests_counter labels = record { name = "switchyard_requests"; labels = labels }

-- The labels of what a reply stands for: alias, provider, outcome and whether it streams.
abbrev pub refusal_labels : ChatCompletionRequest → ErrorKind → Option (List String)
refusal_labels q invalid_api_key = none
refusal_labels q invalid_request_error = none
refusal_labels q rate_limit_exceeded = some (q.model ∷ "none" ∷ "throttled" ∷ flag q.stream ∷ [])
refusal_labels q _ = some (q.model ∷ "none" ∷ "error" ∷ flag q.stream ∷ [])

abbrev pub labels_of : ChatCompletionRequest → Reply → Option (List String)
labels_of q (Reply.error_reply status kind retry) = refusal_labels q kind
labels_of q (Reply.forwarded status body) = some (q.model ∷ "none" ∷ "error" ∷ flag q.stream ∷ [])
labels_of q (Reply.from_cache response) = some (q.model ∷ "cache" ∷ "success" ∷ "false" ∷ [])
labels_of q (Reply.answered response target) =
    some (q.model ∷ target.provider ∷ "success" ∷ "false" ∷ [])
labels_of q (Reply.streaming opened target) =
    some (q.model ∷ target.provider ∷ "success" ∷ "true" ∷ [])
labels_of q Reply.crashed = none

abbrev pub one_if : Option (List String) → List String → ℕ
one_if none labels = 0
one_if (some l) labels = if labels_beq l labels then 1 else 0

module _ (digits : ℕ → String) where
  -- What recorded metrics add to a counter.
  abbrev pub added : Series → List Metric → ℕ
  added b ms = shares b (calls digits ms)

  added-append : (b : Series) (ms ns : List Metric) → added b (ms ++ ns) ≡ added b ms + added b ns
  added-append b [] ns = omega arith
  added-append b (m ∷ ms) ns = omega (arith, added-append b ms ns)

  no_request :
      (labels : List String) (m : Metric)
      → is_request m ≡ false
      → share (requests_counter labels) (call digits m) ≡ 0
  no_request labels (Metric.error_metric kind) e = refl
  no_request labels (Metric.cache_metric status) e = refl
  no_request labels (Metric.request_metric a p o s) e = absurd (ground (arith, e))
  no_request labels (Metric.latency_metric p s took) e = refl
  no_request labels (Metric.usage_metric t p n k price) e = refl

  -- Only the recorded requests count in it.
  added-requests_of :
      (labels : List String) (ms : List Metric)
      → added (requests_counter labels) ms ≡ added (requests_counter labels) (requests_of ms)
  added-requests_of labels [] = refl
  added-requests_of labels (m ∷ ms) = elim (Bool-cases (is_request m)) [
    | inl counted ↦ ground (arith, counted, added-requests_of labels ms)
    | inr other ↦ ground (arith, other, no_request labels m other, added-requests_of labels ms)
  ]

  refused_added :
      (q : ChatCompletionRequest) (labels : List String) (kind : ErrorKind)
      → added (requests_counter labels) (refused_attempt q kind)
        ≡ one_if (refusal_labels q kind) labels
  unfolding stream_label
  refused_added q labels invalid_api_key = refl
  refused_added q labels invalid_request_error = refl
  refused_added q labels rate_limit_exceeded = rw (flag_lem q.stream) (omega arith)
  refused_added q labels all_targets_failed = rw (flag_lem q.stream) (omega arith)
  refused_added q labels stream_incomplete = rw (flag_lem q.stream) (omega arith)
  refused_added q labels (upstream status) = rw (flag_lem q.stream) (omega arith)

  attempt_added :
      (q : ChatCompletionRequest) (labels : List String) (reply : Reply)
      → added (requests_counter labels) (attempt_of q reply) ≡ one_if (labels_of q reply) labels
  unfolding stream_label
  attempt_added q labels (Reply.error_reply status kind retry) = refused_added q labels kind
  attempt_added q labels (Reply.forwarded status body) = rw (flag_lem q.stream) (omega arith)
  attempt_added q labels (Reply.from_cache response) = omega arith
  attempt_added q labels (Reply.answered response target) = omega arith
  attempt_added q labels (Reply.streaming opened target) = omega arith
  attempt_added q labels Reply.crashed = refl

  module _ (alias provider outcome : String) (stream : Bool) where
    abbrev counter : Series
    counter = requests alias provider outcome stream

    -- A request for another alias adds nothing to it.
    other_alias :
        (q : ChatCompletionRequest) (p : Option String) (o : Outcome) (s : Bool)
        → string_eq.beq q.model alias ≡ false
        → added counter (Metric.request_metric q.model p o s ∷ []) ≡ 0
    other_alias q p o s e = rw (e) refl

    refused_elsewhere :
        (q : ChatCompletionRequest) (kind : ErrorKind)
        → string_eq.beq q.model alias ≡ false
        → added counter (refused_attempt q kind) ≡ 0
    refused_elsewhere q invalid_api_key e = refl
    refused_elsewhere q invalid_request_error e = refl
    refused_elsewhere q rate_limit_exceeded e = other_alias q none throttled q.stream e
    refused_elsewhere q all_targets_failed e = other_alias q none error q.stream e
    refused_elsewhere q stream_incomplete e = other_alias q none error q.stream e
    refused_elsewhere q (upstream status) e = other_alias q none error q.stream e

    attempt_elsewhere :
        (q : ChatCompletionRequest) (reply : Reply)
        → string_eq.beq q.model alias ≡ false
        → added counter (attempt_of q reply) ≡ 0
    attempt_elsewhere q (Reply.error_reply status kind retry) e = refused_elsewhere q kind e
    attempt_elsewhere q (Reply.forwarded status body) e = other_alias q none error q.stream e
    attempt_elsewhere q (Reply.from_cache response) e = other_alias q none success false e
    attempt_elsewhere q (Reply.answered response target) e =
        other_alias q (some target.provider) success false e
    attempt_elsewhere q (Reply.streaming opened target) e =
        other_alias q (some target.provider) success true e
    attempt_elsewhere q Reply.crashed e = refl

  module _ {redis : Redis} {faiss : Faiss} {Adapter : Type 0} (g : AppConfig redis faiss Adapter)
      (o : Outside redis faiss Adapter) (request : ChatCompletionRequest)
      (authorization : Option (List ℕ)) (s : State redis faiss Adapter) where
    -- Once a request that does not raise has been served, the counter of requests with given labels
    -- has grown by 1 if they are those of what the reply stands for, and by 0 otherwise. The labels
    -- are the requested alias, the provider that answers, streams or `cache` or `none`, the outcome
    -- and whether it streams: `throttled` for a 429, `success` for an answer, a stream or a hit of the
    -- cache, and `error` for every other reply; a 401 and a 400 stand for nothing.
    pub request_counted :
        (c : Collector) (st : c.State) (labels : List String)
        → is_crash (chat_completions g o request authorization s).0 ≡ false
        → c.value
            (apply_all c (calls digits (chat_completions g o request authorization s).1.metrics) st)
            (requests_counter labels)
          ≡ c.value (apply_all c (calls digits s.metrics) st) (requests_counter labels)
            + one_if (labels_of request (chat_completions g o request authorization s).0) labels
    request_counted c st labels ran =
        let b = requests_counter labels in
        let r = chat_completions g o request authorization s in
        omega (
          arith,
          value-apply_all c (calls digits r.1.metrics) b st,
          value-apply_all c (calls digits s.metrics) b st,
          added-requests_of labels r.1.metrics,
          added-requests_of labels s.metrics,
          ap (added b) (chat_completions-Attempted g o request authorization s ran),
          added-append b (requests_of s.metrics) (attempt_of request r.0),
          attempt_added request labels r.0,
        )

    unlisted_route :
        (tenant : Option Tenant)
        → lookup request.model g.aliases ≡ none
        → attempt_of request (route g o request tenant s).0 ≡ []
    unfolding route resolve
    unlisted_route tenant gone =
        let router : Router = record { aliases = g.aliases; signals = s.shared.signals } in
        let unknown : resolve router o.uniform s.tick request.model ≡ Resolved.key_error =
          rw (gone, resolve) refl in
        rw (unknown, route) refl

    unlisted_reply :
        lookup request.model g.aliases ≡ none
        → attempt_of request (chat_completions g o request authorization s).0 ≡ []
    unfolding chat_completions
    unlisted_reply gone = elim (Bool-cases (enabled g.tenants)) [
      | inr off ↦ rw (off, chat_completions) (unlisted_route none gone)
      | inl on ↦ elim (Option-cases (find_tenant g.tenants (extract_bearer authorization))) [
        | inl keyless ↦ rw (on, keyless, chat_completions) refl
        | inr (tenant, known) ↦ rw (on, known, chat_completions) (unlisted_route (some tenant) gone)
      ]
    ]

    -- No request that does not raise changes a request counter whose alias is not configured.
    pub unlisted_uncounted :
        (c : Collector) (st : c.State) (alias provider outcome : String) (stream : Bool)
        → is_crash (chat_completions g o request authorization s).0 ≡ false
        → lookup alias g.aliases ≡ none
        → c.value
            (apply_all c (calls digits (chat_completions g o request authorization s).1.metrics) st)
            (requests alias provider outcome stream)
          ≡ c.value
              (apply_all c (calls digits s.metrics) st)
              (requests alias provider outcome stream)
    unlisted_uncounted c st alias provider outcome stream ran gone =
        let b = requests alias provider outcome stream in
        let reply = (chat_completions g o request authorization s).0 in
        let nothing : added b (attempt_of request reply) ≡ 0 =
          elim (Bool-cases (string_eq.beq request.model alias)) [
            | inl same ↦ ap (added b) (
                unlisted_reply (
                  subst (λ t. lookup t g.aliases ≡ none)
                    (sym ((string_eq.beq_iff request.model alias).0 same)) gone))
            | inr other ↦ attempt_elsewhere alias provider outcome stream request reply other
          ] in
        let labels = alias ∷ provider ∷ outcome ∷ stream_label stream ∷ [] in
        omega (arith, request_counted c st labels ran, attempt_added request labels reply, nothing)
