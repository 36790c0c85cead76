-- ===== src/Limiter/Waiting.antt =====
-- limiter.py: what the `retry_after` of a refusal is good for.
use mathlib.Core.Path.{subst₂}
use switchyard_llm.Limiter.Refund.{some_eq}
use switchyard_llm.Prelude.{
  subst, ℕ, ◌-◌, ◌*◌, ◌≡◌, ◌≤◌, ◌<◌, inl, inr, ap, ◌∙◌, sym, true, false, some, arith, Option-cases,
}
use switchyard_llm.Prelude.Int.{
  ℤ, pos, pos_part, ◌+ℤ◌, ◌-ℤ◌, ◌≤ℤ◌, scale, int_laws, min_ℤ, min_ℤ-le_left, le-min_ℤ,
  parts_disjoint,
}
use switchyard_llm.Tenancy.{Tenant}
use switchyard_llm.Limiter.{
  elapsed, Key, Redis, Args, RateLimitResult, by_requests, reply, refilled, level_field, ts_field,
  level, charged, request_key, token_key, check_args, check,
}
use switchyard_llm.Limiter.Script.{Holds, check-reply, check_atomic}
use switchyard_llm.Limiter.Rate.{level-Holds}

-- What a refusal for the request bucket says.
refused_by_requests :
    (a : Args) (rtok ttok : ℤ)
    → (reply a rtok ttok).blocked_dimension ≡ by_requests
    → ((reply a rtok ttok).allowed ≡ false)
      × (a.tcost ≤ℤ ttok)
      × (0 < a.rrate → pos_part (a.rcost -ℤ rtok) ≡ (reply a rtok ttok).retry_after.num)
      × (0 < a.rrate → a.rrate ≡ (reply a rtok ttok).retry_after.den)
unfolding reply
refused_by_requests a rtok ttok h =
    (ground arith, ground arith, λ p. ground arith, λ p. ground arith)

-- A bucket's level is never above its capacity.
level_le_cap :
    (redis : Redis) (k : Key) (now cap rate : ℕ) (s : redis.Store) (x : ℤ)
    → level redis k now cap rate s ≡ some x
    → x ≤ℤ pos cap
unfolding level refilled
level_le_cap redis k now cap rate s x h = elim (Option-cases (redis.hget k level_field s)) [
  | inl new ↦
      ground (arith, min_ℤ-le_left (pos cap) (pos cap +ℤ pos (elapsed now (pos now) * rate)))
  | inr (amount, e) ↦ elim (Option-cases (redis.hget k ts_field s)) [
    | inl broken ↦ ground arith
    | inr (ts, f) ↦ ground (arith, min_ℤ-le_left (pos cap) (amount +ℤ pos (elapsed now ts * rate)))
  ]
]

-- Enough time for a level that lacks `cost - level`.
waited_level :
    (level cost cap : ℤ) (gain : ℕ)
    → cost ≤ℤ cap
    → pos_part (cost -ℤ level) ≤ gain
    → cost ≤ℤ min_ℤ cap (level +ℤ pos gain)
waited_level level cost cap gain fits enough =
    le-min_ℤ cap (level +ℤ pos gain) cost fits
      (omega (int_laws, enough, parts_disjoint (cost -ℤ level)))

module _ (redis : Redis) (window : ℕ) (tenant : Tenant) (now later : ℕ) (est : ℤ) where
  open redis use {Store}

  abbrev a : Args
  a = check_args redis window tenant now est

  abbrev rkey : Key
  rkey = request_key redis window tenant

  abbrev tkey : Key
  tkey = token_key redis window tenant

  after_refusal :
      (s' : Store) (rtok ttok : ℤ)
      → (reply a rtok ttok).blocked_dimension ≡ by_requests
      → Holds redis rkey (charged redis (reply a rtok ttok).allowed rtok (pos window)) now s'
      → Holds redis tkey (charged redis (reply a rtok ttok).allowed ttok (scale window est)) now s'
      → ttok ≤ℤ pos (tenant.tokens_per_min * window)
      → 0 < tenant.requests_per_min
      → (reply a rtok ttok).retry_after.num ≤ (later - now) * (reply a rtok ttok).retry_after.den
      → (again : RateLimitResult) × (v : Store) × (check redis window tenant later est s'
          ≡ some (again, v))
        × (again.allowed ≡ true)
  after_refusal s' rtok ttok blocked hr ht full rate waited =
      let (refused, tokens_fit, num, den) = refused_by_requests a rtok ttok blocked in
      let enough : pos_part (pos window -ℤ rtok) ≤ (later - now) * tenant.requests_per_min =
        subst₂ (λ (x y : ℕ). x ≤ (later - now) * y) (sym (num rate)) (sym (den rate)) waited in
      let one : pos window ≤ℤ pos (tenant.requests_per_min * window) = grind arith in
      let ready =
        waited_level rtok (pos window) (pos (tenant.requests_per_min * window))
          ((later - now) * tenant.requests_per_min) one enough in
      let still =
        waited_level ttok (scale window est) (pos (tenant.tokens_per_min * window))
          ((later - now) * tenant.tokens_per_min) (omega (arith, tokens_fit, full))
          (omega (int_laws, tokens_fit, parts_disjoint (scale window est -ℤ ttok))) in
      let (again, v, e, allowed, _, _) =
        check_atomic redis window tenant later est s' _ _
          (level-Holds redis window tenant rkey rtok now later _ _ s' (rw refused at hr))
          (level-Holds redis window tenant tkey ttok now later _ _ s' (rw refused at ht)) in
      (again, v, e, allowed.1 (ready, still))

  -- A refusal for the request bucket names a wait that suffices: if the same request comes again
  -- after that time or more, with no other call of the tenant between, it is admitted.
  pub retry_after_suffices :
      (s s' : Store) (rtok ttok : ℤ) (result : RateLimitResult)
      → level redis
          (request_key redis window tenant)
          now
          (tenant.requests_per_min * window)
          tenant.requests_per_min
          s
        ≡ some rtok
      → level redis
          (token_key redis window tenant)
          now
          (tenant.tokens_per_min * window)
          tenant.tokens_per_min
          s
        ≡ some ttok
      → check redis window tenant now est s ≡ some (result, s')
      → result.blocked_dimension ≡ by_requests
      → 0 < tenant.requests_per_min
      → result.retry_after.num ≤ (later - now) * result.retry_after.den
      → (again : RateLimitResult) × (v : Store) × (check redis window tenant later est s'
          ≡ some (again, v))
        × (again.allowed ≡ true)
  retry_after_suffices s s' rtok ttok result er et ran blocked rate waited =
      let (t, e, hr, ht) = check-reply redis window tenant now est s rtok ttok er et in
      let same : ◌≡◌ {A = RateLimitResult × Store} (reply a rtok ttok, t) (result, s') =
        some_eq _ _ (sym e ∙ ran) in
      let result_is : reply a rtok ttok ≡ result = ap (λ (x : RateLimitResult × Store). x.0) same in
      subst
        (λ (x : RateLimitResult × Store).
          (again : RateLimitResult) × (v : Store) × (check redis window tenant later est x.1
            ≡ some (again, v))
          × (again.allowed ≡ true))
        same
        (after_refusal t rtok ttok (rw result_is blocked) hr ht
          (level_le_cap redis tkey now _ _ s ttok et) rate (rw result_is waited))
