-- ===== src/Limiter/Rate.antt =====
-- limiter.py: how many requests a tenant gets in a span of time.
use native.Mathlib.Nat.{suc-mul, le_trans}
use switchyard_llm.Prelude.{
  ℕ, suc, ◌+◌, ◌-◌, ◌*◌, ◌≡◌, ◌≤◌, ◌≢◌, refl, inl, inr, ap, ◌∙◌, List, [], ◌∷◌, Option, none, some,
  arith, Bool-cases, if◌then◌else◌,
}
use switchyard_llm.Prelude.Int.{
  parts_disjoint, ℤ, pos, pos_part, ◌+ℤ◌, ◌-ℤ◌, ◌≤ℤ◌, scale, int_laws, min_ℤ, min_ℤ-le_right,
  le-min_ℤ, -ℤ_parts, +ℤ_parts,
}
use switchyard_llm.Tenancy.{Tenant}
use switchyard_llm.Limiter.{
  Key, level_field, ts_field, Redis, RateLimitResult, elapsed, refilled, level, request_key,
  token_key, check, reconcile,
}
use switchyard_llm.Limiter.Script.{Holds, keys_differ, check_atomic}
use switchyard_llm.Limiter.Refund.{reconcile-Holds, reconcile_other}

-- The calls that the gateway makes for one tenant, with the time of each check.
pub data Call : Type 0 where
  checks : ℕ → ℤ → Call
  reconciles : ℤ → ℤ → Call

elapsed_pos : (now t : ℕ) → elapsed now (pos t) ≡ now - t
unfolding ◌-ℤ◌
elapsed_pos now t = ground arith

module _ (redis : Redis) (window : ℕ) (tenant : Tenant) where
  open redis use {Store, hget}

  abbrev rkey : Key
  rkey = request_key redis window tenant

  abbrev tkey : Key
  tkey = token_key redis window tenant

  -- The number of requests admitted by a sequence of calls, and the state after it.
  abbrev pub serve : List Call → Store → Option (ℕ × Store)
  serve [] s = some (0, s)
  serve (checks now est ∷ calls) s = elim (check redis window tenant now est s) [
    | none ↦ none
    | some (result, s') ↦ elim (serve calls s') [
      | none ↦ none
      | some (n, v) ↦ some ((if result.allowed then suc n else n), v)
    ]
  ]
  serve (reconciles actual est ∷ calls) s = serve calls (reconcile redis window tenant actual est s)

  -- The checks come in order of time, from `t` to `end`.
  abbrev pub Ordered : ℕ → ℕ → List Call → Type 0
  Ordered t end [] = t ≤ end
  Ordered t end (checks now est ∷ calls) = (t ≤ now) × Ordered now end calls
  Ordered t end (reconciles actual est ∷ calls) = Ordered t end calls

  pub level-Holds :
      (k : Key) (amount : ℤ) (t now cap rate : ℕ) (s : Store)
      → Holds redis k amount t s
      → level redis k now cap rate s ≡ some (min_ℤ (pos cap) (amount +ℤ pos ((now - t) * rate)))
  unfolding level refilled
  level-Holds k amount t now cap rate s h =
      rw (h.amount_is, level) (rw (h.time_is, level) (rw (elapsed_pos now t) refl))

  rtok_nonneg :
      (amount : ℤ) (cap k : ℕ) → pos 0 ≤ℤ amount → pos 0 ≤ℤ min_ℤ (pos cap) (amount +ℤ pos k)
  rtok_nonneg amount cap k h =
      le-min_ℤ (pos cap) (amount +ℤ pos k) (pos 0) (omega arith) (omega int_laws)

  -- One check, with the arithmetic of the budget: `n` requests admitted later fit what is left then.
  budget_step :
      (amount rtok : ℤ) (t now end n : ℕ)
      → t ≤ now
      → now ≤ end
      → rtok
        ≡ min_ℤ
            (pos (tenant.requests_per_min * window))
            (amount +ℤ pos ((now - t) * tenant.requests_per_min))
      → pos 0 ≤ℤ amount
      → n * window ≤ pos_part rtok + tenant.requests_per_min * (end - now)
      → n * window ≤ pos_part amount + tenant.requests_per_min * (end - t)
  budget_step amount rtok t now end n p q e nonneg h =
      let span : (now - t) + (end - now) ≡ end - t = omega arith in
      let low : rtok ≤ℤ amount +ℤ pos ((now - t) * tenant.requests_per_min) =
        rw e (min_ℤ-le_right _ _) in
      let positive : pos 0 ≤ℤ rtok = rw e (rtok_nonneg amount _ _ nonneg) in
      omega (
        arith,
        h,
        low,
        +ℤ_parts amount (pos ((now - t) * tenant.requests_per_min)),
        ap (λ (x : ℕ). tenant.requests_per_min * x) span,
        parts_disjoint rtok,
        positive,
      )

  Ordered-le : (t end : ℕ) (calls : List Call) → Ordered t end calls → t ≤ end
  Ordered-le t end [] h = h
  Ordered-le t end (checks now est ∷ calls) (p, h) = le_trans p (Ordered-le now end calls h)
  Ordered-le t end (reconciles actual est ∷ calls) h = Ordered-le t end calls h

  serve-check :
      (now : ℕ) (est : ℤ) (calls : List Call) (s s' v : Store) (result : RateLimitResult) (n : ℕ)
      → check redis window tenant now est s ≡ some (result, s')
      → serve calls s' ≡ some (n, v)
      → serve (checks now est ∷ calls) s ≡ some ((if result.allowed then suc n else n), v)
  serve-check now est calls s s' v result n e run = rw (e, serve) (rw (run, serve) refl)

  charge_step :
      (rtok : ℤ) (n rest : ℕ)
      → pos window ≤ℤ rtok
      → n * window ≤ pos_part (rtok -ℤ pos window) + rest
      → suc n * window ≤ pos_part rtok + rest
  charge_step rtok n rest fits h =
      omega
        (arith, -ℤ_parts rtok (pos window), parts_disjoint (rtok -ℤ pos window), suc-mul n window)

  -- Suppose both buckets of a tenant exist, the request bucket with a level of at least 0 at the
  -- time `t`, and calls of `check`, in order of time up to `end`, and of `reconcile` follow with no
  -- expiry between. Then no script errors, and the requests admitted, each `window` units, are at
  -- most the units that the bucket had and those that the rate gives from `t` to `end`, whatever the
  -- estimates and corrections of the token bucket are.
  pub admitted_bounded :
      (calls : List Call) (s : Store) (amount tok : ℤ) (t u end : ℕ)
      → Holds redis (request_key redis window tenant) amount t s
      → Holds redis (token_key redis window tenant) tok u s
      → pos 0 ≤ℤ amount
      → Ordered t end calls
      → (n : ℕ) × (v : Store) × (serve calls s ≡ some (n, v))
        × (n * window ≤ pos_part amount + tenant.requests_per_min * (end - t))
  admitted_bounded [] s amount tok t u end hr ht pos_amount le = (0, s, refl, omega arith)
  admitted_bounded (reconciles actual est ∷ calls) s amount tok t u end hr ht pos_amount le =
      admitted_bounded calls (reconcile redis window tenant actual est s) amount
        (tok +ℤ scale window (est -ℤ actual)) t u end
        (record {
          amount_is =
              reconcile_other redis window tenant _ level_field actual est s differ ∙ hr.amount_is;
          time_is = reconcile_other redis window tenant _ ts_field actual est s differ ∙ hr.time_is;
        })
        (reconcile-Holds redis window tenant tok actual est u s ht) pos_amount le
    where
      differ : rkey ≢ tkey
      differ = keys_differ redis window tenant 0 est
  admitted_bounded (checks now est ∷ calls) s amount tok t u end hr ht pos_amount (le, later) =
      let rtok =
        min_ℤ (pos (tenant.requests_per_min * window))
          (amount +ℤ pos ((now - t) * tenant.requests_per_min)) in
      let (result, s', e, allowed, hr', ht') =
        check_atomic redis window tenant now est s rtok _ (level-Holds rkey amount t now _ _ s hr)
          (level-Holds tkey tok u now _ _ s ht) in
      let low : pos 0 ≤ℤ rtok = rtok_nonneg amount _ _ pos_amount in
      let end_later = Ordered-le now end calls later in
      elim (Bool-cases result.allowed) [
        | inl granted ↦
            let fits = (allowed.0 granted).0 in
            let (n, v, run, bound) =
              admitted_bounded calls s' (rtok -ℤ pos window) _ now now end (rw granted at hr') ht'
                (omega (arith, fits, -ℤ_parts rtok (pos window))) later in
            (
              suc n,
              v,
              rw granted at (serve-check now est calls s s' v result n e run),
              budget_step amount rtok t now end (suc n) le end_later refl pos_amount
                  (charge_step rtok n _ fits bound),
            )
        | inr refused ↦
            let (n, v, run, bound) =
              admitted_bounded calls s' rtok _ now now end (rw refused at hr') ht' low later in
            (
              n,
              v,
              rw refused at (serve-check now est calls s s' v result n e run),
              budget_step amount rtok t now end n le end_later refl pos_amount bound,
            )
      ]
