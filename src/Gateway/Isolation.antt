-- ===== src/Gateway/Isolation.antt =====
-- main.py: `_cache_scope` with caches kept apart by tenant.
use switchyard_llm.Prelude.{◌≡◌, ◌≢◌, refl, sym, ap, ◌∙◌, String, true, some}
use switchyard_llm.Schemas.{ChatCompletionRequest}
use switchyard_llm.Tenancy.{Tenant}
use switchyard_llm.Limiter.{Redis}
use switchyard_llm.Cache.{Faiss}
use switchyard_llm.Cache.Keys.{tenant_scope, build_scope_key}
use switchyard_llm.Gateway.{AppConfig, Outside, cache_scope}
use Prim.Native.Char.{code}
use Prim.Native.String.{◌∷◌ as cons, [] as empty, ◌++◌ as append}
use text.Mathlib.TextLemmas.{nil-append, cons-append, head-eq_of_cons-eq, tail-eq_of_cons-eq}

-- No character of the text is the unit separator.
abbrev pub HasNoSeparator : String → Type 0
HasNoSeparator empty = Unit {0}
HasNoSeparator (cons c t) = (code c ≢ 31) × HasNoSeparator t

same_before :
    (a b x y : String)
    → HasNoSeparator a
    → HasNoSeparator b
    → append a (cons "\u{1f}" x) ≡ append b (cons "\u{1f}" y)
    → a ≡ b
same_before empty empty x y p q e = refl
same_before empty (cons d b) x y p q e =
    let heads =
      head-eq_of_cons-eq
        (sym (nil-append (cons "\u{1f}" x)) ∙ e ∙ cons-append d b (cons "\u{1f}" y)) in
    absurd (q.0 (ap code (sym heads)))
same_before (cons c a) empty x y p q e =
    let heads =
      head-eq_of_cons-eq
        (sym (cons-append c a (cons "\u{1f}" x)) ∙ e ∙ nil-append (cons "\u{1f}" y)) in
    absurd (p.0 (ap code heads))
same_before (cons c a) (cons d b) x y p q e =
    let whole = sym (cons-append c a (cons "\u{1f}" x)) ∙ e ∙ cons-append d b (cons "\u{1f}" y) in
    let heads : c ≡ d = head-eq_of_cons-eq whole in
    let tails : a ≡ b = same_before a b x y p.1 q.1 (tail-eq_of_cons-eq whole) in
    λ t. cons (heads t) (tails t)

module _ {redis : Redis} {faiss : Faiss} {Adapter : Type 0} (g : AppConfig redis faiss Adapter)
    (o : Outside redis faiss Adapter) where
  -- With a cache scope for each tenant, requests of two tenants have the same scope only if the
  -- tenants have the same id, whatever the requests are. No id holds the unit separator.
  pub cache_scope-HasNoSeparator :
      (a b : Tenant) (r s : ChatCompletionRequest)
      → g.cache_per_tenant ≡ true
      → HasNoSeparator a.id
      → HasNoSeparator b.id
      → cache_scope g o r (some a) ≡ cache_scope g o s (some b)
      → a.id ≡ b.id
  unfolding cache_scope tenant_scope
  cache_scope-HasNoSeparator a b r s on p q e =
      same_before a.id b.id (build_scope_key o.dumps_scope r) (build_scope_key o.dumps_scope s) p q
        (rw (on, cache_scope) at e)
