-- ===== src/Breaker/Registry.antt =====
-- circuit_breaker.py: `BreakerRegistry`, one breaker for each provider. The breakers are objects
-- that the registry alone holds: a method call on one is a write under its name.
use switchyard_llm.Prelude.{
  ◌≡◌, refl, String, [], ◌∷◌, none, some, arith, Dict, lookup, insert, lookup-insert, string_eq,
  if◌then◌else◌,
}
use switchyard_llm.Breaker.{CircuitState, closed, opened, half_open, CircuitBreaker, fresh}

abbrev pub Breakers : Type 0
Breakers = Dict String CircuitBreaker

-- `get`: a breaker is made at the first request for it.
unfoldable pub get : String → Breakers → Breakers × CircuitBreaker
get name m = elim (lookup name m) [ none ↦ (insert name fresh m, fresh) | some b ↦ (m, b) ]

-- The breaker under a name, as `get` returns it.
abbrev pub breaker_of : String → Breakers → CircuitBreaker
breaker_of name m = (get name m).1

-- A method call on the object that `get` returned.
unfoldable pub put : String → CircuitBreaker → Breakers → Breakers
put name b m = insert name b m

-- `state.value`
unfoldable pub state_value : CircuitState → String
state_value closed = "closed"
state_value opened = "open"
state_value half_open = "half_open"

unfoldable pub snapshot : Breakers → Dict String String
snapshot [] = []
snapshot ((name, b) ∷ m) = (name, state_value b.state) ∷ snapshot m

-- Asking for a breaker does not change what any name's breaker is.
pub breaker_of-get : (n m : String) (r : Breakers) → breaker_of m (get n r).0 ≡ breaker_of m r
unfolding get
breaker_of-get n m r = ground (arith, lookup-insert n m fresh r, string_eq.beq_iff n m)

-- A call on one provider's breaker is seen by a later `get` of that provider, and no other
-- provider's breaker changes.
pub breaker_of-put :
    (n m : String) (b : CircuitBreaker) (r : Breakers)
    → breaker_of m (put n b r) ≡ (if string_eq.beq n m then b else breaker_of m r)
unfolding get put
breaker_of-put n m b r = ground (arith, lookup-insert n m b r)

-- The snapshot shows, for every name, the state of the breaker that the registry holds under it,
-- and nothing for a name that it holds no breaker for.
pub lookup-snapshot :
    (n : String) (r : Breakers)
    → lookup n (snapshot r)
      ≡ elim (lookup n r) [ none ↦ none | some b ↦ some (state_value b.state) ]
unfolding snapshot lookup
lookup-snapshot n [] = refl
lookup-snapshot n ((j, b) ∷ r) = ground (arith, lookup-snapshot n r)
