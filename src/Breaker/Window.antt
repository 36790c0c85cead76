-- ===== src/Breaker/Window.antt =====
-- circuit_breaker.py: the rolling window against the whole log of outcomes.
use switchyard_llm.Prelude.{
  ℕ, zero, suc, ◌+◌, ◌-◌, ◌*◌, ◌≤◌, ◌≡◌, refl, sym, ◌∙◌, ap, inl, inr, Bool, true, false, List, [],
  ◌∷◌, ◌++◌, length, drop, arith, ltb, Bool-cases, length-append, length-drop,
}
use switchyard_llm.Breaker.{
  closed, opened, half_open, Config, CircuitBreaker, Event, asks, succeeds, fails, fresh,
  append_bounded, allow, record_success, record_failure, count_false, trips, step, run,
}

-- The last `n` entries.
abbrev pub last {ℓ} : {A : Type ℓ} → ℕ → List A → List A
last n h = drop (length h - n) h

drop-append : (k : ℕ) (h ys : List Bool) → k ≤ length h → drop k (h ++ ys) ≡ drop k h ++ ys
drop-append zero h ys p = refl
drop-append (suc k) [] ys p = absurd (omega arith)
drop-append (suc k) (x ∷ h) ys p = drop-append k h ys (omega arith)

drop-one-drop : (k : ℕ) (h : List Bool) → drop 1 (drop k h) ≡ drop (suc k) h
drop-one-drop zero h = refl
drop-one-drop (suc k) [] = refl
drop-one-drop (suc k) (x ∷ h) = drop-one-drop k h

-- A bounded append keeps the last `n` entries of the log.
append_bounded-last :
    (n : ℕ) (h : List Bool) (x : Bool) → append_bounded n (last n h) x ≡ last n (h ++ x ∷ [])
unfolding append_bounded
append_bounded-last n h x = elim (Bool-cases (ltb n (length (drop k h ++ x ∷ [])))) [
  | inl full ↦
      rw (full, append_bounded)
        (ap (drop 1) moved
          ∙ drop-one-drop k (h ++ x ∷ [])
          ∙ ap (λ (j : ℕ). drop j (h ++ x ∷ [])) {x = suc k}
              (ground (arith, size, length-append h (x ∷ []))))
  | inr room ↦
      rw (room, append_bounded)
        (moved
          ∙ ap (λ (j : ℕ). drop j (h ++ x ∷ [])) {x = k}
              (ground (arith, size, length-append h (x ∷ []))))
]
  where
    k : ℕ
    k = length h - n

    moved : drop k h ++ x ∷ [] ≡ drop k (h ++ x ∷ [])
    moved = sym (drop-append k h (x ∷ []) (omega arith))

    size : length (drop k h ++ x ∷ []) ≡ length h - k + 1
    size = omega (arith, length-append (drop k h) (x ∷ []), length-drop k h)

-- The log of the outcomes reported since the breaker last closed, but for the failures reported
-- while it is half-open, which reopen it and are not kept.
unfoldable pub note : CircuitBreaker → Event → List Bool → List Bool
note b (asks now) h = h
note b succeeds h = elim b.state [ half_open ↦ [] | _ ↦ h ++ true ∷ [] ]
note b (fails now) h = elim b.state [ half_open ↦ h | _ ↦ h ++ false ∷ [] ]

unfoldable pub log_of : Config → CircuitBreaker → List Bool → List Event → List Bool
log_of c b h [] = h
log_of c b h (e ∷ es) = log_of c (step c b e) (note b e h) es

step-window :
    (c : Config) (b : CircuitBreaker) (h : List Bool) (e : Event)
    → b.window ≡ last c.window_size h
    → (step c b e).window ≡ last c.window_size (note b e h)
unfolding note allow record_success record_failure
step-window c b h (asks now) p = ground arith
step-window c b h succeeds p = ground (arith, append_bounded-last c.window_size h true)
step-window c b h (fails now) p = ground (arith, append_bounded-last c.window_size h false)

run_window :
    (c : Config) (b : CircuitBreaker) (h : List Bool) (es : List Event)
    → b.window ≡ last c.window_size h
    → (run c b es).window ≡ last c.window_size (log_of c b h es)
unfolding log_of
run_window c b h [] p = p
run_window c b h (e ∷ es) p = run_window c (step c b e) (note b e h) es (step-window c b h e p)

-- After any history of calls of a new breaker the rolling window is exactly the last `window_size`
-- outcomes, in order, of those reported since the breaker last closed, leaving out the failures that
-- were reported while it was half-open.
pub window-run :
    (c : Config) (es : List Event)
    → (run c fresh es).window ≡ last c.window_size (log_of c fresh [] es)
window-run c es = run_window c fresh [] es (ground arith)

-- Failures in a list of outcomes.
abbrev pub failures : List Bool → ℕ
failures [] = 0
failures (true ∷ w) = failures w
failures (false ∷ w) = suc (failures w)

-- Enough calls, and a failure rate that reaches the threshold.
abbrev pub Trips : Config → List Bool → Type 0
Trips c w = (c.min_calls ≤ length w) × (c.threshold_num * length w ≤ c.threshold_den * failures w)

count_false-failures : (w : List Bool) → count_false w ≡ failures w
count_false-failures [] = refl
count_false-failures (true ∷ w) = count_false-failures w
count_false-failures (false ∷ w) = omega (arith, count_false-failures w)

trips-Trips : (c : Config) (w : List Bool) → trips c w ≡ true → Trips c w
trips-Trips c w h =
    let same : c.threshold_den * count_false w ≡ c.threshold_den * failures w =
      ap (λ n. c.threshold_den * n) (count_false-failures w) in
    (ground (arith, h), ground (arith, h, same))

opening_step :
    (c : Config) (b : CircuitBreaker) (h : List Bool) (e : Event)
    → b.window ≡ last c.window_size h
    → b.state ≡ closed
    → (step c b e).state ≡ opened
    → ((now : ℕ) × (e ≡ fails now)) × (trips c (last c.window_size (note b e h)) ≡ true)
unfolding note allow record_success record_failure
opening_step c b h (asks now) p q r = ground arith
opening_step c b h succeeds p q r = ground arith
opening_step c b h (fails now) p q r =
    ((now, refl), ground (arith, append_bounded-last c.window_size h false))

-- A closed breaker opens only at a reported failure, and only if the last `window_size` of the
-- outcomes reported since it last closed, that failure included and failures of its half-open state
-- left out, are at least `min_calls` and the failures among them reach the threshold's share.
pub opens_only_at_rate :
    (c : Config) (es : List Event) (e : Event)
    → (run c fresh es).state ≡ closed
    → (step c (run c fresh es) e).state ≡ opened
    → ((now : ℕ) × (e ≡ fails now))
      × Trips c (last c.window_size (note (run c fresh es) e (log_of c fresh [] es)))
opens_only_at_rate c es e p q =
    let (failed, full) =
      opening_step c (run c fresh es) (log_of c fresh [] es) e (window-run c es) p q in
    (failed, trips-Trips c _ full)
