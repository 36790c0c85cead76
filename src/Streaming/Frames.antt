-- ===== src/Streaming/Frames.antt =====
-- sse.py: the frames that reach the client, and the one call of `on_finish`.
use switchyard_llm.Prelude.{
  ℕ, zero, suc, ◌-◌, ◌+◌, ◌≡◌, refl, sym, ap, ◌∙◌, subst, Bool, true, false, List, [], ◌∷◌, ◌++◌,
  map, Option, none, some, lookup, string_eq, Option-cases, length, take, ltb, if◌then◌else◌, arith,
  Bool-cases, inl, inr,
}
use switchyard_llm.Schemas.{Json}
use switchyard_llm.Streaming.{
  Chunk, truthy, tap, Ending, exhausted, broken, Frame, data_frame, done_frame, sent, closed,
  finished, Stream, yield_frame, send_chunk, forward, body, fresh_stream, conclude, stream_sse,
  unstarted,
}

-- The frames of a stream that is read to its end.
abbrev pub all_frames : List Chunk → Ending → List Frame
all_frames [] exhausted = done_frame ∷ []
all_frames [] broken = []
all_frames (c ∷ cs) ending = data_frame c ∷ all_frames cs ending

abbrev pub taken {ℓ} : {A : Type ℓ} → Option ℕ → List A → List A
taken none xs = xs
taken (some n) xs = take n xs

-- The usage that a chunk reports: a value that is not falsy.
abbrev pub usage_in : Chunk → Option Json
usage_in c = elim (lookup "usage" c) [ none ↦ none | some u ↦ if truthy u then some u else none ]

abbrev pub or_older : Option Json → Option Json → Option Json
or_older (some u) v = some u
or_older none v = v

-- The usage of the last chunk that reports one.
abbrev pub last_usage : List Chunk → Option Json
last_usage [] = none
last_usage (c ∷ cs) = or_older (last_usage cs) (usage_in c)

-- What the stream has kept after some chunks.
abbrev tapped : List Chunk → Option Json → Option Json
tapped [] u = u
tapped (c ∷ cs) u = tapped cs (tap c u)

tap_older : (c : Chunk) (u : Option Json) → tap c u ≡ or_older (usage_in c) u
unfolding tap
tap_older c u = elim (Option-cases (lookup "usage" c)) [
  | inl absent ↦ ground (arith, absent)
  | inr (v, there) ↦ elim (Bool-cases (truthy v)) [
    | inl real ↦ ground (arith, there, real)
    | inr falsy ↦ ground (arith, there, falsy)
  ]
]

older_assoc : (x y z : Option Json) → or_older x (or_older y z) ≡ or_older (or_older x y) z
older_assoc (some u) y z = refl
older_assoc none y z = refl

tapped-older : (cs : List Chunk) (u : Option Json) → tapped cs u ≡ or_older (last_usage cs) u
tapped-older [] u = refl
tapped-older (c ∷ cs) u =
    tapped-older cs (tap c u)
    ∙ ap (or_older (last_usage cs)) (tap_older c u)
    ∙ older_assoc (last_usage cs) (usage_in c) u

pub older_none : (x : Option Json) → or_older x none ≡ x
older_none none = refl
older_none (some u) = refl

tapped_lem : (cs : List Chunk) → tapped cs none ≡ last_usage cs
tapped_lem cs = tapped-older cs none ∙ older_none (last_usage cs)

-- The upstream came to its end, and the client was still there after the last frame.
abbrev pub ran_out : List Chunk → Ending → Option ℕ → Bool
ran_out chunks broken takes = false
ran_out chunks exhausted none = true
ran_out chunks exhausted (some n) = ltb (length chunks + 1) n

abbrev pub chunks_of : Option Chunk → List Chunk → List Chunk
chunks_of none rest = rest
chunks_of (some first) rest = first ∷ rest

pub record Forwarded (chunks : List Chunk) (ending : Ending) (s s' : Stream) : Type 0 where
  pub frames : s'.frames ≡ s.frames ++ taken s.takes (all_frames chunks ending)
  pub completed : s'.completed ≡ ran_out chunks ending s.takes
  pub usage : s'.completed ≡ true → s'.usage ≡ tapped chunks s.usage

append_assoc {ℓ} : {A : Type ℓ} (xs ys zs : List A) → (xs ++ ys) ++ zs ≡ xs ++ (ys ++ zs)
append_assoc [] ys zs = refl
append_assoc (x ∷ xs) ys zs = ap (λ l. x ∷ l) (append_assoc xs ys zs)

append_nil {ℓ} : {A : Type ℓ} (xs : List A) → xs ++ [] ≡ xs
append_nil [] = refl
append_nil (x ∷ xs) = ap (λ l. x ∷ l) (append_nil xs)

abbrev running : Option Json → List Frame → Option ℕ → Stream
running usage frames takes = record {
  usage = usage;
  completed = false;
  frames = frames;
  takes = takes;
}

longer_none :
    (c : Chunk) (cs : List Chunk) (ending : Ending)
    → ran_out cs ending none ≡ ran_out (c ∷ cs) ending none
longer_none c cs broken = refl
longer_none c cs exhausted = refl

longer_one :
    (c : Chunk) (cs : List Chunk) (ending : Ending) → ran_out (c ∷ cs) ending (some 1) ≡ false
longer_one c cs broken = refl
longer_one c cs exhausted = ground arith

longer_some :
    (c : Chunk) (cs : List Chunk) (ending : Ending) (n : ℕ)
    → ran_out cs ending (some n) ≡ ran_out (c ∷ cs) ending (some (suc n))
longer_some c cs broken n = refl
longer_some c cs exhausted n = ground arith

more : (n : ℕ) → ltb 1 (suc (suc n)) ≡ true
more n = ground arith

less : (n : ℕ) → suc (suc n) - 1 ≡ suc n
less n = omega arith

forward-Forwarded :
    (chunks : List Chunk) (ending : Ending) (usage : Option Json) (frames : List Frame)
    (takes : Option ℕ)
    → unstarted takes ≡ false
    → Forwarded chunks ending
        (running usage frames takes)
        (forward chunks ending (running usage frames takes))
unfolding forward yield_frame send_chunk
forward-Forwarded [] broken usage frames none h = record {
  frames = sym (append_nil frames);
  completed = refl;
  usage = λ p. absurd (ground (arith, p));
}
forward-Forwarded [] broken usage frames (some zero) h = absurd (ground (arith, h))
forward-Forwarded [] broken usage frames (some (suc n)) h = record {
  frames = sym (append_nil frames);
  completed = refl;
  usage = λ p. absurd (ground (arith, p));
}
forward-Forwarded [] exhausted usage frames none h = record {
  frames = refl;
  completed = refl;
  usage = λ p. refl;
}
forward-Forwarded [] exhausted usage frames (some zero) h = absurd (ground (arith, h))
forward-Forwarded [] exhausted usage frames (some (suc zero)) h = record {
  frames = refl;
  completed = refl;
  usage = λ p. refl;
}
forward-Forwarded [] exhausted usage frames (some (suc (suc n))) h =
    let opened : forward [] exhausted (running usage frames (some (suc (suc n))))
        ≡ record (running usage (frames ++ done_frame ∷ []) (some (suc n))) { completed = true } =
      rw (more n, less n) refl in
    subst (Forwarded [] exhausted (running usage frames (some (suc (suc n))))) (sym opened)
      (record { frames = refl; completed = sym (more n); usage = λ p. refl })
forward-Forwarded (c ∷ cs) ending usage frames none h =
    let w = forward-Forwarded cs ending (tap c usage) (frames ++ data_frame c ∷ []) none refl in
    record {
      frames = w.frames ∙ append_assoc frames (data_frame c ∷ []) (all_frames cs ending);
      completed = w.completed ∙ longer_none c cs ending;
      usage = w.usage;
    }
forward-Forwarded (c ∷ cs) ending usage frames (some zero) h = absurd (ground (arith, h))
forward-Forwarded (c ∷ cs) ending usage frames (some (suc zero)) h = record {
  frames = refl;
  completed = sym (longer_one c cs ending);
  usage = λ p. absurd (ground (arith, p));
}
forward-Forwarded (c ∷ cs) ending usage frames (some (suc (suc n))) h =
    let w =
      forward-Forwarded cs ending (tap c usage) (frames ++ data_frame c ∷ []) (some (suc n))
        (ground arith) in
    let opened : forward (c ∷ cs) ending (running usage frames (some (suc (suc n))))
        ≡ forward cs ending (running (tap c usage) (frames ++ data_frame c ∷ []) (some (suc n))) =
      rw (more n, less n) refl in
    subst (Forwarded (c ∷ cs) ending (running usage frames (some (suc (suc n))))) (sym opened)
      (record {
        frames =
            w.frames
            ∙ append_assoc frames (data_frame c ∷ []) (take (suc n) (all_frames cs ending));
        completed = w.completed ∙ longer_some c cs ending (suc n);
        usage = w.usage;
      })

body-Forwarded :
    (first : Option Chunk) (rest : List Chunk) (ending : Ending) (takes : Option ℕ)
    → unstarted takes ≡ false
    → Forwarded
        (chunks_of first rest)
        ending
        (fresh_stream takes)
        (body first rest ending (fresh_stream takes))
unfolding body forward
body-Forwarded none rest ending takes h = forward-Forwarded rest ending none [] takes h
body-Forwarded (some c) rest ending takes h = forward-Forwarded (c ∷ rest) ending none [] takes h

-- A client that takes a frame gets the first frames of the whole stream, as many as it takes. Then
-- the upstream is closed once, and after that `on_finish` is called once: with the usage of the
-- last chunk that has one when the upstream came to its end and the client stayed past the closing
-- frame, and as incomplete otherwise. A chunk has a usage if its value is not falsy.
pub stream_sse_lem :
    (first : Option Chunk) (rest : List Chunk) (ending : Ending) (takes : Option ℕ)
    → unstarted takes ≡ false
    → stream_sse first rest ending takes
      ≡ map sent (taken takes (all_frames (chunks_of first rest) ending))
        ++ closed
          ∷ (let over = ran_out (chunks_of first rest) ending takes in
              finished (if over then last_usage (chunks_of first rest) else none) over ∷ [])
unfolding stream_sse conclude
stream_sse_lem first rest ending takes h =
    let w = body-Forwarded first rest ending takes h in
    elim (Bool-cases (ran_out (chunks_of first rest) ending takes)) [
      | inl over ↦
          rw
            (
              h,
              w.frames,
              w.completed,
              w.usage (w.completed ∙ over) ∙ tapped_lem (chunks_of first rest),
              over,
            )
            refl
      | inr short ↦ rw (h, w.frames, w.completed, short) refl
    ]
