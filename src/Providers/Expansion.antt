-- ===== src/Providers/Expansion.antt =====
-- registry.py: what `_expand_env` makes of a text.
use switchyard_llm.Prelude.{
  ℕ, zero, suc, ◌+◌, ◌-◌, ◌≡◌, refl, ap, ◌∙◌, Bool, true, false, [], ◌∷◌, ◌++◌, Option, none, some,
  length, arith, All, nat_beq, if◌then◌else◌,
}
use switchyard_llm.Providers.{
  Text, is_letter, is_name_char, not_brace, span, Reference, close_default, close_name, close_colon,
  match_reference, value_or, expand_env,
}

-- Every character passes the test.
abbrev pub Passes : (ℕ → Bool) → Text → Type 0
Passes p t = All (λ c. p c ≡ true) t

abbrev pub no_dollar : ℕ → Bool
no_dollar c = if nat_beq c b'$' then false else true

abbrev pub or_empty : Option Text → Text
or_empty none = []
or_empty (some d) = d

-- The rest of a reference after its name, and the text that follows it.
abbrev pub closed_with : Option Text → Text → Text
closed_with none rest = b'}' ∷ rest
closed_with (some d) rest = b':' ∷ b'-' ∷ (d ++ b'}' ∷ rest)

-- What stands for a reference: the variable's value, or the default where it is unset or empty.
abbrev pub value_in : Option Text → Option Text → Text
value_in fallback (some (c ∷ cs)) = c ∷ cs
value_in fallback (some []) = or_empty fallback
value_in fallback none = or_empty fallback

value_or-value_in :
    (fallback value : Option Text) → value_or (or_empty fallback) value ≡ value_in fallback value
value_or-value_in fallback none = refl
value_or-value_in fallback (some []) = refl
value_or-value_in fallback (some (c ∷ cs)) = refl

abbrev FallbackPasses : Option Text → Type 0
FallbackPasses none = Unit {0}
FallbackPasses (some d) = Passes not_brace d

span_all :
    (p : ℕ → Bool) (xs : Text) (c : ℕ) (ys : Text)
    → Passes p xs
    → p c ≡ false
    → span p (xs ++ c ∷ ys) ≡ (xs, c ∷ ys)
unfolding span
span_all p [] c ys h stop = rw stop refl
span_all p (x ∷ xs) c ys (px, h) stop = rw (span_all p xs c ys h stop, px) refl

skip :
    (getenv : Text → Option Text) (xs ys : Text) (m n : ℕ)
    → m ≡ length xs + n
    → expand_env getenv m (xs ++ ys) ≡ expand_env getenv n ys
unfolding expand_env
skip getenv [] ys m n e = ap (λ (k : ℕ). expand_env getenv k ys) (omega (arith, e))
skip getenv (x ∷ xs) ys zero n e = absurd (omega (arith, e))
skip getenv (x ∷ xs) ys (suc m) n e = skip getenv xs ys m n (omega (arith, e))

match_plain : (c : ℕ) (t : Text) → no_dollar c ≡ true → match_reference (c ∷ t) ≡ none
unfolding match_reference
match_plain c [] h = refl
match_plain c (d ∷ []) h = refl
match_plain c (d ∷ e ∷ t) h = ground (arith, h)

expand_plain :
    (getenv : Text → Option Text) (pre t : Text)
    → Passes no_dollar pre
    → expand_env getenv 0 (pre ++ t) ≡ pre ++ expand_env getenv 0 t
unfolding expand_env
expand_plain getenv [] t h = refl
expand_plain getenv (c ∷ pre) t (p, h) =
    rw (match_plain c (pre ++ t) p, expand_plain getenv pre t h, expand_env) refl

-- The characters that a reference takes, besides its name and its default.
abbrev frame_size : Option Text → ℕ
frame_size none = 3
frame_size (some d) = 5

abbrev reference_at : Text → Option Text → Reference
reference_at name fallback = record {
  name = name;
  fallback = or_empty fallback;
  size = length name + length (or_empty fallback) + frame_size fallback;
}

-- What closes a name.
match_closed :
    (n : ℕ) (ns : Text) (fallback : Option Text) (rest : Text)
    → is_letter n ≡ true
    → Passes is_name_char ns
    → FallbackPasses fallback
    → match_reference (b'$' ∷ b'{' ∷ n ∷ (ns ++ closed_with fallback rest))
      ≡ some (reference_at (n ∷ ns) fallback)
unfolding match_reference close_name close_colon close_default
match_closed n ns none rest letter chars pass =
    let first : is_name_char n ≡ true = ground (arith, letter) in
    let stops = span_all is_name_char (n ∷ ns) b'}' rest (first, chars) refl in
    rw (letter, stops)
      (ap (λ (k : ℕ). some (record { name = n ∷ ns; fallback = []; size = k })) (omega arith))
match_closed n ns (some d) rest letter chars pass =
    let first : is_name_char n ≡ true = ground (arith, letter) in
    let stops =
      span_all is_name_char (n ∷ ns) b':' (b'-' ∷ (d ++ b'}' ∷ rest)) (first, chars) refl in
    rw (letter, stops, span_all not_brace d b'}' rest pass refl) refl

-- The characters of a reference after its first are passed over.
skip_reference :
    (getenv : Text → Option Text) (name : Text) (fallback : Option Text) (rest : Text) (m : ℕ)
    → m + 2 ≡ length name + length (or_empty fallback) + frame_size fallback
    → expand_env getenv m (name ++ closed_with fallback rest) ≡ expand_env getenv 0 rest
skip_reference getenv name none rest m e =
    skip getenv name (b'}' ∷ rest) m 1 (omega (arith, e))
    ∙ skip getenv (b'}' ∷ []) rest 1 0 (omega arith)
skip_reference getenv name (some d) rest m e =
    skip getenv name (b':' ∷ b'-' ∷ (d ++ b'}' ∷ rest)) m (length d + 3) (omega (arith, e))
    ∙ skip getenv (b':' ∷ b'-' ∷ []) (d ++ b'}' ∷ rest) (length d + 3) (length d + 1) (omega arith)
    ∙ skip getenv d (b'}' ∷ rest) (length d + 1) 1 (omega arith)
    ∙ skip getenv (b'}' ∷ []) rest 1 0 (omega arith)

expand_matched :
    (getenv : Text → Option Text) (c : ℕ) (cs : Text) (r : Reference)
    → match_reference (c ∷ cs) ≡ some r
    → expand_env getenv 0 (c ∷ cs)
      ≡ value_or r.fallback (getenv r.name) ++ expand_env getenv (r.size - 1) cs
unfolding expand_env
expand_matched getenv c cs r m = rw (m, expand_env) refl

-- A reference `${NAME}` or `${NAME:-default}` is replaced by the variable's value, or by the default
-- where the variable is unset or empty; the text before it is kept, and what follows it is expanded
-- in turn. The name begins with a letter or `_` and goes on with letters, digits and `_`; the default
-- holds no `}` and the text before no `$`.
pub expand_env-closed_with :
    (getenv : Text → Option Text) (pre : Text) (n : ℕ) (ns : Text) (fallback : Option Text)
    (rest : Text)
    → Passes no_dollar pre
    → is_letter n ≡ true
    → Passes is_name_char ns
    → FallbackPasses fallback
    → expand_env getenv 0 (pre ++ b'$' ∷ b'{' ∷ n ∷ (ns ++ closed_with fallback rest))
      ≡ pre ++ (value_in fallback (getenv (n ∷ ns)) ++ expand_env getenv 0 rest)
expand_env-closed_with getenv pre n ns fallback rest plain letter chars pass =
    let tail : Text = ns ++ closed_with fallback rest in
    let name : Text = n ∷ ns in
    let m = match_closed n ns fallback rest letter chars pass in
    expand_plain getenv pre (b'$' ∷ b'{' ∷ n ∷ tail) plain
    ∙ ap (λ (t : Text). pre ++ t)
        (expand_matched getenv b'$' (b'{' ∷ n ∷ tail) (reference_at name fallback) m
          ∙ ap (λ (t : Text). value_or (or_empty fallback) (getenv name) ++ t)
              (skip_reference getenv (b'{' ∷ name) fallback rest _ (omega arith))
          ∙ ap (λ (t : Text). t ++ expand_env getenv 0 rest)
              (value_or-value_in fallback (getenv name)))
