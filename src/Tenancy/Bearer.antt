-- ===== src/Tenancy/Bearer.antt =====
-- auth.py: what key is read from an `Authorization` header.
use switchyard_llm.Prelude.{
  if◌then◌else◌, ℕ, ◌≡◌, refl, ap, ◌∙◌, true, false, List, [], ◌∷◌, ◌++◌, map, some, arith, All,
}
use switchyard_llm.Tenancy.{text_beq, is_space, split, to_lower, bearer, bearer_key, extract_bearer}

-- A run of characters with no white space.
abbrev pub IsWord : List ℕ → Type 0
IsWord w = All (λ c. is_space c ≡ false) w

space-is_space : is_space 32 ≡ true
unfolding is_space
space-is_space = refl

-- A word before white space is one run.
split-word :
    (c : ℕ) (w rest : List ℕ) → IsWord (c ∷ w) → split ((c ∷ w) ++ 32 ∷ rest) ≡ (c ∷ w) ∷ split rest
unfolding split
split-word c [] rest (p, _) = rw (p, space-is_space) refl
split-word c (d ∷ w) rest (p, (q, r)) = rw (p, split-word d w rest (q, r), q) refl

split_alone : (c : ℕ) (w : List ℕ) → IsWord (c ∷ w) → split (c ∷ w) ≡ (c ∷ w) ∷ []
unfolding split
split_alone c [] (p, _) = rw p refl
split_alone c (d ∷ w) (p, (q, r)) = rw (p, split_alone d w (q, r), q) refl

text_beq_refl : (x : List ℕ) → text_beq x x ≡ true
text_beq_refl [] = refl
text_beq_refl (c ∷ x) = ground (arith, text_beq_refl x)

-- A header of a scheme that lowers to "bearer", a space and a key without white space gives the key;
-- a header of one word gives that word.
pub extract_bearer_key :
    (c d : ℕ) (scheme key : List ℕ)
    → IsWord (c ∷ scheme)
    → IsWord (d ∷ key)
    → map to_lower (c ∷ scheme) ≡ bearer
    → (extract_bearer (some ((c ∷ scheme) ++ 32 ∷ d ∷ key)) ≡ some (d ∷ key))
      × (extract_bearer (some (d ∷ key)) ≡ some (d ∷ key))
unfolding extract_bearer
extract_bearer_key c d scheme key p q lower = (
  ap (λ (ws : List (List ℕ)). some (bearer_key ((c ∷ scheme) ++ 32 ∷ d ∷ key) ws)) parts
      ∙ ap (λ (x : List ℕ). some x) chosen,
  ap (λ (ws : List (List ℕ)). some (bearer_key (d ∷ key) ws)) (split_alone d key q),
)
  where
    parts : split ((c ∷ scheme) ++ 32 ∷ d ∷ key) ≡ (c ∷ scheme) ∷ (d ∷ key) ∷ []
    parts = split-word c scheme (d ∷ key) p ∙ ap (λ ws. (c ∷ scheme) ∷ ws) (split_alone d key q)

    chosen : bearer_key ((c ∷ scheme) ++ 32 ∷ d ∷ key) ((c ∷ scheme) ∷ (d ∷ key) ∷ []) ≡ d ∷ key
    chosen =
        ap (λ (x : List ℕ). if text_beq x bearer then d ∷ key else (c ∷ scheme) ++ 32 ∷ d ∷ key)
          lower
