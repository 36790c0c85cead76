-- ===== src/Workload/Bases.antt =====
-- workload.py: `_all_bases` names each base once, and every base of the corpus can be asked in each
-- of its phrasings.
use switchyard_llm.Prelude.{
  ℕ, suc, ◌+◌, ◌≤◌, ◌<◌, ◌≡◌, refl, ap, leb, Bool, true, List, [], ◌∷◌, ◌++◌, length, arith,
  Bool-cases, inl, inr, ◌⊎◌,
}
use switchyard_llm.Workload.{Base, count, rows_from, bases_from}
use switchyard_llm.Workload.Corpus.{Row, Intent}

pub count-append :
    {A : Type 0} (p : A → Bool) (xs ys : List A) → count p (xs ++ ys) ≡ count p xs + count p ys
unfolding count
count-append p [] ys = omega arith
count-append p (x ∷ xs) ys = ground (arith, count-append p xs ys)

pub count-true : {A : Type 0} (xs : List A) → count (λ x. true) xs ≡ length xs
unfolding count
count-true [] = refl
count-true (x ∷ xs) = ap suc (count-true xs)

-- A test that one base at most passes.
module _ (p : Base → Bool) (single : (a b : Base) → p a ≡ true → p b ≡ true → a ≡ b) where
  count_later :
      (i j ii ri : ℕ) (rows : List Row)
      → p (i, j) ≡ true
      → (i < ii) ⊎ (j < ri)
      → count p (rows_from ii ri rows) ≡ 0
  unfolding count
  count_later i j ii ri [] h lt = refl
  count_later i j ii ri (row ∷ rows) h lt =
      let rest =
        count_later i j ii (suc ri) rows h
          (elim lt [ inl l ↦ inl l | inr l ↦ inr (omega (arith, l)) ]) in
      elim (Bool-cases (p (ii, ri))) [
        | inl e ↦
            let same = single (i, j) (ii, ri) h e in
            absurd (ground (arith, lt, ap (λ (b : Base). b.0) same, ap (λ (b : Base). b.1) same))
        | inr e ↦ rw (e, rest) refl
      ]

  rows_le : (ii ri : ℕ) (rows : List Row) → count p (rows_from ii ri rows) ≤ 1
  unfolding count
  rows_le ii ri [] = omega arith
  rows_le ii ri (row ∷ rows) = elim (Bool-cases (p (ii, ri))) [
    | inl e ↦ ground (arith, e, count_later ii ri ii (suc ri) rows e (inr (omega arith)))
    | inr e ↦ ground (arith, e, rows_le ii (suc ri) rows)
  ]

  found :
      (ii ri : ℕ) (rows : List Row)
      → 0 < count p (rows_from ii ri rows)
      → (j : ℕ) × (p (ii, j) ≡ true)
  unfolding count
  found ii ri [] h = absurd (omega (arith, h))
  found ii ri (row ∷ rows) h = elim (Bool-cases (p (ii, ri))) [
    | inl e ↦ (ri, e)
    | inr e ↦ found ii (suc ri) rows (ground (arith, e, h))
  ]

  later_intents :
      (i j ii : ℕ) (corpus : List Intent)
      → p (i, j) ≡ true
      → i < ii
      → count p (bases_from ii corpus) ≡ 0
  unfolding count
  later_intents i j ii [] h lt = refl
  later_intents i j ii (intent ∷ corpus) h lt = omega (
    arith,
    count-append p (rows_from ii 0 intent.fills) (bases_from (suc ii) corpus),
    count_later i j ii 0 intent.fills h (inl lt),
    later_intents i j (suc ii) corpus h (omega (arith, lt)),
  )

  pub bases_le : (ii : ℕ) (corpus : List Intent) → count p (bases_from ii corpus) ≤ 1
  unfolding count
  bases_le ii [] = omega arith
  bases_le ii (intent ∷ corpus) =
      let both = count-append p (rows_from ii 0 intent.fills) (bases_from (suc ii) corpus) in
      elim (Bool-cases (leb 1 (count p (rows_from ii 0 intent.fills)))) [
        | inl e ↦
            let (j, at) = found ii 0 intent.fills (ground (arith, e)) in
            omega (
              arith,
              both,
              rows_le ii 0 intent.fills,
              later_intents ii j (suc ii) corpus at (omega arith),
            )
        | inr e ↦ ground (arith, e, both, bases_le (suc ii) corpus)
      ]
