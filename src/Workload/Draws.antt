-- ===== src/Workload/Draws.antt =====
-- workload.py: the state of `generate_workload` between two requests, and both kinds of draw.
use switchyard_llm.Prelude.{
  ℕ, ◌+◌, ◌≤◌, ◌<◌, ◌≡◌, refl, sym, ap, ◌∙◌, subst, String, string_eq, Bool, true, false, not, List,
  [], ◌∷◌, ◌++◌, Option, none, some, Dict, lookup, insert, lookup-insert, length, length-append,
  arith, ◌==◌, if◌then◌else◌, Option-cases, Bool-cases, inl, inr,
}
use switchyard_llm.Workload.{
  Base, count, pop_last, Random, pick, Meta, Drawn, Progress, novel, again,
}
use switchyard_llm.Workload.Corpus.{Intent}
use switchyard_llm.Workload.Bases.{count-append}
use switchyard_llm.Workload.Labelling.{
  fills_all, speaks, FitsKnown, count-pop_last, get_elem?-some, count-get_elem?,
}

module _ (random : Random) (spell : Base → String) (corpus : List Intent) where
  abbrev pub usable : Base → Bool
  usable b = speaks (pick corpus b)

  abbrev pub known_tokens : Option Meta → Option ℕ
  known_tokens none = none
  known_tokens (some m) = some m.completion_tokens

  -- How a text stands in `seen` and in `seen_meta`.
  abbrev pub SeenAs : ℕ → Option Meta → Type 0
  SeenAs times none = times ≡ 0
  SeenAs times (some m) = (0 < times) × (speaks (some (m.intent, m.fills)) ≡ true)

  pub record IsSound (known : Dict String ℕ) (p : Progress random) : Type 0 where
    pub unique : (s : String) → count (λ b. spell b == s) p.pool + count (λ t. t == s) p.seen ≤ 1
    pub all_usable : count (λ b. not (usable b)) p.pool ≡ 0
    pub agrees : (s : String) → lookup s known ≡ known_tokens (lookup s p.seen_meta)
    pub seen_as : (s : String) → SeenAs (count (λ t. t == s) p.seen) (lookup s p.seen_meta)
    pub live : 0 < length p.pool + length p.seen

  -- What an iteration gives.
  abbrev pub Good : Dict String ℕ → Progress random × Drawn → Type 0
  Good known (p, w) =
      FitsKnown (lookup w.base_id known) w.should_hit w.chosen.completion_tokens
      × IsSound (insert w.base_id w.chosen.completion_tokens known) p
      × (w.phrasing < length w.chosen.intent.templates)
      × (fills_all w.chosen.fills w.chosen.intent.templates ≡ true)

  abbrev pub Advances : Dict String ℕ → Option (Progress random × Drawn) → Type 0
  Advances known o = (r : Progress random × Drawn) × (o ≡ some r) × Good known r

  unseen : (m : Option Meta) → SeenAs 0 m → m ≡ none
  unseen none h = refl
  unseen (some m) h = absurd (omega (arith, h.0))

  seen_more :
      (seen : List String) (meta : Dict String Meta) (m : Meta) (s t : String)
      → SeenAs (count (λ u. u == t) seen) (lookup t meta)
      → speaks (some (m.intent, m.fills)) ≡ true
      → SeenAs (count (λ u. u == t) (seen ++ s ∷ [])) (lookup t (insert s m meta))
  unfolding count
  seen_more seen meta m s t h good =
      let more = count-append (λ u. u == t) seen (s ∷ []) in
      let written = lookup-insert s t m meta in
      elim (Bool-cases (s == t)) [
        | inl e ↦
            subst (SeenAs (count (λ u. u == t) (seen ++ s ∷ [])))
              (sym (written ∙ ap (λ b. if b then some m else lookup t meta) e))
              (ground (arith, more, e), good)
        | inr e ↦
            subst (SeenAs (count (λ u. u == t) (seen ++ s ∷ [])))
              (sym (written ∙ ap (λ b. if b then some m else lookup t meta) e))
              (subst (λ k. SeenAs k (lookup t meta)) (sym (ground (arith, more, e))) h)
      ]

  agree_more :
      (known : Dict String ℕ) (meta : Dict String Meta) (m : Meta) (s t : String)
      → lookup t known ≡ known_tokens (lookup t meta)
      → lookup t (insert s m.completion_tokens known) ≡ known_tokens (lookup t (insert s m meta))
  agree_more known meta m s t h =
      rw (lookup-insert s t m.completion_tokens known, lookup-insert s t m meta)
        (elim (s == t)
          as (λ b.
            (if b then some m.completion_tokens else lookup t known)
            ≡ known_tokens (if b then some m else lookup t meta)) [ true ↦ refl | false ↦ h ])

  pub novel-Good :
      (known : Dict String ℕ) (p : Progress random) (rng : random.State) (pool : List Base)
      (base : Base)
      → IsSound known p
      → pop_last p.pool ≡ some (pool, base)
      → Advances known (novel random spell corpus base (record p { rng = rng; pool = pool }))
  unfolding novel count
  novel-Good known p rng pool base sound last =
      let s : String = spell base in
      let bad = count-pop_last (λ b. not (usable b)) p.pool pool base last in
      let good : usable base ≡ true = ground (arith, bad, sound.all_usable) in
      let here = count-pop_last (λ b. spell b == s) p.pool pool base last in
      let one : count (λ t. t == s) p.seen ≡ 0 =
        ground (arith, here, sound.unique s, string_eq.beq_iff s s) in
      let fresh : lookup s p.seen_meta ≡ none =
        unseen (lookup s p.seen_meta)
          (subst (λ k. SeenAs k (lookup s p.seen_meta)) one (sound.seen_as s)) in
      let unknown : lookup s known ≡ none = sound.agrees s ∙ ap known_tokens fresh in
      elim (Option-cases (pick corpus base)) [
        | inl e ↦ absurd (ground (arith, good, ap speaks e))
        | inr ((intent, row), e) ↦
            let tokens : ℕ = (random.randint 60 400 rng).0 in
            let m : Meta = record { intent = intent; fills = row; completion_tokens = tokens } in
            let speaking : speaks (some (intent, row)) ≡ true = sym (ap speaks e) ∙ good in
            let after : Progress random = record p {
              rng = (random.randint 60 400 rng).1;
              pool = pool;
              seen = p.seen ++ s ∷ [];
              seen_meta = insert s m p.seen_meta;
            } in
            (
              (after, record { base_id = s; chosen = m; phrasing = 0; should_hit = false }),
              rw (novel, e) refl,
              (
                subst (λ o. FitsKnown o false tokens) (sym unknown)
                    (
                      refl,
                      random.randint-ge 60 400 rng (omega arith),
                      random.randint-le 60 400 rng (omega arith),
                    ),
                record {
                  unique = λ t. ground (
                    arith,
                    count-append (λ u. u == t) p.seen (s ∷ []),
                    count-pop_last (λ b. spell b == t) p.pool pool base last,
                    sound.unique t,
                  );
                  all_usable = ground (arith, bad, sound.all_usable);
                  agrees = λ t. agree_more known p.seen_meta m s t (sound.agrees t);
                  seen_as = λ t. seen_more p.seen p.seen_meta m s t (sound.seen_as t) speaking;
                  live = ground (arith, length-append p.seen (s ∷ []));
                },
                ground (arith, speaking),
                ground (arith, speaking),
              ),
            )
      ]

  agree_same :
      (known : Dict String ℕ) (meta : Dict String Meta) (m : Meta) (s t : String)
      → lookup s meta ≡ some m
      → lookup t known ≡ known_tokens (lookup t meta)
      → lookup t (insert s m.completion_tokens known) ≡ known_tokens (lookup t meta)
  agree_same known meta m s t at h =
      let written = lookup-insert s t m.completion_tokens known in
      elim (Bool-cases (s == t)) [
        | inl e ↦
            let same : s ≡ t = (string_eq.beq_iff s t).0 e in
            written
            ∙ ap (λ b. if b then some m.completion_tokens else lookup t known) e
            ∙ sym (ap known_tokens (subst (λ u. lookup u meta ≡ some m) same at))
        | inr e ↦ written ∙ ap (λ b. if b then some m.completion_tokens else lookup t known) e ∙ h
      ]

  known_some :
      (times : ℕ) (o : Option Meta)
      → SeenAs times o
      → 0 < times
      → (m : Meta) × (o ≡ some m) × (speaks (some (m.intent, m.fills)) ≡ true)
  known_some times none h lt = absurd (omega (arith, h, lt))
  known_some times (some m) h lt = (m, refl, h.1)

  pub again-Good :
      (known : Dict String ℕ) (p : Progress random)
      → IsSound known p
      → 0 < length p.seen
      → Advances known (again random spell corpus p)
  unfolding again
  again-Good known p sound some_seen =
      let i : ℕ = (random.choice (length p.seen) p.rng).0 in
      let rng : random.State = (random.choice (length p.seen) p.rng).1 in
      let (s, at) = get_elem?-some p.seen i (random.choice-lt (length p.seen) p.rng some_seen) in
      let (m, meta_at, good) = known_some _ _ (sound.seen_as s) (count-get_elem? p.seen i s at) in
      let k = random.randrange (length m.intent.templates) rng in
      let nonempty : 0 < length m.intent.templates = ground (arith, good) in
      (
        (
          record p { rng = k.1 },
          record { base_id = s; chosen = m; phrasing = k.0; should_hit = true },
        ),
        rw (again, at, meta_at) refl,
        (
          subst (λ o. FitsKnown o true m.completion_tokens)
              (sym (sound.agrees s ∙ ap known_tokens meta_at)) (refl, refl),
          record {
            unique = sound.unique;
            all_usable = sound.all_usable;
            agrees = λ t. agree_same known p.seen_meta m s t meta_at (sound.agrees t);
            seen_as = sound.seen_as;
            live = sound.live;
          },
          random.randrange-lt (length m.intent.templates) rng nonempty,
          ground (arith, good),
        ),
      )
