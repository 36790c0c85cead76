-- ===== src/Workload/Labels.antt =====
-- workload.py: the labels of the generated requests.
use switchyard_llm.Prelude.{
  ℕ, zero, suc, ◌<◌, ◌≡◌, refl, sym, ap, ◌∙◌, subst, String, string_eq, true, not, List, [], ◌∷◌,
  some, Dict, lookup, insert, length, arith, ◌==◌, Option-cases, Bool-cases, inl, inr,
}
use switchyard_llm.Workload.{
  Base, count, get_elem?, pop_last, Random, format, WorkloadItem, all_bases, pick, item_of,
  request_for, Progress, want_dup, draw, items_from, generate_workload,
}
use switchyard_llm.Workload.Bases.{bases_le, count-true}
use switchyard_llm.Workload.Labelling.{Labelled, nothing_left, rendered}
use switchyard_llm.Workload.Draws.{usable, IsSound, Advances, novel-Good, again-Good}
use switchyard_llm.Workload.Corpus.{Intent, intents}

module _ (random : Random) (spell : Base → String) (corpus : List Intent) where
  wants_seen :
      (d : random.Rate) (seen : List String) (rng : random.State)
      → (want_dup random spell corpus d seen rng).0 ≡ true
      → 0 < length seen
  unfolding want_dup
  wants_seen d [] rng h = ground (arith, h)
  wants_seen d (s ∷ seen) rng h = omega arith

  reseeded :
      (known : Dict String ℕ) (p : Progress random) (rng : random.State)
      → IsSound random spell corpus known p
      → IsSound random spell corpus known (record p { rng = rng })
  reseeded known p rng sound = record {
    unique = sound.unique;
    all_usable = sound.all_usable;
    agrees = sound.agrees;
    seen_as = sound.seen_as;
    live = sound.live;
  }

  draw-Good :
      (known : Dict String ℕ) (d : random.Rate) (p : Progress random)
      → IsSound random spell corpus known p
      → Advances random spell corpus known (draw random spell corpus d p)
  unfolding draw
  draw-Good known d p sound =
      let wanted = want_dup random spell corpus d p.seen p.rng in
      let p' : Progress random = record p { rng = wanted.1 } in
      elim (Bool-cases wanted.0) [
        | inl e ↦ subst (Advances random spell corpus known) (sym (rw (e, draw) refl)) (
            again-Good random spell corpus known p' (reseeded known p _ sound)
              (wants_seen d p.seen p.rng e))
        | inr e ↦ elim (Option-cases (pop_last p.pool)) [
          | inl empty ↦
              subst (Advances random spell corpus known) (sym (rw (e, empty, draw) refl)) (
                again-Good random spell corpus known p' (reseeded known p _ sound)
                  (ground (arith, sound.live, ap (length {A = Base}) (nothing_left p.pool empty))))
          | inr ((pool, base), last) ↦
              subst (Advances random spell corpus known) (sym (rw (e, last, draw) refl))
                (novel-Good random spell corpus known p wanted.1 pool base sound last)
        ]
      ]

  items_from-Labelled :
      (model : String) (d : random.Rate) (n : ℕ) (known : Dict String ℕ) (p : Progress random)
      → IsSound random spell corpus known p
      → (items : List WorkloadItem) × (items_from random spell corpus model d n p ≡ some items)
        × (length items ≡ n)
        × Labelled known items
  unfolding items_from item_of
  items_from-Labelled model d zero known p sound = ([], refl, refl, tt)
  items_from-Labelled model d (suc n) known p sound =
      let ((p', w), step, (fits, sound', lt, fills)) = draw-Good known d p sound in
      let (t, said) = rendered w.chosen.intent w.chosen.fills w.phrasing fills lt in
      let (items, rest, size, labels) =
        items_from-Labelled model d n (insert w.base_id w.chosen.completion_tokens known) p'
          sound' in
      let item : WorkloadItem = record {
        request = request_for model t;
        base_id = w.base_id;
        should_hit = w.should_hit;
        completion_tokens = w.chosen.completion_tokens;
      } in
      (item ∷ items, rw (items_from, step, said, rest) refl, ap suc size, (fits, labels))

module _ (random : Random) (spell : Base → String) where
  -- The state in which the loop starts, on a corpus that can be asked.
  started :
      (corpus : List Intent) (seed : ℕ)
      → ((a b : Base) → spell a ≡ spell b → a ≡ b)
      → count (λ b. not (usable random spell corpus b)) (all_bases corpus) ≡ 0
      → 0 < length (all_bases corpus)
      → IsSound random spell corpus [] (record {
        rng = (random.shuffle (all_bases corpus) (random.seeded seed)).1;
        pool = (random.shuffle (all_bases corpus) (random.seeded seed)).0;
        seen = [];
        seen_meta = [];
      })
  unfolding all_bases count lookup
  started corpus seed injective asked nonempty =
      let rng = random.seeded seed in
      let bases = all_bases corpus in
      record {
        unique = λ s.
            let kept = random.count-shuffle (λ b. spell b == s) bases rng in
            let once =
              bases_le (λ b. spell b == s)
                (λ a b e f.
                  injective a b (
                    (string_eq.beq_iff (spell a) s).0 e
                    ∙ sym ((string_eq.beq_iff (spell b) s).0 f)))
                0 corpus in
            omega (arith, kept, once);
        all_usable =
            random.count-shuffle (λ b. not (usable random spell corpus b)) bases rng ∙ asked;
        agrees = λ s. refl;
        seen_as = λ s. refl;
        live = ground (
          arith,
          nonempty,
          random.count-shuffle (λ b. true) bases rng,
          count-true bases,
          count-true (random.shuffle bases rng).0,
        );
      }

  -- The corpus can be asked in every phrasing.
  corpus_usable : count (λ b. not (usable random spell intents b)) (all_bases intents) ≡ 0
  unfolding count all_bases pick get_elem? format lookup
  corpus_usable = refl

  corpus_nonempty : 0 < length (all_bases intents)
  unfolding all_bases
  corpus_nonempty = omega arith

  -- Where no two bases are spelled alike, `generate_workload` returns, for every number, rate and
  -- seed: it returns that many requests, and each is labelled to hit iff an earlier one has its base.
  -- A base keeps the completion length of its first request, which lies between 60 and 400.
  pub generate_workload-Labelled :
      (n : ℕ) (d : random.Rate) (seed : ℕ) (model : String)
      → ((a b : Base) → spell a ≡ spell b → a ≡ b)
      → (items : List WorkloadItem) × (generate_workload random spell intents n d seed model
          ≡ some items)
        × (length items ≡ n)
        × Labelled [] items
  unfolding generate_workload
  generate_workload-Labelled n d seed model injective =
      items_from-Labelled random spell intents model d n [] _
        (started intents seed injective corpus_usable corpus_nonempty)
