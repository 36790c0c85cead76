-- ===== src/Workload/Labelling.antt =====
-- workload.py: what the labels of the requests are to say, and the lists of `generate_workload`.
use switchyard_llm.Prelude.{
  ℕ, zero, suc, ◌+◌, ◌≤◌, ◌<◌, ◌≡◌, refl, sym, subst, String, string_eq, Bool, true, false, ◌&&◌,
  List, [], ◌∷◌, Option, none, some, Dict, lookup, insert, length, arith, ◌==◌, if◌then◌else◌,
  Option-cases, inl, inr, ltb,
}
use switchyard_llm.Workload.{count, get_elem?, pop_last, format, render, WorkloadItem}
use switchyard_llm.Workload.Corpus.{Template, Row, Intent}

-- Every template can be filled with a row.
abbrev pub fills_all : Row → List Template → Bool
fills_all row [] = true
fills_all row (t ∷ ts) = elim (format row t) [ none ↦ false | some u ↦ fills_all row ts ]

-- A base of the corpus: its intent has a template, and the row fills every one of them.
abbrev pub speaks : Option (Intent × Row) → Bool
speaks none = false
speaks (some (intent, row)) = ltb 0 (length intent.templates) && fills_all row intent.templates

-- A label against the bases of the earlier requests, with their answers' lengths: a request is to
-- hit iff its base is among them, and then its length is that base's; a new length lies in 60..400.
abbrev pub FitsKnown : Option ℕ → Bool → ℕ → Type 0
FitsKnown none should_hit tokens = (should_hit ≡ false) × (60 ≤ tokens) × (tokens ≤ 400)
FitsKnown (some t) should_hit tokens = (should_hit ≡ true) × (tokens ≡ t)

abbrev pub Labelled : Dict String ℕ → List WorkloadItem → Type 0
Labelled known [] = Unit {0}
Labelled known (item ∷ items) =
    FitsKnown (lookup item.base_id known) item.should_hit item.completion_tokens
    × Labelled (insert item.base_id item.completion_tokens known) items

pub nothing_left : {A : Type 0} (xs : List A) → pop_last xs ≡ none → xs ≡ []
unfolding pop_last
nothing_left [] h = refl
nothing_left (x ∷ xs) h = ground (arith, h)

pub count-pop_last :
    {A : Type 0} (p : A → Bool) (xs init : List A) (last : A)
    → pop_last xs ≡ some (init, last)
    → count p xs ≡ count p init + (if p last then 1 else 0)
unfolding count pop_last
count-pop_last p [] init last h = ground (arith, h)
count-pop_last p (x ∷ xs) init last h = elim (Option-cases (pop_last xs)) [
  | inl e ↦
      subst (λ l. count p (x ∷ l) ≡ count p init + (if p last then 1 else 0))
        (sym (nothing_left xs e)) (ground (arith, h, e))
  | inr ((ys, y), e) ↦ ground (arith, h, e, count-pop_last p xs ys y e)
]

pub get_elem?-some :
    {A : Type 0} (xs : List A) (i : ℕ) → i < length xs → (x : A) × (get_elem? xs i ≡ some x)
unfolding get_elem?
get_elem?-some [] i h = absurd (omega (arith, h))
get_elem?-some (x ∷ xs) zero h = (x, refl)
get_elem?-some (x ∷ xs) (suc i) h = get_elem?-some xs i (omega (arith, h))

-- What stands in a list is counted there.
pub count-get_elem? :
    (xs : List String) (i : ℕ) (s : String) → get_elem? xs i ≡ some s → 0 < count (λ t. t == s) xs
unfolding get_elem? count
count-get_elem? [] i s h = ground (arith, h)
count-get_elem? (x ∷ xs) zero s h = ground (arith, h, string_eq.beq_iff x s)
count-get_elem? (x ∷ xs) (suc i) s h = ground (arith, count-get_elem? xs i s h)

pub filled :
    (row : Row) (ts : List Template) (i : ℕ)
    → fills_all row ts ≡ true
    → i < length ts
    → (x : Template) × (t : String) × (get_elem? ts i ≡ some x) × (format row x ≡ some t)
unfolding get_elem?
filled row [] i f l = absurd (omega (arith, l))
filled row (x ∷ ts) zero f l = elim (Option-cases (format row x)) [
  | inl e ↦ ground (arith, f, e)
  | inr (t, e) ↦ (x, t, refl, e)
]
filled row (x ∷ ts) (suc i) f l = filled row ts i (ground (arith, f)) (omega (arith, l))

-- A base that speaks can be rendered in each of its phrasings.
pub rendered :
    (intent : Intent) (row : Row) (k : ℕ)
    → fills_all row intent.templates ≡ true
    → k < length intent.templates
    → (t : String) × (render intent row k ≡ some t)
unfolding render
rendered intent row k h lt =
    let (x, t, at, e) = filled row intent.templates k h lt in (t, rw (at, render) e)
