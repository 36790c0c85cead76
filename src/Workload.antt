-- ===== src/Workload.antt =====
-- bench/workload.py: `generate_workload`.
-- `Random` is Python's `random.Random`: its state, and the documented range of each draw; `choice`
-- draws the position of the element that it returns. A shuffle keeps how many elements pass a test.
-- `spell` writes a base as the text `intent:row`. A result is `none` where an index, a key or a slot
-- would be missing.
pub mod Corpus
pub mod Bases
pub mod Labelling
pub mod Draws
pub mod Labels
use switchyard_llm.Prelude.{
  ℕ, zero, suc, ◌+◌, ◌-◌, ◌≤◌, ◌<◌, ◌≡◌, String, string_eq, Bool, true, false, not, ◌&&◌, List, [],
  ◌∷◌, ◌++◌, Option, none, some, Dict, lookup, insert, length, nat_beq, ◌==◌, if◌then◌else◌,
}
use switchyard_llm.Schemas.{Json, null, text, Message, ChatCompletionRequest}
use switchyard_llm.Workload.Corpus.{Piece, lit, slot, Template, Row, Intent}
use Prim.Native.String.{◌++◌ as append}

-- An intent's place and a row's place in its fills.
abbrev pub Base : Type 0
Base = ℕ × ℕ

module _ {ℓ} {A : Type ℓ} where
  unfoldable pub count : (A → Bool) → List A → ℕ
  count p [] = 0
  count p (x ∷ xs) = let rest = count p xs in if p x then suc rest else rest

  unfoldable pub get_elem? : List A → ℕ → Option A
  get_elem? [] i = none
  get_elem? (x ∷ xs) zero = some x
  get_elem? (x ∷ xs) (suc i) = get_elem? xs i

  -- `pop()`: the list without its last element, and that element.
  unfoldable pub pop_last : List A → Option (List A × A)
  pop_last [] = none
  pop_last (x ∷ xs) = elim (pop_last xs) [
    | none ↦ some ([], x)
    | some (init, last) ↦ some (x ∷ init, last)
  ]

pub record Random : Type 1 where
  pub State : Type 0
  pub Rate : Type 0
  pub seeded : ℕ → State
  pub shuffle : List Base → State → List Base × State
  pub random_below : Rate → State → Bool × State
  pub randint : ℕ → ℕ → State → ℕ × State
  pub randrange : ℕ → State → ℕ × State
  pub choice : ℕ → State → ℕ × State
  pub count-shuffle :
      (p : Base → Bool) (xs : List Base) (s : State) → count p (shuffle xs s).0 ≡ count p xs
  pub randint-ge : (a b : ℕ) (s : State) → a ≤ b → a ≤ (randint a b s).0
  pub randint-le : (a b : ℕ) (s : State) → a ≤ b → (randint a b s).0 ≤ b
  pub randrange-lt : (n : ℕ) (s : State) → 0 < n → (randrange n s).0 < n
  pub choice-lt : (n : ℕ) (s : State) → 0 < n → (choice n s).0 < n

-- `str.format(**fills)`
unfoldable pub format : Row → Template → Option String
format fills [] = some ""
format fills (lit t ∷ ps) = elim (format fills ps) [ none ↦ none | some u ↦ some (append t u) ]
format fills (slot name ∷ ps) = elim (format fills ps) [
  | none ↦ none
  | some u ↦ elim (lookup name fills) [ none ↦ none | some t ↦ some (append t u) ]
]

unfoldable pub render : Intent → Row → ℕ → Option String
unfolding get_elem? format
render intent fills phrasing = elim (get_elem? intent.templates phrasing) [
  | none ↦ none
  | some template ↦ format fills template
]

pub record WorkloadItem : Type 0 where
  pub request : ChatCompletionRequest
  pub base_id : String
  pub should_hit : Bool
  pub completion_tokens : ℕ

abbrev pub rows_from : ℕ → ℕ → List Row → List Base
rows_from ii ri [] = []
rows_from ii ri (row ∷ rows) = (ii, ri) ∷ rows_from ii (suc ri) rows

abbrev pub bases_from : ℕ → List Intent → List Base
bases_from ii [] = []
bases_from ii (intent ∷ corpus) = rows_from ii 0 intent.fills ++ bases_from (suc ii) corpus

-- `_all_bases`
unfoldable pub all_bases : List Intent → List Base
all_bases corpus = bases_from 0 corpus

unfoldable pub distinct_base_count : List Intent → ℕ
unfolding all_bases
distinct_base_count corpus = length (all_bases corpus)

-- `_INTENTS[intent_idx]` and its `["fills"][row_idx]`
unfoldable pub pick : List Intent → Base → Option (Intent × Row)
unfolding get_elem?
pick corpus (ii, ri) = elim (get_elem? corpus ii) [
  | none ↦ none
  | some intent ↦ elim (get_elem? intent.fills ri) [
    | none ↦ none
    | some fills ↦ some (intent, fills)
  ]
]

-- What `seen_meta` keeps of a base.
pub record Meta : Type 0 where
  pub intent : Intent
  pub fills : Row
  pub completion_tokens : ℕ

-- What an iteration has chosen.
pub record Drawn : Type 0 where
  pub base_id : String
  pub chosen : Meta
  pub phrasing : ℕ
  pub should_hit : Bool

abbrev pub user_message : String → Message
user_message t = record { role = "user"; content = text t; extra = [] }

abbrev pub request_for : String → String → ChatCompletionRequest
request_for model t = record {
  model = model;
  messages = user_message t ∷ [];
  stream = false;
  temperature = null;
  top_p = null;
  max_tokens = none;
  n = none;
  stop = null;
  extra = [];
}

unfoldable pub item_of : String → Drawn → Option WorkloadItem
unfolding render
item_of model w = elim (render w.chosen.intent w.chosen.fills w.phrasing) [
  | none ↦ none
  | some t ↦ some (record {
    request = request_for model t;
    base_id = w.base_id;
    should_hit = w.should_hit;
    completion_tokens = w.chosen.completion_tokens;
  })
]

module _ (random : Random) where
  -- The variables of the loop.
  pub record Progress : Type 0 where
    pub rng : random.State
    pub pool : List Base
    pub seen : List String
    pub seen_meta : Dict String Meta

module _ (random : Random) (spell : Base → String) (corpus : List Intent) where
  open random use {State, Rate}

  unfoldable pub want_dup : Rate → List String → State → Bool × State
  want_dup d [] rng = (false, rng)
  want_dup d (s ∷ seen) rng = random.random_below d rng

  -- The branch of a base that is new.
  unfoldable pub novel : Base → Progress random → Option (Progress random × Drawn)
  unfolding pick
  novel base p = elim (pick corpus base) [
    | none ↦ none
    | some (intent, fills) ↦
        let (tokens, rng) = random.randint 60 400 p.rng in
        let m : Meta = record { intent = intent; fills = fills; completion_tokens = tokens } in
        let base_id = spell base in
        some (
          record p {
            rng = rng;
            seen = p.seen ++ base_id ∷ [];
            seen_meta = insert base_id m p.seen_meta;
          },
          record { base_id = base_id; chosen = m; phrasing = 0; should_hit = false },
        )
  ]

  -- The branch of a base that was seen.
  unfoldable pub again : Progress random → Option (Progress random × Drawn)
  unfolding get_elem?
  again p =
      let (i, rng) = random.choice (length p.seen) p.rng in
      elim (get_elem? p.seen i) [
        | none ↦ none
        | some base_id ↦ elim (lookup base_id p.seen_meta) [
          | none ↦ none
          | some m ↦
              let (k, rng') = random.randrange (length m.intent.templates) rng in
              some (
                record p { rng = rng' },
                record { base_id = base_id; chosen = m; phrasing = k; should_hit = true },
              )
        ]
      ]

  unfoldable pub draw : Rate → Progress random → Option (Progress random × Drawn)
  draw d p =
      let (dup, rng) = want_dup d p.seen p.rng in
      let p' = record p { rng = rng } in
      elim dup [
        | true ↦ again p'
        | false ↦ elim (pop_last p.pool) [
          | none ↦ again p'
          | some (pool, base) ↦ novel base (record p' { pool = pool })
        ]
      ]

  unfoldable pub items_from : String → Rate → ℕ → Progress random → Option (List WorkloadItem)
  items_from model d zero p = some []
  items_from model d (suc n) p = elim (draw d p) [
    | none ↦ none
    | some (p', drawn) ↦ elim (item_of model drawn) [
      | none ↦ none
      | some item ↦ elim (items_from model d n p') [
        | none ↦ none
        | some items ↦ some (item ∷ items)
      ]
    ]
  ]

  unfoldable pub generate_workload : ℕ → Rate → ℕ → String → Option (List WorkloadItem)
  generate_workload n d seed model =
      let (pool, rng) = random.shuffle (all_bases corpus) (random.seeded seed) in
      items_from model d n (record { rng = rng; pool = pool; seen = []; seen_meta = [] })
