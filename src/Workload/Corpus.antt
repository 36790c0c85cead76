-- ===== src/Workload/Corpus.antt =====
-- bench/workload.py: the fills and the intents of the synthetic workload. A template is the list of
-- its pieces, a `{name}` being a slot.
use switchyard_llm.Prelude.{String, List, [], ◌∷◌, ◌++◌, map, Dict}

pub data Piece : Type 0 where
  lit slot : String → Piece

abbrev pub Template : Type 0
Template = List Piece

abbrev pub Row : Type 0
Row = Dict String String

pub record Intent : Type 0 where
  pub templates : List Template
  pub fills : List Row

abbrev pub row_of : String → String → Row
row_of name value = (name, value) ∷ []

abbrev pub word_row : String → String → Row
word_row word lang = ("word", word) ∷ ("lang", lang) ∷ []

abbrev pub pair_row : String × String → Row
pair_row (a, b) = ("a", a) ∷ ("b", b) ∷ []

abbrev pub countries : List String
countries =
    "France" ∷ "Germany" ∷ "Japan" ∷ "Brazil" ∷ "Canada" ∷ "Egypt" ∷ "Kenya" ∷ "Norway" ∷ "Peru"
    ∷ "India" ∷ "Italy" ∷ "Spain" ∷ "Chile" ∷ "Ghana" ∷ "Nepal" ∷ "Cuba" ∷ "Iran" ∷ "Iraq" ∷ "Mali"
    ∷ "Sweden" ∷ "Poland" ∷ "Turkey" ∷ "Greece" ∷ "Portugal" ∷ "Vietnam" ∷ "Thailand" ∷ "Morocco"
    ∷ "Bolivia" ∷ "Hungary" ∷ "Finland" ∷ []

abbrev pub concepts : List String
concepts =
    "photosynthesis" ∷ "inflation" ∷ "recursion" ∷ "entropy" ∷ "osmosis" ∷ "gravity" ∷ "democracy"
    ∷ "mitosis" ∷ "encryption" ∷ "evolution" ∷ "capitalism" ∷ "refraction" ∷ "fermentation"
    ∷ "viscosity" ∷ "plate tectonics" ∷ "antibiotics" ∷ "inertia" ∷ "catalysis" ∷ "sonar" ∷ "radar"
    ∷ "diffusion" ∷ "combustion" ∷ "condensation" ∷ "erosion" ∷ "magnetism" ∷ "photoelectric effect"
    ∷ "natural selection" ∷ "supply and demand" ∷ "compound interest" ∷ "machine learning" ∷ []

abbrev pub tasks : List String
tasks =
    "bake sourdough bread" ∷ "change a flat tire" ∷ "learn to swim" ∷ "write a resume"
    ∷ "plant tomatoes" ∷ "tie a bowline knot" ∷ "brew espresso" ∷ "train for a marathon"
    ∷ "set up a VPN" ∷ "compost at home" ∷ "fix a leaky faucet" ∷ "start meditating"
    ∷ "format a hard drive" ∷ "grow basil indoors" ∷ "start journaling" ∷ "read sheet music"
    ∷ "iron a dress shirt" ∷ "jump-start a car" ∷ "sharpen a kitchen knife" ∷ "prune a rose bush"
    ∷ []

abbrev pub words : List String
words =
    "hello" ∷ "thank you" ∷ "goodbye" ∷ "water" ∷ "friend" ∷ "love" ∷ "morning" ∷ "yes" ∷ "please"
    ∷ "help" ∷ "cat" ∷ "dog" ∷ "book" ∷ "house" ∷ "sun" ∷ "moon" ∷ "tree" ∷ "river" ∷ "mountain"
    ∷ "coffee" ∷ "bread" ∷ "music" ∷ "family" ∷ "school" ∷ "money" ∷ "time" ∷ "night" ∷ "food"
    ∷ "road" ∷ "city" ∷ "peace" ∷ "dream" ∷ "fire" ∷ "wind" ∷ "star" ∷ "flower" ∷ "bird" ∷ "snow"
    ∷ "rain" ∷ "ocean" ∷ []

abbrev pub langs : List String
langs =
    "French" ∷ "Spanish" ∷ "German" ∷ "Japanese" ∷ "Italian" ∷ "Hindi" ∷ "Portuguese" ∷ "Dutch"
    ∷ "Swedish" ∷ "Korean" ∷ "Polish" ∷ "Greek" ∷ []

abbrev pub topics : List String
topics =
    "the ocean" ∷ "autumn leaves" ∷ "a thunderstorm" ∷ "city lights" ∷ "a mountain" ∷ "the moon"
    ∷ "old books" ∷ "morning coffee" ∷ "a river" ∷ "winter snow" ∷ "fireflies" ∷ "the desert"
    ∷ "a lighthouse" ∷ "spring rain" ∷ "a quiet forest" ∷ []

abbrev pub pairs : List (String × String)
pairs =
    ("TCP", "UDP")
    ∷ ("RAM", "a hard drive")
    ∷ ("HTTP", "HTTPS")
    ∷ ("a virus", "a bacterium")
    ∷ ("weather", "climate")
    ∷ ("stocks", "bonds")
    ∷ ("an alligator", "a crocodile")
    ∷ ("espresso", "drip coffee")
    ∷ ("RNA", "DNA")
    ∷ ("a CPU", "a GPU")
    ∷ ("mass", "weight")
    ∷ ("speed", "velocity")
    ∷ ("a comet", "an asteroid")
    ∷ ("fog", "mist")
    ∷ ("jam", "jelly")
    ∷ []

abbrev pub capital_questions : List Template
capital_questions =
    (lit "What is the capital of " ∷ slot "place" ∷ lit "?" ∷ [])
    ∷ (lit "Which city is the capital of " ∷ slot "place" ∷ lit "?" ∷ [])
    ∷ (lit "Tell me the capital city of " ∷ slot "place" ∷ lit "." ∷ [])
    ∷ (lit "What's " ∷ slot "place" ∷ lit "'s capital?" ∷ [])
    ∷ []

abbrev pub concept_questions : List Template
concept_questions =
    (lit "What is " ∷ slot "thing" ∷ lit "?" ∷ [])
    ∷ (lit "Can you explain what " ∷ slot "thing" ∷ lit " is?" ∷ [])
    ∷ (lit "Define " ∷ slot "thing" ∷ lit "." ∷ [])
    ∷ (lit "Give me a simple definition of " ∷ slot "thing" ∷ lit "." ∷ [])
    ∷ []

abbrev pub task_questions : List Template
task_questions =
    (lit "How do I " ∷ slot "task" ∷ lit "?" ∷ [])
    ∷ (lit "What's the best way to " ∷ slot "task" ∷ lit "?" ∷ [])
    ∷ (lit "What are the steps to " ∷ slot "task" ∷ lit "?" ∷ [])
    ∷ (lit "How can I " ∷ slot "task" ∷ lit "?" ∷ [])
    ∷ []

abbrev pub word_questions : List Template
word_questions =
    (lit "How do you say '" ∷ slot "word" ∷ lit "' in " ∷ slot "lang" ∷ lit "?" ∷ [])
    ∷ (lit "Translate '" ∷ slot "word" ∷ lit "' into " ∷ slot "lang" ∷ lit "." ∷ [])
    ∷ (lit "What is '" ∷ slot "word" ∷ lit "' in " ∷ slot "lang" ∷ lit "?" ∷ [])
    ∷ (lit "Give me the " ∷ slot "lang" ∷ lit " word for '" ∷ slot "word" ∷ lit "'." ∷ [])
    ∷ []

abbrev pub pair_questions : List Template
pair_questions =
    (lit "What's the difference between " ∷ slot "a" ∷ lit " and " ∷ slot "b" ∷ lit "?" ∷ [])
    ∷ (lit "How does " ∷ slot "a" ∷ lit " differ from " ∷ slot "b" ∷ lit "?" ∷ [])
    ∷ (lit "Compare " ∷ slot "a" ∷ lit " and " ∷ slot "b" ∷ lit "." ∷ [])
    ∷ (slot "a" ∷ lit " vs " ∷ slot "b" ∷ lit ": what's the difference?" ∷ [])
    ∷ []

abbrev pub poem_questions : List Template
poem_questions =
    (lit "Write a short poem about " ∷ slot "topic" ∷ lit "." ∷ [])
    ∷ (lit "Compose a brief poem on " ∷ slot "topic" ∷ lit "." ∷ [])
    ∷ (lit "Give me a little poem about " ∷ slot "topic" ∷ lit "." ∷ [])
    ∷ (lit "Can you write a few lines of poetry about " ∷ slot "topic" ∷ lit "?" ∷ [])
    ∷ []

abbrev pub word_rows : List String → List Row
word_rows [] = []
word_rows (w ∷ ws) = map (word_row w) langs ++ word_rows ws

-- `_INTENTS`
abbrev pub intents : List Intent
intents =
    record { templates = capital_questions; fills = map (row_of "place") countries }
    ∷ record { templates = concept_questions; fills = map (row_of "thing") concepts }
    ∷ record { templates = task_questions; fills = map (row_of "task") tasks }
    ∷ record { templates = word_questions; fills = word_rows words }
    ∷ record { templates = pair_questions; fills = map pair_row pairs }
    ∷ record { templates = poem_questions; fills = map (row_of "topic") topics }
    ∷ []
