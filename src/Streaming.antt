-- ===== src/Streaming.antt =====
-- gateway/streaming/sse.py and gateway/providers/gemini.py: the chunks that go to the client.
-- A chunk is a JSON object. An upstream iterator is the list of its chunks and how it ends. A client
-- takes a number of frames and then disconnects, or stays: `none`. A generator that is closed before
-- its first frame is asked for runs nothing, so a client that takes none leaves no event.
pub mod Frames
pub mod Lookahead
use switchyard_llm.Prelude.{
  ℕ, zero, suc, ◌-◌, String, string_eq, Bool, true, false, not, List, [], ◌∷◌, ◌++◌, map, Option,
  none, some, Dict, lookup, nat_beq, ltb, ◌==◌, ◌||◌, if◌then◌else◌,
}
use switchyard_llm.Schemas.{Json, Items, Fields}
use switchyard_llm.Schemas

abbrev pub Chunk : Type 0
Chunk = Dict String Json

-- `bool` of a JSON value; a number that is no count is its `repr`.
unfoldable pub truthy : Json → Bool
truthy Json.null = false
truthy (Json.boolean b) = b
truthy (Json.count n) = ltb 0 n
truthy (Json.number r) = not ((r == "0.0") || (r == "-0.0"))
truthy (Json.text t) = not (t == "")
truthy (Json.array Schemas.nil) = false
truthy (Json.array (Schemas.cons x xs)) = true
truthy (Json.object Schemas.end) = false
truthy (Json.object (Schemas.field k v fs)) = true

-- `chunk.get("usage") or usage`, None being `none`.
unfoldable pub tap : Chunk → Option Json → Option Json
unfolding truthy
tap chunk usage = elim (lookup "usage" chunk) [
  | none ↦ usage
  | some u ↦ if truthy u then some u else usage
]

pub data Ending : Type 0 where
  exhausted broken : Ending

pub data Frame : Type 0 where
  data_frame : Chunk → Frame
  done_frame : Frame

-- What the generator does: a frame, the `aclose` of the upstream, the call of `on_finish`.
pub data Event : Type 0 where
  sent : Frame → Event
  closed : Event
  finished : Option Json → Bool → Event

pub record Stream : Type 0 where
  pub usage : Option Json
  pub completed : Bool
  pub frames : List Frame
  pub takes : Option ℕ

-- A `yield`, and whether the generator is resumed.
unfoldable pub yield_frame : Frame → Stream → Stream × Bool
yield_frame frame s = elim s.takes [
  | none ↦ (record s { frames = s.frames ++ frame ∷ [] }, true)
  | some n ↦ (record s { frames = s.frames ++ frame ∷ []; takes = some (n - 1) }, ltb 1 n)
]

unfoldable pub send_chunk : Chunk → Stream → Stream × Bool
unfolding tap yield_frame
send_chunk chunk s = yield_frame (data_frame chunk) (record s { usage = tap chunk s.usage })

-- The `async for` loop and what follows it.
unfoldable pub forward : List Chunk → Ending → Stream → Stream
unfolding send_chunk yield_frame
forward [] broken s = s
forward [] exhausted s =
    let (s', resumed) = yield_frame done_frame s in
    if resumed then record s' { completed = true } else s'
forward (chunk ∷ chunks) ending s =
    let (s', resumed) = send_chunk chunk s in
    let rest = forward chunks ending s' in if resumed then rest else s'

-- The body of the `try`.
unfoldable pub body : Option Chunk → List Chunk → Ending → Stream → Stream
unfolding forward
body none chunks ending s = forward chunks ending s
body (some first) chunks ending s =
    let (s', resumed) = send_chunk first s in
    let rest = forward chunks ending s' in if resumed then rest else s'

abbrev pub fresh_stream : Option ℕ → Stream
fresh_stream takes = record { usage = none; completed = false; frames = []; takes = takes }

-- The body, then the `finally`.
unfoldable pub conclude : Stream → List Event
conclude s =
    map sent s.frames ++ closed ∷ finished (if s.completed then s.usage else none) s.completed ∷ []

abbrev pub unstarted : Option ℕ → Bool
unstarted none = false
unstarted (some n) = nat_beq n 0

unfoldable pub stream_sse : Option Chunk → List Chunk → Ending → Option ℕ → List Event
unfolding conclude body
stream_sse first rest ending takes =
    if unstarted takes then [] else conclude (body first rest ending (fresh_stream takes))

-- `prev.pop("usage", None)`: keys are unique in a dict.
unfoldable pub without_usage : Chunk → Chunk
without_usage [] = []
without_usage ((k, v) ∷ m) =
    let rest = without_usage m in if k == "usage" then rest else (k, v) ∷ rest

-- The loop of `GeminiAdapter.stream_chat_completion`, with the chunk held back.
unfoldable pub lookahead : Option Chunk → List Chunk → Ending → List Chunk
unfolding without_usage
lookahead none [] ending = []
lookahead (some prev) [] broken = []
lookahead (some prev) [] exhausted = prev ∷ []
lookahead none (chunk ∷ chunks) ending = lookahead (some chunk) chunks ending
lookahead (some prev) (chunk ∷ chunks) ending =
    without_usage prev ∷ lookahead (some chunk) chunks ending

unfoldable pub gemini_stream : List Chunk → Ending → List Chunk
unfolding lookahead
gemini_stream chunks ending = lookahead none chunks ending
