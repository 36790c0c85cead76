-- ===== src/Adapter.antt =====
-- gateway/providers/openai_compat.py and gateway/providers/base.py: `OpenAICompatAdapter`, and the
-- frames of gateway/streaming/sse.py as lines. Text is code points. `Codec` has what json and
-- pydantic do: `loads` is `none` where it raises a ValueError, `validate` where it
-- raises a ValidationError, and `dump` is `model_dump(exclude_none=True)`. `Http` is what httpx makes
-- of a call. An exception that the adapter lets through is `crashed`.
pub mod Lines
pub mod Calls
use switchyard_llm.Prelude.{
  ℕ, String, string_eq, Bool, true, ◌&&◌, ◌||◌, List, [], ◌∷◌, ◌++◌, reverse, Option, none, some,
  Dict, lookup, insert, ltb, leb, nat_beq, if◌then◌else◌,
}
use switchyard_llm.Schemas.{Json, Fields, ChatCompletionRequest, ChatCompletionResponse}
use switchyard_llm.Schemas
use switchyard_llm.Tenancy.{text_beq}
use switchyard_llm.Executor.{Outcome, returned, upstream, timed_out, transport, crashed}
use switchyard_llm.Streaming.{
  Chunk, Ending, exhausted, broken, Frame, data_frame, done_frame, truthy,
}

abbrev pub Text : Type 0
Text = List ℕ

pub record Codec : Type 0 where
  pub loads : Text → Option Json
  pub dumps : Chunk → Text
  pub decode : Text → String
  pub validate : Json → Option ChatCompletionResponse
  pub dump : ChatCompletionRequest → Dict String Json

-- White space as `str.strip` takes it.
unfoldable pub is_white : ℕ → Bool
is_white c =
    (leb 9 c && leb c 13)
    || ((leb 28 c && leb c 32)
        || (nat_beq c 133
            || (nat_beq c 160
                || (nat_beq c 5760
                    || ((leb 8192 c && leb c 8202)
                        || (nat_beq c 8232
                            || (nat_beq c 8233
                                || (nat_beq c 8239 || (nat_beq c 8287 || nat_beq c 12288)))))))))

unfoldable pub lstrip : Text → Text
unfolding is_white
lstrip [] = []
lstrip (c ∷ cs) = let rest = lstrip cs in if is_white c then rest else c ∷ cs

-- `str.strip`
unfoldable pub strip : Text → Text
unfolding lstrip
strip t = reverse (lstrip (reverse (lstrip t)))

-- `line[len(prefix):]` of a line that starts with the prefix.
unfoldable pub after_prefix : Text → Text → Option Text
after_prefix [] t = some t
after_prefix (p ∷ ps) [] = none
after_prefix (p ∷ ps) (c ∷ cs) = let rest = after_prefix ps cs in if nat_beq p c then rest else none

abbrev pub data_prefix : Text
data_prefix = b'd' ∷ b'a' ∷ b't' ∷ b'a' ∷ b':' ∷ []

abbrev pub done_marker : Text
done_marker = b'[' ∷ b'D' ∷ b'O' ∷ b'N' ∷ b'E' ∷ b']' ∷ []

-- What `_parse_sse_line` returns: None, the sentinel `_DONE`, or a JSON value.
pub data Parsed : Type 0 where
  skipped terminator : Parsed
  parsed : Json → Parsed

abbrev pub loaded_as : Option Json → Parsed
loaded_as none = skipped
loaded_as (some j) = parsed j

abbrev pub parse_data : Codec → Text → Parsed
parse_data k [] = skipped
parse_data k (c ∷ cs) =
    if text_beq (c ∷ cs) done_marker then terminator else loaded_as (k.loads (c ∷ cs))

abbrev pub parse_rest : Codec → Option Text → Parsed
parse_rest k none = skipped
parse_rest k (some rest) = parse_data k (strip rest)

unfoldable pub parse_sse_line : Codec → Text → Parsed
unfolding strip after_prefix
parse_sse_line k line = parse_rest k (after_prefix data_prefix line)

-- A dict of the fields of a JSON object, and back.
abbrev pub dict_of : Fields → Dict String Json
dict_of Schemas.end = []
dict_of (Schemas.field key v fields) = (key, v) ∷ dict_of fields

abbrev pub object_of : Dict String Json → Fields
object_of [] = Schemas.end
object_of ((key, v) ∷ d) = Schemas.field key v (object_of d)

-- `isinstance(chunk, dict)`
abbrev pub chunk_of : Json → Option Chunk
chunk_of (Json.object fields) = some (dict_of fields)
chunk_of j = none

abbrev pub with_chunk : Option Chunk → List Chunk → List Chunk
with_chunk none cs = cs
with_chunk (some c) cs = c ∷ cs

abbrev pub keep_parsed : Parsed → List Chunk × Ending → List Chunk × Ending
keep_parsed skipped r = r
keep_parsed terminator r = ([], exhausted)
keep_parsed (parsed j) (cs, ending) = (with_chunk (chunk_of j) cs, ending)

-- The loop over `resp.aiter_lines()`, of lines that end as `ending` says.
unfoldable pub read_lines : Codec → List Text → Ending → List Chunk × Ending
read_lines k [] ending = ([], ending)
read_lines k (line ∷ lines) ending = keep_parsed (parse_sse_line k line) (read_lines k lines ending)

-- `resp.is_success`
abbrev pub is_success : ℕ → Bool
is_success status = leb 200 status && ltb status 300

-- A response of httpx that is read whole, and one that is streamed: its status, its body or its
-- lines, and how the lines end.
pub record HttpResponse : Type 0 where
  pub status : ℕ
  pub content : Text

-- `times_out` says whether a stream that breaks does so by a timeout.
pub record HttpStream : Type 0 where
  pub status : ℕ
  pub content : Text
  pub lines : List Text
  pub ending : Ending
  pub times_out : Bool

-- What awaiting an httpx call comes to.
pub data Http (R : Type 0) : Type 0 where
  response : R → Http R
  timeout failure : Http R

-- `{"error": {"message": …, "type": "upstream_error"}}`
abbrev pub error_body : String → Json
error_body message = Json.object (
    Schemas.field "error"
      (Json.object (
        Schemas.field "message" (Json.text message)
          (Schemas.field "type" (Json.text "upstream_error") Schemas.end)))
      Schemas.end)

-- The body of an `UpstreamError`.
unfoldable pub upstream_body : Codec → Text → Json
upstream_body k content = elim (k.loads content) [
  | none ↦ error_body (k.decode content)
  | some body ↦ body
]

abbrev pub validated : Option ChatCompletionResponse → Outcome ChatCompletionResponse
validated none = crashed
validated (some r) = returned r

abbrev pub validate_body : Codec → Option Json → Outcome ChatCompletionResponse
validate_body k none = crashed
validate_body k (some body) = validated (k.validate body)

-- `chat_completion`, of the response to the post.
unfoldable pub chat_completion : Codec → Http HttpResponse → Outcome ChatCompletionResponse
unfolding upstream_body
chat_completion k timeout = timed_out
chat_completion k failure = transport
chat_completion k (response r) =
    if is_success r.status
    then validate_body k (k.loads r.content)
    else upstream r.status (upstream_body k r.content)

abbrev pub first_of : List Chunk → Option Chunk
first_of [] = none
first_of (c ∷ cs) = some c

abbrev pub rest_of : List Chunk → List Chunk
rest_of [] = []
rest_of (c ∷ cs) = cs

-- A generator that breaks before its first chunk raises at the first `__anext__`.
abbrev pub opened_as : Bool → List Chunk × Ending → Outcome (Option Chunk × List Chunk × Ending)
opened_as times_out ([], broken) = if times_out then timed_out else transport
opened_as times_out ([], exhausted) = returned (none, [], exhausted)
opened_as times_out (c ∷ cs, ending) = returned (some c, cs, ending)

-- `dict(payload.get("stream_options") or {})`; `none` is the exception of `dict`.
abbrev pub options_of : Option Json → Option (Dict String Json)
options_of none = some []
options_of (some (Json.object fields)) = some (dict_of fields)
options_of (some j) = if truthy j then none else some []

-- The body of the streaming post.
unfoldable pub stream_payload : Codec → ChatCompletionRequest → Option (Dict String Json)
stream_payload k request =
    let payload = insert "stream" (Json.boolean true) (k.dump request) in
    elim (options_of (lookup "stream_options" payload)) [
      | none ↦ none
      | some options ↦ some (
          insert "stream_options"
            (Json.object (object_of (insert "include_usage" (Json.boolean true) options))) payload)
    ]

-- What the response to the streaming post comes to.
unfoldable pub streamed_as :
    Codec
    → (List Chunk → Ending → List Chunk)
    → Http HttpStream
    → Outcome (Option Chunk × List Chunk × Ending)
unfolding upstream_body read_lines
streamed_as k quirk timeout = timed_out
streamed_as k quirk failure = transport
streamed_as k quirk (response r) =
    let read = read_lines k r.lines r.ending in
    if is_success r.status
    then opened_as r.times_out (quirk read.0 read.1, read.1)
    else upstream r.status (upstream_body k r.content)

-- The first `__anext__` of `stream_chat_completion`, with what the generator has left; `post` sends
-- the body, and the adapter makes of the lines' chunks what `quirk` does.
unfoldable pub stream_chat_completion :
    Codec
    → (List Chunk → Ending → List Chunk)
    → (Dict String Json → Http HttpStream)
    → ChatCompletionRequest
    → Outcome (Option Chunk × List Chunk × Ending)
unfolding stream_payload streamed_as
stream_chat_completion k quirk post request = elim (stream_payload k request) [
  | none ↦ crashed
  | some payload ↦ streamed_as k quirk (post payload)
]

-- `_sse`, and the terminator, as the lines that `aiter_lines` makes of the bytes.
unfoldable pub frame_lines : Codec → Frame → List Text
frame_lines k (data_frame chunk) = (data_prefix ++ 32 ∷ k.dumps chunk) ∷ [] ∷ []
frame_lines k done_frame = (data_prefix ++ 32 ∷ done_marker) ∷ [] ∷ []
