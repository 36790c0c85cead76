-- ===== src/Adapter/Lines.antt =====
-- openai_compat.py and sse.py: the chunks that a gateway streams are the chunks that an adapter
-- reads from the lines.
use mathlib.Core.List.{reverse-append, reverse-reverse}
use switchyard_llm.Prelude.{
  ◌≡◌, refl, sym, ap, ◌∙◌, List, [], ◌∷◌, ◌++◌, reverse, some, Dict, String, All,
}
use switchyard_llm.Schemas.{Json}
use switchyard_llm.Streaming.{Chunk, Ending, exhausted, Frame}
use switchyard_llm.Streaming.Frames.{all_frames}
use switchyard_llm.Adapter.{
  Text, Codec, is_white, lstrip, strip, after_prefix, data_prefix, done_marker, skipped, terminator,
  parsed, parse_sse_line, dict_of, object_of, read_lines, frame_lines,
}

pub dict_of-object_of : (d : Dict String Json) → dict_of (object_of d) ≡ d
dict_of-object_of [] = refl
dict_of-object_of ((key, v) ∷ d) = ap (λ (l : Dict String Json). (key, v) ∷ l) (dict_of-object_of d)

-- `json.dumps` of a chunk stands in braces, and `json.loads` reads it back.
pub record IsFaithful (k : Codec) (c : Chunk) : Type 0 where
  pub braced : (inner : Text) × (k.dumps c ≡ b'{' ∷ (inner ++ b'}' ∷ []))
  pub read_back : k.loads (k.dumps c) ≡ some (Json.object (object_of c))

strip_braced :
    (inner : Text) → strip (32 ∷ b'{' ∷ (inner ++ b'}' ∷ [])) ≡ b'{' ∷ (inner ++ b'}' ∷ [])
unfolding strip lstrip is_white
strip_braced inner =
    let t : Text = b'{' ∷ inner in
    let turned : reverse (t ++ b'}' ∷ []) ≡ b'}' ∷ reverse t = reverse-append t (b'}' ∷ []) in
    ap (λ (x : Text). reverse (lstrip x)) turned
    ∙ ap reverse (sym turned)
    ∙ reverse-reverse (t ++ b'}' ∷ [])

unfoldable pub all_lines : Codec → List Frame → List Text
all_lines k [] = []
all_lines k (f ∷ fs) = frame_lines k f ++ all_lines k fs

parse_frame :
    (k : Codec)
    → (c : Chunk) → IsFaithful k c
    → parse_sse_line k (data_prefix ++ 32 ∷ k.dumps c) ≡ parsed (Json.object (object_of c))
unfolding parse_sse_line after_prefix
parse_frame k c faithful =
    let (inner, shape) = faithful.braced in
    let back : k.loads (b'{' ∷ (inner ++ b'}' ∷ [])) ≡ some (Json.object (object_of c)) =
      rw (← shape) (faithful.read_back) in
    rw (shape, strip_braced inner, back) refl

parse_terminator : (k : Codec) → parse_sse_line k (data_prefix ++ 32 ∷ done_marker) ≡ terminator
unfolding parse_sse_line after_prefix strip lstrip is_white
parse_terminator k = refl

parse_blank : (k : Codec) → parse_sse_line k [] ≡ skipped
unfolding parse_sse_line after_prefix
parse_blank k = refl

-- When `json.dumps` writes each chunk in braces and `json.loads` reads it back: from the lines of all
-- the frames of a stream that came to its end, whatever lines follow them and however those end, the
-- adapter reads exactly the chunks of the stream, to their end.
pub read_lines-frames :
    (k : Codec) (chunks : List Chunk) (more : List Text) (ending : Ending)
    → All (IsFaithful k) chunks
    → read_lines k (all_lines k (all_frames chunks exhausted) ++ more) ending ≡ (chunks, exhausted)
unfolding read_lines frame_lines all_lines
read_lines-frames k [] more ending faithful = rw (parse_terminator k) refl
read_lines-frames k (c ∷ cs) more ending (first, faithful) =
    rw
      (
        parse_frame k c first,
        parse_blank k,
        read_lines-frames k cs more ending faithful,
        dict_of-object_of c,
      )
      refl
