-- ===== src/MockUpstream.antt =====
-- bench/mock_upstream.py: the two backends of one server, and the switch that takes backend `a` down.
-- A reply is a status and a JSON body. `serve` is what the server makes of a post to a path; FastAPI
-- answers 404 at a path that has no handler.
use Prim.Native.Char.{code}
use switchyard_llm.Prelude.{
  List, [], ◌∷◌, ℕ, String, string_eq, Bool, true, none, some, Dict, lookup, ◌==◌, if◌then◌else◌,
}
use switchyard_llm.Tenancy.{text_beq}
use switchyard_llm.Schemas.{Json, Fields, field, end, nil, cons}

-- `_state`
pub record ServerState : Type 0 where
  pub a_healthy : Bool

abbrev pub initial : ServerState
initial = record { a_healthy = true }

abbrev pub counts : ℕ → ℕ → ℕ → Fields
counts prompt completion total = field "prompt_tokens" (Json.count prompt) (
    field "completion_tokens" (Json.count completion) (field "total_tokens" (Json.count total) end))

-- `_completion`, with the text of its answer.
abbrev pub completion : Json → String → String → Json
completion model id content = Json.object (
    field "id" (Json.text id) (
      field "object" (Json.text "chat.completion") (
        field "created" (Json.count 0) (
          field "model" model (
            field "choices"
              (Json.array (
                cons
                  (Json.object (
                    field "index" (Json.count 0) (
                      field "message"
                        (Json.object (
                          field "role" (Json.text "assistant")
                            (field "content" (Json.text content) end)))
                        (field "finish_reason" (Json.text "stop") end))))
                  nil))
              (field "usage" (Json.object (counts 8 4 12)) end))))))

abbrev pub completion_a : Json → Json
completion_a model = completion model "mock-a" "mock response from a"

abbrev pub completion_b : Json → Json
completion_b model = completion model "mock-b" "mock response from b"

-- The body of the 503.
abbrev pub down_body : Json
down_body = Json.object (
    field "error"
      (Json.object (
        field "message" (Json.text "backend A is down")
          (field "type" (Json.text "server_error") end)))
      end)

-- `body.get("model", "mock-model")`
unfoldable pub model_of : Dict String Json → Json
model_of body = elim (lookup "model" body) [ none ↦ Json.text "mock-model" | some j ↦ j ]

unfoldable pub backend_a : ServerState → Dict String Json → ℕ × Json
backend_a s body = if s.a_healthy then (200, completion_a (model_of body)) else (503, down_body)

unfoldable pub backend_b : Dict String Json → ℕ × Json
backend_b body = (200, completion_b (model_of body))

-- `control_a`, with its reply.
unfoldable pub control_a : String → ServerState → ServerState × Bool
control_a action s = (record { a_healthy = action == "ok" }, action == "ok")

-- `health`
unfoldable pub health : ServerState → Bool × Bool
health s = (true, s.a_healthy)

-- The code points of a text.
abbrev pub codes : String → List ℕ
codes String.[] = []
codes (String.◌∷◌ c s) = code c ∷ codes s

-- A post to one of the backends' paths; another path has no completion.
unfoldable pub serve : ServerState → List ℕ → Dict String Json → ℕ × Json
unfolding backend_a backend_b
serve s path body =
    if text_beq path (codes "/a/v1/chat/completions")
    then backend_a s body
    else (if text_beq path (codes "/b/v1/chat/completions")
        then backend_b body
        else (404, Json.null))
