-- ===== src/Cache/Keys.antt =====
-- gateway/cache/semantic_cache.py: `build_query_text` and `build_scope_key`. `dumps` and
-- `dumps_scope` are `json.dumps` with sorted keys, of a content and of the object of the scope.
use switchyard_llm.Prelude.{String, string_eq, List, [], ◌∷◌, Option, none, some, lookup}
use switchyard_llm.Prelude.Int.{ℤ}
use switchyard_llm.Schemas.{
  Json, null, boolean, count, number, text, array, object, Message, ChatCompletionRequest,
}
use Prim.Native.String.{◌++◌ as append, ◌∷◌ as cons}

-- The model and `_SCOPE_PARAMS`; `getattr(request, "seed", None)` finds a field that is not declared.
pub record ScopeKey : Type 0 where
  pub model : String
  pub temperature : Json
  pub top_p : Json
  pub max_tokens : Option ℤ
  pub stop : Json
  pub n : Option ℤ
  pub seed : Json

abbrev pub or_null : Option Json → Json
or_null none = null
or_null (some j) = j

unfoldable pub scope_params : ChatCompletionRequest → ScopeKey
scope_params request = record {
  model = request.model;
  temperature = request.temperature;
  top_p = request.top_p;
  max_tokens = request.max_tokens;
  stop = request.stop;
  n = request.n;
  seed = or_null (lookup "seed" request.extra);
}

unfoldable pub build_scope_key : (ScopeKey → String) → ChatCompletionRequest → String
build_scope_key dumps_scope request = dumps_scope (scope_params request)

unfoldable pub content_text : (Json → String) → Json → String
content_text dumps (text t) = t
content_text dumps null = dumps null
content_text dumps (boolean b) = dumps (boolean b)
content_text dumps (count n) = dumps (count n)
content_text dumps (number t) = dumps (number t)
content_text dumps (array js) = dumps (array js)
content_text dumps (object fs) = dumps (object fs)

unfoldable pub message_text : (Json → String) → Message → String
message_text dumps m = append m.role (append ": " (content_text dumps m.content))

-- `"\n".join(parts)`
unfoldable pub join_lines : List String → String
join_lines [] = ""
join_lines (t ∷ []) = t
join_lines (t ∷ u ∷ ts) = append t (append "\n" (join_lines (u ∷ ts)))

unfoldable pub message_texts : (Json → String) → List Message → List String
message_texts dumps [] = []
message_texts dumps (m ∷ ms) = message_text dumps m ∷ message_texts dumps ms

unfoldable pub build_query_text : (Json → String) → ChatCompletionRequest → String
build_query_text dumps request = join_lines (message_texts dumps request.messages)

-- `f"{tenant.id}\x1f{scope}"`
unfoldable pub tenant_scope : String → String → String
tenant_scope id scope = append id (cons "\u{1f}" scope)
