-- ===== src/Schemas.antt =====
-- gateway/schemas.py and gateway/routing/policies.py (`Target`): the canonical request and response.
-- The fields that a model does not declare are kept (`extra="allow"`), as `extra`.
use switchyard_llm.Prelude.{ℕ, String, Bool, List, Option, Dict}
use switchyard_llm.Prelude.Int.{ℤ}

-- A parsed JSON value (`Any`). A number that is not a count is kept as its text.
mutual
  pub data Json : Type 0 where
    null : Json
    boolean : Bool → Json
    count : ℕ → Json
    number : String → Json
    text : String → Json
    array : Items → Json
    object : Fields → Json

  pub data Items : Type 0 where
    nil : Items
    cons : Json → Items → Items

  pub data Fields : Type 0 where
    end : Fields
    field : String → Json → Fields → Fields

-- `null` is the default content, None.
pub record Message : Type 0 where
  pub role : String
  pub content : Json
  pub extra : Dict String Json

pub record ChatCompletionRequest : Type 0 where
  pub model : String
  pub messages : List Message
  pub stream : Bool
  pub temperature : Json
  pub top_p : Json
  pub max_tokens : Option ℤ
  pub n : Option ℤ
  pub stop : Json
  pub extra : Dict String Json

pub record Choice : Type 0 where
  pub index : ℕ
  pub message : Message
  pub finish_reason : Option String

-- The token counts that a provider reports.
pub record Usage : Type 0 where
  pub prompt_tokens : ℕ
  pub completion_tokens : ℕ
  pub total_tokens : ℕ

pub record ChatCompletionResponse : Type 0 where
  pub id : String
  pub object : String
  pub created : ℕ
  pub model : String
  pub choices : List Choice
  pub usage : Option Usage

-- `Target` of gateway/routing/policies.py, with its weight in whole units.
pub record Target : Type 0 where
  pub provider : String
  pub model : String
  pub weight : ℕ
