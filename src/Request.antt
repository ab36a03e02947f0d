-- ===== src/Request.antt =====
-- The canonical chat request of src/request.rs and its errors. The decoder is in the modules
-- below.
mod Tests
pub mod Outcome
pub mod Shape
pub mod Conversation
pub mod Tools
pub mod Turns
pub mod Top
pub mod Parse
pub mod Route
pub mod Canonical
use nano_llm.Common.{ℕ, Text, Bool, Option, List}
use nano_llm.Float.{F64}
use nano_llm.Json.{Fields}

pub data ToolChoice : Type 0 where
  none auto required : ToolChoice
  named : Text → ToolChoice

pub record CanonicalRequest : Type 0 where
  pub fields : Fields
  pub model : Text
  pub stream : Bool
  pub include_usage : Bool
  pub max_tokens : Option ℕ
  pub temperature : Option F64
  pub top_p : Option F64
  pub stop : Option (List Text)
  pub tool_choice : ToolChoice
  pub instruction : Option Text

pub data DecodeError : Type 0 where
  invalid_json : (message : Text) → DecodeError
  validation : (param : Option Text) (message : Text) → DecodeError
