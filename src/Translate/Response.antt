-- ===== src/Translate/Response.antt =====
-- src/translate/response.rs and src/translate/streaming.rs: the answers of Bedrock, made to look
-- like those of Anthropic. How `serde_json` prints a value is a parameter.
pub mod Kept
mod Tests
use claude_code_aws_gateway.Prelude.{Option, none, some, List, [], ◌∷◌, ◌++◌}
use claude_code_aws_gateway.Prelude.Text.{Text, codes}
use claude_code_aws_gateway.Json.{
  Json, null, boolean, number, string, array, object, Fields, get, put, put_new, delete,
}
use claude_code_aws_gateway.Json.Access.{as_str, and_then, or_else, update, in_object}
use claude_code_aws_gateway.Translate.Models.{ModelCache}
use claude_code_aws_gateway.Translate.Models.Reverse.{bedrock_to_anthropic}

abbrev pub zero_number : Json
zero_number = number (codes "0")

-- The fields that a client looks for.
unfoldable pub with_cache_fields : Fields → Fields
with_cache_fields usage =
    put_new (codes "cache_read_input_tokens") zero_number
      (put_new (codes "cache_creation_input_tokens") zero_number usage)

unfoldable pub normalize_usage : Fields → Fields
unfolding with_cache_fields
normalize_usage fs = update (codes "usage") (in_object with_cache_fields) fs

module _ (original_model : Text) (model_cache : Option (Option ModelCache)) where
  abbrev pub response_model : Fields → Text
  response_model fs = or_else (and_then (get (codes "model") fs) as_str) original_model

  unfoldable pub normalize_response : Json → Json
  unfolding normalize_usage bedrock_to_anthropic
  normalize_response response =
      in_object
        (λ fs.
          normalize_usage (
            put (codes "model") (string (bedrock_to_anthropic (response_model fs) model_cache)) fs))
        response

-- The model of a message is only replaced where there is one.
module _ (model_cache : Option (Option ModelCache)) where
  abbrev pub set_model : Option Text → Fields → Fields
  set_model none fs = fs
  set_model (some model) fs =
      put (codes "model") (string (bedrock_to_anthropic model model_cache)) fs

  unfoldable pub replace_model : Fields → Fields
  replace_model fs = set_model (and_then (get (codes "model") fs) as_str) fs

  unfoldable pub normalize_message : Fields → Fields
  unfolding normalize_usage replace_model
  normalize_message fs = normalize_usage (replace_model fs)

  unfoldable pub normalize_stream_event : Json → Json
  unfolding normalize_message normalize_usage
  normalize_stream_event event =
      in_object
        (λ fs.
          delete (codes "amazon-bedrock-invocationMetrics")
            (normalize_usage (update (codes "message") (in_object normalize_message) fs)))
        event

module _ (print : Json → Text) where
  unfoldable pub format_sse_event : Text → Json → Text
  format_sse_event event_type value =
      codes "event: " ++ event_type ++ (10 ∷ codes "data: ") ++ print value ++ (10 ∷ 10 ∷ [])
