-- ===== src/Translate/Request.antt =====
-- src/translate/request.rs: a request of Claude Code, translated to one of Bedrock. A float is only
-- passed on, as its text.
pub mod Accepted
pub mod Sendable
mod Tests
use claude_code_aws_gateway.Prelude.{
  ℕ, Bool, ◌||◌, Option, none, some, List, [], ◌∷◌, map, ◌==◌, if◌then◌else◌,
}
use claude_code_aws_gateway.Prelude.Text.{Text, codes, text_eq}
use claude_code_aws_gateway.Prelude.Assoc.{map_option}
use claude_code_aws_gateway.Json.{
  Json, null, boolean, number, string, array, object, Items, nil, cons, Fields, end, field,
}
use claude_code_aws_gateway.Json.Access.{or_else}
use claude_code_aws_gateway.Translate.Models.{
  ModelCache, Looked, panics, missing, found, anthropic_to_bedrock,
}
use claude_code_aws_gateway.Websearch.{WebSearchContext, extract_web_search_tool_with_mode}

pub record AnthropicRequest : Type 0 where
  pub model : Text
  pub max_tokens : Option ℕ
  pub messages : List Json
  pub system : Option Json
  pub stream : Option Bool
  pub thinking : Option Json
  pub tools : Option (List Json)
  pub tool_choice : Option Json
  pub metadata : Option Json
  pub stop_sequences : Option (List Text)
  pub temperature : Option Text
  pub top_p : Option Text
  pub top_k : Option ℕ
  pub mcp_servers : Option (List Json)
  pub anthropic_beta : List Text

pub record BedrockRequest : Type 0 where
  pub anthropic_version : Text
  pub anthropic_beta : List Text
  pub max_tokens : ℕ
  pub messages : List Json
  pub system : Option Json
  pub thinking : Option Json
  pub tools : Option (List Json)
  pub tool_choice : Option Json
  pub metadata : Option Json
  pub stop_sequences : Option (List Text)
  pub temperature : Option Text
  pub top_p : Option Text
  pub top_k : Option ℕ

abbrev pub cache_control : Text
cache_control = codes "cache_control"

-- `ALLOWED_CACHE_CONTROL_FIELDS.contains(key)`
abbrev pub is_allowed : Text → Bool
is_allowed k = k == codes "type" || k == codes "ttl"

-- The fields of an object under `cache_control` are dropped on the way to its values, which are
-- sanitised like all others.
unfoldable mutual
  pub sanitize_cache_control : Json → Json
  sanitize_cache_control null = null
  sanitize_cache_control (boolean b) = boolean b
  sanitize_cache_control (number n) = number n
  sanitize_cache_control (string s) = string s
  sanitize_cache_control (array xs) = array (sanitize_items xs)
  sanitize_cache_control (object fs) = object (sanitize_fields fs)

  pub sanitize_items : Items → Items
  sanitize_items nil = nil
  sanitize_items (cons x xs) = cons (sanitize_cache_control x) (sanitize_items xs)

  pub sanitize_fields : Fields → Fields
  sanitize_fields end = end
  sanitize_fields (field k v fs) =
      let rest = sanitize_fields fs in
      let restricted = sanitize_control v in
      let plain = sanitize_cache_control v in
      field k (if k == cache_control then restricted else plain) rest

  -- The value under `cache_control`.
  pub sanitize_control : Json → Json
  sanitize_control null = null
  sanitize_control (boolean b) = boolean b
  sanitize_control (number n) = number n
  sanitize_control (string s) = string s
  sanitize_control (array xs) = array (sanitize_items xs)
  sanitize_control (object fs) = object (sanitize_allowed fs)

  pub sanitize_allowed : Fields → Fields
  sanitize_allowed end = end
  sanitize_allowed (field k v fs) =
      let rest = sanitize_allowed fs in
      let plain = sanitize_cache_control v in if is_allowed k then field k plain rest else rest

abbrev pub with_model :
    BedrockRequest
    → Option WebSearchContext
    → Looked
    → Option (Text × BedrockRequest × Option WebSearchContext)
with_model body ctx panics = none
with_model body ctx missing = none
with_model body ctx (found model) = some (model, body, ctx)

abbrev pub body_of : AnthropicRequest → Option (List Json) → BedrockRequest
body_of req tools = record {
  anthropic_version = codes "bedrock-2023-05-31";
  anthropic_beta = req.anthropic_beta;
  max_tokens = or_else req.max_tokens 8096;
  messages = map sanitize_cache_control req.messages;
  system = map_option sanitize_cache_control req.system;
  thinking = req.thinking;
  tools = map_option (map sanitize_cache_control) tools;
  tool_choice = req.tool_choice;
  metadata = req.metadata;
  stop_sequences = req.stop_sequences;
  temperature = req.temperature;
  top_p = req.top_p;
  top_k = req.top_k;
}

-- The class `\w` of the regular expressions.
module _ (is_word : ℕ → Bool) where
  -- Nothing where the source panics.
  unfoldable pub translate :
      AnthropicRequest
      → Text
      → Option (Option ModelCache)
      → Text
      → Option (Text × BedrockRequest × Option WebSearchContext)
  unfolding anthropic_to_bedrock sanitize_cache_control extract_web_search_tool_with_mode
  translate req model_prefix model_cache websearch_mode =
      let (tools, ctx) = extract_web_search_tool_with_mode req.tools websearch_mode in
      with_model (body_of req tools) ctx
        (anthropic_to_bedrock is_word req.model model_prefix model_cache)
