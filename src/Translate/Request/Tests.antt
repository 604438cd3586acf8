-- ===== src/Translate/Request/Tests.antt =====
-- Requests of Claude Code.
use claude_code_aws_gateway.Prelude.{◌≡◌, ◌↔◌, refl, true, none, some, [], ◌∷◌}
use claude_code_aws_gateway.Prelude.Text.{codes, text_beq, starts_with}
use claude_code_aws_gateway.Json.{Json, string, object, end, field, get}
use claude_code_aws_gateway.Json.Access.{at, str_at, as_u64}
use claude_code_aws_gateway.Translate.Models.{anthropic_to_bedrock, found}
use claude_code_aws_gateway.Websearch.{
  extract_web_search_tool_with_mode, replace_tools, is_web_search, context_of, plain_tool,
}
use claude_code_aws_gateway.Translate.Request.{
  AnthropicRequest, BedrockRequest, sanitize_cache_control, body_of, translate,
}
use claude_code_aws_gateway.Translate.Request.Accepted.{IsAccepted, sanitize-accepted_iff}
use claude_code_aws_gateway.Translate.Request.Sendable.{IsSendable, translate-IsSendable}

abbrev scoped : Json
scoped = object (
    field (codes "cache_control")
      (object (
        field (codes "scope") (string (codes "global"))
          (field (codes "type") (string (codes "ephemeral")) end)))
      (field (codes "text") (string (codes "hi")) end))

unscoped :
    sanitize_cache_control scoped
    ≡ object (
        field
          (codes "cache_control")
          (object (field (codes "type") (string (codes "ephemeral")) end))
          (field (codes "text") (string (codes "hi")) end))
unfolding sanitize_cache_control text_beq
unscoped = refl

sanitize-accepted_iff_example :
    (IsAccepted scoped ↔ (sanitize_cache_control scoped ≡ scoped))
    × IsAccepted (sanitize_cache_control scoped)
sanitize-accepted_iff_example = sanitize-accepted_iff scoped

abbrev request : AnthropicRequest
request = record {
  model = codes "claude-sonnet-4-6";
  max_tokens = none;
  messages = scoped ∷ [];
  system = some scoped;
  stream = some true;
  thinking = none;
  tools = some (object (field (codes "type") (string (codes "web_search_20250305")) end) ∷ []);
  tool_choice = none;
  metadata = none;
  stop_sequences = none;
  temperature = none;
  top_p = none;
  top_k = none;
  mcp_servers = none;
  anthropic_beta = codes "beta" ∷ [];
}

abbrev body : BedrockRequest
body = body_of request (some (plain_tool (codes "web_search") ∷ []))

translate-IsSendable_example :
    IsSendable body
    × (anthropic_to_bedrock (λ _. true) (codes "claude-sonnet-4-6") (codes "us") none
        ≡ found (codes "us.anthropic.claude-sonnet-4-6"))
unfolding translate anthropic_to_bedrock extract_web_search_tool_with_mode replace_tools
    is_web_search context_of at str_at get as_u64 text_beq starts_with
translate-IsSendable_example =
    translate-IsSendable (λ _. true) request (codes "us") none (codes "enabled")
      (codes "us.anthropic.claude-sonnet-4-6") body
      (some (record { tool_name = codes "web_search"; max_uses = 5 })) refl
