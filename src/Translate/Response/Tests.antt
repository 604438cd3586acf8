-- ===== src/Translate/Response/Tests.antt =====
-- Answers of Bedrock.
use claude_code_aws_gateway.Prelude.{◌≡◌, refl, none}
use claude_code_aws_gateway.Prelude.Text.{codes, text_eq, text_beq, text_ltb, split_at, starts_with}
use claude_code_aws_gateway.Json.{number, string, object, Fields, end, field, put, put_new, delete}
use claude_code_aws_gateway.Json.Access.{update}
use claude_code_aws_gateway.Translate.Response.{
  normalize_response, normalize_stream_event, format_sse_event,
}

abbrev usage : Fields
usage =
    field (codes "cache_read_input_tokens") (number (codes "7"))
      (field (codes "input_tokens") (number (codes "10")) end)

abbrev answer : Fields
answer = field (codes "model") (string (codes "us.anthropic.claude-sonnet-4-6-v1")) (
    field (codes "stop_reason") (string (codes "refusal"))
      (field (codes "usage") (object usage) end))

normalized :
    normalize_response (codes "claude-sonnet-4-6") none (object answer)
    ≡ object (
        field (codes "model") (string (codes "claude-sonnet-4-6-20250514")) (
          field (codes "stop_reason") (string (codes "refusal")) (
            field
              (codes "usage")
              (object (field (codes "cache_creation_input_tokens") (number (codes "0")) usage))
              end)))
unfolding normalize_response put put_new update text_beq text_ltb split_at starts_with
normalized = refl

abbrev start : Fields
start = field (codes "amazon-bedrock-invocationMetrics") (object end) (
    field (codes "message") (object answer)
      (field (codes "type") (string (codes "message_start")) end))

started :
    normalize_stream_event none (object start)
    ≡ object (
        field
          (codes "message")
          (normalize_response (codes "") none (object answer))
          (field (codes "type") (string (codes "message_start")) end))
unfolding normalize_stream_event normalize_response put put_new delete update text_beq text_ltb
    split_at starts_with
started = refl

framed :
    format_sse_event (λ v. codes "{}") (codes "message_stop") (object end)
    ≡ codes "event: message_stop\ndata: {}\n\n"
unfolding format_sse_event
framed = refl
