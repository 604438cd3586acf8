-- ===== src/Websearch/Tests.antt =====
-- Tools and answers with web searches.
use claude_code_aws_gateway.Prelude.{◌≡◌, refl, some, List, [], ◌∷◌, retain, map}
use claude_code_aws_gateway.Prelude.Text.{Text, codes, text_eq, text_beq, starts_with}
use claude_code_aws_gateway.Prelude.Assoc.{Assoc}
use claude_code_aws_gateway.Json.{Json, number, string, object, end, field, get}
use claude_code_aws_gateway.Json.Access.{at, str_at, as_u64}
use claude_code_aws_gateway.Websearch.{
  WebSearchResult, is_web_search, plain_tool, context_of, replace_tools, extract_web_search_tool,
  extract_web_search_tool_with_mode, find_web_search_tool_uses, rewrite_response_content,
  results_to_tool_result_text,
}
use claude_code_aws_gateway.Websearch.Rewrite.{answer, is_result, rewrite-answered}

abbrev search_tool : Json
search_tool = object (
    field (codes "max_uses") (number (codes "3"))
      (field (codes "type") (string (codes "web_search_20250305")) end))

abbrev tools : List Json
tools = object (field (codes "name") (string (codes "read_file")) end) ∷ search_tool ∷ []

replaced : extract_web_search_tool_with_mode (some tools) (codes "enabled") ≡ (
  some (
      object (field (codes "name") (string (codes "read_file")) end)
      ∷ plain_tool (codes "web_search")
      ∷ []),
  some (record { tool_name = codes "web_search"; max_uses = 3 }),
)
unfolding extract_web_search_tool_with_mode extract_web_search_tool replace_tools is_web_search
    context_of at str_at as_u64 get starts_with text_beq
replaced = refl

abbrev content : List Json
content =
    object (field (codes "type") (string (codes "text")) end)
    ∷ object (
        field (codes "id") (string (codes "t1")) (
          field (codes "name") (string (codes "web_search"))
            (field (codes "type") (string (codes "tool_use")) end)))
    ∷ []

abbrev searched : Assoc Text (List WebSearchResult)
searched =
    (codes "t1", record { title = codes "T"; url = codes "u"; snippet = codes "s" } ∷ []) ∷ []

rewrite-answered_example :
    retain is_result (rewrite_response_content content searched (codes "web_search"))
    ≡ map (answer searched) (find_web_search_tool_uses content (codes "web_search"))
unfolding is_result str_at at get text_beq
rewrite-answered_example = rewrite-answered content searched (codes "web_search") refl

listed :
    results_to_tool_result_text
      (record { title = codes "T"; url = codes "u"; snippet = codes "s" } ∷ [])
    ≡ codes "[1] T\nURL: u\ns"
unfolding results_to_tool_result_text
listed = refl
