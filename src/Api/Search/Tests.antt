-- ===== src/Api/Search/Tests.antt =====
-- Requests with searches.
use claude_code_aws_gateway.Prelude.{
  ℕ, ◌≡◌, refl, Option, some, List, [], ◌∷◌, ◌==◌, length, eqb, if◌then◌else◌,
}
use claude_code_aws_gateway.Prelude.Text.{Text, codes, text_eq, text_beq}
use claude_code_aws_gateway.Json.{Json, string, array, object, end, field, get}
use claude_code_aws_gateway.Json.Access.{at, str_at, items}
use claude_code_aws_gateway.Websearch.{WebSearchContext, find_web_search_tool_uses}
use claude_code_aws_gateway.Api.Search.{
  Reply, results, failed, Outcome, error, finished, is_rejected, handle_with_web_search,
  search_loop, on_answer, act, run_searches, rewritten, extract_response_metadata,
}
use claude_code_aws_gateway.Api.Search.Rounds.{Ends}
use claude_code_aws_gateway.Api.Search.Loop.{IsAnswer, search-IsAnswer}

abbrev ctx : WebSearchContext
ctx = record { tool_name = codes "web_search"; max_uses = 1 }

abbrev asks : Text → Text → Json
asks id query = object (
    field (codes "id") (string id) (
      field (codes "input") (object (field (codes "query") (string query) end)) (
        field (codes "name") (string (codes "web_search"))
          (field (codes "type") (string (codes "tool_use")) end))))

abbrev says : Text → List Json → Json
says stop content = object (
    field (codes "content") (array (items content)) (field (codes "stop_reason") (string stop) end))

-- Three searches in the first round, and a plain answer in the second.
abbrev bedrock : ℕ → List Json → Option Json
bedrock n messages = some (
    if eqb n 1
    then says (codes "tool_use") (
        asks (codes "a") (codes "x")
        ∷ asks (codes "b") (codes "x")
        ∷ asks (codes "c") (codes "y")
        ∷ [])
    else says (codes "end_turn") (object (field (codes "type") (string (codes "text")) end) ∷ []))

abbrev provider : ℕ → Text → Text → Reply
provider n id query = if query == codes "y" then results [] else failed (codes "timeout")

abbrev searches_of : Outcome → ℕ × ℕ
searches_of error = (0, 0)
searches_of (finished s) = (s.search_count, length s.messages)

-- Two searches fail and one is run, with a limit of one: the provider is called three times.
three_calls : searches_of (handle_with_web_search ctx bedrock provider []) ≡ (1, 2)
unfolding handle_with_web_search search_loop on_answer act run_searches rewritten
    extract_response_metadata find_web_search_tool_uses is_rejected at str_at get text_beq
three_calls = refl

search-IsAnswer_example : Ends (IsAnswer ctx []) (handle_with_web_search ctx bedrock provider [])
search-IsAnswer_example = search-IsAnswer ctx bedrock provider []
