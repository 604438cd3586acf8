-- ===== src/Websearch.antt =====
-- src/websearch/mod.rs: the web search tool, which Bedrock does not have. The gateway offers a plain
-- tool in its place, runs the searches itself, and rewrites the answer.
pub mod Tools
pub mod Rewrite
mod Tests
use claude_code_aws_gateway.Prelude.{
  ℕ, zero, suc, ◌+◌, ◌/◌, ◌%◌, ◌^◌, ltb, ◌++◌, Bool, true, false, not, ◌&&◌, Option, none, some,
  List, [], ◌∷◌, map, retain, ◌==◌, if◌then◌else◌,
}
use claude_code_aws_gateway.Prelude.Text.{Text, codes, text_eq, starts_with}
use claude_code_aws_gateway.Prelude.Assoc.{Assoc, lookup}
use claude_code_aws_gateway.Json.{Json, string, array, object, Fields, end, field, put}
use claude_code_aws_gateway.Json.Access.{
  at, str_at, as_str, as_u64, and_then, or_else, in_object, items,
}

pub record WebSearchResult : Type 0 where
  pub title : Text
  pub url : Text
  pub snippet : Text

pub record WebSearchContext : Type 0 where
  pub tool_name : Text
  pub max_uses : ℕ

abbrev pub field_text : Text → Text → Fields → Fields
field_text k v fs = field k (string v) fs

-- The keys of an object stand in their order.
unfoldable pub result_item : WebSearchResult → Json
result_item r = object (
    field_text (codes "encrypted_content") r.snippet (
      field_text (codes "title") r.title (
        field_text (codes "type") (codes "web_search_result")
          (field_text (codes "url") r.url end))))

unfoldable pub results_to_content_block : Text → List WebSearchResult → Json
unfolding result_item
results_to_content_block tool_use_id results = object (
    field (codes "content") (array (items (map result_item results))) (
      field_text (codes "tool_use_id") tool_use_id
        (field_text (codes "type") (codes "web_search_tool_result") end)))

-- The decimal digits of a number of at most n + 1 digits.
abbrev pub decimal_from : ℕ → ℕ → Text
decimal_from zero k = (k % 10 + b'0') ∷ []
decimal_from (suc n) k =
    let rest = decimal_from n (k / 10) in
    if ltb k 10 then (k + b'0') ∷ [] else rest ++ ((k % 10 + b'0') ∷ [])

-- The results in the words that Bedrock reads; an index has at most 20 digits.
unfoldable pub result_lines : ℕ → List WebSearchResult → Text
result_lines i [] = []
result_lines i (r ∷ results) =
    let line =
      (b'[' ∷ decimal_from 20 i)
      ++ codes "] "
      ++ r.title
      ++ codes "\nURL: "
      ++ r.url
      ++ (10 ∷ r.snippet) in
    let rest = result_lines (i + 1) results in
    elim results [ [] ↦ line | _ ∷ _ ↦ line ++ codes "\n\n" ++ rest ]

unfoldable pub results_to_tool_result_text : List WebSearchResult → Text
unfolding result_lines
results_to_tool_result_text [] = codes "No search results found."
results_to_tool_result_text (r ∷ results) = result_lines 1 (r ∷ results)

abbrev pub description : Text
description =
    codes
      "Search the web for current information. Use this when you need up-to-date information that may not be in your training data. Returns a list of search results with titles, URLs, and content snippets."

-- The tool that Bedrock is offered.
unfoldable pub plain_tool : Text → Json
plain_tool name = object (
    field_text (codes "description") description (
      field (codes "input_schema")
        (object (
          field (codes "properties")
            (object (
              field (codes "query")
                (object (
                  field_text (codes "description") (codes "The search query to look up")
                    (field_text (codes "type") (codes "string") end)))
                end))
            (field (codes "required") (array (items (string (codes "query") ∷ [])))
              (field_text (codes "type") (codes "object") end))))
        (field_text (codes "name") name end)))

unfoldable pub is_web_search : Json → Bool
unfolding str_at starts_with
is_web_search tool = starts_with (or_else (str_at (codes "type") tool) []) (codes "web_search_")

-- The count is cast to 32 bits.
unfoldable pub context_of : Json → WebSearchContext
unfolding str_at at as_u64
context_of tool = record {
  tool_name = or_else (str_at (codes "name") tool) (codes "web_search");
  max_uses = or_else (and_then (at (codes "max_uses") tool) as_u64) 5 % 2 ^ 32;
}

abbrev pub non_empty : List Json → Option (List Json)
non_empty [] = none
non_empty (x ∷ xs) = some (x ∷ xs)

-- The loop, with the tools that are pushed and the context of the last search tool.
unfoldable pub replace_tools :
    List Json → Option WebSearchContext → List Json × Option WebSearchContext
unfolding is_web_search context_of plain_tool
replace_tools [] ctx = ([], ctx)
replace_tools (tool ∷ tools) ctx =
    let search = is_web_search tool in
    let (rest, last_ctx) = replace_tools tools (if search then some (context_of tool) else ctx) in
    ((if search then plain_tool (context_of tool).tool_name else tool) ∷ rest, last_ctx)

unfoldable pub extract_web_search_tool :
    Option (List Json) → Option (List Json) × Option WebSearchContext
unfolding replace_tools
extract_web_search_tool none = (none, none)
extract_web_search_tool (some tools) =
    let (filtered, ctx) = replace_tools tools none in (non_empty filtered, ctx)

abbrev pub strip_tools : Option (List Json) → Option (List Json)
unfolding is_web_search
strip_tools none = none
strip_tools (some tools) = non_empty (retain (λ tool. not (is_web_search tool)) tools)

unfoldable pub extract_web_search_tool_with_mode :
    Option (List Json) → Text → Option (List Json) × Option WebSearchContext
unfolding extract_web_search_tool strip_tools
extract_web_search_tool_with_mode tools mode =
    if mode == codes "disabled" then (strip_tools tools, none) else extract_web_search_tool tools

-- A use of the tool in an answer.
unfoldable pub is_use : Text → Json → Bool
unfolding str_at
is_use tool_name block =
    elim (str_at (codes "type") block) [ none ↦ false | some t ↦ t == codes "tool_use" ]
    && elim (str_at (codes "name") block) [ none ↦ false | some n ↦ n == tool_name ]

abbrev pub query_of : Json → Text
query_of block =
    or_else (and_then (and_then (at (codes "input") block) (λ i. at (codes "query") i)) as_str) []

abbrev pub use_of : Json → Option Text → Option (Text × Text)
use_of block none = none
use_of block (some id) = some (id, query_of block)

abbrev pub keep_some : Option (Text × Text) → List (Text × Text) → List (Text × Text)
keep_some none rest = rest
keep_some (some u) rest = u ∷ rest

unfoldable pub find_web_search_tool_uses : List Json → Text → List (Text × Text)
unfolding is_use str_at at
find_web_search_tool_uses [] tool_name = []
find_web_search_tool_uses (block ∷ content) tool_name =
    let rest = find_web_search_tool_uses content tool_name in
    if is_use tool_name block
    then keep_some (use_of block (str_at (codes "id") block)) rest
    else rest

abbrev pub results_for : Assoc Text (List WebSearchResult) → Text → List WebSearchResult
results_for search_results id = or_else (lookup id search_results) []

-- The result block behind a use that has an id.
abbrev pub result_block : Assoc Text (List WebSearchResult) → Option Text → List Json → List Json
result_block search_results none rest = rest
result_block search_results (some id) rest =
    results_to_content_block id (results_for search_results id) ∷ rest

unfoldable pub server_use : Json → Json
server_use block = in_object (put (codes "type") (string (codes "server_tool_use"))) block

-- The loop steps over a block that it has inserted.
unfoldable pub rewrite_response_content :
    List Json → Assoc Text (List WebSearchResult) → Text → List Json
unfolding is_use server_use results_to_content_block str_at
rewrite_response_content [] search_results tool_name = []
rewrite_response_content (block ∷ content) search_results tool_name =
    let rest = rewrite_response_content content search_results tool_name in
    if is_use tool_name block
    then server_use block
      ∷ result_block search_results (str_at (codes "id") (server_use block)) rest
    else block ∷ rest
