-- ===== src/Api/Search.antt =====
-- The loop of `handle_with_web_search` in src/api/handlers.rs, which calls Bedrock until an answer
-- asks for no more searches. The calls are parameters: that of a round gives the parsed answer, or
-- nothing where the handler returns an error, and at the first round it is the call after the retry
-- without the betas that were rejected; the provider gets the query of a tool use. The counts
-- of tokens are 32 bits in two's complement. Metrics and the log are left out.
pub mod Rounds
pub mod Loop
mod Tests
use claude_code_aws_gateway.Prelude.{
  ℕ, zero, suc, ◌+◌, ◌%◌, ◌^◌, min, Bool, true, false, not, ◌&&◌, ◌||◌, Option, none, some, List,
  [], ◌∷◌, ◌++◌, leb, map, ◌==◌, if◌then◌else◌,
}
use claude_code_aws_gateway.Prelude.Text.{Text, codes, text_eq}
use claude_code_aws_gateway.Prelude.Assoc.{Assoc, insert}
use claude_code_aws_gateway.Json.{Json, boolean, string, array, object, Fields, end, field, get}
use claude_code_aws_gateway.Json.Access.{
  at, str_at, as_i64, as_bool, as_array, as_object, and_then, or_else, items,
}
use claude_code_aws_gateway.Websearch.{
  WebSearchResult, WebSearchContext, find_web_search_tool_uses, results_to_tool_result_text,
  rewrite_response_content,
}

abbrev pub add_i32 : ℕ → ℕ → ℕ
add_i32 a b = (a + b) % 2 ^ 32

pub record Tokens : Type 0 where
  pub input : ℕ
  pub output : ℕ
  pub cache_read : ℕ
  pub cache_write : ℕ

-- A count of the usage, cast to 32 bits.
abbrev pub count_at : Text → Option Fields → ℕ
count_at k usage = or_else (and_then (and_then usage (get k)) as_i64) 0 % 2 ^ 32

unfoldable pub extract_response_metadata : Json → Tokens × Option Text
unfolding at str_at get as_i64
extract_response_metadata resp =
    let usage = and_then (at (codes "usage") resp) as_object in
    (
      record {
        input = count_at (codes "input_tokens") usage;
        output = count_at (codes "output_tokens") usage;
        cache_read = count_at (codes "cache_read_input_tokens") usage;
        cache_write = count_at (codes "cache_creation_input_tokens") usage;
      },
      str_at (codes "stop_reason") resp,
    )

abbrev pub add_tokens : Tokens → Tokens → Tokens
add_tokens a b = record {
  input = add_i32 a.input b.input;
  output = add_i32 a.output b.output;
  cache_read = add_i32 a.cache_read b.cache_read;
  cache_write = add_i32 a.cache_write b.cache_write;
}

pub record SearchState : Type 0 where
  pub messages : List Json
  pub totals : Tokens
  pub search_count : ℕ
  pub all_search_results : Assoc Text (List WebSearchResult)
  pub accumulated_content : List Json
  pub final_stop_reason : Option Text

-- What a provider gives.
pub data Reply : Type 0 where
  results : List WebSearchResult → Reply
  failed : Text → Reply

unfoldable pub tool_result : Text → Text → Json
tool_result id text = object (
    field (codes "content") (string text) (
      field (codes "tool_use_id") (string id)
        (field (codes "type") (string (codes "tool_result")) end)))

unfoldable pub tool_error : Text → Text → Json
tool_error id text = object (
    field (codes "content") (string text) (
      field (codes "is_error") (boolean true) (
        field (codes "tool_use_id") (string id)
          (field (codes "type") (string (codes "tool_result")) end))))

unfoldable pub turn : Text → List Json → Json
turn role content =
    object
      (field (codes "content") (array (items content)) (field (codes "role") (string role) end))

-- One search: its result block, and the state with what it found.
abbrev pub after_search : Text → Reply → SearchState → Json × SearchState
after_search id (results rs) s = (
  tool_result id (results_to_tool_result_text rs),
  record s {
    all_search_results = insert id rs s.all_search_results;
    search_count = s.search_count + 1;
  },
)
after_search id (failed e) s = (tool_error id (codes "Web search failed: " ++ e), s)

unfoldable pub is_rejected : Json → Bool
unfolding at
is_rejected r = or_else (and_then (at (codes "is_error") r) as_bool) false

abbrev pub all_rejected : List Json → Bool
all_rejected [] = true
all_rejected (r ∷ rs) = let rest = all_rejected rs in if is_rejected r then rest else false

-- How the loop ends: with an error for the client, or with the state for the answer.
pub data Outcome : Type 0 where
  error : Outcome
  finished : SearchState → Outcome

abbrev pub content_of : Json → List Json
content_of resp = or_else (and_then (at (codes "content") resp) as_array) []

abbrev pub is_tool_use : Option Text → Bool
is_tool_use none = false
is_tool_use (some t) = t == codes "tool_use"

abbrev pub max_iterations : WebSearchContext → ℕ
max_iterations ctx = min ctx.max_uses 10 + 1

abbrev pub start : List Json → SearchState
start messages = record {
  messages = messages;
  totals = record { input = 0; output = 0; cache_read = 0; cache_write = 0 };
  search_count = 0;
  all_search_results = [];
  accumulated_content = [];
  final_stop_reason = none;
}

-- The content that the client gets.
unfoldable pub rewritten : Text → Outcome → Outcome
unfolding rewrite_response_content
rewritten tool_name error = error
rewritten tool_name (finished s) = finished (record s {
  accumulated_content =
      rewrite_response_content s.accumulated_content s.all_search_results tool_name;
})

abbrev pub note : Json → SearchState → SearchState
note resp s =
    let (tokens, stop_reason) = extract_response_metadata resp in
    record s { totals = add_tokens s.totals tokens; final_stop_reason = stop_reason }

abbrev pub accumulate : List Json → SearchState → SearchState
accumulate content s = record s { accumulated_content = s.accumulated_content ++ content }

abbrev pub follow_up : List Json → List Json → SearchState → SearchState
follow_up content tool_results s = record (accumulate content s) {
  messages = s.messages ++ turn (codes "assistant") content ∷ turn (codes "user") tool_results ∷ [];
}

-- A round ends the loop, or goes on.
pub data Next : Type 0 where
  stop : Outcome → Next
  continue : SearchState → Next

module _ (ctx : WebSearchContext) (search : ℕ → Text → Text → Reply) where
  abbrev pub run_search : ℕ → Text × Text → SearchState → Json × SearchState
  run_search round u s =
      if leb ctx.max_uses s.search_count
      then (tool_error u.0 (codes "Search limit reached. No more searches available."), s)
      else after_search u.0 (search round u.0 u.1) s

  unfoldable pub run_searches : ℕ → List (Text × Text) → SearchState → List Json × SearchState
  unfolding tool_result tool_error results_to_tool_result_text
  run_searches round [] s = ([], s)
  run_searches round (u ∷ uses) s =
      let (r, s1) = run_search round u s in
      let (rs, s2) = run_searches round uses s1 in (r ∷ rs, s2)

  -- The round behind the call, with the uses of the tool in the content.
  unfoldable pub act : ℕ → List Json → List (Text × Text) → SearchState → Next
  unfolding run_searches is_rejected turn
  act round content [] s = stop (finished (accumulate content s))
  act round content (u ∷ uses) s =
      let (tool_results, s2) = run_searches round (u ∷ uses) s in
      if not (is_tool_use s.final_stop_reason)
      then stop (finished (accumulate content s))
      else if all_rejected tool_results
      then stop (finished (accumulate content s2))
      else continue (follow_up content tool_results s2)

  unfoldable pub on_answer : ℕ → Option Json → SearchState → Next
  unfolding act extract_response_metadata find_web_search_tool_uses at
  on_answer round none s = stop error
  on_answer round (some resp) s =
      act round (content_of resp) (find_web_search_tool_uses (content_of resp) ctx.tool_name)
        (note resp s)

module _ (ctx : WebSearchContext) (invoke : ℕ → List Json → Option Json)
    (search : ℕ → Text → Text → Reply) where
  -- The loop, with the rounds that are left under the cap and the number of the round.
  unfoldable pub search_loop : ℕ → ℕ → SearchState → Outcome
  unfolding on_answer
  search_loop zero round s = finished s
  search_loop (suc left) round s = elim (on_answer ctx search round (invoke round s.messages) s) [
    | stop o ↦ o
    | continue t ↦ search_loop left (round + 1) t
  ]

  unfoldable pub handle_with_web_search : List Json → Outcome
  unfolding search_loop rewritten
  handle_with_web_search messages =
      rewritten ctx.tool_name (search_loop (max_iterations ctx) 1 (start messages))
