-- ===== src/Api/Search/Loop.antt =====
-- The whole loop of `handle_with_web_search` in src/api/handlers.rs.
use claude_code_aws_gateway.Prelude.{
  ℕ, zero, suc, ◌+◌, ◌≤◌, ◌≡◌, refl, false, ◌⊎◌, inl, inr, Option, List, any, arith, length,
}
use claude_code_aws_gateway.Prelude.Text.{Text, text_eq}
use claude_code_aws_gateway.Json.{Json}
use claude_code_aws_gateway.Websearch.{WebSearchContext, is_use}
use claude_code_aws_gateway.Websearch.Rewrite.{rewrite-uses}
use claude_code_aws_gateway.Api.Search.{
  SearchState, Reply, Outcome, error, finished, Next, stop, continue, on_answer, search_loop,
  max_iterations, start, rewritten, handle_with_web_search,
}
use claude_code_aws_gateway.Api.Search.Rounds.{
  Ends, Dialogue, opening, IsReached, Goes, on_answer-Goes,
}

Next-cases : (x : Next) → ((o : Outcome) × (x ≡ stop o)) ⊎ ((t : SearchState) × (x ≡ continue t))
Next-cases (stop o) = inl (o, refl)
Next-cases (continue t) = inr (t, refl)

module _ (ctx : WebSearchContext) where
  -- The answer that a client gets after searches.
  pub record IsAnswer (request : List Json) (s : SearchState) : Type 0 where
    pub count : s.search_count ≤ ctx.max_uses
    pub found : length s.all_search_results ≤ s.search_count
    pub hidden : any (is_use ctx.tool_name) s.accumulated_content ≡ false
    pub dialogue : Dialogue ctx.tool_name request s.messages

module _ (ctx : WebSearchContext) (invoke : ℕ → List Json → Option Json)
    (search : ℕ → Text → Text → Reply) where
  search_loop-IsReached :
      (request : List Json) (left n : ℕ) (s : SearchState)
      → IsReached ctx search request s
      → Ends (IsReached ctx search request) (search_loop ctx invoke search left n s)
  unfolding search_loop Goes
  search_loop-IsReached request zero n s r = r
  search_loop-IsReached request (suc left) n s r =
      let goes = on_answer-Goes ctx search request n (invoke n s.messages) s r in
      elim (Next-cases (on_answer ctx search n (invoke n s.messages) s)) [
        | inl (o, e) ↦ rw (e, search_loop) (rw e at goes)
        | inr (t, e) ↦
            let reached : IsReached ctx search request t = rw e at goes in
            rw (e, search_loop) (search_loop-IsReached request left (n + 1) t reached)
      ]

  start-IsReached : (request : List Json) → IsReached ctx search request (start request)
  start-IsReached request = record {
    bounded = record { count = omega arith; found = omega arith };
    dialogue = opening;
  }

  rewritten-IsAnswer :
      (request : List Json) (o : Outcome)
      → Ends (IsReached ctx search request) o
      → Ends (IsAnswer ctx request) (rewritten ctx.tool_name o)
  unfolding rewritten
  rewritten-IsAnswer request error r = tt
  rewritten-IsAnswer request (finished s) r = record {
    count = r.bounded.count;
    found = r.bounded.found;
    hidden = rewrite-uses s.accumulated_content s.all_search_results ctx.tool_name;
    dialogue = r.dialogue;
  }

  -- Whatever Bedrock and the provider answer, the loop ends, with an error for the client or with an
  -- answer: no more searches are counted than the tool allows, the results that are kept are at most
  -- as many, the content has no use of the tool left in it, and in what was sent to Bedrock each
  -- content with uses of the tool is followed by one result for each of them, in their order.
  pub search-IsAnswer :
      (request : List Json)
      → Ends (IsAnswer ctx request) (handle_with_web_search ctx invoke search request)
  unfolding handle_with_web_search
  search-IsAnswer request =
      rewritten-IsAnswer request
        (search_loop ctx invoke search (max_iterations ctx) 1 (start request))
        (search_loop-IsReached request (max_iterations ctx) 1 (start request)
          (start-IsReached request))
