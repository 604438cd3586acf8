-- ===== src/Api/Search/Rounds.antt =====
-- The rounds of the loop of `handle_with_web_search` in src/api/handlers.rs.
use claude_code_aws_gateway.Prelude.{
  ℕ, ◌+◌, ◌≤◌, ◌≡◌, refl, sym, ap, ◌∙◌, inl, inr, Option, none, some, List, [], ◌∷◌, ◌++◌, leb, map,
  arith, length, Bool-cases,
}
use claude_code_aws_gateway.Prelude.Text.{Text, codes, text_eq, text_beq}
use claude_code_aws_gateway.Prelude.Assoc.{length-insert}
use claude_code_aws_gateway.Json.{Json, get}
use claude_code_aws_gateway.Json.Access.{at, str_at}
use claude_code_aws_gateway.Websearch.{WebSearchContext, find_web_search_tool_uses}
use claude_code_aws_gateway.Api.Search.{
  SearchState, Reply, results, failed, tool_result, tool_error, turn, after_search, all_rejected,
  Outcome, error, finished, content_of, is_tool_use, run_search, run_searches, note, Next, stop,
  continue, act, on_answer,
}

-- What holds of the state at the end, if there is one.
abbrev pub Ends {ℓ} : (SearchState → Type ℓ) → Outcome → Type ℓ
Ends P error = Unit
Ends P (finished s) = P s

pub record IsBounded (max_uses : ℕ) (s : SearchState) : Type 0 where
  pub count : s.search_count ≤ max_uses
  pub found : length s.all_search_results ≤ s.search_count

-- The id of the use that a result block answers.
unfoldable pub result_id : Json → Option Text
unfolding str_at
result_id r = str_at (codes "tool_use_id") r

-- One result for each use of the tool, in their order.
abbrev pub Answers : Text → List Json → List Json → Type 0
Answers name content tool_results =
    map result_id tool_results ≡ map (λ u. some u.0) (find_web_search_tool_uses content name)

-- The messages that rounds of searches make of those of the request.
pub data Dialogue (name : Text) (request : List Json) : List Json → Type 0 where
  opening : Dialogue name request request
  round :
      {messages : List Json} (content tool_results : List Json)
      → Dialogue name request messages
      → Answers name content tool_results
      → Dialogue name request
          (messages ++ turn (codes "assistant") content ∷ turn (codes "user") tool_results ∷ [])

result_id-tool_result : (id text : Text) → result_id (tool_result id text) ≡ some id
unfolding result_id tool_result str_at at get text_beq
result_id-tool_result id text = refl

result_id-tool_error : (id text : Text) → result_id (tool_error id text) ≡ some id
unfolding result_id tool_error str_at at get text_beq
result_id-tool_error id text = refl

module _ (ctx : WebSearchContext) (search : ℕ → Text → Text → Reply) where
  after_search-IsBounded :
      (id : Text) (r : Reply) (s : SearchState)
      → s.search_count + 1 ≤ ctx.max_uses
      → IsBounded ctx.max_uses s
      → IsBounded ctx.max_uses (after_search id r s).1
  after_search-IsBounded id (results rs) s h b = record {
    count = h;
    found = omega (arith, length-insert id rs s.all_search_results, b.found);
  }
  after_search-IsBounded id (failed e) s h b = b

  after_search-result :
      (id : Text) (r : Reply) (s : SearchState) → result_id (after_search id r s).0 ≡ some id
  after_search-result id (results rs) s = result_id-tool_result id _
  after_search-result id (failed e) s = result_id-tool_error id _

  run_search-IsBounded :
      (n : ℕ) (u : Text × Text) (s : SearchState)
      → IsBounded ctx.max_uses s
      → IsBounded ctx.max_uses (run_search ctx search n u s).1
  run_search-IsBounded n u s b = elim (Bool-cases (leb ctx.max_uses s.search_count)) [
    | inl e ↦ rw e b
    | inr e ↦ rw e (after_search-IsBounded u.0 (search n u.0 u.1) s (ground arith) b)
  ]

  run_search-result :
      (n : ℕ) (u : Text × Text) (s : SearchState)
      → result_id (run_search ctx search n u s).0 ≡ some u.0
  run_search-result n u s = elim (Bool-cases (leb ctx.max_uses s.search_count)) [
    | inl e ↦ rw e (result_id-tool_error u.0 _)
    | inr e ↦ rw e (after_search-result u.0 (search n u.0 u.1) s)
  ]

  run_searches-IsBounded :
      (n : ℕ) (uses : List (Text × Text)) (s : SearchState)
      → IsBounded ctx.max_uses s
      → IsBounded ctx.max_uses (run_searches ctx search n uses s).1
  unfolding run_searches
  run_searches-IsBounded n [] s b = b
  run_searches-IsBounded n (u ∷ uses) s b =
      run_searches-IsBounded n uses (run_search ctx search n u s).1 (run_search-IsBounded n u s b)

  run_searches-results :
      (n : ℕ) (uses : List (Text × Text)) (s : SearchState)
      → map result_id (run_searches ctx search n uses s).0 ≡ map (λ u. some u.0) uses
  unfolding run_searches
  run_searches-results n [] s = refl
  run_searches-results n (u ∷ uses) s =
      rw (run_search-result n u s)
        (ap (λ l. some u.0 ∷ l) (run_searches-results n uses (run_search ctx search n u s).1))

  after_search-messages :
      (id : Text) (r : Reply) (s : SearchState) → (after_search id r s).1.messages ≡ s.messages
  after_search-messages id (results rs) s = refl
  after_search-messages id (failed e) s = refl

  run_searches-messages :
      (n : ℕ) (uses : List (Text × Text)) (s : SearchState)
      → (run_searches ctx search n uses s).1.messages ≡ s.messages
  unfolding run_searches
  run_searches-messages n [] s = refl
  run_searches-messages n (u ∷ uses) s =
      run_searches-messages n uses (run_search ctx search n u s).1
      ∙ (elim (Bool-cases (leb ctx.max_uses s.search_count)) [
        | inl e ↦ rw e refl
        | inr e ↦ rw e (after_search-messages u.0 (search n u.0 u.1) s)
      ])

  pub record IsReached (request : List Json) (s : SearchState) : Type 0 where
    pub bounded : IsBounded ctx.max_uses s
    pub dialogue : Dialogue ctx.tool_name request s.messages

  unfoldable pub Goes : List Json → Next → Type 0
  Goes request (stop o) = Ends (IsReached request) o
  Goes request (continue t) = IsReached request t

  act-Goes :
      (request : List Json) (n : ℕ) (content : List Json) (uses : List (Text × Text))
      (s : SearchState)
      → find_web_search_tool_uses content ctx.tool_name ≡ uses
      → IsReached request s
      → Goes request (act ctx search n content uses s)
  unfolding Goes act
  act-Goes request n content [] s e r = record {
    bounded = record { count = r.bounded.count; found = r.bounded.found };
    dialogue = r.dialogue;
  }
  act-Goes request n content (u ∷ uses) s e r =
      let (tool_results, s2) = run_searches ctx search n (u ∷ uses) s in
      let b = run_searches-IsBounded n (u ∷ uses) s r.bounded in
      let same = run_searches-messages n (u ∷ uses) s in
      let answered : Answers ctx.tool_name content tool_results =
        run_searches-results n (u ∷ uses) s ∙ ap (map (λ v. some v.0)) (sym e) in
      elim (Bool-cases (is_tool_use s.final_stop_reason)) [
        | inr off ↦ rw off (record {
          bounded = record { count = r.bounded.count; found = r.bounded.found };
          dialogue = r.dialogue;
        })
        | inl on ↦ elim (Bool-cases (all_rejected tool_results)) [
          | inl none_left ↦
              rw (on, none_left)
                (record {
                  bounded = record { count = b.count; found = b.found };
                  dialogue = rw same r.dialogue;
                })
          | inr go ↦
              rw (on, go)
                (record {
                  bounded = record { count = b.count; found = b.found };
                  dialogue = rw same (round content tool_results r.dialogue answered);
                })
        ]
      ]

  pub on_answer-Goes :
      (request : List Json) (n : ℕ) (o : Option Json) (s : SearchState)
      → IsReached request s
      → Goes request (on_answer ctx search n o s)
  unfolding Goes on_answer
  on_answer-Goes request n none s r = tt
  on_answer-Goes request n (some resp) s r =
      act-Goes request n (content_of resp)
        (find_web_search_tool_uses (content_of resp) ctx.tool_name) (note resp s) refl
        (record {
          bounded = record { count = r.bounded.count; found = r.bounded.found };
          dialogue = r.dialogue;
        })
