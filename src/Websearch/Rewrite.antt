-- ===== src/Websearch/Rewrite.antt =====
-- src/websearch/mod.rs: what is left of the uses of the tool in an answer.
use claude_code_aws_gateway.Prelude.{
  ◌≡◌, refl, ap, Bool, true, false, inl, inr, Option, none, some, List, [], ◌∷◌, ◌==◌, any, retain,
  map, arith, Bool-cases,
}
use claude_code_aws_gateway.Prelude.Text.{Text, codes, text_eq, text_beq}
use claude_code_aws_gateway.Prelude.Assoc.{Assoc}
use claude_code_aws_gateway.Json.{
  Json, null, boolean, number, string, array, object, Fields, get, get-put,
}
use claude_code_aws_gateway.Json.Access.{at, str_at}
use claude_code_aws_gateway.Websearch.{
  WebSearchResult, results_to_content_block, is_use, use_of, keep_some, find_web_search_tool_uses,
  results_for, result_block, server_use, rewrite_response_content,
}

is_use-fields :
    (name : Text) (block : Json) → is_use name block ≡ true → (fs : Fields) × (block ≡ object fs)
unfolding is_use str_at at
is_use-fields name null h = absurd (ground arith)
is_use-fields name (boolean b) h = absurd (ground arith)
is_use-fields name (number n) h = absurd (ground arith)
is_use-fields name (string s) h = absurd (ground arith)
is_use-fields name (array xs) h = absurd (ground arith)
is_use-fields name (object fs) h = (fs, refl)

is_use-server : (name : Text) (fs : Fields) → is_use name (server_use (object fs)) ≡ false
unfolding is_use server_use str_at at text_beq
is_use-server name fs =
    rw (get-put (codes "type") (codes "type") (string (codes "server_tool_use")) fs) refl

server_use-id :
    (fs : Fields) → str_at (codes "id") (server_use (object fs)) ≡ str_at (codes "id") (object fs)
unfolding server_use str_at at text_beq
server_use-id fs =
    rw (get-put (codes "type") (codes "id") (string (codes "server_tool_use")) fs) refl

is_use-result :
    (name id : Text) (results : List WebSearchResult)
    → is_use name (results_to_content_block id results) ≡ false
unfolding is_use results_to_content_block str_at at get text_beq
is_use-result name id results = refl

-- A block with the results of a search.
unfoldable pub is_result : Json → Bool
unfolding str_at
is_result block = elim (str_at (codes "type") block) [
  | none ↦ false
  | some t ↦ t == codes "web_search_tool_result"
]

is_result-result :
    (id : Text) (results : List WebSearchResult)
    → is_result (results_to_content_block id results) ≡ true
unfolding is_result results_to_content_block str_at at get text_beq
is_result-result id results = refl

is_result-server : (fs : Fields) → is_result (server_use (object fs)) ≡ false
unfolding is_result server_use str_at at text_beq
is_result-server fs =
    rw (get-put (codes "type") (codes "type") (string (codes "server_tool_use")) fs, is_result) refl

-- The block that answers a use.
abbrev pub answer : Assoc Text (List WebSearchResult) → Text × Text → Json
answer search_results u = results_to_content_block u.0 (results_for search_results u.0)

retain-result_block :
    (search_results : Assoc Text (List WebSearchResult)) (block : Json) (o : Option Text)
    (rest : List Json) (uses : List (Text × Text))
    → retain is_result rest ≡ map (answer search_results) uses
    → retain is_result (result_block search_results o rest)
      ≡ map (answer search_results) (keep_some (use_of block o) uses)
retain-result_block search_results block none rest uses h = h
retain-result_block search_results block (some id) rest uses h =
    rw (is_result-result id (results_for search_results id))
      (ap (λ l. results_to_content_block id (results_for search_results id) ∷ l) h)

any-result_block :
    (name : Text) (search_results : Assoc Text (List WebSearchResult)) (o : Option Text)
    (rest : List Json)
    → any (is_use name) rest ≡ false
    → any (is_use name) (result_block search_results o rest) ≡ false
any-result_block name search_results none rest h = h
any-result_block name search_results (some id) rest h =
    rw (is_use-result name id (results_for search_results id)) h

-- The content for a client has no use of the tool left in it.
pub rewrite-uses :
    (content : List Json) (search_results : Assoc Text (List WebSearchResult)) (name : Text)
    → any (is_use name) (rewrite_response_content content search_results name) ≡ false
unfolding rewrite_response_content
rewrite-uses [] search_results name = refl
rewrite-uses (block ∷ content) search_results name =
    let rest = rewrite-uses content search_results name in
    elim (Bool-cases (is_use name block)) [
      | inr e ↦ rw (e, e) rest
      | inl e ↦
          let (fs, is) = is_use-fields name block e in
          rw (e, is, is_use-server name fs)
            (any-result_block name search_results (str_at (codes "id") (server_use (object fs))) _
              rest)
    ]

retain-nil :
    (block : Json) (content : List Json)
    → retain is_result (block ∷ content) ≡ []
    → (is_result block ≡ false) × (retain is_result content ≡ [])
retain-nil block content h = elim (Bool-cases (is_result block)) [
  | inl e ↦ absurd (ground arith)
  | inr e ↦ (e, ground arith)
]

-- The content for a client has one block with the results of each use that had an id, in the order
-- of the uses, if the content of Bedrock holds no such block itself.
pub rewrite-answered :
    (content : List Json) (search_results : Assoc Text (List WebSearchResult)) (name : Text)
    → retain is_result content ≡ []
    → retain is_result (rewrite_response_content content search_results name)
      ≡ map (answer search_results) (find_web_search_tool_uses content name)
unfolding rewrite_response_content find_web_search_tool_uses
rewrite-answered [] search_results name h = refl
rewrite-answered (block ∷ content) search_results name h =
    let (plain, others) = retain-nil block content h in
    let answered = rewrite-answered content search_results name others in
    elim (Bool-cases (is_use name block)) [
      | inr e ↦ rw (e, plain) answered
      | inl e ↦
          let (fs, is) = is_use-fields name block e in
          rw (e, is, server_use-id fs, is_result-server fs)
            (retain-result_block search_results (object fs) (str_at (codes "id") (object fs)) _
              (find_web_search_tool_uses content name) answered)
    ]
