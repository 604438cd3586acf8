-- ===== src/Translate/Request/Sendable.antt =====
-- The whole request that src/translate/request.rs makes.
use claude_code_aws_gateway.Prelude.{
  ℕ, ◌∙◌, ◌≡◌, refl, ap, subst, Bool, true, false, inl, inr, Option, none, some, List, [], ◌∷◌,
  ◌==◌, any, map, All, arith, Bool-cases, if◌then◌else◌,
}
use claude_code_aws_gateway.Prelude.Text.{Text, codes, text_eq, text_beq}
use claude_code_aws_gateway.Json.{
  Json, null, boolean, number, string, array, object, Fields, end, field,
}
use claude_code_aws_gateway.Translate.Request.{
  AnthropicRequest, BedrockRequest, sanitize_cache_control, sanitize_fields, body_of, with_model,
  translate,
}
use claude_code_aws_gateway.Translate.Models.{
  ModelCache, Looked, panics, missing, found, anthropic_to_bedrock,
}
use claude_code_aws_gateway.Websearch.{WebSearchContext, extract_web_search_tool_with_mode}
use claude_code_aws_gateway.Prelude.Assoc.{map_option}
use claude_code_aws_gateway.Json.{get}
use claude_code_aws_gateway.Json.Access.{at, str_at, as_str, and_then, or_else}
use claude_code_aws_gateway.Prelude.Text.{starts_with}
use claude_code_aws_gateway.Websearch.{is_web_search}
use claude_code_aws_gateway.Websearch.Tools.{extract_tools-clean}
use claude_code_aws_gateway.Translate.Request.Accepted.{
  IsAccepted, sanitize-IsAccepted, map-accepted,
}

-- The body: restricted under each `cache_control`, and without a web search tool.
pub record IsSendable (body : BedrockRequest) : Type 0 where
  pub messages : All IsAccepted body.messages
  pub system : (v : Json) → body.system ≡ some v → IsAccepted v
  pub tools : (vs : List Json) → body.tools ≡ some vs → All IsAccepted vs
  pub no_search : any is_web_search (or_else body.tools []) ≡ false

some_inj {ℓ} : {A : Type ℓ} {a b : A} → some a ≡ some b → a ≡ b
some_inj e = cc

map_option-accepted :
    (o : Option Json) (v : Json) → map_option sanitize_cache_control o ≡ some v → IsAccepted v
map_option-accepted none v e = absurd (ground arith)
map_option-accepted (some u) v e = subst IsAccepted (some_inj e) (sanitize-IsAccepted u)

map_option-all :
    (o : Option (List Json)) (vs : List Json)
    → map_option (map sanitize_cache_control) o ≡ some vs
    → All IsAccepted vs
map_option-all none vs e = absurd (ground arith)
map_option-all (some us) vs e = subst (All IsAccepted) (some_inj e) (map-accepted us)

as_str-sanitize : (v : Json) → as_str (sanitize_cache_control v) ≡ as_str v
unfolding sanitize_cache_control
as_str-sanitize null = refl
as_str-sanitize (boolean b) = refl
as_str-sanitize (number n) = refl
as_str-sanitize (string s) = refl
as_str-sanitize (array xs) = refl
as_str-sanitize (object fs) = refl

type-sanitize_fields :
    (fs : Fields)
    → and_then (get (codes "type") (sanitize_fields fs)) as_str
      ≡ and_then (get (codes "type") fs) as_str
unfolding sanitize_cache_control get text_beq
type-sanitize_fields end = refl
type-sanitize_fields (field k v fs) = elim (Bool-cases (k == codes "type")) [
  | inr e ↦ rw e (type-sanitize_fields fs)
  | inl e ↦
      let same : k ≡ codes "type" = (text_eq.beq_iff k (codes "type")).0 e in
      rw (same) (as_str-sanitize v)
]

is_web_search-sanitize : (v : Json) → is_web_search (sanitize_cache_control v) ≡ is_web_search v
unfolding is_web_search str_at at sanitize_cache_control
is_web_search-sanitize null = refl
is_web_search-sanitize (boolean b) = refl
is_web_search-sanitize (number n) = refl
is_web_search-sanitize (string s) = refl
is_web_search-sanitize (array xs) = refl
is_web_search-sanitize (object fs) =
    ap (λ o. starts_with (or_else o []) (codes "web_search_")) (type-sanitize_fields fs)

any-sanitize :
    (vs : List Json) → any is_web_search (map sanitize_cache_control vs) ≡ any is_web_search vs
any-sanitize [] = refl
any-sanitize (v ∷ vs) =
    rw (is_web_search-sanitize v) (ap (λ b. if is_web_search v then true else b) (any-sanitize vs))

sanitized-no_search :
    (o : Option (List Json))
    → any is_web_search (or_else o []) ≡ false
    → any is_web_search (or_else (map_option (map sanitize_cache_control) o) []) ≡ false
sanitized-no_search none h = refl
sanitized-no_search (some vs) h = any-sanitize vs ∙ h

extract-no_search :
    (o : Option (List Json)) (mode : Text)
    → any is_web_search (or_else (extract_web_search_tool_with_mode o mode).0 []) ≡ false
unfolding extract_web_search_tool_with_mode
extract-no_search none mode = elim (Bool-cases (mode == codes "disabled")) [
  | inl e ↦ rw e refl
  | inr e ↦ rw e refl
]
extract-no_search (some tools) mode = (extract_tools-clean tools mode).0

body_of-IsSendable :
    (req : AnthropicRequest) (tools : Option (List Json))
    → any is_web_search (or_else tools []) ≡ false
    → IsSendable (body_of req tools)
body_of-IsSendable req tools h = record {
  messages = map-accepted req.messages;
  system = map_option-accepted req.system;
  tools = map_option-all tools;
  no_search = sanitized-no_search tools h;
}

with_model-some :
    (b : BedrockRequest) (c : Option WebSearchContext) (l : Looked) (model : Text)
    (body : BedrockRequest) (ctx : Option WebSearchContext)
    → with_model b c l ≡ some (model, body, ctx)
    → (l ≡ found model) × (b ≡ body)
with_model-some b c panics model body ctx h = absurd (ground arith)
with_model-some b c missing model body ctx h = absurd (ground arith)
with_model-some b c (found m) model body ctx h =
    let e : ◌≡◌ {A = Text × BedrockRequest × Option WebSearchContext} (m, b, c) (model, body, ctx) =
      some_inj h in
    (ap (λ x. found x.0) e, ap (λ x. x.1) e)

-- Where `translate` does not panic, the body that it makes has, at any depth of its messages, its
-- system prompt and its tools, only the fields `type` and `ttl` under a key `cache_control`, and has no
-- web search tool of Anthropic; and the model id that it returns is that of `anthropic_to_bedrock`,
-- which the caller may still replace by an override or by a discovered profile.
pub translate-IsSendable :
    (is_word : ℕ → Bool) (req : AnthropicRequest) (prefix : Text)
    (cache : Option (Option ModelCache)) (mode model : Text) (body : BedrockRequest)
    (ctx : Option WebSearchContext)
    → translate is_word req prefix cache mode ≡ some (model, body, ctx)
    → IsSendable body × (anthropic_to_bedrock is_word req.model prefix cache ≡ found model)
unfolding translate
translate-IsSendable is_word req prefix cache mode model body ctx h =
    let (tools, c) = extract_web_search_tool_with_mode req.tools mode in
    let (named, same) =
      with_model-some (body_of req tools) c (anthropic_to_bedrock is_word req.model prefix cache)
        model body ctx h in
    (subst IsSendable same (body_of-IsSendable req tools (extract-no_search req.tools mode)), named)
