-- ===== src/Websearch/Tools.antt =====
-- src/websearch/mod.rs: what is left of the tool in a request.
use claude_code_aws_gateway.Prelude.{
  ◌≡◌, refl, ap, ◌∙◌, Bool, true, false, not, ◌&&◌, ◌||◌, inl, inr, Option, none, some, List, [],
  ◌∷◌, ◌==◌, any, retain, arith, length, suc, Bool-cases, if◌then◌else◌,
}
use claude_code_aws_gateway.Prelude.Text.{Text, codes, text_eq, text_beq, starts_with}
use claude_code_aws_gateway.Json.{Json, get}
use claude_code_aws_gateway.Json.Access.{at, str_at, or_else}
use claude_code_aws_gateway.Websearch.{
  WebSearchContext, plain_tool, is_web_search, context_of, non_empty, replace_tools,
  extract_web_search_tool, extract_web_search_tool_with_mode,
}

plain_tool-search : (name : Text) → is_web_search (plain_tool name) ≡ false
unfolding is_web_search plain_tool str_at at get starts_with text_beq
plain_tool-search name = refl

any-non_empty :
    (p : Json → Bool) (tools : List Json) → any p (or_else (non_empty tools) []) ≡ any p tools
any-non_empty p [] = refl
any-non_empty p (t ∷ tools) = refl

replace_tools-searches :
    (tools : List Json) (ctx : Option WebSearchContext)
    → any is_web_search (replace_tools tools ctx).0 ≡ false
unfolding replace_tools
replace_tools-searches [] ctx = refl
replace_tools-searches (t ∷ tools) ctx = elim (Bool-cases (is_web_search t)) [
  | inl e ↦
      rw (e, plain_tool-search (context_of t).tool_name)
        (replace_tools-searches tools (some (context_of t)))
  | inr e ↦ rw (e, e) (replace_tools-searches tools ctx)
]

abbrev pub is_some {ℓ} : {A : Type ℓ} → Option A → Bool
is_some none = false
is_some (some a) = true

replace_tools-ctx :
    (tools : List Json) (ctx : Option WebSearchContext)
    → is_some (replace_tools tools ctx).1 ≡ is_some ctx || any is_web_search tools
unfolding replace_tools
replace_tools-ctx [] none = refl
replace_tools-ctx [] (some c) = refl
replace_tools-ctx (t ∷ tools) ctx = elim (Bool-cases (is_web_search t)) [
  | inl e ↦ rw e (replace_tools-ctx tools (some (context_of t)) ∙ ground arith)
  | inr e ↦ rw e (replace_tools-ctx tools ctx)
]

length-replace_tools :
    (tools : List Json) (ctx : Option WebSearchContext)
    → length (replace_tools tools ctx).0 ≡ length tools
unfolding replace_tools
length-replace_tools [] ctx = refl
length-replace_tools (t ∷ tools) ctx =
    ap suc (length-replace_tools tools (if is_web_search t then some (context_of t) else ctx))

retain-searches :
    (tools : List Json) → any is_web_search (retain (λ t. not (is_web_search t)) tools) ≡ false
retain-searches [] = refl
retain-searches (t ∷ tools) = elim (Bool-cases (is_web_search t)) [
  | inl e ↦ rw e (retain-searches tools)
  | inr e ↦ rw (e, e) (retain-searches tools)
]

-- No web search tool reaches Bedrock, in any mode; and the gateway runs searches for a request, in
-- any mode but `disabled`, just where the client offered such a tool.
pub extract_tools-clean :
    (tools : List Json) (mode : Text)
    → (any is_web_search (or_else (extract_web_search_tool_with_mode (some tools) mode).0 [])
        ≡ false)
      × (is_some (extract_web_search_tool_with_mode (some tools) mode).1
          ≡ not (mode == codes "disabled") && any is_web_search tools)
unfolding extract_web_search_tool_with_mode extract_web_search_tool
extract_tools-clean tools mode = elim (Bool-cases (mode == codes "disabled")) [
  | inl e ↦ rw e (
    any-non_empty is_web_search (retain (λ t. not (is_web_search t)) tools) ∙ retain-searches tools,
    refl,
  )
  | inr e ↦ rw e (
    any-non_empty is_web_search (replace_tools tools none).0 ∙ replace_tools-searches tools none,
    replace_tools-ctx tools none,
  )
]
