-- ===== src/Translate/Response/Kept.antt =====
-- What src/translate/response.rs and src/translate/streaming.rs leave in each field.
use claude_code_aws_gateway.Prelude.{
  ◌≡◌, refl, sym, ap, ◌∙◌, false, ◌||◌, inl, inr, Option, none, some, arith, ◌==◌, Bool-cases,
  if◌then◌else◌,
}
use claude_code_aws_gateway.Prelude.Assoc.{map_option}
use claude_code_aws_gateway.Prelude.Text.{Text, codes, text_eq, text_beq, text_beq_iff}
use claude_code_aws_gateway.Json.{
  Json, string, object, Fields, get, put, get-put, get-delete, put_new,
}
use claude_code_aws_gateway.Json.Access.{
  at, as_str, and_then, or_else, in_object, update, get-update, get-put_new, beq_sym,
}
use claude_code_aws_gateway.Translate.Models.{ModelCache}
use claude_code_aws_gateway.Translate.Models.Reverse.{bedrock_to_anthropic}
use claude_code_aws_gateway.Translate.Response.{
  zero_number, with_cache_fields, normalize_usage, response_model, normalize_response, set_model,
  replace_model, normalize_message, normalize_stream_event,
}

-- A field of the usage behind the call.
abbrev pub usage_field : Text → Fields → Option Json
usage_field k usage =
    if k == codes "cache_creation_input_tokens" || k == codes "cache_read_input_tokens"
    then some (or_else (get k usage) zero_number)
    else get k usage

get-with_cache_fields :
    (k : Text) (usage : Fields) → get k (with_cache_fields usage) ≡ usage_field k usage
unfolding with_cache_fields
get-with_cache_fields k usage =
    let creation = codes "cache_creation_input_tokens" in
    let read = codes "cache_read_input_tokens" in
    let inner = get-put_new creation k zero_number usage in
    let outer = get-put_new read k zero_number (put_new creation zero_number usage) in
    let apart = get-put_new creation read zero_number usage in
    ground (
      arith,
      text_beq_iff k creation,
      text_beq_iff k read,
      text_beq_iff creation k,
      text_beq_iff read k,
    )

get-normalize_usage :
    (k : Text) (fs : Fields)
    → get k (normalize_usage fs) ≡ (
        if k == codes "usage"
        then map_option (in_object with_cache_fields) (get k fs)
        else get k fs)
unfolding normalize_usage
get-normalize_usage k fs =
    rw (beq_sym k (codes "usage")) (get-update (codes "usage") k (in_object with_cache_fields) fs)

abbrev pub usage_of : Option Json → Option Json
usage_of o = map_option (in_object with_cache_fields) o

-- Under a test of the key, the key is known.
if_key :
    (k a : Text) (f : Text → Option Json) (o : Option Json)
    → (if k == a then f a else o) ≡ (if k == a then f k else o)
if_key k a f o = elim (Bool-cases (k == a)) [
  | inl e ↦ ap (λ j. if k == a then f j else o) (sym ((text_beq_iff k a).0 e))
  | inr e ↦ rw e refl
]

-- Changes under two keys do not meet.
if_apart :
    (k a b : Text) (f : Option Json → Option Json) (o new : Option Json)
    → (a == b) ≡ false
    → (if k == a then f (if k == b then new else o) else if k == b then new else o)
      ≡ (if k == a then f o else if k == b then new else o)
if_apart k a b f o new h = elim (Bool-cases (k == a)) [
  | inl e ↦
      let same : k ≡ a = (text_beq_iff k a).0 e in
      let off : (k == b) ≡ false = rw (same, h) refl in rw (e, off) refl
  | inr e ↦ rw e refl
]

module _ (cache : Option (Option ModelCache)) where
  -- An answer keeps its fields, except that the model is a name of Anthropic, for the model of the
  -- answer or, where it has none, of the request, and that an object under `usage` has both cache
  -- fields: each with its own value, or 0 where it had none, beside its other fields.
  pub get-normalize_response :
      (model k j : Text) (fs usage : Fields)
      → (at k (normalize_response model cache (object fs)) ≡ (
          if k == codes "usage"
          then usage_of (get k fs)
          else if k == codes "model"
          then some (string (bedrock_to_anthropic (response_model model cache fs) cache))
          else get k fs))
        × (get j (with_cache_fields usage) ≡ usage_field j usage)
  unfolding normalize_response at
  get-normalize_response model k j fs usage =
      let name = string (bedrock_to_anthropic (response_model model cache fs) cache) in
      let outer = get-normalize_usage k (put (codes "model") name fs) in
      let inner = get-put (codes "model") k name fs in
      (
        ground (
          arith,
          text_beq_iff k (codes "usage"),
          text_beq_iff k (codes "model"),
          text_beq_iff (codes "model") k,
        ),
        get-with_cache_fields j usage,
      )

  abbrev named : Option Text → Option Json → Option Json
  named none o = o
  named (some model) o = some (string (bedrock_to_anthropic model cache))

  -- The model of a message that has one.
  abbrev pub renamed : Option Json → Option Json
  renamed o = named (and_then o as_str) o

  get-set_model :
      (k : Text) (fs : Fields) (o : Option Text)
      → get k (set_model cache o fs) ≡ (if k == codes "model" then named o (get k fs) else get k fs)
  get-set_model k fs none = elim (Bool-cases (k == codes "model")) [
    | inl e ↦ rw e refl
    | inr e ↦ rw e refl
  ]
  get-set_model k fs (some model) =
      let name = string (bedrock_to_anthropic model cache) in
      rw (beq_sym k (codes "model")) (get-put (codes "model") k name fs)

  get-replace_model :
      (k : Text) (fs : Fields)
      → get k (replace_model cache fs)
        ≡ (if k == codes "model" then renamed (get k fs) else get k fs)
  unfolding replace_model
  get-replace_model k fs =
      get-set_model k fs (and_then (get (codes "model") fs) as_str)
      ∙ if_key k (codes "model") (λ j. named (and_then (get j fs) as_str) (get k fs)) (get k fs)

  -- A streamed event keeps its fields, except for the metrics of Bedrock, which are dropped, and for
  -- the usage of the event and of its message, which get the cache fields; the model of a message is
  -- a name of Anthropic where the message has one.
  pub get-normalize_stream_event :
      (k j : Text) (fs message : Fields)
      → (at k (normalize_stream_event cache (object fs)) ≡ (
          if k == codes "amazon-bedrock-invocationMetrics"
          then none
          else if k == codes "usage"
          then usage_of (get k fs)
          else if k == codes "message"
          then map_option (in_object (normalize_message cache)) (get k fs)
          else get k fs))
        × (get j (normalize_message cache message) ≡ (
            if j == codes "usage"
            then usage_of (get j message)
            else if j == codes "model"
            then renamed (get j message)
            else get j message))
  unfolding normalize_stream_event normalize_message at text_beq
  get-normalize_stream_event k j fs message =
      let change = in_object (normalize_message cache) in
      let outer = get-normalize_usage k (update (codes "message") change fs) in
      let inner = get-update (codes "message") k change fs in
      let outer_m = get-normalize_usage j (replace_model cache message) in
      let inner_m = get-replace_model j message in
      (
        get-delete (codes "amazon-bedrock-invocationMetrics") k _
            ∙ rw
                (
                  beq_sym (codes "amazon-bedrock-invocationMetrics") k,
                  outer,
                  inner,
                  beq_sym (codes "message") k,
                  if_apart k (codes "usage") (codes "message") usage_of (get k fs)
                      (map_option change (get k fs)) refl,
                )
                refl,
        outer_m
            ∙ rw
                (
                  inner_m,
                  if_apart j (codes "usage") (codes "model") usage_of (get j message)
                      (renamed (get j message)) refl,
                )
                refl,
      )
