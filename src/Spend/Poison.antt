-- ===== src/Spend/Poison.antt =====
-- No NUL reaches the buffer of src/spend/mod.rs, or the database through it.
use claude_code_aws_gateway.Prelude.{
  ◌≡◌, false, Option, none, some, List, [], ◌∷◌, map, length, subst, All, All-append,
  All-append_left, All-append_right, All-take, All-drop, All-snoc, Bool-cases, inl, inr, leb,
}
use claude_code_aws_gateway.Prelude.Text.{Text}
use claude_code_aws_gateway.Json.{Json}
use claude_code_aws_gateway.Spend.Sanitize.{has_nul, sanitize_string, sanitize_json}
use claude_code_aws_gateway.Spend.Sanitize.Clean.{
  CleanJson, sanitize_string-clean, sanitize_json-Clean,
}
use claude_code_aws_gateway.Spend.{
  RequestLogEntry, SpendDb, SpendTracker, max_buffer_size, sanitize_entry, push_bounded,
  record_entry, record_all, flush_with_db, new, map_option,
}
use claude_code_aws_gateway.Spend.Flush.{flush-Flushed, Interleaves, nil, left, right}
use claude_code_aws_gateway.Spend.Capacity.{Call, records, flushes, step, run}

abbrev pub CleanText : Text → Type 0
CleanText s = has_nul s ≡ false

abbrev pub IfSome {ℓ} : {A : Type ℓ} → (A → Type 0) → Option A → Type 0
IfSome P none = Unit
IfSome P (some a) = P a

-- The fields that a client or a model controls hold no NUL.
pub record CleanEntry (e : RequestLogEntry) : Type 0 where
  pub user_identity : IfSome CleanText e.user_identity
  pub model : CleanText e.model
  pub stop_reason : IfSome CleanText e.stop_reason
  pub session_id : IfSome CleanText e.session_id
  pub project_key : IfSome CleanText e.project_key
  pub tool_names : All CleanText e.tool_names
  pub content_block_types : All CleanText e.content_block_types
  pub tool_errors : IfSome CleanJson e.tool_errors
  pub detection_flags : IfSome CleanJson e.detection_flags

sanitize-IfSome : (o : Option Text) → IfSome CleanText (map_option sanitize_string o)
sanitize-IfSome none = tt
sanitize-IfSome (some s) = sanitize_string-clean s

sanitize_json-IfSome : (o : Option Json) → IfSome CleanJson (map_option sanitize_json o)
sanitize_json-IfSome none = tt
sanitize_json-IfSome (some v) = (sanitize_json-Clean v).0

sanitize-All : (ss : List Text) → All CleanText (map sanitize_string ss)
sanitize-All [] = tt
sanitize-All (s ∷ ss) = (sanitize_string-clean s, sanitize-All ss)

sanitize_entry-CleanEntry : (e : RequestLogEntry) → CleanEntry (sanitize_entry e)
unfolding sanitize_entry
sanitize_entry-CleanEntry e = record {
  user_identity = sanitize-IfSome e.user_identity;
  model = sanitize_string-clean e.model;
  stop_reason = sanitize-IfSome e.stop_reason;
  session_id = sanitize-IfSome e.session_id;
  project_key = sanitize-IfSome e.project_key;
  tool_names = sanitize-All e.tool_names;
  content_block_types = sanitize-All e.content_block_types;
  tool_errors = sanitize_json-IfSome e.tool_errors;
  detection_flags = sanitize_json-IfSome e.detection_flags;
}

-- Every entry of the tracker's buffer and every row that it wrote is clean.
pub record CleanTracker (s : SpendTracker) : Type 0 where
  pub buffer : All CleanEntry s.buffer
  pub rows : All CleanEntry s.rows

push_bounded-All :
    (e : RequestLogEntry) (buf : List RequestLogEntry)
    → CleanEntry e
    → All CleanEntry buf
    → All CleanEntry (push_bounded e buf)
unfolding push_bounded
push_bounded-All e buf c a = elim (Bool-cases (leb max_buffer_size (length buf))) [
  | inl h ↦ rw h (All-snoc CleanEntry e _ (All-drop CleanEntry _ buf a) c)
  | inr h ↦ rw h (All-snoc CleanEntry e buf a c)
]

record_entry-Clean :
    (e : RequestLogEntry) (s : SpendTracker) → CleanTracker s → CleanTracker (record_entry e s)
unfolding record_entry
record_entry-Clean e s c = record {
  buffer = push_bounded-All (sanitize_entry e) s.buffer (sanitize_entry-CleanEntry e) c.buffer;
  rows = c.rows;
}

record_all-Clean :
    (es : List RequestLogEntry) (s : SpendTracker) → CleanTracker s → CleanTracker (record_all es s)
unfolding record_all
record_all-Clean [] s c = c
record_all-Clean (e ∷ es) s c = record_all-Clean es (record_entry e s) (record_entry-Clean e s c)

Interleaves-All :
    {xs ys zs : List RequestLogEntry} → Interleaves xs ys zs → All CleanEntry zs → All CleanEntry xs
Interleaves-All nil a = tt
Interleaves-All (left i) a = (a.0, Interleaves-All i a.1)
Interleaves-All (right i) a = Interleaves-All i a.1

flush-Clean :
    (db : SpendDb) (meanwhile : List RequestLogEntry) (s : SpendTracker)
    → CleanTracker s
    → CleanTracker (flush_with_db db meanwhile s).0
flush-Clean db meanwhile s c =
    let f = flush-Flushed db meanwhile s in
    let c0 =
      record_all-Clean meanwhile (record s { buffer = [] })
        (record { buffer = tt; rows = c.rows }) in
    let all = subst (All CleanEntry) f.accounts.split c.buffer in
    record {
      buffer = rw f.buffer (
          All-append CleanEntry _ _
            (All-take CleanEntry _ f.rest
              (All-append_right CleanEntry f.accounts.handled f.rest all))
            c0.buffer);
      rows = rw f.rows (
          All-append CleanEntry _ _ c0.rows (
            Interleaves-All f.accounts.parts
              (All-append_left CleanEntry f.accounts.handled f.rest all)));
    }

step-Clean : (c : Call) (s : SpendTracker) → CleanTracker s → CleanTracker (step c s)
unfolding step
step-Clean (records e) s h = record_entry-Clean e s h
step-Clean (flushes db meanwhile) s h = flush-Clean db meanwhile s h

run-Clean : (calls : List Call) (s : SpendTracker) → CleanTracker s → CleanTracker (run calls s)
unfolding run
run-Clean [] s h = h
run-Clean (c ∷ calls) s h = run-Clean calls (step c s) (step-Clean c s h)

-- After any history of records and flushes of a new tracker, no client-controlled field of an entry
-- that waits in the buffer or was written to the database holds a NUL, whatever was recorded.
pub history-Clean : (calls : List Call) → CleanTracker (run calls new)
history-Clean calls = run-Clean calls new (record { buffer = tt; rows = tt })
