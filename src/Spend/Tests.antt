-- ===== src/Spend/Tests.antt =====
-- The tracker of src/spend/mod.rs and src/spend/sanitize.rs on concrete entries.
use claude_code_aws_gateway.Prelude.{
  ℕ, zero, suc, ◌+◌, ◌≤◌, ◌≡◌, refl, true, false, none, some, List, [], ◌∷◌, arith, length, eqb,
  if◌then◌else◌,
}
use claude_code_aws_gateway.Prelude.Int.{pos}
use claude_code_aws_gateway.Prelude.Text.{codes, text_beq}
use claude_code_aws_gateway.Json.{Json, object, string, field, end, get, put, delete, keys}
use claude_code_aws_gateway.Spend.Sanitize.{sanitize_json}
use claude_code_aws_gateway.Spend.Sanitize.Clean.{CleanJson, sanitize_json-Clean}
use claude_code_aws_gateway.Spend.{
  RequestLogEntry, io, database, done, failed, SpendDb, SpendTracker, is_transient_db_error,
  max_buffer_size, flush_with_db, record_all, per_record_fallback, insert_each, ok, new,
}
use claude_code_aws_gateway.Spend.Flush.{Flushed, flush-Flushed}
use claude_code_aws_gateway.Spend.Capacity.{records, flushes, run, run-le}
use claude_code_aws_gateway.Spend.Poison.{CleanTracker, history-Clean}

-- {"k\0": "v\0"}
abbrev poisoned : Json
poisoned = object (field (b'k' ∷ 0 ∷ []) (string (b'v' ∷ 0 ∷ [])) end)

strips_nested_nul : sanitize_json poisoned ≡ object (field (codes "k") (string (codes "v")) end)
unfolding sanitize_json get put delete keys text_beq
strips_nested_nul = refl

abbrev entry : ℕ → RequestLogEntry
entry n = record {
  key_id = some n;
  user_identity = none;
  request_id = n ∷ [];
  model = b'm' ∷ 0 ∷ [];
  streaming = true;
  duration_ms = pos 5;
  input_tokens = pos 10;
  output_tokens = pos 20;
  cache_read_tokens = pos 0;
  cache_write_tokens = pos 0;
  stop_reason = none;
  tool_count = pos 0;
  tool_names = [];
  turn_count = pos 1;
  thinking_enabled = false;
  has_system_prompt = false;
  session_id = none;
  project_key = none;
  tool_errors = some poisoned;
  has_correction = false;
  content_block_types = [];
  system_prompt_hash = none;
  detection_flags = none;
  endpoint_id = none;
}

-- The batch is rejected for its data; of the single inserts the second is rejected for its data and
-- the third fails with a lost connection.
abbrev flaky : SpendDb
flaky = record {
  insert_batch = λ entries. failed (database (some (codes "22P05")));
  insert_one = λ turn e.
      if eqb turn 1
      then failed (database (some (codes "22021")))
      else if eqb turn 2
      then failed io
      else done;
}

abbrev down : SpendDb
down = record { insert_batch = λ entries. failed io; insert_one = λ turn e. failed io }

abbrev loaded : SpendTracker
loaded = record new { buffer = entry 1 ∷ entry 2 ∷ entry 3 ∷ entry 4 ∷ [] }

isolates_poison : flush_with_db flaky [] loaded ≡ (
  record {
    buffer = entry 3 ∷ entry 4 ∷ [];
    flush_errors = 1;
    quarantined = 1;
    rows = entry 1 ∷ [];
  },
  ok 1,
)
unfolding flush_with_db is_transient_db_error record_all per_record_fallback insert_each
isolates_poison = refl

flush-Flushed_example :
    Flushed flaky loaded.buffer
      (record_all (entry 5 ∷ []) (record loaded { buffer = [] }))
      (flush_with_db flaky (entry 5 ∷ []) loaded).0
flush-Flushed_example = flush-Flushed flaky (entry 5 ∷ []) loaded

run-le_example :
    length (run (records (entry 5) ∷ flushes flaky [] ∷ []) loaded).buffer ≤ max_buffer_size
run-le_example = run-le (records (entry 5) ∷ flushes flaky [] ∷ []) loaded (omega arith)

abbrev copies : ℕ → List RequestLogEntry
copies zero = []
copies (suc n) = entry 7 ∷ copies n

length-copies : (n : ℕ) → length (copies n) ≡ n
length-copies zero = refl
length-copies (suc n) = omega (arith, length-copies n)

nearly_full : (n : ℕ) → SpendTracker
nearly_full n = record new { buffer = copies n }

fills :
    (n : ℕ) → n ≡ 9_999 → length (entry 1 ∷ []) + length (nearly_full n).buffer ≡ max_buffer_size
unfolding nearly_full
fills n h = omega (arith, length-copies n)

sanitize_json-Clean_example :
    CleanJson (sanitize_json poisoned)
    × (CleanJson poisoned → sanitize_json poisoned ≡ poisoned)
    × (sanitize_json (sanitize_json poisoned) ≡ sanitize_json poisoned)
sanitize_json-Clean_example = sanitize_json-Clean poisoned

history-Clean_example : CleanTracker (run (records (entry 5) ∷ flushes flaky [] ∷ []) new)
history-Clean_example = history-Clean (records (entry 5) ∷ flushes flaky [] ∷ [])
