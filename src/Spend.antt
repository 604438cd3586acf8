-- ===== src/Spend.antt =====
-- src/spend/mod.rs, and the entry and error types of src/db/spend.rs: a bounded buffer of request
-- log entries that is flushed to Postgres. The database and the entries that other tasks record
-- while it answers are arguments of a flush; `rows` collects what the database accepted.
pub mod Sanitize
pub mod Flush
pub mod Capacity
pub mod Poison
mod Tests
use claude_code_aws_gateway.Prelude.{
  ℕ, ◌+◌, ◌-◌, Bool, true, false, not, Option, none, some, List, [], ◌∷◌, ◌++◌, map, ltb, leb,
  length, take, drop, if◌then◌else◌,
}
use claude_code_aws_gateway.Prelude.Int.{ℤ}
use claude_code_aws_gateway.Prelude.Text.{Text, codes, starts_with}
use claude_code_aws_gateway.Json.{Json}
use claude_code_aws_gateway.Spend.Sanitize.{sanitize_string, sanitize_json}

pub record RequestLogEntry : Type 0 where
  pub key_id : Option ℕ
  pub user_identity : Option Text
  pub request_id : Text
  pub model : Text
  pub streaming : Bool
  pub duration_ms : ℤ
  pub input_tokens : ℤ
  pub output_tokens : ℤ
  pub cache_read_tokens : ℤ
  pub cache_write_tokens : ℤ
  pub stop_reason : Option Text
  pub tool_count : ℤ
  pub tool_names : List Text
  pub turn_count : ℤ
  pub thinking_enabled : Bool
  pub has_system_prompt : Bool
  pub session_id : Option Text
  pub project_key : Option Text
  pub tool_errors : Option Json
  pub has_correction : Bool
  pub content_block_types : List Text
  pub system_prompt_hash : Option Text
  pub detection_flags : Option Json
  pub endpoint_id : Option ℕ

-- The variants of `sqlx::Error` that the source tells apart; a database error may carry a code.
pub data DbError : Type 0 where
  pool_timed_out io other : DbError
  database : Option Text → DbError

abbrev pub data_exception : Option Text → Bool
data_exception none = false
data_exception (some code) = starts_with code (codes "22")

unfoldable pub is_transient_db_error : DbError → Bool
unfolding starts_with
is_transient_db_error pool_timed_out = true
is_transient_db_error io = true
is_transient_db_error (database code) = not (data_exception code)
is_transient_db_error other = true

abbrev pub max_buffer_size : ℕ
max_buffer_size = 10_000

pub record SpendTracker : Type 0 where
  pub buffer : List RequestLogEntry
  pub flush_errors : ℕ
  pub quarantined : ℕ
  pub rows : List RequestLogEntry

abbrev pub new : SpendTracker
new = record { buffer = []; flush_errors = 0; quarantined = 0; rows = [] }

abbrev pub map_option {ℓ κ} : {A : Type ℓ} {B : Type κ} → (A → B) → Option A → Option B
map_option f none = none
map_option f (some a) = some (f a)

-- The part of `record` before the buffer.
unfoldable pub sanitize_entry : RequestLogEntry → RequestLogEntry
sanitize_entry e = record e {
  user_identity = map_option sanitize_string e.user_identity;
  model = sanitize_string e.model;
  stop_reason = map_option sanitize_string e.stop_reason;
  session_id = map_option sanitize_string e.session_id;
  project_key = map_option sanitize_string e.project_key;
  tool_names = map sanitize_string e.tool_names;
  content_block_types = map sanitize_string e.content_block_types;
  tool_errors = map_option sanitize_json e.tool_errors;
  detection_flags = map_option sanitize_json e.detection_flags;
}

-- The part of `record` behind the lock: the oldest entries make room.
unfoldable pub push_bounded : RequestLogEntry → List RequestLogEntry → List RequestLogEntry
push_bounded e buf =
    if leb max_buffer_size (length buf)
    then drop (length buf - max_buffer_size + 1) buf ++ e ∷ []
    else buf ++ e ∷ []

unfoldable pub record_entry : RequestLogEntry → SpendTracker → SpendTracker
unfolding push_bounded
record_entry e s = record s { buffer = push_bounded (sanitize_entry e) s.buffer }

unfoldable pub record_all : List RequestLogEntry → SpendTracker → SpendTracker
unfolding record_entry
record_all [] s = s
record_all (e ∷ es) s = record_all es (record_entry e s)

-- The entries that do not fit are those at the end of `entries`.
unfoldable pub rebuffer_capacity_respecting : List RequestLogEntry → SpendTracker → SpendTracker
rebuffer_capacity_respecting entries s = record s {
  buffer = take (max_buffer_size - length s.buffer) entries ++ s.buffer;
}

-- What an insert returns; a failed insert writes no row, since each is one statement.
pub data DbResult : Type 0 where
  done : DbResult
  failed : DbError → DbResult

-- `SpendDb`: the answer to the batch insert, and to each insert of one entry in its turn.
pub record SpendDb : Type 0 where
  pub insert_batch : List RequestLogEntry → DbResult
  pub insert_one : ℕ → RequestLogEntry → DbResult

-- How the loop of `per_record_fallback` ends.
pub record Pass : Type 0 where
  pub inserted : List RequestLogEntry
  pub rejected : List RequestLogEntry
  pub to_rebuffer : List RequestLogEntry

abbrev pub pass_one : DbResult → RequestLogEntry → List RequestLogEntry → Pass → Pass
pass_one done e entries rest = record rest { inserted = e ∷ rest.inserted }
pass_one (failed err) e entries rest =
    if is_transient_db_error err
    then record { inserted = []; rejected = []; to_rebuffer = e ∷ entries }
    else record rest { rejected = e ∷ rest.rejected }

unfoldable pub insert_each : SpendDb → ℕ → List RequestLogEntry → Pass
insert_each db turn [] = record { inserted = []; rejected = []; to_rebuffer = [] }
insert_each db turn (e ∷ entries) =
    let rest = insert_each db (turn + 1) entries in pass_one (db.insert_one turn e) e entries rest

abbrev pub is_nil {ℓ} : {A : Type ℓ} → List A → Bool
is_nil [] = true
is_nil (_ ∷ _) = false

-- The result of a flush: the number of entries written, or the error of the batch.
pub data FlushResult : Type 0 where
  ok : ℕ → FlushResult
  err : DbError → FlushResult

unfoldable pub per_record_fallback :
    SpendDb → List RequestLogEntry → SpendTracker → SpendTracker × FlushResult
unfolding rebuffer_capacity_respecting
per_record_fallback db entries s =
    let pass = insert_each db 0 entries in
    let s' = record s {
      quarantined = s.quarantined + length pass.rejected;
      rows = s.rows ++ pass.inserted;
    } in
    let s'' =
      if is_nil pass.to_rebuffer then s' else rebuffer_capacity_respecting pass.to_rebuffer s' in
    (s'', ok (length pass.inserted))

-- The answer to the batch decides; s is the tracker when the database has answered.
unfoldable pub settle :
    SpendDb → List RequestLogEntry → DbResult → SpendTracker → SpendTracker × FlushResult
unfolding rebuffer_capacity_respecting
settle db entries done s = (record s { rows = s.rows ++ entries }, ok (length entries))
settle db entries (failed e) s =
    let s' = record s { flush_errors = s.flush_errors + 1 } in
    if is_transient_db_error e
    then (rebuffer_capacity_respecting entries s', err e)
    else per_record_fallback db entries s'

-- The entries were taken from the buffer; `meanwhile` is what other tasks record before they come
-- back.
unfoldable pub flush_taken :
    SpendDb
    → List RequestLogEntry
    → List RequestLogEntry
    → SpendTracker
    → SpendTracker × FlushResult
unfolding settle
flush_taken db meanwhile [] s = (record_all meanwhile s, ok 0)
flush_taken db meanwhile (e ∷ entries) s =
    settle db (e ∷ entries) (db.insert_batch (e ∷ entries)) (record_all meanwhile s)

unfoldable pub flush_with_db :
    SpendDb → List RequestLogEntry → SpendTracker → SpendTracker × FlushResult
unfolding flush_taken
flush_with_db db meanwhile s = flush_taken db meanwhile s.buffer (record s { buffer = [] })
