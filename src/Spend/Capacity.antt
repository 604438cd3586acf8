-- ===== src/Spend/Capacity.antt =====
-- The bound on the buffer of src/spend/mod.rs, and which entries a full buffer loses.
use mathlib.Core.List.{append-nil, append_assoc}
use claude_code_aws_gateway.Prelude.{
  ℕ, zero, suc, ◌+◌, ◌-◌, ◌≤◌, ◌≡◌, ◌≢◌, refl, sym, ap, ◌∙◌, true, List, [], ◌∷◌, ◌++◌, map, arith,
  length, length-append, length-take, length-drop, take, drop,
}
use claude_code_aws_gateway.Spend.{
  RequestLogEntry, DbError, failed, SpendDb, SpendTracker, is_transient_db_error, max_buffer_size,
  sanitize_entry, push_bounded, record_entry, record_all, rebuffer_capacity_respecting,
  flush_with_db, flush_taken, settle, err,
}
use claude_code_aws_gateway.Spend.Flush.{flush-Flushed}

push_bounded-le :
    (e : RequestLogEntry) (buf : List RequestLogEntry)
    → length (push_bounded e buf) ≤ max_buffer_size
unfolding push_bounded
push_bounded-le e buf = ground (
  arith,
  length-append buf (e ∷ []),
  length-append (drop (length buf - max_buffer_size + 1) buf) (e ∷ []),
  length-drop (length buf - max_buffer_size + 1) buf,
)

record_all-le :
    (es : List RequestLogEntry) (s : SpendTracker)
    → length s.buffer ≤ max_buffer_size
    → length (record_all es s).buffer ≤ max_buffer_size
unfolding record_all
record_all-le [] s h = h
record_all-le (e ∷ es) s h =
    record_all-le es (record_entry e s) (push_bounded-le (sanitize_entry e) s.buffer)

flush-le :
    (db : SpendDb) (meanwhile : List RequestLogEntry) (s : SpendTracker)
    → length (flush_with_db db meanwhile s).0.buffer ≤ max_buffer_size
flush-le db meanwhile s =
    let s0 = record_all meanwhile (record s { buffer = [] }) in
    let f = flush-Flushed db meanwhile s in
    rw f.buffer (
      omega (
        arith,
        length-append (take (max_buffer_size - length s0.buffer) f.rest) s0.buffer,
        length-take (max_buffer_size - length s0.buffer) f.rest,
        record_all-le meanwhile (record s { buffer = [] }) (omega arith),
      ))

-- What a tracker is asked to do.
pub data Call : Type 0 where
  records : RequestLogEntry → Call
  flushes : SpendDb → List RequestLogEntry → Call

unfoldable pub step : Call → SpendTracker → SpendTracker
unfolding record_entry flush_with_db
step (records e) s = record_entry e s
step (flushes db meanwhile) s = (flush_with_db db meanwhile s).0

unfoldable pub run : List Call → SpendTracker → SpendTracker
unfolding step
run [] s = s
run (c ∷ calls) s = run calls (step c s)

step-le : (c : Call) (s : SpendTracker) → length (step c s).buffer ≤ max_buffer_size
unfolding step flush_with_db
step-le (records e) s = push_bounded-le (sanitize_entry e) s.buffer
step-le (flushes db meanwhile) s = flush-le db meanwhile s

-- However records and flushes are interleaved and whatever the database answers, the buffer never
-- holds more than 10,000 entries.
pub run-le :
    (calls : List Call) (s : SpendTracker)
    → length s.buffer ≤ max_buffer_size
    → length (run calls s).buffer ≤ max_buffer_size
unfolding run
run-le [] s h = h
run-le (c ∷ calls) s h = run-le calls (step c s) (step-le c s)

length-map {ℓ κ} :
    {A : Type ℓ} {B : Type κ} (f : A → B) (xs : List A) → length (map f xs) ≡ length xs
length-map f [] = refl
length-map f (x ∷ xs) = ap suc (length-map f xs)

push_bounded-room :
    (e : RequestLogEntry) (buf : List RequestLogEntry)
    → length buf + 1 ≤ max_buffer_size
    → push_bounded e buf ≡ buf ++ e ∷ []
unfolding push_bounded
push_bounded-room e buf h = ground arith

record_all-append :
    (es : List RequestLogEntry) (s : SpendTracker)
    → length s.buffer + length es ≤ max_buffer_size
    → record_all es s ≡ record s { buffer = s.buffer ++ map sanitize_entry es }
unfolding record_all
record_all-append [] s h = ap (λ b. record s { buffer = b }) (sym (append-nil s.buffer))
record_all-append (e ∷ es) s h =
    let e' = sanitize_entry e in
    ap (λ b. record_all es (record s { buffer = b })) (push_bounded-room e' s.buffer (omega arith))
    ∙ record_all-append es (record s { buffer = s.buffer ++ e' ∷ [] })
        (omega (arith, length-append s.buffer (e' ∷ [])))
    ∙ ap (λ b. record s { buffer = b }) (append_assoc s.buffer (e' ∷ []) (map sanitize_entry es))

take_all {ℓ} : {A : Type ℓ} (n : ℕ) (xs : List A) → length xs ≤ n → take n xs ≡ xs
take_all zero [] h = refl
take_all zero (x ∷ xs) h = absurd (omega arith)
take_all (suc n) [] h = refl
take_all (suc n) (x ∷ xs) h = ap (◌∷◌ x) (take_all n xs (omega arith))

settle_transient :
    (db : SpendDb) (entries : List RequestLogEntry) (e : DbError) (s : SpendTracker)
    → is_transient_db_error e ≡ true
    → settle db entries (failed e) s ≡ (
      rebuffer_capacity_respecting entries (record s { flush_errors = s.flush_errors + 1 }),
      err e,
    )
unfolding settle
settle_transient db entries e s t = rw t

flush_taken_transient :
    (db : SpendDb) (meanwhile entries : List RequestLogEntry) (e : DbError) (s : SpendTracker)
    → entries ≢ []
    → db.insert_batch entries ≡ failed e
    → is_transient_db_error e ≡ true
    → flush_taken db meanwhile entries s ≡ (
      rebuffer_capacity_respecting entries (record (record_all meanwhile s) {
        flush_errors = (record_all meanwhile s).flush_errors + 1;
      }),
      err e,
    )
unfolding flush_taken
flush_taken_transient db meanwhile [] e s n b t = absurd (n refl)
flush_taken_transient db meanwhile (x ∷ entries) e s n b t =
    ap (λ r. settle db (x ∷ entries) r (record_all meanwhile s)) b
    ∙ settle_transient db (x ∷ entries) e (record_all meanwhile s) t

-- If the batch fails with a transient error and the entries recorded meanwhile still fit, the flush
-- returns that error, the database has no new row, and the buffer holds the old entries and behind
-- them the new ones: nothing is lost.
pub flush_retries :
    (db : SpendDb) (meanwhile : List RequestLogEntry) (e : DbError) (s : SpendTracker)
    → s.buffer ≢ []
    → db.insert_batch s.buffer ≡ failed e
    → is_transient_db_error e ≡ true
    → length s.buffer + length meanwhile ≤ max_buffer_size
    → flush_with_db db meanwhile s ≡ (
      record s {
        buffer = s.buffer ++ map sanitize_entry meanwhile;
        flush_errors = s.flush_errors + 1;
      },
      err e,
    )
unfolding flush_with_db rebuffer_capacity_respecting
flush_retries db meanwhile e s n b t h =
    flush_taken_transient db meanwhile s.buffer e (record s { buffer = [] }) n b t
    ∙ rw (record_all-append meanwhile (record s { buffer = [] }) (omega arith)) (
        rw (
          take_all (max_buffer_size - length (map sanitize_entry meanwhile)) s.buffer
            (omega (arith, length-map sanitize_entry meanwhile))))

take_prefix {ℓ} : {A : Type ℓ} (n : ℕ) (xs ys : List A) → n ≡ length xs → take n (xs ++ ys) ≡ xs
take_prefix zero [] ys h = refl
take_prefix zero (x ∷ xs) ys h = absurd (omega arith)
take_prefix (suc n) [] ys h = absurd (omega arith)
take_prefix (suc n) (x ∷ xs) ys h = ap (◌∷◌ x) (take_prefix n xs ys (omega arith))

-- Where the entries to put back do not all fit, the oldest of them are kept and the newest are
-- lost.
pub rebuffer_loses_newest :
    (older newer : List RequestLogEntry) (s : SpendTracker)
    → length older + length s.buffer ≡ max_buffer_size
    → (rebuffer_capacity_respecting (older ++ newer) s).buffer ≡ older ++ s.buffer
unfolding rebuffer_capacity_respecting
rebuffer_loses_newest older newer s h =
    rw (take_prefix (max_buffer_size - length s.buffer) older newer (omega arith))
