-- ===== src/Spend/Flush.antt =====
-- What a flush of src/spend/mod.rs does with the entries that it took from the buffer.
use mathlib.Core.List.{append-nil}
use claude_code_aws_gateway.Prelude.{
  ℕ, zero, suc, ◌+◌, ◌-◌, ◌≡◌, refl, sym, ap, false, List, [], ◌∷◌, ◌++◌, arith, length, take, All,
  Bool-cases, inl, inr, if◌then◌else◌,
}
use claude_code_aws_gateway.Spend.{
  RequestLogEntry, DbError, DbResult, done, failed, SpendDb, SpendTracker, is_transient_db_error,
  max_buffer_size, record_all, rebuffer_capacity_respecting, Pass, insert_each, pass_one, is_nil,
  per_record_fallback, settle, flush_with_db, flush_taken,
}

-- The entries of zs are those of xs and ys, each list in its order.
pub data Interleaves {ℓ} {A : Type ℓ} : List A → List A → List A → Type ℓ where
  nil : Interleaves [] [] []
  left : {x : A} {xs ys zs : List A} → Interleaves xs ys zs → Interleaves (x ∷ xs) ys (x ∷ zs)
  right : {y : A} {xs ys zs : List A} → Interleaves xs ys zs → Interleaves xs (y ∷ ys) (y ∷ zs)

pub Interleaves-all {ℓ} : {A : Type ℓ} (xs : List A) → Interleaves xs [] xs
Interleaves-all [] = nil
Interleaves-all (x ∷ xs) = left (Interleaves-all xs)

-- The database rejected the data of this entry.
abbrev pub Rejects : SpendDb → RequestLogEntry → Type 0
Rejects db e =
    (turn : ℕ) × (error : DbError) × (db.insert_one turn e ≡ failed error)
    × (is_transient_db_error error ≡ false)

-- What became of `entries`: some were handled, in order, and each of those was inserted or, if the
-- database rejected its data, dropped; the rest is to be tried again.
pub record Accounts (db : SpendDb) (entries inserted rejected rest : List RequestLogEntry)
    : Type 0 where
  pub handled : List RequestLogEntry
  pub split : entries ≡ handled ++ rest
  pub parts : Interleaves inserted rejected handled
  pub reasons : All (Rejects db) rejected

pass_one-Accounts :
    (db : SpendDb) (turn : ℕ) (e : RequestLogEntry) (entries : List RequestLogEntry) (p : Pass)
    (r : DbResult)
    → db.insert_one turn e ≡ r
    → Accounts db entries p.inserted p.rejected p.to_rebuffer
    → Accounts db
        (e ∷ entries)
        (pass_one r e entries p).inserted
        (pass_one r e entries p).rejected
        (pass_one r e entries p).to_rebuffer
pass_one-Accounts db turn e entries p done a acc = record {
  handled = e ∷ acc.handled;
  split = ap (◌∷◌ e) acc.split;
  parts = left acc.parts;
  reasons = acc.reasons;
}
pass_one-Accounts db turn e entries p (failed error) a acc =
    elim (Bool-cases (is_transient_db_error error)) [
      | inl t ↦ rw t (record { handled = []; split = refl; parts = nil; reasons = tt })
      | inr t ↦ rw t (record {
        handled = e ∷ acc.handled;
        split = ap (◌∷◌ e) acc.split;
        parts = right acc.parts;
        reasons = ((turn, error, a, t), acc.reasons);
      })
    ]

pub insert_each-Accounts :
    (db : SpendDb) (turn : ℕ) (entries : List RequestLogEntry)
    → let pass = insert_each db turn entries in
      Accounts db entries pass.inserted pass.rejected pass.to_rebuffer
unfolding insert_each
insert_each-Accounts db turn [] = record { handled = []; split = refl; parts = nil; reasons = tt }
insert_each-Accounts db turn (e ∷ entries) =
    pass_one-Accounts db turn e entries (insert_each db (turn + 1) entries) (db.insert_one turn e)
      refl (insert_each-Accounts db (turn + 1) entries)

-- The tracker s' after a flush of `entries`, where s is the tracker that the answers met.
pub record Flushed (db : SpendDb) (entries : List RequestLogEntry) (s s' : SpendTracker)
    : Type 0 where
  pub inserted : List RequestLogEntry
  pub rejected : List RequestLogEntry
  pub rest : List RequestLogEntry
  pub accounts : Accounts db entries inserted rejected rest
  pub rows : s'.rows ≡ s.rows ++ inserted
  pub quarantined : s'.quarantined ≡ s.quarantined + length rejected
  pub buffer : s'.buffer ≡ take (max_buffer_size - length s.buffer) rest ++ s.buffer

take-nil {ℓ} : {A : Type ℓ} (n : ℕ) → take {A = A} n [] ≡ []
take-nil zero = refl
take-nil (suc n) = refl

rebuffered :
    (rest : List RequestLogEntry) (s : SpendTracker)
    → (if is_nil rest then s else rebuffer_capacity_respecting rest s).buffer
      ≡ take (max_buffer_size - length s.buffer) rest ++ s.buffer
unfolding rebuffer_capacity_respecting
rebuffered [] s = rw take-nil
rebuffered (e ∷ rest) s = refl

rebuffer-rows :
    (rest : List RequestLogEntry) (s : SpendTracker)
    → ((if is_nil rest then s else rebuffer_capacity_respecting rest s).rows ≡ s.rows)
      × ((if is_nil rest then s else rebuffer_capacity_respecting rest s).quarantined
          ≡ s.quarantined)
unfolding rebuffer_capacity_respecting
rebuffer-rows [] s = (refl, refl)
rebuffer-rows (e ∷ rest) s = (refl, refl)

fallback-Flushed :
    (db : SpendDb) (entries : List RequestLogEntry) (s : SpendTracker)
    → Flushed db entries s (per_record_fallback db entries s).0
unfolding per_record_fallback
fallback-Flushed db entries s =
    let pass = insert_each db 0 entries in
    record {
      inserted = pass.inserted;
      rejected = pass.rejected;
      rest = pass.to_rebuffer;
      accounts = insert_each-Accounts db 0 entries;
      rows = (rebuffer-rows pass.to_rebuffer _).0;
      quarantined = (rebuffer-rows pass.to_rebuffer _).1;
      buffer = rebuffered pass.to_rebuffer _;
    }

settle-Flushed :
    (db : SpendDb) (entries : List RequestLogEntry) (answer : DbResult) (s : SpendTracker)
    → Flushed db entries s (settle db entries answer s).0
unfolding settle
settle-Flushed db entries done s = record {
  inserted = entries;
  rejected = [];
  rest = [];
  accounts = record {
    handled = entries;
    split = sym (append-nil entries);
    parts = Interleaves-all entries;
    reasons = tt;
  };
  rows = refl;
  quarantined = omega arith;
  buffer = rw take-nil;
}
settle-Flushed db entries (failed e) s = elim (Bool-cases (is_transient_db_error e)) [
  | inl t ↦ rw t (record {
    inserted = [];
    rejected = [];
    rest = entries;
    accounts = record { handled = []; split = refl; parts = nil; reasons = tt };
    rows = sym (append-nil s.rows);
    quarantined = omega arith;
    buffer = refl;
  })
  | inr t ↦
      let f = fallback-Flushed db entries (record s { flush_errors = s.flush_errors + 1 }) in
      rw t (record {
        inserted = f.inserted;
        rejected = f.rejected;
        rest = f.rest;
        accounts = f.accounts;
        rows = f.rows;
        quarantined = f.quarantined;
        buffer = f.buffer;
      })
]

flush_empty-Flushed : (db : SpendDb) (s : SpendTracker) → Flushed db [] s s
flush_empty-Flushed db s = record {
  inserted = [];
  rejected = [];
  rest = [];
  accounts = record { handled = []; split = refl; parts = nil; reasons = tt };
  rows = sym (append-nil s.rows);
  quarantined = omega arith;
  buffer = rw take-nil;
}

flush_taken-Flushed :
    (db : SpendDb) (meanwhile entries : List RequestLogEntry) (s : SpendTracker)
    → Flushed db entries (record_all meanwhile s) (flush_taken db meanwhile entries s).0
unfolding flush_taken
flush_taken-Flushed db meanwhile [] s = flush_empty-Flushed db (record_all meanwhile s)
flush_taken-Flushed db meanwhile (e ∷ entries) s =
    settle-Flushed db (e ∷ entries) (db.insert_batch (e ∷ entries)) (record_all meanwhile s)

-- Whatever the database answers and other tasks record meanwhile, a flush accounts for every entry
-- of the buffer in order: a first part is inserted or dropped, dropped only if the database rejected
-- the data of that entry, and the rest goes back to the front of the buffer as far as there is room.
-- The quarantine counter grows by the entries dropped.
pub flush-Flushed :
    (db : SpendDb) (meanwhile : List RequestLogEntry) (s : SpendTracker)
    → Flushed db s.buffer
        (record_all meanwhile (record s { buffer = [] }))
        (flush_with_db db meanwhile s).0
unfolding flush_with_db
flush-Flushed db meanwhile s = flush_taken-Flushed db meanwhile s.buffer (record s { buffer = [] })
