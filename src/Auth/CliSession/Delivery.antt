-- ===== src/Auth/CliSession/Delivery.antt =====
-- The tokens that src/api/cli_auth.rs delivers, whatever the order of the statements of its handlers.
use claude_code_aws_gateway.Prelude.{
  ℕ, ◌+◌, ◌-◌, ◌/◌, ◌≤◌, ◌≡◌, ◌≢◌, refl, sym, ap, ◌∙◌, ◌⊎◌, inl, inr, Bool, Option, none, some,
  List, [], ◌∷◌, arith, ltb, retain, ◌==◌, Bool-cases, Option-cases,
}
use claude_code_aws_gateway.Prelude.Elem.{Elem, here, there}
use claude_code_aws_gateway.Prelude.Text.{Text, text_eq}
use claude_code_aws_gateway.Prelude.Assoc.{
  Assoc, lookup, insert, lookup-insert, lookup-remove, Unique, Unique-nil, insert-Unique,
  remove-Unique,
}
use claude_code_aws_gateway.Auth.CliSession.{
  Row, Table, nanos_per_sec, five_minutes, session_ttl_secs, session_key, db_create_session,
  db_complete_session, expired, complete, value_of, read_row, select_session, db_delete_session,
  is_kept, db_cleanup_expired,
}

-- A statement that changes the table, with the time at which it runs.
pub data Statement : Type 0 where
  creates : ℕ → Text → Statement
  completes : ℕ → Text → Text → Statement
  deletes : Text → Statement
  cleans : ℕ → Statement

unfoldable pub step : Statement → Table → Table
unfolding db_create_session db_complete_session db_delete_session db_cleanup_expired
step (creates now id) table = db_create_session now id table
step (completes now id token) table = (db_complete_session now id token table).0
step (deletes id) table = db_delete_session id table
step (cleans now) table = db_cleanup_expired now table

-- The tables that statements of any handlers, in any order, can make; the newest statement first.
pub data Reach : List Statement → Table → Type 0 where
  start : Reach [] []
  next :
      {history : List Statement} {table : Table} (s : Statement)
      → Reach history table
      → Reach (s ∷ history) (step s table)

session_key-inj : (a b : Text) → session_key a ≡ session_key b → a ≡ b
session_key-inj a b e = cc

some_inj : {A : Type 0} {a b : A} → some a ≡ some b → a ≡ b
some_inj e = cc

module _ {A : Type 0} where
  lookup-retain-none :
      (p : Text × A → Bool) (k : Text) (m : Assoc Text A)
      → lookup k m ≡ none
      → lookup k (retain p m) ≡ none
  unfolding lookup
  lookup-retain-none p k [] h = refl
  lookup-retain-none p k (e ∷ m) h = ground (arith, lookup-retain-none p k m)

  lookup-retain-some :
      (p : Text × A → Bool) (k : Text) (v : A) (m : Assoc Text A)
      → Unique m
      → lookup k (retain p m) ≡ some v
      → lookup k m ≡ some v
  unfolding lookup Unique
  lookup-retain-some p k v [] u h = h
  lookup-retain-some p k v (e ∷ m) u h =
      ground (arith, lookup-retain-some p k v m, lookup-retain-none p k m, text_eq.beq_iff e.0 k)

  retain-Unique : (p : Text × A → Bool) (m : Assoc Text A) → Unique m → Unique (retain p m)
  unfolding Unique
  retain-Unique p [] u = u
  retain-Unique p (e ∷ m) u = ground (arith, retain-Unique p m, lookup-retain-none p e.0 m)

-- A row that holds a token was last changed by a statement that brought it.
record Inv (history : List Statement) (table : Table) : Type 0 where
  unique : Unique table
  brought :
      (id : Text) (row : Row)
      → lookup (session_key id) table ≡ some row
      → row.value ≢ []
      → Elem (completes row.updated_at id row.value) history

-- A row that is written, seen at another session.
insert-Inv :
    (history : List Statement) (s : Statement) (table : Table) (id : Text) (new : Row)
    → Inv history table
    → (new.value ≢ [] → Elem (completes new.updated_at id new.value) (s ∷ history))
    → Inv (s ∷ history) (insert (session_key id) new table)
insert-Inv history s table id new v f = record {
  unique = insert-Unique (session_key id) new table v.unique;
  brought = λ j row e full.
      let at = lookup-insert (session_key id) (session_key j) new table in
      elim (Bool-cases (session_key id == session_key j)) [
        | inl same ↦
            let id_j : id ≡ j =
              session_key-inj id j ((text_eq.beq_iff (session_key id) (session_key j)).0 same) in
            let found : some new ≡ some row = sym (rw same at at) ∙ e in
            let row_new : new ≡ row = some_inj found in
            rw (← id_j, ← row_new) (f (λ h. full (ap (λ (r : Row). r.value) (sym row_new) ∙ h)))
        | inr other ↦ there (v.brought j row (sym (rw other at at) ∙ e) full)
      ];
}

complete-cases :
    (now : ℕ) (id token : Text) (table : Table)
    → ((db_complete_session now id token table).0 ≡ table)
      ⊎ ((db_complete_session now id token table).0
          ≡ insert (session_key id) (record { value = token; updated_at = now }) table)
unfolding db_complete_session
complete-cases now id token table = elim (Option-cases (lookup (session_key id) table)) [
  | inl e ↦ inl (rw (e, db_complete_session) refl)
  | inr (row, e) ↦ elim (Bool-cases (ltb now (row.updated_at + five_minutes))) [
    | inl live ↦ inr (rw (e, live, db_complete_session) refl)
    | inr late ↦ inl (rw (e, late, db_complete_session) refl)
  ]
]

later-Inv :
    (history : List Statement) (s : Statement) (table : Table)
    → Inv history table
    → Inv (s ∷ history) table
later-Inv history s table v = record {
  unique = v.unique;
  brought = λ id row e full. there (v.brought id row e full);
}

step-Inv :
    (history : List Statement) (s : Statement) (table : Table)
    → Inv history table
    → Inv (s ∷ history) (step s table)
unfolding step db_create_session db_delete_session db_cleanup_expired
step-Inv history (creates now id) table v =
    insert-Inv history (creates now id) table id (record { value = []; updated_at = now }) v
      (λ full. absurd (full refl))
step-Inv history (completes now id token) table v = elim (complete-cases now id token table) [
  | inl e ↦ rw e (later-Inv history (completes now id token) table v)
  | inr e ↦ rw e (
      insert-Inv history (completes now id token) table id
        (record { value = token; updated_at = now }) v (λ full. here))
]
step-Inv history (deletes id) table v = record {
  unique = remove-Unique (session_key id) table v.unique;
  brought = λ j row e full. elim (Bool-cases (session_key id == session_key j)) [
    | inl same ↦
        let gone : none ≡ some row =
          sym (rw same at (lookup-remove (session_key id) (session_key j) table)) ∙ e in
        absurd (ground arith)
    | inr other ↦ there (
        v.brought j row
          (sym (rw other at (lookup-remove (session_key id) (session_key j) table)) ∙ e) full)
  ];
}
step-Inv history (cleans now) table v = record {
  unique = retain-Unique (is_kept now) table v.unique;
  brought = λ j row e full. there (
      v.brought j row (lookup-retain-some (is_kept now) (session_key j) row table v.unique e) full);
}

Reach-Inv : {history : List Statement} {table : Table} → Reach history table → Inv history table
Reach-Inv start = record {
  unique = Unique-nil Text Row;
  brought = λ id row e full. absurd (unfold lookup in ground arith);
}
Reach-Inv (next s r) = step-Inv _ s _ (Reach-Inv r)

cons_full : (c : ℕ) (s : Text) → c ∷ s ≢ []
cons_full c s h = ground arith

value_of-complete :
    (value token : Text) → value_of value ≡ complete token → (value ≡ token) × (token ≢ [])
value_of-complete [] token h = absurd (ground arith)
value_of-complete (c ∷ value) token h =
    let same : c ∷ value ≡ token = cc in (same, λ empty. absurd (cons_full c value (same ∙ empty)))

read_row-complete :
    (now : ℕ) (o : Option Row) (token : Text)
    → read_row now o ≡ complete token
    → (row : Row) × (o ≡ some row)
      × (row.value ≡ token)
      × (token ≢ [])
      × ((now - row.updated_at) / nanos_per_sec ≤ session_ttl_secs)
read_row-complete now none token h = absurd (ground arith)
read_row-complete now (some row) token h =
    elim (Bool-cases (ltb session_ttl_secs ((now - row.updated_at) / nanos_per_sec))) [
      | inl late ↦ let h' : expired ≡ complete token = rw late at h in absurd (ground arith)
      | inr young ↦
          let h' : value_of row.value ≡ complete token = rw young at h in
          let (same, full) = value_of-complete row.value token h' in
          (row, refl, same, full, ground arith)
    ]

-- However the statements of handlers interleave, a poll only gets a token that some statement stored
-- for this very session, and not longer than the lifetime of a session ago, in whole seconds.
pub poll-Brought :
    {history : List Statement} {table : Table} (now : ℕ) (id token : Text)
    → Reach history table
    → select_session now id table ≡ complete token
    → (at : ℕ) × Elem (completes at id token) history
      × ((now - at) / nanos_per_sec ≤ session_ttl_secs)
unfolding select_session
poll-Brought {history} {table} now id token r h =
    let (row, e, same, full, young) =
      read_row-complete now (lookup (session_key id) table) token h in
    let brought = (Reach-Inv r).brought id row e (λ empty. full (sym same ∙ empty)) in
    (row.updated_at, rw same at brought, young)
