-- ===== src/Auth/CliSession/Login.antt =====
-- A login of src/api/cli_auth.rs from its start to its token.
use claude_code_aws_gateway.Prelude.{
  ℕ, ◌+◌, ◌-◌, ◌/◌, ◌≤◌, ◌<◌, ◌≡◌, ◌≢◌, refl, Bool, true, false, Option, none, some, [], ◌∷◌, arith,
  ltb,
}
use claude_code_aws_gateway.Prelude.Text.{Text, text_eq, byte_len}
use claude_code_aws_gateway.Prelude.Assoc.{lookup, insert, remove, lookup-insert, lookup-remove}
use claude_code_aws_gateway.Auth.CliSession.{
  Row, Table, nanos_per_sec, five_minutes, session_ttl_secs, session_key, db_create_session,
  db_complete_session, not_found, complete, value_of, select_session, db_poll_session,
  db_cleanup_expired, Response, ok, status, cli_login, cli_complete, token_to_store, cli_poll,
}

lookup-insert_self :
    (k : Text) (row : Row) (table : Table) → lookup k (insert k row table) ≡ some row
lookup-insert_self k row table = rw (lookup-insert k k row table, (text_eq.beq_iff k k).1 refl) refl

lookup-remove_self : (k : Text) (table : Table) → lookup k (remove k table) ≡ none
lookup-remove_self k table = rw (lookup-remove k k table, (text_eq.beq_iff k k).1 refl) refl

value_of-full : (value : Text) → value ≢ [] → value_of value ≡ complete value
value_of-full [] h = absurd (h refl)
value_of-full (c ∷ value) h = refl

complete_live :
    (now at : ℕ) (id token value : Text) (table : Table)
    → now < at + five_minutes
    → let created = insert (session_key id) (record { value = value; updated_at = at }) table in
      db_complete_session now id token created
      ≡ (insert (session_key id) (record { value = token; updated_at = now }) created, true)
unfolding db_complete_session
complete_live now at id token value table h =
    let live : ltb now (at + five_minutes) ≡ true = ground arith in
    rw
      (
        lookup-insert_self (session_key id) (record { value = value; updated_at = at }) table,
        live,
        db_complete_session,
      )
      refl

poll_full :
    (now at : ℕ) (id value : Text) (table : Table)
    → value ≢ []
    → (now - at) / nanos_per_sec ≤ session_ttl_secs
    → let stored = insert (session_key id) (record { value = value; updated_at = at }) table in
      cli_poll now id stored ≡ (status (complete value), remove (session_key id) stored)
unfolding cli_poll db_poll_session select_session
poll_full now at id value table full young =
    let fresh : ltb session_ttl_secs ((now - at) / nanos_per_sec) ≡ false = ground arith in
    rw
      (
        lookup-insert_self (session_key id) (record { value = value; updated_at = at }) table,
        fresh,
        value_of-full value full,
      )
      refl

poll_gone :
    (now : ℕ) (id : Text) (table : Table)
    → (cli_poll now id (remove (session_key id) table)).0 ≡ status not_found
unfolding cli_poll db_poll_session select_session
poll_gone now id table = rw (lookup-remove_self (session_key id) table) refl

module _ (is_uuid : Text → Bool) (redirect_url : Text → Option Text)
    (issue : Text → Option Text) where
  -- The table after a login at one time and its completion at another.
  abbrev pub logged_in : ℕ → ℕ → Text → Text → Table → Response × Table
  logged_in opened brought id token table =
      cli_complete issue brought id token (cli_login is_uuid redirect_url opened id table).1

  -- A login works once: when the browser brings a token of at most 16384 bytes, for a valid session
  -- id and less than five minutes after the start, it is accepted; a poll not more than 300 seconds
  -- later, in whole seconds, gets what was stored for it; and a second poll finds nothing.
  pub login_works :
      (opened brought polled again : ℕ) (id token : Text) (c : ℕ) (table : Table)
      → is_uuid id ≡ true
      → byte_len (c ∷ token) ≤ 16384
      → brought < opened + five_minutes
      → (polled - brought) / nanos_per_sec ≤ session_ttl_secs
      → token_to_store issue (c ∷ token) ≢ []
      → ((logged_in opened brought id (c ∷ token) table).0 ≡ ok)
        × ((cli_poll polled id (logged_in opened brought id (c ∷ token) table).1).0
            ≡ status (complete (token_to_store issue (c ∷ token))))
        × ((cli_poll again id
              (cli_poll polled id (logged_in opened brought id (c ∷ token) table).1).1).0
            ≡ status not_found)
  login_works opened brought polled again id token c table uuid short soon young full =
      let stored = token_to_store issue (c ∷ token) in
      let cleaned = db_cleanup_expired opened table in
      let created = db_create_session opened id cleaned in
      let fits : ltb 16384 (byte_len (c ∷ token)) ≡ false = ground arith in
      let done : logged_in opened brought id (c ∷ token) table ≡ (
        ok,
        insert (session_key id) (record { value = stored; updated_at = brought }) created,
      ) =
        unfold cli_login cli_complete db_create_session in
        rw (uuid, fits, complete_live brought opened id stored [] cleaned soon) refl in
      rw (done, poll_full polled brought id stored created full young, poll_gone again id _)
        (refl, refl, refl)
