-- ===== src/Auth/CliSession.antt =====
-- The sessions of src/api/cli_auth.rs: a terminal polls for the token that a browser brings. They are
-- rows of the settings table. Each SQL statement is one step, and the clock of the database is that
-- of the gateway, in nanoseconds. Whether an id is a uuid and what the identity provider says of a
-- token are parameters.
pub mod Delivery
pub mod Login
mod Tests
use claude_code_aws_gateway.Prelude.{
  ℕ, ◌+◌, ◌-◌, ◌*◌, ◌/◌, Bool, true, false, not, ◌&&◌, ◌||◌, Option, none, some, List, [], ◌∷◌,
  ◌++◌, ltb, drop, retain, if◌then◌else◌,
}
use claude_code_aws_gateway.Prelude.Text.{Text, codes, text_eq, starts_with, byte_len}
use claude_code_aws_gateway.Prelude.Assoc.{Assoc, lookup, insert, remove}

-- A row of `proxy_settings`. A session that waits has the empty text.
pub record Row : Type 0 where
  pub value : Text
  pub updated_at : ℕ

abbrev pub Table : Type 0
Table = Assoc Text Row

abbrev pub nanos_per_sec : ℕ
nanos_per_sec = 1_000_000_000

abbrev pub session_ttl_secs : ℕ
session_ttl_secs = 300

-- `interval '5 minutes'`
abbrev pub five_minutes : ℕ
five_minutes = 300 * nanos_per_sec

abbrev pub session_key : Text → Text
session_key session_id = codes "cli_session:" ++ session_id

unfoldable pub db_create_session : ℕ → Text → Table → Table
db_create_session now session_id table =
    insert (session_key session_id) (record { value = []; updated_at = now }) table

-- The table, and whether a row was changed.
unfoldable pub db_complete_session : ℕ → Text → Text → Table → Table × Bool
db_complete_session now session_id token table = elim (lookup (session_key session_id) table) [
  | none ↦ (table, false)
  | some row ↦
      if ltb now (row.updated_at + five_minutes)
      then (
        insert (session_key session_id) (record { value = token; updated_at = now }) table,
        true,
      )
      else (table, false)
]

-- What the first statement of a poll finds.
pub data Polled : Type 0 where
  not_found expired pending : Polled
  complete : Text → Polled

abbrev pub value_of : Text → Polled
value_of [] = pending
value_of (c ∷ token) = complete (c ∷ token)

abbrev pub read_row : ℕ → Option Row → Polled
read_row now none = not_found
read_row now (some row) =
    if ltb session_ttl_secs ((now - row.updated_at) / nanos_per_sec)
    then expired
    else value_of row.value

unfoldable pub select_session : ℕ → Text → Table → Polled
select_session now session_id table = read_row now (lookup (session_key session_id) table)

unfoldable pub db_delete_session : Text → Table → Table
db_delete_session session_id table = remove (session_key session_id) table

-- The row is deleted in a second statement.
abbrev pub after_poll : Polled → Text → Table → Table
after_poll not_found session_id table = table
after_poll pending session_id table = table
after_poll expired session_id table = remove (session_key session_id) table
after_poll (complete token) session_id table = remove (session_key session_id) table

unfoldable pub db_poll_session : ℕ → Text → Table → Polled × Table
unfolding select_session
db_poll_session now session_id table =
    let polled = select_session now session_id table in (polled, after_poll polled session_id table)

-- `key LIKE 'cli_session:%'`, where the underscore stands for any character.
abbrev pub is_session_key : Text → Bool
is_session_key k = starts_with k (codes "cli") && starts_with (drop 4 k) (codes "session:")

abbrev pub is_kept : ℕ → Text × Row → Bool
is_kept now (k, row) = not (is_session_key k && ltb (row.updated_at + five_minutes) now)

unfoldable pub db_cleanup_expired : ℕ → Table → Table
db_cleanup_expired now table = retain (is_kept now) table

pub data Response : Type 0 where
  bad_request not_configured ok gone : Response
  redirect : Text → Response
  status : Polled → Response

module _ (is_uuid : Text → Bool) (redirect_url : Text → Option Text) where
  abbrev pub redirected : Option Text → Response
  redirected none = not_configured
  redirected (some url) = redirect url

  -- An invalid id leaves the table alone.
  unfoldable pub cli_login : ℕ → Text → Table → Response × Table
  unfolding db_create_session db_cleanup_expired
  cli_login now session_id table =
      if is_uuid session_id
      then (
        redirected (redirect_url session_id),
        db_create_session now session_id (db_cleanup_expired now table),
      )
      else (bad_request, table)

-- The session token that is issued for a valid token of the provider.
module _ (issue : Text → Option Text) where
  -- An invalid token is stored as it is.
  abbrev pub token_to_store : Text → Text
  token_to_store token = elim (issue token) [ none ↦ token | some session_token ↦ session_token ]

  abbrev pub completed : Table × Bool → Response × Table
  completed (table, true) = (ok, table)
  completed (table, false) = (gone, table)

  unfoldable pub cli_complete : ℕ → Text → Text → Table → Response × Table
  unfolding db_complete_session
  cli_complete now session_id [] table = (bad_request, table)
  cli_complete now session_id (c ∷ token) table =
      if ltb 16384 (byte_len (c ∷ token))
      then (bad_request, table)
      else completed (db_complete_session now session_id (token_to_store (c ∷ token)) table)

unfoldable pub cli_poll : ℕ → Text → Table → Response × Table
unfolding db_poll_session
cli_poll now session_id table =
    let (polled, left) = db_poll_session now session_id table in (status polled, left)
