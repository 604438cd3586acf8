-- ===== src/Auth/CliSession/Tests.antt =====
-- Logins, alone and interleaved.
use claude_code_aws_gateway.Prelude.{
  ℕ, ◌-◌, ◌*◌, ◌/◌, ◌≤◌, ◌≡◌, refl, true, Option, none, some, List, [], ◌∷◌, arith,
}
use claude_code_aws_gateway.Prelude.Elem.{Elem}
use claude_code_aws_gateway.Prelude.Text.{Text, codes, text_eq, text_beq}
use claude_code_aws_gateway.Prelude.Assoc.{lookup, insert}
use claude_code_aws_gateway.Auth.CliSession.{
  Table, nanos_per_sec, session_ttl_secs, expired, not_found, complete, ok, status, cli_poll,
  select_session, token_to_store, db_create_session, db_complete_session,
}
use claude_code_aws_gateway.Auth.CliSession.Delivery.{
  Statement, creates, completes, step, Reach, start, next, poll-Brought,
}
use claude_code_aws_gateway.Auth.CliSession.Login.{logged_in, login_works}

abbrev sec : ℕ → ℕ
sec n = n * nanos_per_sec

abbrev id : Text
id = codes "4"

abbrev issue : Text → Option Text
issue token = some (codes "session")

login_works_example :
    ((logged_in (λ _. true) (λ _. none) issue (sec 10) (sec 20) id (codes "jwt") []).0 ≡ ok)
    × ((cli_poll
          (sec 21)
          id
          (logged_in (λ _. true) (λ _. none) issue (sec 10) (sec 20) id (codes "jwt") []).1).0
        ≡ status (complete (token_to_store issue (codes "jwt"))))
    × ((cli_poll
          (sec 22)
          id
          (cli_poll
            (sec 21)
            id
            (logged_in (λ _. true) (λ _. none) issue (sec 10) (sec 20) id (codes "jwt") []).1).1).0
        ≡ status not_found)
login_works_example =
    login_works (λ _. true) (λ _. none) issue (sec 10) (sec 20) (sec 21) (sec 22) id (codes "wt")
      b'j' [] refl (omega arith) (omega arith) (omega arith) (λ e. ground arith)

-- A session that has its token.
abbrev history : List Statement
history = completes (sec 20) id (codes "session") ∷ creates (sec 10) id ∷ []

abbrev table : Table
table = step (completes (sec 20) id (codes "session")) (step (creates (sec 10) id) [])

reached : Reach history table
reached = next (completes (sec 20) id (codes "session")) (next (creates (sec 10) id) start)

poll-Brought_example :
    (at : ℕ) × Elem (completes at id (codes "session")) history
    × ((sec 320 - at) / nanos_per_sec ≤ session_ttl_secs)
unfolding step select_session db_create_session db_complete_session lookup insert text_beq
poll-Brought_example = poll-Brought (sec 320) id (codes "session") reached refl

expired_later : (cli_poll (sec 321) id table).0 ≡ status expired
unfolding cli_poll step select_session db_create_session db_complete_session lookup insert text_beq
expired_later = refl
