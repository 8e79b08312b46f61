-- ===== src/Auth/Ended.antt =====
-- backend/app/api/auth.py: a session that has ended, by its age, by a logout or by idleness, is refused
-- for good.
use esafe.Prelude.{
  ℕ, ◌≤◌, String, false, ◌≡◌, some, List, arith, err, inl, inr, Bool-cases, Option-cases,
  Outcome-cases, is_empty, All,
}
use esafe.Auth.Rows.{
  AuthDb, Settings, Crypto, Clock, Request, Fingerprints, logout, auth_fingerprints, login_rate_key,
}
use esafe.Auth.Sessions.{
  Tokens, load_session, revoke_session, is_open, create_session_with_audit, add_event,
}
use esafe.Auth.Login.{
  session_is_expired, clear_login_failures, LoginBody, login, attempt, authenticate_credentials,
}
use esafe.Auth.Calls.{
  refusal, require_session, require_csrf, end_session, Call, to_login, to_read, to_change,
  to_logout, Timed, handle, serve, serve_induction,
}
use esafe.Auth.Dead.{Gone, Gone-revoked, load_session-Gone, load_session-none, create-Gone}

module _ (crypto : Crypto) (settings : Settings) (h : String) (at : ℕ) where
  require_session-Gone :
      (clock : Clock) (r : Request) (db : AuthDb)
      → at ≤ clock.database
      → Gone settings h at db.sessions
      → Gone settings h at (require_session crypto settings clock r db).0.sessions
  unfolding require_session
  require_session-Gone clock r db le g = elim (Option-cases r.session_cookie) [
    | inl e ↦ rw e g
    | inr (token, e) ↦ rw e (elim (Bool-cases (is_empty token)) [
      | inl y ↦ rw y g
      | inr n ↦
          let client =
            (auth_fingerprints crypto settings "session" r.client_ip r.user_agent).client in
          let loaded =
            load_session-Gone crypto settings h at clock token r.request_id client db le g in
          rw n
            (elim (Option-cases
              (load_session crypto settings clock token r.request_id client db).1) [
                | inl e ↦ ground arith
                | inr (s, e) ↦ ground arith
              ])
    ])
  ]

  require_csrf-Gone :
      (clock : Clock) (r : Request) (db : AuthDb)
      → at ≤ clock.database
      → Gone settings h at db.sessions
      → Gone settings h at (require_csrf crypto settings clock r db).0.sessions
  unfolding require_csrf
  require_csrf-Gone clock r db le g =
      let kept = require_session-Gone clock r db le g in
      elim (Outcome-cases (require_session crypto settings clock r db).1) [
        | inl (s, e) ↦ ground arith
        | inr (x, e) ↦ ground arith
      ]

  end_session-Gone :
      (clock : Clock) (r : Request) (db : AuthDb)
      → at ≤ clock.database
      → Gone settings h at db.sessions
      → Gone settings h at (end_session crypto settings clock r db).0.sessions
  unfolding end_session revoke_session add_event
  end_session-Gone clock r db le g =
      let kept = require_csrf-Gone clock r db le g in
      let mid = (require_csrf crypto settings clock r db).0 in
      elim (Outcome-cases (require_csrf crypto settings clock r db).1) [
        | inl (s, e) ↦ ground (
          arith,
          Gone-revoked settings h at (is_open s.session_id_hash) clock.database logout mid.sessions
              kept,
        )
        | inr (x, e) ↦ ground arith
      ]

  attempt-Gone :
      (clock : Clock) (r : Request) (body : LoginBody) (tokens : Tokens) (key : String)
      (f : Fingerprints) (db : AuthDb)
      → Gone settings h at db.sessions
      → Gone settings h at (attempt crypto settings clock r body tokens key f db).0.sessions
  unfolding attempt add_event
  attempt-Gone clock r body tokens key f db g =
      elim (Option-cases (authenticate_credentials crypto body.user_id body.password db.users)) [
        | inl e ↦ rw e g
        | inr (user, e) ↦
            let cleared = record db { counters = clear_login_failures key db.counters } in
            rw e
              (elim (Outcome-cases (
                create_session_with_audit crypto settings clock tokens user r.request_id f.username
                  f.client f.user_agent cleared)) [
                    | inl ((db', out), y) ↦ rw y (
                        create-Gone crypto settings h at clock tokens user r.request_id f.username
                          f.client f.user_agent cleared db' out y g)
                    | inr (x, n) ↦ rw n g
                  ])
      ]

  login-Gone :
      (lower : String) (clock : Clock) (r : Request) (body : LoginBody) (tokens : Tokens)
      (db : AuthDb)
      → Gone settings h at db.sessions
      → Gone settings h at (login crypto settings lower clock r body tokens db).0.sessions
  unfolding login add_event
  login-Gone lower clock r body tokens db g = ground (
    arith,
    attempt-Gone clock r body tokens (login_rate_key crypto settings lower body.user_id r.client_ip)
        (auth_fingerprints crypto settings body.user_id r.client_ip r.user_agent) db g,
  )

  perform-Gone :
      (lower : String) (clock : Clock) (c : Call) (db : AuthDb)
      → at ≤ clock.database
      → Gone settings h at db.sessions
      → Gone settings h at
          (handle crypto settings lower (record { clock = clock; call = c }) db).sessions
  unfolding handle
  perform-Gone lower clock (to_login r body tokens) db le g =
      login-Gone lower clock r body tokens db g
  perform-Gone lower clock (to_read r) db le g = require_session-Gone clock r db le g
  perform-Gone lower clock (to_change r) db le g = require_csrf-Gone clock r db le g
  perform-Gone lower clock (to_logout r) db le g = end_session-Gone clock r db le g

  serve-Gone :
      (lower : String) (ts : List Timed) (db : AuthDb)
      → All (λ t. at ≤ t.clock.database) ts
      → Gone settings h at db.sessions
      → Gone settings h at (serve crypto settings lower ts db).sessions
  serve-Gone lower =
      serve_induction crypto settings lower (λ db. Gone settings h at db.sessions)
        (λ t. at ≤ t.clock.database) (λ t db le g. perform-Gone lower t.clock t.call db le g)

-- A session that was revoked, or that was past its expiry or idle for too long at some time, is refused
-- for good: whatever logins, requests and logouts follow from that time on, a request with its cookie
-- gets 401 at any time from then on.
pub ended_refused :
    (crypto : Crypto) (settings : Settings) (lower : String) (at : ℕ) (ts : List Timed)
    (db : AuthDb) (clock : Clock) (r : Request) (token : String)
    → Gone settings (crypto.token_hash token) at db.sessions
    → All (λ t. at ≤ t.clock.database) ts
    → at ≤ clock.database
    → r.session_cookie ≡ some token
    → is_empty token ≡ false
    → (require_session crypto settings clock r (serve crypto settings lower ts db)).1
      ≡ err (refusal 401 session_is_expired)
unfolding require_session
ended_refused crypto settings lower at ts db clock r token g later le cookie given =
    let after = serve crypto settings lower ts db in
    let gone = serve-Gone crypto settings (crypto.token_hash token) at lower ts db later g in
    let client = (auth_fingerprints crypto settings "session" r.client_ip r.user_agent).client in
    let nobody =
      load_session-none crypto settings at clock token r.request_id client after le gone in
    rw cookie (rw given (ground arith))
