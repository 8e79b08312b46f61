-- ===== src/Auth/Counters.antt =====
-- backend/app/api/auth.py: what each request does to the counters of failed logins.
use esafe.Prelude.{
  ℕ, String, false, ◌≡◌, sym, subst, List, arith, ok, inl, inr, Bool-cases, Option-cases,
  Outcome-cases, bind-ok,
}
use esafe.Auth.Rows.{
  User, Counter, AuthDb, Settings, Crypto, Clock, Request, Fingerprints, auth_fingerprints,
  login_rate_key,
}
use esafe.Auth.Sessions.{
  NewSession, Tokens, add_event, load_session, expire_session, revoke_session,
  create_session_with_audit, insert_session, new_session,
}
use esafe.Auth.Login.{
  is_login_rate_limited, register_login_failure, clear_login_failures, authenticate_credentials,
  origin_allowed, LoginBody, body_is_valid, attempt, login,
}
use esafe.Auth.Calls.{require_session, require_csrf, end_session}

create-counters :
    (crypto : Crypto) (settings : Settings) (clock : Clock) (tokens : Tokens) (user : User)
    (request : ℕ) (name client agent : String) (db db' : AuthDb) (out : NewSession)
    → create_session_with_audit crypto settings clock tokens user request name client agent db
      ≡ ok (db', out)
    → db'.counters ≡ db.counters
unfolding create_session_with_audit add_event
create-counters crypto settings clock tokens user request name client agent db db' out e =
    let (sessions, inserted, y) =
      bind-ok
        (insert_session clock.database
          (new_session crypto settings clock tokens user.user_id client agent) db)
        _ e in
    ground arith

module _ (crypto : Crypto) (settings : Settings) (clock : Clock) (r : Request) where
  load_session-counters :
      (token : String) (request : ℕ) (client : String) (db : AuthDb)
      → (load_session crypto settings clock token request client db).0.counters ≡ db.counters
  unfolding load_session expire_session add_event
  load_session-counters token request client db = ground arith

  pub require_session-counters :
      (db : AuthDb) → (require_session crypto settings clock r db).0.counters ≡ db.counters
  unfolding require_session
  require_session-counters db = elim (Option-cases r.session_cookie) [
    | inl e ↦ rw e
    | inr (token, e) ↦
        let client =
          (auth_fingerprints crypto settings "session" r.client_ip r.user_agent).client in
        let same = load_session-counters token r.request_id client db in
        rw e
          (elim (Option-cases (load_session crypto settings clock token r.request_id client db).1) [
            | inl n ↦ ground arith
            | inr (s, y) ↦ ground arith
          ])
  ]

  pub require_csrf-counters :
      (db : AuthDb) → (require_csrf crypto settings clock r db).0.counters ≡ db.counters
  unfolding require_csrf
  require_csrf-counters db =
      let same = require_session-counters db in
      elim (Outcome-cases (require_session crypto settings clock r db).1) [
        | inl (s, e) ↦ ground arith
        | inr (x, e) ↦ ground arith
      ]

  pub end_session-counters :
      (db : AuthDb) → (end_session crypto settings clock r db).0.counters ≡ db.counters
  unfolding end_session revoke_session add_event
  end_session-counters db =
      let same = require_csrf-counters db in
      elim (Outcome-cases (require_csrf crypto settings clock r db).1) [
        | inl (s, e) ↦ ground arith
        | inr (x, e) ↦ ground arith
      ]

  -- What a login does to the counters.
  attempt-counters {ℓ} :
      (P : List Counter → Type ℓ) (body : LoginBody) (tokens : Tokens) (key : String)
      (f : Fingerprints) (db : AuthDb)
      → P (
          register_login_failure clock.redis key settings.login_rate_limit_window_seconds
            db.counters)
      → P (clear_login_failures key db.counters)
      → P (attempt crypto settings clock r body tokens key f db).0.counters
  unfolding attempt add_event
  attempt-counters P body tokens key f db failed cleared =
      elim (Option-cases (authenticate_credentials crypto body.user_id body.password db.users)) [
        | inl e ↦ rw e failed
        | inr (user, e) ↦
            let start = record db { counters = clear_login_failures key db.counters } in
            rw e
              (elim (Outcome-cases (
                create_session_with_audit crypto settings clock tokens user r.request_id f.username
                  f.client f.user_agent start)) [
                    | inl ((db', out), y) ↦ rw y (
                        subst P
                          (sym (
                            create-counters crypto settings clock tokens user r.request_id
                              f.username f.client f.user_agent start db' out y))
                          cleared)
                    | inr (x, n) ↦ rw n cleared
                  ])
      ]

  pub login-counters {ℓ} :
      (P : List Counter → Type ℓ) (lower : String) (body : LoginBody) (tokens : Tokens)
      (db : AuthDb)
      → P db.counters
      → (is_login_rate_limited clock.redis
              (login_rate_key crypto settings lower body.user_id r.client_ip)
              settings.login_rate_limit_attempts
              db.counters
            ≡ false
          → P (
              register_login_failure clock.redis
                (login_rate_key crypto settings lower body.user_id r.client_ip)
                settings.login_rate_limit_window_seconds
                db.counters)
            × P (
                clear_login_failures
                  (login_rate_key crypto settings lower body.user_id r.client_ip)
                  db.counters))
      → P (login crypto settings lower clock r body tokens db).0.counters
  unfolding login add_event
  login-counters P lower body tokens db same other =
      let key = login_rate_key crypto settings lower body.user_id r.client_ip in
      let f = auth_fingerprints crypto settings body.user_id r.client_ip r.user_agent in
      elim (Bool-cases (body_is_valid body)) [
        | inr n ↦ rw n same
        | inl y ↦ rw y (elim (Bool-cases (origin_allowed settings r)) [
          | inr n ↦ rw n same
          | inl t ↦
              rw t
                (elim (Bool-cases (
                  is_login_rate_limited clock.redis key settings.login_rate_limit_attempts
                    db.counters)) [
                      | inl held ↦ rw held same
                      | inr free ↦
                          rw free
                            (attempt-counters P body tokens key f db (other free).0 (other free).1)
                    ])
        ])
      ]
