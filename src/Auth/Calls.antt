-- ===== src/Auth/Calls.antt =====
-- backend/app/api/auth.py: the requests that need a session, and the requests of all users one after
-- another.
use esafe.Prelude.{
  ℕ, String, Bool, false, ◌&&◌, not, Option, none, some, List, [], ◌∷◌, str_eq, if◌then◌else◌,
  is_empty, Outcome, ok, err, select, ◌==◌, All,
}
use esafe.Auth.Rows.{User, Session, AuthDb, Settings, Crypto, Clock, Request, auth_fingerprints}
use esafe.Auth.Sessions.{Tokens, load_session, revoke_session}
use esafe.Auth.Login.{
  AuthCode, origin_not_allowed, auth_required, session_is_expired, csrf_invalid, LoginBody, login,
  origin_allowed,
}

-- `AuthError` has a status and a code.
pub data Refusal : Type 0 where
  refusal : ℕ → AuthCode → Refusal

abbrev found : AuthDb × Option Session → AuthDb × Outcome Refusal Session
found (db, none) = (db, err (refusal 401 session_is_expired))
found (db, some s) = (db, ok s)

abbrev with_token :
    Crypto → Settings → Clock → Request → Option String → AuthDb → AuthDb × Outcome Refusal Session
with_token crypto settings clock r none db = (db, err (refusal 401 auth_required))
with_token crypto settings clock r (some token) db =
    if is_empty token
    then (db, err (refusal 401 auth_required))
    else found (
        load_session crypto settings clock token r.request_id
          (auth_fingerprints crypto settings "session" r.client_ip r.user_agent).client db)

-- `require_session`
unfoldable pub require_session :
    Crypto → Settings → Clock → Request → AuthDb → AuthDb × Outcome Refusal Session
require_session crypto settings clock r db = with_token crypto settings clock r r.session_cookie db

abbrev csrf_matches : Crypto → Session → Option String → Option String → Bool
csrf_matches crypto s (some header) (some cookie) =
    not (is_empty header)
    && not (is_empty cookie)
    && str_eq header cookie
    && str_eq s.csrf_token_hash (crypto.token_hash header)
csrf_matches crypto s _ _ = false

-- What `require_csrf` asks beyond the session.
abbrev checked :
    Crypto
    → Settings
    → Request
    → AuthDb × Outcome Refusal Session
    → AuthDb × Outcome Refusal Session
checked crypto settings r (db, err e) = (db, err e)
checked crypto settings r (db, ok s) =
    if not (origin_allowed settings r)
    then (db, err (refusal 403 origin_not_allowed))
    else if csrf_matches crypto s r.csrf_header r.csrf_cookie
    then (db, ok s)
    else (db, err (refusal 403 csrf_invalid))

unfoldable pub require_csrf :
    Crypto → Settings → Clock → Request → AuthDb → AuthDb × Outcome Refusal Session
require_csrf crypto settings clock r db =
    checked crypto settings r (require_session crypto settings clock r db)

-- The user name that `load_session` joins to a session.
abbrev name_of : List User → Session → String
name_of users s = elim (select (λ u. u.user_id == s.user_id) users) [
  | none ↦ ""
  | some u ↦ u.username
]

abbrev ended :
    Crypto
    → Settings
    → Clock
    → Request
    → AuthDb × Outcome Refusal Session
    → AuthDb × Outcome Refusal Session
ended crypto settings clock r (db, err e) = (db, err e)
ended crypto settings clock r (db, ok s) =
    let f = auth_fingerprints crypto settings (name_of db.users s) r.client_ip r.user_agent in
    (revoke_session clock.database s r.request_id f.username f.client db, ok s)

-- `logout`
unfoldable pub end_session :
    Crypto → Settings → Clock → Request → AuthDb → AuthDb × Outcome Refusal Session
end_session crypto settings clock r db =
    ended crypto settings clock r (require_csrf crypto settings clock r db)

-- A login, any request that needs a session, one that changes something as well, or a logout.
pub data Call : Type 0 where
  to_login : Request → LoginBody → Tokens → Call
  to_read to_change to_logout : Request → Call

pub record Timed : Type 0 where
  pub clock : Clock
  pub call : Call

abbrev perform : Crypto → Settings → String → Clock → Call → AuthDb → AuthDb
perform crypto settings lower clock (to_login r body tokens) db =
    (login crypto settings lower clock r body tokens db).0
perform crypto settings lower clock (to_read r) db = (require_session crypto settings clock r db).0
perform crypto settings lower clock (to_change r) db = (require_csrf crypto settings clock r db).0
perform crypto settings lower clock (to_logout r) db = (end_session crypto settings clock r db).0

unfoldable pub handle : Crypto → Settings → String → Timed → AuthDb → AuthDb
handle crypto settings lower t db = perform crypto settings lower t.clock t.call db

unfoldable pub serve : Crypto → Settings → String → List Timed → AuthDb → AuthDb
serve crypto settings lower [] db = db
serve crypto settings lower (t ∷ ts) db =
    serve crypto settings lower ts (handle crypto settings lower t db)

-- A property of the tables that every call keeps is kept by all calls.
pub serve_induction {ℓ κ} :
    (crypto : Crypto) (settings : Settings) (lower : String) (P : AuthDb → Type ℓ)
    (Q : Timed → Type κ)
    → ((t : Timed) (db : AuthDb) → Q t → P db → P (handle crypto settings lower t db))
    → (ts : List Timed) (db : AuthDb) → All Q ts
    → P db
    → P (serve crypto settings lower ts db)
unfolding serve
serve_induction crypto settings lower P Q step [] db q h = h
serve_induction crypto settings lower P Q step (t ∷ ts) db q h =
    serve_induction crypto settings lower P Q step ts (handle crypto settings lower t db) q.1
      (step t db q.0 h)
