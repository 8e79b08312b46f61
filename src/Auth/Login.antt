-- ===== src/Auth/Login.antt =====
-- backend/app/auth.py and backend/app/api/auth.py: the counters of failed logins and the handler of a
-- login. Its awaits are taken as one step; what it writes stays when it raises.
use esafe.Prelude.{
  ℕ, ◌+◌, String, Bool, false, ◌&&◌, ◌||◌, not, Option, none, some, List, [], ◌∷◌, ◌++◌, ltb, leb,
  str_eq, if◌then◌else◌, strip, is_empty, text_length, select, exists, filter, update, Outcome, ok,
  err,
}
use esafe.Auth.Rows.{
  User, login_failure, login_rate_limited, Counter, AuthDb, Settings, Crypto, Clock, Request,
  seconds, Fingerprints, auth_fingerprints, login_rate_key, strip_slashes,
}
use esafe.Auth.Sessions.{StoreError, NewSession, Tokens, add_event, create_session_with_audit}

pub data AuthCode : Type 0 where
  origin_not_allowed auth_required session_is_expired csrf_invalid : AuthCode
  rate_limited invalid_credentials : AuthCode

-- An `AuthError`, a body that does not validate, or a reply.
pub data LoginReply : Type 0 where
  refused : ℕ → AuthCode → LoginReply
  unprocessable : LoginReply
  server_error : LoginReply
  welcome : String → String → NewSession → LoginReply

abbrev pub has_counter_key : String → Counter → Bool
has_counter_key key c = str_eq c.key key

unfoldable pub is_counting : ℕ → String → Counter → Bool
is_counting now key c = has_counter_key key c && ltb now c.expires_at

-- `is_login_rate_limited`
unfoldable pub is_login_rate_limited : ℕ → String → ℕ → List Counter → Bool
is_login_rate_limited now key limit = exists (λ c. is_counting now key c && leb limit c.value)

-- `register_login_failure`: INCR, and EXPIRE when the counter is new.
unfoldable pub register_login_failure : ℕ → String → ℕ → List Counter → List Counter
register_login_failure now key window counters =
    if exists (is_counting now key) counters
    then update (is_counting now key) (λ c. record c { value = c.value + 1 }) counters
    else filter (λ c. not (has_counter_key key c)) counters
      ++ record { key = key; value = 1; expires_at = now + seconds window } ∷ []

-- `clear_login_failures`
unfoldable pub clear_login_failures : String → List Counter → List Counter
clear_login_failures key counters = filter (λ c. not (has_counter_key key c)) counters

-- `authenticate_credentials`. (An unknown user is verified against a dummy hash and refused.)
unfoldable pub authenticate_credentials : Crypto → String → String → List User → Option User
authenticate_credentials crypto username password users =
    elim (select (λ u. str_eq u.username (strip username) && u.is_active) users) [
      | none ↦ none
      | some u ↦ if crypto.verify_password u.password_hash password then some u else none
    ]

abbrev bad_site : Option String → Bool
bad_site none = false
bad_site (some site) = not (str_eq site "same-origin" || str_eq site "none")

abbrev bad_origin : Settings → Option String → Bool
bad_origin settings none = false
bad_origin settings (some origin) =
    not (exists (str_eq (strip_slashes origin)) settings.public_origins)

-- `validate_request_origin` lets the request through.
unfoldable pub origin_allowed : Settings → Request → Bool
origin_allowed settings r = not (bad_site r.fetch_site) && not (bad_origin settings r.origin)

pub record LoginBody : Type 0 where
  pub user_id : String
  pub password : String

-- The limits of the fields of the body.
unfoldable pub body_is_valid : LoginBody → Bool
body_is_valid b =
    not (is_empty b.user_id)
    && leb (text_length b.user_id) 128
    && not (is_empty b.password)
    && leb (text_length b.password) 256

abbrev welcomed : AuthDb → User → Outcome StoreError (AuthDb × NewSession) → AuthDb × LoginReply
welcomed db user (ok (db', s)) = (db', welcome user.username user.display_name s)
welcomed db user (err e) = (db, server_error)

abbrev answer :
    Crypto
    → Settings
    → Clock
    → Request
    → Tokens
    → String
    → Fingerprints
    → AuthDb
    → Option User
    → AuthDb × LoginReply
answer crypto settings clock r tokens key f db none = (
  add_event login_failure r.request_id f.username f.client none (record db {
    counters =
        register_login_failure clock.redis key settings.login_rate_limit_window_seconds db.counters;
  }),
  refused 401 invalid_credentials,
)
answer crypto settings clock r tokens key f db (some user) =
    let cleared = record db { counters = clear_login_failures key db.counters } in
    welcomed cleared user (
      create_session_with_audit crypto settings clock tokens user r.request_id f.username f.client
        f.user_agent cleared)

unfoldable pub attempt :
    Crypto
    → Settings
    → Clock
    → Request
    → LoginBody
    → Tokens
    → String
    → Fingerprints
    → AuthDb
    → AuthDb × LoginReply
attempt crypto settings clock r body tokens key f db =
    answer crypto settings clock r tokens key f db
      (authenticate_credentials crypto body.user_id body.password db.users)

-- `login`; `lower` is the profile in lower case.
unfoldable pub login :
    Crypto → Settings → String → Clock → Request → LoginBody → Tokens → AuthDb → AuthDb × LoginReply
login crypto settings lower clock r body tokens db =
    let f = auth_fingerprints crypto settings body.user_id r.client_ip r.user_agent in
    let key = login_rate_key crypto settings lower body.user_id r.client_ip in
    if not (body_is_valid body)
    then (db, unprocessable)
    else if not (origin_allowed settings r)
    then (db, refused 403 origin_not_allowed)
    else if is_login_rate_limited clock.redis key settings.login_rate_limit_attempts db.counters
    then (
      add_event login_rate_limited r.request_id f.username f.client none db,
      refused 429 rate_limited,
    )
    else attempt crypto settings clock r body tokens key f db
