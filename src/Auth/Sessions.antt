-- ===== src/Auth/Sessions.antt =====
-- backend/app/auth.py: `create_session_with_audit`, `load_session` and `revoke_session`.
use esafe.Prelude.{
  ℕ, ◌+◌, String, Bool, ◌&&◌, ◌||◌, not, Option, none, some, List, [], ◌∷◌, ◌++◌, ltb, leb, ◌==◌,
  str_eq, if◌then◌else◌, is_some, select, exists, update, Outcome, ok, ◌>>=◌, ◌>>◌, raise_if,
}
use esafe.Auth.Rows.{
  RevokeReason, expired, logout, User, Session, AuthEventType, login_success, logged_out,
  session_expired, AuthDb, Settings, Crypto, Clock, seconds, fingerprint, has_hash,
}

-- A row that the database refuses.
pub data StoreError : Type 0 where
  integrity_error : StoreError

-- `_insert_audit`
unfoldable pub add_event : AuthEventType → ℕ → String → String → Option ℕ → AuthDb → AuthDb
add_event event_type request_id username_fp client_fp user db = record db {
  events =
      db.events
      ++ record {
        event_type = event_type;
        user_id = user;
        username_fingerprint = username_fp;
        client_fingerprint = client_fp;
        request_id = request_id;
      }
        ∷ [];
}

pub record NewSession : Type 0 where
  pub session_token : String
  pub csrf_token : String
  pub expires_at : ℕ

-- The two tokens that `new_opaque_token` draws.
pub record Tokens : Type 0 where
  pub session_token : String
  pub csrf_token : String

unfoldable pub new_session : Crypto → Settings → Clock → Tokens → ℕ → String → String → Session
new_session crypto settings clock tokens user client_fp agent_fp = record {
  session_id_hash = crypto.token_hash tokens.session_token;
  user_id = user;
  csrf_token_hash = crypto.token_hash tokens.csrf_token;
  profile = settings.profile;
  client_fingerprint = client_fp;
  user_agent_fingerprint = agent_fp;
  last_seen_at = clock.database;
  expires_at = clock.process + seconds settings.session_absolute_seconds;
  revoked_at = none;
  revoke_reason = none;
}

-- INSERT INTO user_session: the primary key, the foreign key and ck_user_session_expiry.
unfoldable pub insert_session : ℕ → Session → AuthDb → Outcome StoreError (List Session)
insert_session now s db = do
  raise_if (exists (has_hash s.session_id_hash) db.sessions) integrity_error
  raise_if (not (exists (λ u. u.user_id == s.user_id) db.users)) integrity_error
  raise_if (not (ltb now s.expires_at)) integrity_error
  ok (db.sessions ++ s ∷ [])

unfoldable pub create_session_with_audit :
    Crypto
    → Settings
    → Clock
    → Tokens
    → User
    → ℕ
    → String
    → String
    → String
    → AuthDb
    → Outcome StoreError (AuthDb × NewSession)
unfolding new_session
create_session_with_audit crypto settings clock tokens user request_id username_fp client_fp
      agent_fp db =
    do
      let s = new_session crypto settings clock tokens user.user_id client_fp agent_fp
      sessions ← insert_session clock.database s db
      ok (
        add_event login_success request_id username_fp client_fp (some user.user_id)
            (record db { sessions = sessions }),
        record {
          session_token = tokens.session_token;
          csrf_token = tokens.csrf_token;
          expires_at = s.expires_at;
        },
      )

-- The conditions of the SELECT on the session itself.
unfoldable pub is_alive : Settings → ℕ → Session → Bool
is_alive settings now s =
    str_eq s.profile settings.profile
    && not (is_some s.revoked_at)
    && ltb now s.expires_at
    && ltb now (s.last_seen_at + seconds settings.session_idle_seconds)

-- The join with an active user.
unfoldable pub user_is_active : List User → Session → Bool
user_is_active users s = exists (λ u. (u.user_id == s.user_id) && u.is_active) users

unfoldable pub is_found : Settings → ℕ → List User → String → Session → Bool
is_found settings now users h s = has_hash h s && is_alive settings now s && user_is_active users s

-- The WHERE clause of the UPDATE that marks a session as expired.
unfoldable pub is_overdue : Settings → ℕ → String → Session → Bool
is_overdue settings now h s =
    has_hash h s
    && str_eq s.profile settings.profile
    && not (is_some s.revoked_at)
    && (leb s.expires_at now || leb (s.last_seen_at + seconds settings.session_idle_seconds) now)

unfoldable pub revoked : ℕ → RevokeReason → Session → Session
revoked now reason s = record s { revoked_at = some now; revoke_reason = some reason }

abbrev mark_expired : Crypto → Settings → ℕ → String → ℕ → String → AuthDb → Option Session → AuthDb
mark_expired crypto settings now h request_id client_fp db none = db
mark_expired crypto settings now h request_id client_fp db (some s) =
    add_event session_expired request_id (fingerprint crypto settings "expired-session") client_fp
      (some s.user_id)
      (record db {
        sessions = update (is_overdue settings now h) (revoked now expired) db.sessions;
      })

unfoldable pub expire_session : Crypto → Settings → ℕ → String → ℕ → String → AuthDb → AuthDb
expire_session crypto settings now h request_id client_fp db =
    mark_expired crypto settings now h request_id client_fp db
      (select (is_overdue settings now h) db.sessions)

unfoldable pub seen : ℕ → Session → Session
seen now s = record s { last_seen_at = now }

-- A session that was last seen five minutes ago or more is stamped.
unfoldable pub touch : Clock → String → Session → List Session → List Session
unfolding seen
touch clock h s sessions =
    if leb (s.last_seen_at + seconds 300) clock.process
    then update (has_hash h) (seen clock.database) sessions
    else sessions

abbrev loaded :
    Crypto
    → Settings
    → Clock
    → String
    → ℕ
    → String
    → AuthDb
    → Option Session
    → AuthDb × Option Session
loaded crypto settings clock h request_id client_fp db none =
    (expire_session crypto settings clock.database h request_id client_fp db, none)
loaded crypto settings clock h request_id client_fp db (some s) =
    (record db { sessions = touch clock h s db.sessions }, some s)

unfoldable pub load_session :
    Crypto → Settings → Clock → String → ℕ → String → AuthDb → AuthDb × Option Session
load_session crypto settings clock token request_id client_fp db =
    loaded crypto settings clock (crypto.token_hash token) request_id client_fp db
      (select (is_found settings clock.database db.users (crypto.token_hash token)) db.sessions)

unfoldable pub is_open : String → Session → Bool
is_open h s = has_hash h s && not (is_some s.revoked_at)

unfoldable pub revoke_session : ℕ → Session → ℕ → String → String → AuthDb → AuthDb
unfolding revoked
revoke_session now s request_id username_fp client_fp db =
    add_event logged_out request_id username_fp client_fp (some s.user_id)
      (record db { sessions = update (is_open s.session_id_hash) (revoked now logout) db.sessions })
