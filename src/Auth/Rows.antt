-- ===== src/Auth/Rows.antt =====
-- backend/app/auth.py: users, sessions and audit events (migration 0003), the counters of failed logins
-- in Redis, and the settings that the handlers read. A time is in microseconds.
use esafe.Prelude.{
  ℕ, ◌*◌, String, Bool, Option, List, ◌==◌, str_eq, strip, concat, prefix, drop_while, reverse_onto,
}

pub data RevokeReason : Type 0 where
  expired logout : RevokeReason

pub record User : Type 0 where
  pub user_id : ℕ
  pub username : String
  pub display_name : String
  pub password_hash : String
  pub is_active : Bool

pub record Session : Type 0 where
  pub session_id_hash : String
  pub user_id : ℕ
  pub csrf_token_hash : String
  pub profile : String
  pub client_fingerprint : String
  pub user_agent_fingerprint : String
  pub last_seen_at : ℕ
  pub expires_at : ℕ
  pub revoked_at : Option ℕ
  pub revoke_reason : Option RevokeReason

pub data AuthEventType : Type 0 where
  login_success login_failure login_rate_limited logged_out session_expired : AuthEventType

pub record AuthEvent : Type 0 where
  pub event_type : AuthEventType
  pub user_id : Option ℕ
  pub username_fingerprint : String
  pub client_fingerprint : String
  pub request_id : ℕ

-- A key of Redis that holds a number and has a time to live.
pub record Counter : Type 0 where
  pub key : String
  pub value : ℕ
  pub expires_at : ℕ

pub record AuthDb : Type 0 where
  pub users : List User
  pub sessions : List Session
  pub events : List AuthEvent
  pub counters : List Counter

pub record Settings : Type 0 where
  pub profile : String
  pub session_secret : String
  pub session_absolute_seconds : ℕ
  pub session_idle_seconds : ℕ
  pub login_rate_limit_attempts : ℕ
  pub login_rate_limit_window_seconds : ℕ
  pub public_origins : List String

-- The digests and the Unicode functions that the program calls: `token_hash`, HMAC-SHA-256 in hex,
-- `str.casefold`, and the verification of a password against an Argon2 hash.
pub record Crypto : Type 0 where
  pub token_hash : String → String
  pub hmac : String → String → String
  pub casefold : String → String
  pub verify_password : String → String → Bool

-- CURRENT_TIMESTAMP of the database, the clock of the process, and the clock of Redis.
pub record Clock : Type 0 where
  pub database : ℕ
  pub process : ℕ
  pub redis : ℕ

-- What the handlers read of a request.
pub record Request : Type 0 where
  pub request_id : ℕ
  pub client_ip : String
  pub user_agent : String
  pub origin : Option String
  pub fetch_site : Option String
  pub session_cookie : Option String
  pub csrf_cookie : Option String
  pub csrf_header : Option String

abbrev pub seconds : ℕ → ℕ
seconds n = n * 1_000_000

pub record Fingerprints : Type 0 where
  pub username : String
  pub client : String
  pub user_agent : String

-- `request_fingerprint` under the secret of the settings.
unfoldable pub fingerprint : Crypto → Settings → String → String
fingerprint crypto settings = crypto.hmac settings.session_secret

unfoldable pub auth_fingerprints : Crypto → Settings → String → String → String → Fingerprints
auth_fingerprints crypto settings username client_ip user_agent = record {
  username = fingerprint crypto settings (crypto.casefold (strip username));
  client = fingerprint crypto settings client_ip;
  user_agent = fingerprint crypto settings (prefix 512 user_agent);
}

-- `login_rate_key`; `lower` is the profile in lower case.
unfoldable pub login_rate_key : Crypto → Settings → String → String → String → String
login_rate_key crypto settings lower username client_ip =
    let f = auth_fingerprints crypto settings username client_ip "" in
    let combined = fingerprint crypto settings (concat f.client (concat ":" f.username)) in
    concat "auth:login:" (concat lower (concat ":" combined))

unfoldable pub has_hash : String → Session → Bool
has_hash h s = str_eq s.session_id_hash h

-- `s.rstrip("/")`
unfoldable pub strip_slashes : String → String
strip_slashes s = reverse_onto "" (drop_while (λ c. c == b'/') (reverse_onto "" s))
