-- ===== src/Auth/Examples.antt =====
-- backend/app/auth.py: runs, and the theorems at concrete users, sessions and counters.
use esafe.Prelude.{
  ℕ, String, true, ◌<◌, ◌≡◌, refl, none, some, [], ◌∷◌, arith, str_eq_iff, ok, err, str_eq, exists,
  select, concat, strip, trim_by, text_length,
}
use esafe.Auth.Rows.{
  User, Session, Counter, AuthDb, Settings, Crypto, Clock, Request, seconds, has_hash,
  login_rate_key,
}
use esafe.Auth.Sessions.{Tokens, is_alive, is_found, user_is_active, load_session}
use esafe.Auth.Login.{
  session_is_expired, rate_limited, refused, LoginBody, login, authenticate_credentials,
  origin_allowed, body_is_valid,
}
use esafe.Auth.Calls.{
  refusal, require_session, require_csrf, end_session, to_login, to_read, Timed, serve,
}
use esafe.Auth.Dead.{Gone}
use esafe.Auth.Ended.{ended_refused}
use esafe.Auth.LoggedOut.{logged_out_refused}
use esafe.Auth.Locked.{is_held, locked_out}
use esafe.Auth.Counted.{Guess, IsWrong, guess_calls}
use esafe.Auth.Guessing.{guessing_locks}

abbrev crypto : Crypto
crypto = record {
  token_hash = λ s. concat "h" s;
  hmac = λ k s. s;
  casefold = λ s. s;
  verify_password = str_eq;
}

abbrev settings : Settings
settings = record {
  profile = "local";
  session_secret = "k";
  session_absolute_seconds = 28_800;
  session_idle_seconds = 1_800;
  login_rate_limit_attempts = 2;
  login_rate_limit_window_seconds = 300;
  public_origins = [];
}

abbrev kim : User
kim = record {
  user_id = 1;
  username = "kim";
  display_name = "Kim";
  password_hash = "pw";
  is_active = true;
}

abbrev kim_session : Session
kim_session = record {
  session_id_hash = "ht";
  user_id = 1;
  csrf_token_hash = "hc";
  profile = "local";
  client_fingerprint = "ip";
  user_agent_fingerprint = "ua";
  last_seen_at = 0;
  expires_at = seconds 100;
  revoked_at = none;
  revoke_reason = none;
}

abbrev clock_at : ℕ → Clock
clock_at s = record { database = seconds s; process = seconds s; redis = seconds s }

abbrev from_browser : Request
from_browser = record {
  request_id = 7;
  client_ip = "ip";
  user_agent = "ua";
  origin = none;
  fetch_site = some "same-origin";
  session_cookie = some "t";
  csrf_cookie = some "c";
  csrf_header = some "c";
}

abbrev body_with : String → LoginBody
body_with password = record { user_id = "kim"; password = password }

abbrev fresh_tokens : Tokens
fresh_tokens = record { session_token = "t2"; csrf_token = "c2" }

abbrev start : AuthDb
start = record { users = kim ∷ []; sessions = kim_session ∷ []; events = []; counters = [] }

abbrev read_at : ℕ → Timed
read_at s = record { clock = clock_at s; call = to_read from_browser }

abbrev login_at : ℕ → Timed
login_at s = record {
  clock = clock_at s;
  call = to_login from_browser (body_with "pw") fresh_tokens;
}

-- The session ends with its 100 seconds.
kim_session-Gone : Gone settings (crypto.token_hash "t") (seconds 100) (kim_session ∷ [])
unfolding exists has_hash is_alive concat
kim_session-Gone = record { known = refl; dead = (λ y. refl, tt) }

ended_refused_example :
    (require_session crypto settings
      (clock_at 130)
      from_browser
      (serve crypto settings "local" (login_at 110 ∷ read_at 120 ∷ []) start)).1
    ≡ err (refusal 401 session_is_expired)
ended_refused_example =
    ended_refused crypto settings "local" (seconds 100) (login_at 110 ∷ read_at 120 ∷ []) start
      (clock_at 130) from_browser "t" kim_session-Gone (ground arith, (ground arith, tt))
      (ground arith) refl refl

kim_logs_out : (end_session crypto settings (clock_at 10) from_browser start).1 ≡ ok kim_session
unfolding end_session require_csrf require_session load_session select is_found has_hash concat
    is_alive user_is_active exists origin_allowed
kim_logs_out = refl

logged_out_refused_example :
    (require_session crypto settings (clock_at 12) from_browser (
      serve crypto settings "local"
        (login_at 11 ∷ [])
        (end_session crypto settings (clock_at 10) from_browser start).0)).1
    ≡ err (refusal 401 session_is_expired)
logged_out_refused_example =
    logged_out_refused crypto settings "local" (clock_at 10) (clock_at 12) from_browser from_browser
      "t" start kim_session (login_at 11 ∷ []) kim_logs_out refl refl refl

abbrev kim_key : String
kim_key = login_rate_key crypto settings "local" "kim" "ip"

abbrev two_failures : Counter
two_failures = record { key = kim_key; value = 2; expires_at = seconds 300 }

same_text : (s : String) → str_eq s s ≡ true
same_text s = (str_eq_iff s s).1 refl

two_failures_held : exists (is_held kim_key 2 (seconds 300)) (two_failures ∷ []) ≡ true
unfolding exists is_held
two_failures_held = ground (arith, same_text kim_key)

locked_out_example :
    (login crypto settings "local" (clock_at 20) from_browser (body_with "pw") fresh_tokens (
      serve crypto settings "local"
        (login_at 11 ∷ [])
        (record { users = kim ∷ []; sessions = []; events = []; counters = two_failures ∷ [] }))).1
    ≡ refused 429 rate_limited
locked_out_example =
    locked_out crypto settings "local" (seconds 300) (login_at 11 ∷ [])
      (record { users = kim ∷ []; sessions = []; events = []; counters = two_failures ∷ [] })
      (clock_at 20) from_browser (body_with "pw") fresh_tokens two_failures_held (ground arith, tt)
      (ground arith) (unfold body_is_valid text_length in refl) (unfold origin_allowed in refl)

abbrev wrong_at : ℕ → Guess
wrong_at s = record {
  clock = clock_at s;
  request = from_browser;
  body = body_with "nope";
  tokens = fresh_tokens;
}

wrong_at-IsWrong :
    (s : ℕ)
    → s < 301
    → IsWrong crypto settings "local" (kim ∷ []) kim_key (seconds 301) (wrong_at s)
unfolding body_is_valid text_length origin_allowed authenticate_credentials select strip trim_by
wrong_at-IsWrong s soon = record {
  before = omega arith;
  same_key = refl;
  valid = refl;
  allowed = refl;
  wrong = refl;
}

guessing_locks_example :
    (login crypto settings "local"
      (clock_at 20)
      from_browser
      (body_with "pw")
      fresh_tokens
      (serve crypto settings "local" (guess_calls (wrong_at 1 ∷ wrong_at 2 ∷ [])) start)).1
    ≡ refused 429 rate_limited
guessing_locks_example =
    guessing_locks crypto settings "local" (wrong_at 1) (wrong_at 2 ∷ []) start (seconds 301)
      (clock_at 20) from_browser (body_with "pw") fresh_tokens refl (unfold exists in refl)
      (ground arith) (ground arith)
      (wrong_at-IsWrong 1 (ground arith), (wrong_at-IsWrong 2 (ground arith), tt)) (ground arith)
      (unfold body_is_valid text_length in refl) (unfold origin_allowed in refl)
