-- ===== src/Auth/LoggedOut.antt =====
-- backend/app/api/auth.py: what a logout leaves of the session that it ends.
use esafe.Prelude.{
  ℕ, ◌≤◌, String, Bool, true, false, ◌≡◌, refl, subst, sym, some, List, arith, ok, err, inl, inr,
  Bool-cases, Option-cases, Outcome-cases, is_empty, select, select_sound, select-exists,
  exists-implied, exists, update, All-any, All-update, str_eq_iff, leb, ◌+◌, ◌&&◌,
}
use esafe.Auth.Rows.{Session, AuthDb, Settings, Crypto, Clock, Request, logout, seconds, has_hash}
use esafe.Auth.Sessions.{
  is_alive, is_found, user_is_active, revoked, seen, touch, load_session, revoke_session, is_open,
  add_event,
}
use esafe.Auth.Login.{session_is_expired}
use esafe.Auth.Calls.{refusal, require_session, require_csrf, end_session, Timed, serve}
use esafe.Auth.Dead.{Gone, exists-update, revoked-has_hash, dead_revoked}
use esafe.Auth.Ended.{ended_refused}

module _ (crypto : Crypto) (settings : Settings) (clock : Clock) (r : Request)
    (token : String) where
  require_session-found :
      (db : AuthDb) (s : Session)
      → r.session_cookie ≡ some token
      → (require_session crypto settings clock r db).1 ≡ ok s
      → (select (is_found settings clock.database db.users (crypto.token_hash token)) db.sessions
          ≡ some s)
        × ((require_session crypto settings clock r db).0.sessions
            ≡ touch clock (crypto.token_hash token) s db.sessions)
  unfolding require_session load_session
  require_session-found db s cookie e =
      elim (Option-cases (
        select (is_found settings clock.database db.users (crypto.token_hash token)) db.sessions)) [
          | inl n ↦ ground arith
          | inr (v, y) ↦ ground arith
        ]

  require_csrf-found :
      (db : AuthDb) (s : Session)
      → r.session_cookie ≡ some token
      → (require_csrf crypto settings clock r db).1 ≡ ok s
      → (select (is_found settings clock.database db.users (crypto.token_hash token)) db.sessions
          ≡ some s)
        × ((require_csrf crypto settings clock r db).0.sessions
            ≡ touch clock (crypto.token_hash token) s db.sessions)
  unfolding require_csrf
  require_csrf-found db s cookie e =
      elim (Outcome-cases (require_session crypto settings clock r db).1) [
        | inl (v, y) ↦ ground (arith, require_session-found db v cookie y)
        | inr (x, n) ↦ ground arith
      ]

hash_of :
    (s : Session) (h : String) (a b : Bool)
    → (has_hash h s && a && b) ≡ true
    → s.session_id_hash ≡ h
unfolding has_hash
hash_of s h a b y = (str_eq_iff s.session_id_hash h).0 (ground arith)

found_hash :
    (settings : Settings) (now : ℕ) (db : AuthDb) (h : String) (s : Session)
    → select (is_found settings now db.users h) db.sessions ≡ some s
    → (exists (has_hash h) db.sessions ≡ true) × (s.session_id_hash ≡ h)
unfolding is_found
found_hash settings now db h s e = (
  exists-implied (is_found settings now db.users h) (has_hash h) db.sessions (λ v. ground arith)
      (select-exists (is_found settings now db.users h) db.sessions s e),
  hash_of s h (is_alive settings now s) (user_is_active db.users s)
      (select_sound (is_found settings now db.users h) db.sessions s e),
)

revoked_dead :
    (settings : Settings) (now : ℕ) (h : String) (s : Session)
    → is_open h s ≡ false
    → has_hash h s ≡ true
    → is_alive settings 0 s ≡ false
unfolding is_open is_alive
revoked_dead settings now h s n y = ground arith

all_revoked-Gone :
    (settings : Settings) (now : ℕ) (h : String) (xs : List Session)
    → exists (has_hash h) xs ≡ true
    → Gone settings h 0 (update (is_open h) (revoked now logout) xs)
all_revoked-Gone settings now h xs known = record {
  known =
      subst (λ b. b ≡ true)
        (sym (exists-update h (is_open h) (revoked now logout) xs (revoked-has_hash h now logout)))
        known;
  dead =
      All-update (λ _. Unit {0}) (λ s. has_hash h s ≡ true → is_alive settings 0 s ≡ false)
        (is_open h) (revoked now logout) xs (λ s u y t. dead_revoked settings 0 now logout s)
        (λ s u n y. revoked_dead settings now h s n y) (All-any (λ _. Unit {0}) xs (λ _. tt));
}

known-touch :
    (clock : Clock) (h : String) (s : Session) (xs : List Session)
    → exists (has_hash h) xs ≡ true
    → exists (has_hash h) (touch clock h s xs) ≡ true
unfolding touch
known-touch clock h s xs known =
    elim (Bool-cases (leb (s.last_seen_at + seconds 300) clock.process)) [
      | inl y ↦ rw y (
          subst (λ b. b ≡ true)
            (sym (
              exists-update h (has_hash h) (seen clock.database) xs
                (unfold has_hash seen in λ s. refl)))
            known)
      | inr n ↦ rw n known
    ]

end_session-sessions :
    (crypto : Crypto) (settings : Settings) (clock : Clock) (r : Request) (db : AuthDb)
    (s : Session)
    → (end_session crypto settings clock r db).1 ≡ ok s
    → ((require_csrf crypto settings clock r db).1 ≡ ok s)
      × ((end_session crypto settings clock r db).0.sessions
          ≡ update
              (is_open s.session_id_hash)
              (revoked clock.database logout)
              (require_csrf crypto settings clock r db).0.sessions)
unfolding end_session revoke_session add_event
end_session-sessions crypto settings clock r db s e =
    elim (Outcome-cases (require_csrf crypto settings clock r db).1) [
      | inl (v, y) ↦ ground arith
      | inr (x, n) ↦ ground arith
    ]

end_session-ends :
    (crypto : Crypto) (settings : Settings) (clock : Clock) (r : Request) (token : String)
    (db : AuthDb) (s : Session)
    → r.session_cookie ≡ some token
    → (end_session crypto settings clock r db).1 ≡ ok s
    → Gone settings (crypto.token_hash token) 0 (end_session crypto settings clock r db).0.sessions
end_session-ends crypto settings clock r token db s cookie e =
    let h = crypto.token_hash token in
    let (let_in, rows) = end_session-sessions crypto settings clock r db s e in
    let (found, touched) = require_csrf-found crypto settings clock r token db s cookie let_in in
    let (known, same) = found_hash settings clock.database db h s found in
    rw (rows, same, touched)
      (all_revoked-Gone settings clock.database h (touch clock h s db.sessions)
        (known-touch clock h s db.sessions known))

-- After a logout that the server accepted, every later request with the same session cookie gets 401,
-- whatever logins, requests and logouts come in between and whatever the clocks say.
pub logged_out_refused :
    (crypto : Crypto) (settings : Settings) (lower : String) (first last : Clock)
    (out again : Request) (token : String) (db : AuthDb) (s : Session) (ts : List Timed)
    → (end_session crypto settings first out db).1 ≡ ok s
    → out.session_cookie ≡ some token
    → again.session_cookie ≡ some token
    → is_empty token ≡ false
    → (require_session crypto settings last again
        (serve crypto settings lower ts (end_session crypto settings first out db).0)).1
      ≡ err (refusal 401 session_is_expired)
logged_out_refused crypto settings lower first last out again token db s ts e here there given =
    ended_refused crypto settings lower 0 ts (end_session crypto settings first out db).0 last again
      token (end_session-ends crypto settings first out token db s here e)
      (All-any (λ t. 0 ≤ t.clock.database) ts (λ t. omega arith)) (omega arith) there given
