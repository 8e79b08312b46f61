-- ===== src/Auth/Locked.antt =====
-- backend/app/auth.py and backend/app/api/auth.py: the counter that locks a user name and a client
-- address out after too many failed logins.
use esafe.Prelude.{
  ℕ, ◌+◌, ◌<◌, String, Bool, true, false, ◌&&◌, ◌≡◌, refl, subst, List, [], ◌∷◌, arith, inl, inr,
  Bool-cases, not, leb, str_eq, str_eq_iff, exists, exists-implied, exists-append, filter, update,
  All,
}
use esafe.Auth.Rows.{Counter, AuthDb, Settings, Crypto, Clock, Request, login_rate_key}
use esafe.Auth.Sessions.{Tokens}
use esafe.Auth.Login.{
  has_counter_key, is_counting, is_login_rate_limited, register_login_failure, clear_login_failures,
  origin_allowed, LoginBody, body_is_valid, refused, rate_limited, login,
}
use esafe.Auth.Counters.{
  login-counters, require_session-counters, require_csrf-counters, end_session-counters,
}
use esafe.Auth.Calls.{
  Call, to_login, to_read, to_change, to_logout, Timed, handle, serve, serve_induction,
}

-- A counter of that key that has reached the limit and lives until then or longer.
unfoldable pub is_held : String → ℕ → ℕ → Counter → Bool
is_held key limit until c = has_counter_key key c && leb until c.expires_at && leb limit c.value

pub is_held-limited :
    (key : String) (limit until now : ℕ) (cs : List Counter)
    → now < until
    → exists (is_held key limit until) cs ≡ true
    → is_login_rate_limited now key limit cs ≡ true
unfolding is_held is_login_rate_limited is_counting
is_held-limited key limit until now cs soon =
    exists-implied (is_held key limit until) (λ c. is_counting now key c && leb limit c.value) cs
      (λ c. ground arith)

exists-filter {ℓ} :
    {A : Type ℓ} (p q : A → Bool) (xs : List A)
    → ((a : A) → p a ≡ true → q a ≡ true)
    → exists p xs ≡ true
    → exists p (filter q xs) ≡ true
unfolding exists filter
exists-filter p q [] f e = e
exists-filter p q (x ∷ xs) f e = elim (Bool-cases (q x)) [
  | inl y ↦ rw y (ground (arith, exists-filter p q xs f))
  | inr n ↦ rw n (ground (arith, f x, exists-filter p q xs f))
]

exists_updated {ℓ} :
    {A : Type ℓ} (p q : A → Bool) (f : A → A) (xs : List A)
    → ((a : A) → p a ≡ true → p (f a) ≡ true)
    → exists p xs ≡ true
    → exists p (update q f xs) ≡ true
unfolding exists update
exists_updated p q f [] g e = e
exists_updated p q f (x ∷ xs) g e = elim (Bool-cases (q x)) [
  | inl y ↦ rw y (ground (arith, g x, exists_updated p q f xs g))
  | inr n ↦ rw n (ground (arith, exists_updated p q f xs g))
]

other_key :
    (key k : String) (limit until : ℕ) (c : Counter)
    → str_eq key k ≡ false
    → is_held key limit until c ≡ true
    → not (has_counter_key k c) ≡ true
unfolding is_held
other_key key k limit until c n h = elim (Bool-cases (str_eq c.key k)) [
  | inl y ↦
      let here : c.key ≡ key = (str_eq_iff c.key key).0 (ground arith) in
      absurd (ground (arith, (str_eq_iff c.key k).0 y))
  | inr m ↦ rw m refl
]

pub clear-held :
    (key k : String) (limit until : ℕ) (cs : List Counter)
    → str_eq key k ≡ false
    → exists (is_held key limit until) cs ≡ true
    → exists (is_held key limit until) (clear_login_failures k cs) ≡ true
unfolding clear_login_failures
clear-held key k limit until cs n =
    exists-filter (is_held key limit until) (λ c. not (has_counter_key k c)) cs
      (λ c. other_key key k limit until c n)

pub register-held :
    (now : ℕ) (key k : String) (limit until window : ℕ) (cs : List Counter)
    → str_eq key k ≡ false
    → exists (is_held key limit until) cs ≡ true
    → exists (is_held key limit until) (register_login_failure now k window cs) ≡ true
unfolding register_login_failure
register-held now key k limit until window cs n h =
    elim (Bool-cases (exists (is_counting now k) cs)) [
      | inl y ↦ rw y (
          exists_updated (is_held key limit until) (is_counting now k)
            (λ c. record c { value = c.value + 1 }) cs (unfold is_held in λ c. ground arith) h)
      | inr m ↦
          rw (m, exists-append)
            (ground (
              arith,
              exists-filter (is_held key limit until) (λ c. not (has_counter_key k c)) cs
                  (λ c. other_key key k limit until c n) h,
            ))
    ]

module _ (crypto : Crypto) (settings : Settings) (lower key : String) (until : ℕ) where
  -- A counter that holds the limit of the settings.
  abbrev Held : AuthDb → Type 0
  Held db = exists (is_held key settings.login_rate_limit_attempts until) db.counters ≡ true

  login-Held :
      (clock : Clock) (r : Request) (body : LoginBody) (tokens : Tokens) (db : AuthDb)
      → clock.redis < until
      → Held db
      → Held (login crypto settings lower clock r body tokens db).0
  login-Held clock r body tokens db soon h =
      let limit = settings.login_rate_limit_attempts in
      let k = login_rate_key crypto settings lower body.user_id r.client_ip in
      login-counters crypto settings clock r (λ cs. exists (is_held key limit until) cs ≡ true)
        lower body tokens db h
        (λ free. elim (Bool-cases (str_eq key k)) [
          | inr n ↦ (
            register-held clock.redis key k limit until settings.login_rate_limit_window_seconds
                db.counters n h,
            clear-held key k limit until db.counters n h,
          )
          | inl y ↦
              let same : key ≡ k = (str_eq_iff key k).0 y in
              let held = is_held-limited key limit until clock.redis db.counters soon h in
              absurd (
                ground (
                  arith,
                  subst (λ t. is_login_rate_limited clock.redis t limit db.counters ≡ true) same
                      held,
                ))
        ])

  perform-Held :
      (clock : Clock) (c : Call) (db : AuthDb)
      → clock.redis < until
      → Held db
      → Held (handle crypto settings lower (record { clock = clock; call = c }) db)
  unfolding handle
  perform-Held clock (to_login r body tokens) db soon h = login-Held clock r body tokens db soon h
  perform-Held clock (to_read r) db soon h =
      rw (require_session-counters crypto settings clock r db) h
  perform-Held clock (to_change r) db soon h =
      rw (require_csrf-counters crypto settings clock r db) h
  perform-Held clock (to_logout r) db soon h =
      rw (end_session-counters crypto settings clock r db) h

  pub serve-Held :
      (ts : List Timed) (db : AuthDb)
      → All (λ t. t.clock.redis < until) ts
      → Held db
      → Held (serve crypto settings lower ts db)
  serve-Held =
      serve_induction crypto settings lower Held (λ t. t.clock.redis < until)
        (λ t db soon h. perform-Held t.clock t.call db soon h)

-- A user name and client address whose counter has reached the limit stays locked out until the counter
-- expires: whatever requests of whatever users come before that time, a login under the same key before
-- that time gets 429, with the right password too.
pub locked_out :
    (crypto : Crypto) (settings : Settings) (lower : String) (until : ℕ) (ts : List Timed)
    (db : AuthDb) (clock : Clock) (r : Request) (body : LoginBody) (tokens : Tokens)
    → exists
        (is_held
          (login_rate_key crypto settings lower body.user_id r.client_ip)
          settings.login_rate_limit_attempts
          until)
        db.counters
      ≡ true
    → All (λ t. t.clock.redis < until) ts
    → clock.redis < until
    → body_is_valid body ≡ true
    → origin_allowed settings r ≡ true
    → (login crypto settings lower clock r body tokens (serve crypto settings lower ts db)).1
      ≡ refused 429 rate_limited
unfolding login
locked_out crypto settings lower until ts db clock r body tokens h before soon valid origin =
    let key = login_rate_key crypto settings lower body.user_id r.client_ip in
    let after = serve crypto settings lower ts db in
    let held = serve-Held crypto settings lower key until ts db before h in
    let limited =
      is_held-limited key settings.login_rate_limit_attempts until clock.redis after.counters soon
        held in
    rw (valid, origin, limited) refl
