-- ===== src/Auth/Guessing.antt =====
-- backend/app/api/auth.py: wrong passwords one after another lead to the lock.
use esafe.Prelude.{
  ℕ, suc, ◌+◌, ◌<◌, ◌≤◌, String, true, false, ◌≡◌, refl, sym, ◌∙◌, subst, List, [], ◌∷◌, arith, inl,
  inr, Bool-cases, not, str_eq, str_eq_iff, if◌then◌else◌, exists, exists-append, filter, All,
  All-append, length,
}
use native.Mathlib.Decide.{dec_lt}
use esafe.Auth.Rows.{
  User, Counter, AuthDb, Settings, Crypto, Clock, Request, seconds, login_rate_key,
}
use esafe.Auth.Sessions.{Tokens, add_event}
use esafe.Auth.Login.{
  has_counter_key, is_counting, is_login_rate_limited, register_login_failure, origin_allowed,
  LoginBody, body_is_valid, refused, rate_limited, attempt, login,
}
use esafe.Auth.Calls.{handle, serve}
use esafe.Auth.Locked.{is_held, is_held-limited, locked_out}
use esafe.Auth.Counted.{
  Guess, guess_call, guess_calls, IsWrong, Counted, held_less, limited-held, register-Counted,
}

module _ (crypto : Crypto) (settings : Settings) (lower : String) (users : List User) (key : String)
    (until : ℕ) where
  login_counts :
      (g : Guess) (db : AuthDb)
      → IsWrong crypto settings lower db.users key until g
      → ((login crypto settings lower g.clock g.request g.body g.tokens db).0.users ≡ db.users)
        × ((login crypto settings lower g.clock g.request g.body g.tokens db).0.counters ≡ (
            if is_login_rate_limited g.clock.redis key settings.login_rate_limit_attempts
              db.counters
            then db.counters
            else register_login_failure g.clock.redis key settings.login_rate_limit_window_seconds
                db.counters))
  unfolding login attempt add_event
  login_counts g db w =
      elim (Bool-cases
        (is_login_rate_limited g.clock.redis key settings.login_rate_limit_attempts db.counters)) [
          | inl y ↦ rw (w.valid, w.allowed, w.same_key, y) (refl, refl)
          | inr n ↦ rw (w.valid, w.allowed, w.same_key, n, w.wrong) (refl, refl)
        ]

  -- A wrong login writes no user, and counts if the key is not limited.
  wrong_login :
      (g : Guess) (db : AuthDb)
      → db.users ≡ users
      → IsWrong crypto settings lower users key until g
      → ((handle crypto settings lower (guess_call g) db).users ≡ users)
        × ((handle crypto settings lower (guess_call g) db).counters ≡ (
            if is_login_rate_limited g.clock.redis key settings.login_rate_limit_attempts
              db.counters
            then db.counters
            else register_login_failure g.clock.redis key settings.login_rate_limit_window_seconds
                db.counters))
  unfolding handle
  wrong_login g db same w =
      let (still, counters) =
        login_counts g db
          (subst (λ us. IsWrong crypto settings lower us key until g) (sym same) w) in
      (still ∙ same, counters)

  wrong-Counted :
      (n : ℕ) (g : Guess) (db : AuthDb)
      → n < settings.login_rate_limit_attempts
      → db.users ≡ users
      → IsWrong crypto settings lower users key until g
      → Counted key until n db.counters
      → Counted key until (suc n) (handle crypto settings lower (guess_call g) db).counters
  wrong-Counted n g db less same w h =
      let limit = settings.login_rate_limit_attempts in
      let counters = (wrong_login g db same w).1 in
      elim (Bool-cases (is_login_rate_limited g.clock.redis key limit db.counters)) [
        | inl y ↦
            rw (counters, y)
              (
                held_less key until (suc n) limit db.counters (omega arith)
                    (limited-held key until g.clock.redis limit db.counters h.1 y),
                h.1,
              )
        | inr free ↦
            rw (counters, free)
              (register-Counted key until g.clock.redis settings.login_rate_limit_window_seconds n
                db.counters w.before h)
      ]

  held-limited :
      (g : Guess) (db : AuthDb)
      → IsWrong crypto settings lower users key until g
      → Counted key until settings.login_rate_limit_attempts db.counters
      → is_login_rate_limited g.clock.redis key settings.login_rate_limit_attempts db.counters
        ≡ true
  held-limited g db w h =
      is_held-limited key settings.login_rate_limit_attempts until g.clock.redis db.counters
        w.before h.0

  wrongs-Counted :
      (n : ℕ) (gs : List Guess) (db : AuthDb)
      → n ≤ settings.login_rate_limit_attempts
      → settings.login_rate_limit_attempts ≤ n + length gs
      → db.users ≡ users
      → All (IsWrong crypto settings lower users key until) gs
      → Counted key until n db.counters
      → Counted key until settings.login_rate_limit_attempts
          (serve crypto settings lower (guess_calls gs) db).counters
  unfolding serve
  wrongs-Counted n [] db le ge same w h =
      let full : n ≡ settings.login_rate_limit_attempts = omega arith in
      subst (λ k. Counted key until k db.counters) full h
  wrongs-Counted n (g ∷ gs) db le ge same w h =
      let next = handle crypto settings lower (guess_call g) db in
      let (users_same, counters) = wrong_login g db same w.0 in
      elim (dec_lt n settings.login_rate_limit_attempts) [
        | yes less ↦
            wrongs-Counted (suc n) gs next (omega arith) (omega arith) users_same w.1
              (wrong-Counted n g db less same w.0 h)
        | no more ↦
            let full : n ≡ settings.login_rate_limit_attempts = omega arith in
            let all_of = subst (λ k. Counted key until k db.counters) full h in
            let stays : next.counters ≡ db.counters =
              rw (counters, held-limited g db w.0 all_of) refl in
            wrongs-Counted n gs next le (omega arith) users_same w.1
              (subst (λ cs. Counted key until n cs) (sym stays) h)
      ]

  not_limited :
      (now limit : ℕ) (cs : List Counter)
      → exists (is_counting now key) cs ≡ false
      → is_login_rate_limited now key limit cs ≡ false
  unfolding is_login_rate_limited exists
  not_limited now limit [] fresh = refl
  not_limited now limit (c ∷ cs) fresh = ground (arith, not_limited now limit cs)

  others_only :
      (cs : List Counter)
      → All
          (λ c. has_counter_key key c ≡ true → until ≤ c.expires_at)
          (filter (λ c. not (has_counter_key key c)) cs)
  unfolding filter
  others_only [] = tt
  others_only (c ∷ cs) = elim (Bool-cases (has_counter_key key c)) [
    | inl y ↦ rw y (others_only cs)
    | inr n ↦ rw n ((λ y. absurd (ground (arith, y, n))), others_only cs)
  ]

  -- The first wrong login starts a counter for the whole window.
  first-Counted :
      (g : Guess) (db : AuthDb)
      → until ≡ g.clock.redis + seconds settings.login_rate_limit_window_seconds
      → exists (is_counting g.clock.redis key) db.counters ≡ false
      → db.users ≡ users
      → IsWrong crypto settings lower users key until g
      → Counted key until 1 (handle crypto settings lower (guess_call g) db).counters
  unfolding register_login_failure
  first-Counted g db span fresh same w =
      let counters = (wrong_login g db same w).1 in
      let free = not_limited g.clock.redis settings.login_rate_limit_attempts db.counters fresh in
      let own : str_eq key key ≡ true = (str_eq_iff key key).1 refl in
      rw (counters, free, fresh)
        (
          rw exists-append (unfold is_held exists in ground (arith, own)),
          All-append (λ c. has_counter_key key c ≡ true → until ≤ c.expires_at)
              (filter (λ c. not (has_counter_key key c)) db.counters)
              (record {
                key = key;
                value = 1;
                expires_at = g.clock.redis + seconds settings.login_rate_limit_window_seconds;
              }
                ∷ [])
              (others_only db.counters) (λ y. omega arith, tt),
        )

-- As many logins with a wrong password as the limit allows, all under one key and inside the window that
-- the first of them opens, lock the key out: any login under the key in the rest of the window gets 429,
-- with the right password too. So no more passwords than the limit are tried in a window. (The logins
-- come one after another, and no counter of the key was running before the first.)
pub guessing_locks :
    (crypto : Crypto) (settings : Settings) (lower : String) (g : Guess) (gs : List Guess)
    (db : AuthDb) (until : ℕ) (clock : Clock) (r : Request) (body : LoginBody) (tokens : Tokens)
    → until ≡ g.clock.redis + seconds settings.login_rate_limit_window_seconds
    → exists
        (is_counting g.clock.redis (login_rate_key crypto settings lower body.user_id r.client_ip))
        db.counters
      ≡ false
    → 1 ≤ settings.login_rate_limit_attempts
    → settings.login_rate_limit_attempts ≤ length (g ∷ gs)
    → All
        (IsWrong crypto settings lower db.users
          (login_rate_key crypto settings lower body.user_id r.client_ip)
          until)
        (g ∷ gs)
    → clock.redis < until
    → body_is_valid body ≡ true
    → origin_allowed settings r ≡ true
    → (login crypto settings lower clock r body tokens
        (serve crypto settings lower (guess_calls (g ∷ gs)) db)).1
      ≡ refused 429 rate_limited
unfolding serve
guessing_locks crypto settings lower g gs db until clock r body tokens span fresh some_limit enough
      w soon valid allowed =
    let key = login_rate_key crypto settings lower body.user_id r.client_ip in
    let next = handle crypto settings lower (guess_call g) db in
    let start = first-Counted crypto settings lower db.users key until g db span fresh refl w.0 in
    let (same, c) = wrong_login crypto settings lower db.users key until g db refl w.0 in
    let full =
      wrongs-Counted crypto settings lower db.users key until 1 gs next some_limit (omega arith)
        same w.1 start in
    locked_out crypto settings lower until [] (serve crypto settings lower (guess_calls gs) next)
      clock r body tokens full.0 tt soon valid allowed
