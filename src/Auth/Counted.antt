-- ===== src/Auth/Counted.antt =====
-- backend/app/auth.py: logins with a wrong password, and a counter that has counted so far.
use esafe.Prelude.{
  ℕ, suc, ◌+◌, ◌<◌, ◌≤◌, String, Bool, true, ◌≡◌, none, List, [], ◌∷◌, arith, exists,
  exists-implied, update, All, All-update,
}
use esafe.Auth.Rows.{User, Counter, Settings, Crypto, Clock, Request, login_rate_key}
use esafe.Auth.Sessions.{Tokens}
use esafe.Auth.Login.{
  has_counter_key, is_counting, is_login_rate_limited, register_login_failure,
  authenticate_credentials, origin_allowed, LoginBody, body_is_valid,
}
use esafe.Auth.Calls.{to_login, Timed}
use esafe.Auth.Locked.{is_held}

-- A login and the time at which it comes.
pub record Guess : Type 0 where
  pub clock : Clock
  pub request : Request
  pub body : LoginBody
  pub tokens : Tokens

abbrev pub guess_call : Guess → Timed
guess_call g = record { clock = g.clock; call = to_login g.request g.body g.tokens }

abbrev pub guess_calls : List Guess → List Timed
guess_calls [] = []
guess_calls (g ∷ gs) = guess_call g ∷ guess_calls gs

-- A login under that key, in order but with a wrong password, before that time.
pub record IsWrong (crypto : Crypto) (settings : Settings) (lower : String) (users : List User)
    (key : String) (until : ℕ) (g : Guess) : Type 0 where
  pub before : g.clock.redis < until
  pub same_key : login_rate_key crypto settings lower g.body.user_id g.request.client_ip ≡ key
  pub valid : body_is_valid g.body ≡ true
  pub allowed : origin_allowed settings g.request ≡ true
  pub wrong : authenticate_credentials crypto g.body.user_id g.body.password users ≡ none

module _ (key : String) (until : ℕ) where
  -- The counters of the key live until that time, and one of them has counted so far.
  abbrev pub Counted : ℕ → List Counter → Type 0
  Counted n cs =
      (exists (is_held key n until) cs ≡ true)
      × All (λ c. has_counter_key key c ≡ true → until ≤ c.expires_at) cs

  pub held_less :
      (m n : ℕ) (cs : List Counter)
      → m ≤ n
      → exists (is_held key n until) cs ≡ true
      → exists (is_held key m until) cs ≡ true
  unfolding is_held
  held_less m n cs le =
      exists-implied (is_held key n until) (is_held key m until) cs (λ c. ground arith)

  -- Under the lifetime, a counter that limits is held.
  pub limited-held :
      (now limit : ℕ) (cs : List Counter)
      → All (λ c. has_counter_key key c ≡ true → until ≤ c.expires_at) cs
      → is_login_rate_limited now key limit cs ≡ true
      → exists (is_held key limit until) cs ≡ true
  unfolding is_login_rate_limited is_counting is_held exists
  limited-held now limit [] live h = h
  limited-held now limit (c ∷ cs) live h = ground (arith, live.0, limited-held now limit cs live.1)

  exists_hit {ℓ} :
      {A : Type ℓ} (p p' q : A → Bool) (f : A → A) (xs : List A)
      → ((a : A) → p a ≡ true → (q a ≡ true) × (p' (f a) ≡ true))
      → exists p xs ≡ true
      → exists p' (update q f xs) ≡ true
  unfolding exists update
  exists_hit p p' q f [] g e = e
  exists_hit p p' q f (x ∷ xs) g e = ground (arith, g x, exists_hit p p' q f xs g)

  pub register-Counted :
      (now window n : ℕ) (cs : List Counter)
      → now < until
      → Counted n cs
      → Counted (suc n) (register_login_failure now key window cs)
  unfolding register_login_failure
  register-Counted now window n cs soon (held, live) =
      let counting : exists (is_counting now key) cs ≡ true =
        exists-implied (is_held key n until) (is_counting now key) cs
          (unfold is_held is_counting in λ c. ground arith) held in
      rw counting (
        exists_hit (is_held key n until) (is_held key (suc n) until) (is_counting now key)
            (λ c. record c { value = c.value + 1 }) cs
            (unfold is_held is_counting in λ c. ground arith) held,
        All-update (λ c. has_counter_key key c ≡ true → until ≤ c.expires_at)
            (λ c. has_counter_key key c ≡ true → until ≤ c.expires_at) (is_counting now key)
            (λ c. record c { value = c.value + 1 }) cs (λ c k y. k) (λ c k y. k) live,
      )
