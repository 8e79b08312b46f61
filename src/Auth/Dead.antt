-- ===== src/Auth/Dead.antt =====
-- backend/app/auth.py: what each operation does to a session that has ended.
use esafe.Prelude.{
  ℕ, ◌≤◌, String, Bool, true, false, ◌≡◌, refl, subst, sym, none, some, List, [], ◌∷◌, ◌++◌, arith,
  ok, inl, inr, Bool-cases, Option-cases, bind-ok, raise_if-ok, str_eq_iff, select, exists,
  exists-append, update, leb, ◌+◌, All, All-append, All-select, All-update, select_sound,
}
use esafe.Auth.Rows.{
  RevokeReason, expired, seconds, User, Session, AuthDb, Settings, Crypto, Clock, has_hash,
}
use esafe.Auth.Sessions.{
  NewSession, Tokens, is_alive, is_found, is_overdue, revoked, seen, touch, load_session,
  expire_session, insert_session, create_session_with_audit, new_session, add_event,
}

-- The hash has a row, and no row of it is alive at that time.
pub record Gone (settings : Settings) (h : String) (at : ℕ) (sessions : List Session) : Type 0 where
  pub known : exists (has_hash h) sessions ≡ true
  pub dead : All (λ s. has_hash h s ≡ true → is_alive settings at s ≡ false) sessions

dead_later :
    (settings : Settings) (at later : ℕ) (s : Session)
    → at ≤ later
    → is_alive settings at s ≡ false
    → is_alive settings later s ≡ false
unfolding is_alive
dead_later settings at later s le h = ground arith

pub dead_revoked :
    (settings : Settings) (at now : ℕ) (reason : RevokeReason) (s : Session)
    → is_alive settings at (revoked now reason s) ≡ false
unfolding is_alive revoked
dead_revoked settings at now reason s = ground arith

pub exists-update :
    (h : String) (p : Session → Bool) (f : Session → Session) (xs : List Session)
    → ((s : Session) → has_hash h (f s) ≡ has_hash h s)
    → exists (has_hash h) (update p f xs) ≡ exists (has_hash h) xs
unfolding exists update
exists-update h p f [] same = refl
exists-update h p f (x ∷ xs) same = ground (arith, same x, exists-update h p f xs same)

Gone-update :
    (settings : Settings) (h : String) (at : ℕ) (p : Session → Bool) (f : Session → Session)
    (xs : List Session)
    → ((s : Session) → has_hash h (f s) ≡ has_hash h s)
    → ((s : Session) → has_hash h s ≡ true → p s ≡ true → is_alive settings at (f s) ≡ false)
    → Gone settings h at xs
    → Gone settings h at (update p f xs)
Gone-update settings h at p f xs same hit g = record {
  known = subst (λ b. b ≡ true) (sym (exists-update h p f xs same)) g.known;
  dead =
      All-update (λ s. has_hash h s ≡ true → is_alive settings at s ≡ false)
        (λ s. has_hash h s ≡ true → is_alive settings at s ≡ false) p f xs
        (λ s d y e. hit s (subst (λ b. b ≡ true) (same s) e) y) (λ s d n. d) g.dead;
}

pub revoked-has_hash :
    (h : String) (now : ℕ) (reason : RevokeReason) (s : Session)
    → has_hash h (revoked now reason s) ≡ has_hash h s
unfolding has_hash revoked
revoked-has_hash h now reason s = refl

pub Gone-revoked :
    (settings : Settings) (h : String) (at : ℕ) (p : Session → Bool) (now : ℕ)
    (reason : RevokeReason) (xs : List Session)
    → Gone settings h at xs
    → Gone settings h at (update p (revoked now reason) xs)
Gone-revoked settings h at p now reason xs =
    Gone-update settings h at p (revoked now reason) xs (revoked-has_hash h now reason)
      (λ s y t. dead_revoked settings at now reason s)

same_hash : (h k : String) (s : Session) → has_hash h s ≡ true → has_hash k s ≡ true → k ≡ h
unfolding has_hash
same_hash h k s y t =
    cc ((str_eq_iff s.session_id_hash h).0 y, (str_eq_iff s.session_id_hash k).0 t)

-- A row that is found alive is none of a hash that is gone.
not_found :
    (settings : Settings) (h : String) (at now : ℕ) (users : List User) (xs : List Session)
    (s : Session)
    → at ≤ now
    → Gone settings h at xs
    → select (is_found settings now users h) xs ≡ some s
    → ⊥
unfolding is_found
not_found settings h at now users xs s le g found = ground (
  arith,
  All-select (λ s. has_hash h s ≡ true → is_alive settings at s ≡ false)
      (is_found settings now users h) xs s g.dead found,
  select_sound (is_found settings now users h) xs s found,
  dead_later settings at now s le,
)

pub load_session-Gone :
    (crypto : Crypto) (settings : Settings) (h : String) (at : ℕ) (clock : Clock) (token : String)
    (request : ℕ) (client : String) (db : AuthDb)
    → at ≤ clock.database
    → Gone settings h at db.sessions
    → Gone settings h at (load_session crypto settings clock token request client db).0.sessions
unfolding load_session expire_session touch add_event
load_session-Gone crypto settings h at clock token request client db le g =
    let k = crypto.token_hash token in
    elim (Option-cases (select (is_found settings clock.database db.users k) db.sessions)) [
      | inl e ↦
          rw e (elim (Option-cases (select (is_overdue settings clock.database k) db.sessions)) [
            | inl n ↦ rw n g
            | inr (s, y) ↦ rw y (
                Gone-revoked settings h at (is_overdue settings clock.database k) clock.database
                  expired db.sessions g)
          ])
      | inr (s, e) ↦ rw e (elim (Bool-cases (leb (s.last_seen_at + seconds 300) clock.process)) [
        | inr n ↦ rw n g
        | inl y ↦ rw y (
            Gone-update settings h at (has_hash k) (seen clock.database) db.sessions
              (unfold has_hash seen in λ s. refl)
              (λ v a b. absurd (
                not_found settings h at clock.database db.users db.sessions s le g (
                  subst
                    (λ t. select (is_found settings clock.database db.users t) db.sessions ≡ some s)
                    (same_hash h k v a b) e)))
              g)
      ])
    ]

-- A token whose session is gone is refused.
pub load_session-none :
    (crypto : Crypto) (settings : Settings) (at : ℕ) (clock : Clock) (token : String) (request : ℕ)
    (client : String) (db : AuthDb)
    → at ≤ clock.database
    → Gone settings (crypto.token_hash token) at db.sessions
    → (load_session crypto settings clock token request client db).1 ≡ none
unfolding load_session
load_session-none crypto settings at clock token request client db le g =
    let k = crypto.token_hash token in
    elim (Option-cases (select (is_found settings clock.database db.users k) db.sessions)) [
      | inl e ↦ rw e refl
      | inr (s, e) ↦ absurd (not_found settings k at clock.database db.users db.sessions s le g e)
    ]

other_hash :
    (h : String) (s : Session) (xs : List Session)
    → has_hash h s ≡ true
    → exists (has_hash s.session_id_hash) xs ≡ false
    → exists (has_hash h) xs ≡ true
    → ⊥
unfolding has_hash
other_hash h s xs y fresh known =
    let same : s.session_id_hash ≡ h = (str_eq_iff s.session_id_hash h).0 y in ground arith

-- A new session has another hash.
pub create-Gone :
    (crypto : Crypto) (settings : Settings) (h : String) (at : ℕ) (clock : Clock) (tokens : Tokens)
    (user : User) (request : ℕ) (name client agent : String) (db db' : AuthDb) (out : NewSession)
    → create_session_with_audit crypto settings clock tokens user request name client agent db
      ≡ ok (db', out)
    → Gone settings h at db.sessions
    → Gone settings h at db'.sessions
unfolding create_session_with_audit insert_session add_event
create-Gone crypto settings h at clock tokens user request name client agent db db' out e g =
    let s = new_session crypto settings clock tokens user.user_id client agent in
    let (sessions, inserted, e1) = bind-ok (insert_session clock.database s db) _ e in
    let (fresh, e2) = raise_if-ok (exists (has_hash s.session_id_hash) db.sessions) _ _ inserted in
    let rows : db'.sessions ≡ db.sessions ++ s ∷ [] = ground arith in
    subst (Gone settings h at) (sym rows) (record {
      known = rw exists-append (ground (arith, g.known));
      dead =
          All-append (λ s. has_hash h s ≡ true → is_alive settings at s ≡ false) db.sessions
            (s ∷ []) g.dead (λ y. absurd (other_hash h s db.sessions y fresh g.known), tt);
    })
