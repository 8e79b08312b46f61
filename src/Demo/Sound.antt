-- ===== src/Demo/Sound.antt =====
-- backend/app/demo/playback.py: what each UPDATE and INSERT of `demo_playback` keeps.
use esafe.Prelude.{
  ◌≤◌, Bool, false, not, ◌≡◌, subst, some, List, [], ◌∷◌, ◌++◌, arith, ok, inl, inr, Bool-cases,
  ltb, ◌==◌, length, filter, exists, select, update, All, All-append, All-update, All-select,
  All-update_found, Unique, Unique-append, Unique-update, Outcome-cases,
}
use esafe.Demo.Rows.{
  Playback, Scenario, is_live, check_playback, has_playback_id, write_playbacks, insert_playback,
  is_scenario,
}
use esafe.Demo.Commands.{assign, insert}

-- A playback has counted no more steps than its scenario has.
abbrev pub IsBounded : List Scenario → Playback → Type 0
IsBounded scenarios p =
    (s : Scenario)
    → select (is_scenario p.demo_scenario_id) scenarios ≡ some s
    → p.current_step ≤ s.step_count

pub record Sound (scenarios : List Scenario) (ps : List Playback) : Type 0 where
  pub keys : Unique (λ p. p.demo_playback_id) ps
  pub bounds : All (IsBounded scenarios) ps
  pub rows : exists (λ p. not (check_playback p)) ps ≡ false
  pub one : ltb 1 (length (filter is_live ps)) ≡ false

write-Sound :
    (scenarios : List Scenario) (ps rows : List Playback)
    → write_playbacks ps ≡ ok rows
    → Unique (λ p. p.demo_playback_id) ps
    → All (IsBounded scenarios) ps
    → Sound scenarios rows
unfolding write_playbacks
write-Sound scenarios ps rows h keys bounds =
    let checked : exists (λ p. not (check_playback p)) ps ≡ false = ground arith in
    let single : ltb 1 (length (filter is_live ps)) ≡ false = ground arith in
    let same : ps ≡ rows = ground arith in
    subst (Sound scenarios) same
      (record { keys = keys; bounds = bounds; rows = checked; one = single })

pub assigned :
    (p : Playback) (f : Playback → Playback) (ps rows : List Playback) (row : Playback)
    → assign p f ps ≡ ok (rows, row)
    → (write_playbacks (update (has_playback_id p.demo_playback_id) f ps) ≡ ok rows) × (row ≡ f p)
unfolding assign
assigned p f ps rows row h =
    elim (Outcome-cases (write_playbacks (update (has_playback_id p.demo_playback_id) f ps))) [
      | inl (out, e) ↦ ground arith
      | inr (x, e) ↦ ground arith
    ]

pub assign-Sound :
    (scenarios : List Scenario) (p : Playback) (f : Playback → Playback) (ps rows : List Playback)
    (row : Playback)
    → ((v : Playback) → (f v).demo_playback_id ≡ v.demo_playback_id)
    → ((v : Playback) → IsBounded scenarios v → IsBounded scenarios (f v))
    → assign p f ps ≡ ok (rows, row)
    → Sound scenarios ps
    → Sound scenarios rows
assign-Sound scenarios p f ps rows row same step h s =
    write-Sound scenarios _ rows (assigned p f ps rows row h).0
      (Unique-update (λ p. p.demo_playback_id) (has_playback_id p.demo_playback_id) f ps same
        s.keys)
      (All-update (IsBounded scenarios) (IsBounded scenarios) (has_playback_id p.demo_playback_id) f
        ps (λ v b y. step v b) (λ v b n. b) s.bounds)

-- The row that a condition finds is the row under its key.
pub select-key :
    (q : Playback → Bool) (ps : List Playback) (p : Playback)
    → Unique (λ p. p.demo_playback_id) ps
    → select q ps ≡ some p
    → select (has_playback_id p.demo_playback_id) ps ≡ some p
unfolding select
select-key q [] p keys h = absurd (cc)
select-key q (x ∷ xs) p keys h = elim (Bool-cases (q x)) [
  | inl y ↦ ground arith
  | inr n ↦
      let there : select q xs ≡ some p = ground arith in
      let apart : (p.demo_playback_id == x.demo_playback_id) ≡ false =
        All-select (λ y. (y.demo_playback_id == x.demo_playback_id) ≡ false) q xs p keys.0 there in
      let rest = select-key q xs p keys.1 there in ground arith
]

-- An assignment to one row that is known.
pub assign-Sound_found :
    (scenarios : List Scenario) (p : Playback) (f : Playback → Playback) (ps rows : List Playback)
    (row : Playback)
    → ((v : Playback) → (f v).demo_playback_id ≡ v.demo_playback_id)
    → IsBounded scenarios (f p)
    → select (has_playback_id p.demo_playback_id) ps ≡ some p
    → assign p f ps ≡ ok (rows, row)
    → Sound scenarios ps
    → Sound scenarios rows
assign-Sound_found scenarios p f ps rows row same step found h s =
    write-Sound scenarios _ rows (assigned p f ps rows row h).0
      (Unique-update (λ p. p.demo_playback_id) (has_playback_id p.demo_playback_id) f ps same
        s.keys)
      (All-update_found (λ p. p.demo_playback_id) (IsBounded scenarios) (IsBounded scenarios)
        p.demo_playback_id f ps p s.keys found (λ b. step) (λ v b. b) s.bounds)

inserted :
    (p : Playback) (ps rows : List Playback) (row : Playback)
    → insert p ps ≡ ok (rows, row)
    → (exists (has_playback_id p.demo_playback_id) ps ≡ false)
      × (write_playbacks (ps ++ p ∷ []) ≡ ok rows)
unfolding insert insert_playback
inserted p ps rows row h = elim (Outcome-cases (write_playbacks (ps ++ p ∷ []))) [
  | inl (out, e) ↦ ground arith
  | inr (x, e) ↦ ground arith
]

pub insert-Sound :
    (scenarios : List Scenario) (p : Playback) (ps rows : List Playback) (row : Playback)
    → p.current_step ≡ 0
    → insert p ps ≡ ok (rows, row)
    → Sound scenarios ps
    → Sound scenarios rows
insert-Sound scenarios p ps rows row zero_step h s =
    let (fresh, written) = inserted p ps rows row h in
    write-Sound scenarios _ rows written (Unique-append (λ p. p.demo_playback_id) ps p s.keys fresh)
      (All-append (IsBounded scenarios) ps (p ∷ []) s.bounds ((λ t e. omega arith), tt))
