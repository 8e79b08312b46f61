-- ===== src/Demo/Rewinding.antt =====
-- backend/app/demo/playback.py: a reset keeps the playbacks sound.
use esafe.Prelude.{
  ℕ, Bool, subst, arith, false, not, ◌≡◌, refl, Option, none, ok, select, raise_if-ok, bind-ok,
}
use esafe.Demo.Rows.{reset, Answer, Demo, is_live, is_scenario, require}
use esafe.Demo.Commands.{Ask, log}
use esafe.Demo.Resetting.{reset_scenario, replace, rewind, target_of, check_known, check_active}
use esafe.Demo.Effects.{Keeps, once-Keeps, logged, replace-Sound, rewind-Sound}

pub reset_scenario-Keeps :
    (ask : Ask) (expected active_expected : Option ℕ) (confirmed : Bool) (db db' : Demo)
    (out : Answer)
    → reset_scenario ask expected active_expected confirmed db ≡ ok (db', out)
    → Keeps db db'
unfolding reset_scenario
reset_scenario-Keeps ask expected active_expected confirmed db db' out h =
    let (sure, h1) = raise_if-ok (not confirmed) _ _ h in
    once-Keeps ask.idempotency_key (λ a. a) db db' _ out h1
      λ e.
        let (s, found, e1) =
          bind-ok (require (select (is_scenario ask.scenario_id) db.scenarios) _) _ e in
        let target = target_of ask.scenario_id (select is_live db.playbacks) db.playbacks in
        let (u, e2, e3) = bind-ok (check_known target expected) _ e1 in
        let (v, e4, e5) =
          bind-ok
            (check_active ask.scenario_id (select is_live db.playbacks) expected active_expected) _
            e3 in
        let ((left, former), gave, e6) =
          bind-ok (replace ask (select is_live db.playbacks) db.playbacks) _ e5 in
        let ((rows, row), wound, e7) = bind-ok (rewind ask target left) _ e6 in
        let ((mid, answer), e8, e9) =
          bind-ok
            (log ask reset none _ row.demo_playback_id
              (record db { playbacks = rows; simulated = false }))
            _ e7 in
        let same : mid ≡ db' = ground arith in
        subst (Keeps db) same (
          logged ask reset none _ row.demo_playback_id db
            (record db { playbacks = rows; simulated = false }) mid answer refl refl
            (λ sound. rewind-Sound db.scenarios ask target left rows row wound (
              replace-Sound db.scenarios ask (select is_live db.playbacks) db.playbacks left former
                gave sound))
            e8)
