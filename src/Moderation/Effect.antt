-- ===== src/Moderation/Effect.antt =====
-- What a change of the rules does to the decisions.
use retiboard.Base.{ℕ, ◌≡◌, arith, not, ◌&&◌, ◌||◌, String, same, List, [], ◌∷◌, any_by}
use retiboard.Moderation.Controls.{Control, set_control, clear_control, has_control}

-- A rule that is set is there, and every other test has the answer that it had.
pub has_control-set_control :
    (now : ℕ) (table : List Control) (scope target_id action reason s t a : String)
    → has_control (set_control now table scope target_id action reason) s t a
      ≡ ((same scope s && same target_id t && same action a) || has_control table s t a)
unfolding has_control set_control any_by
has_control-set_control now [] scope target_id action reason s t a = ground arith
has_control-set_control now (c ∷ table) scope target_id action reason s t a =
    ground (arith, has_control-set_control now table scope target_id action reason s t a)

-- A rule that is cleared is gone, and every other test has the answer that it had.
has_control-clear_control :
    (table : List Control) (scope target_id action s t a : String)
    → has_control (clear_control table scope target_id action) s t a
      ≡ (not (same scope s && same target_id t && same action a) && has_control table s t a)
unfolding has_control clear_control any_by
has_control-clear_control [] scope target_id action s t a = ground arith
has_control-clear_control (c ∷ table) scope target_id action s t a =
    ground (arith, has_control-clear_control table scope target_id action s t a)
