-- ===== src/Moderation/Controls.antt =====
-- The rules of the table `content_control`, and the statements that write and read it.
use retiboard.Base.{ℕ, if◌then◌else◌, Bool, true, false, ◌&&◌, String, same, List, [], ◌∷◌, any_by}

pub data Scope : Type 0 where
  identity_scope thread_scope post_scope attachment_scope : Scope

pub data Action : Type 0 where
  block hide purge : Action

-- The texts that stand for a scope and for an action in the table.
abbrev pub scope_text : Scope → String
scope_text identity_scope = "identity"
scope_text thread_scope = "thread"
scope_text post_scope = "post"
scope_text attachment_scope = "attachment"

abbrev pub action_text : Action → String
action_text block = "block"
action_text hide = "hide"
action_text purge = "purge"

pub record Control : Type 0 where
  pub scope : String
  pub target_id : String
  pub action : String
  pub created_at : ℕ
  pub reason : String
  pub is_active : Bool

-- The condition of the statements, which also is what the table's unique index compares.
abbrev pub is_for : (scope target_id action : String) → Control → Bool
is_for scope target_id action c =
    same c.scope scope && same c.target_id target_id && same c.action action

-- `INSERT … ON CONFLICT … DO UPDATE`
unfoldable pub set_control :
    ℕ → List Control → (scope target_id action reason : String) → List Control
set_control now [] scope target_id action reason =
    record {
      scope = scope;
      target_id = target_id;
      action = action;
      created_at = now;
      reason = reason;
      is_active = true;
    }
    ∷ []
set_control now (c ∷ table) scope target_id action reason =
    if is_for scope target_id action c
    then record c { created_at = now; reason = reason; is_active = true } ∷ table
    else c ∷ set_control now table scope target_id action reason

-- `UPDATE … SET is_active = 0`
unfoldable pub clear_control : List Control → (scope target_id action : String) → List Control
clear_control [] scope target_id action = []
clear_control (c ∷ table) scope target_id action =
    (if is_for scope target_id action c then record c { is_active = false } else c)
    ∷ clear_control table scope target_id action

unfoldable pub has_control : List Control → (scope target_id action : String) → Bool
has_control table scope target_id action =
    any_by (λ c. is_for scope target_id action c && c.is_active) table

module _ (now : ℕ) (table : List Control) where
  unfoldable pub hide_thread : (thread_id reason : String) → List Control
  hide_thread thread_id reason =
      set_control now table (scope_text thread_scope) thread_id (action_text hide) reason

  unfoldable pub hide_post : (post_id reason : String) → List Control
  hide_post post_id reason =
      set_control now table (scope_text post_scope) post_id (action_text hide) reason

  unfoldable pub mark_post_purged : (post_id reason : String) → List Control
  mark_post_purged post_id reason =
      set_control now table (scope_text post_scope) post_id (action_text purge) reason

  unfoldable pub mark_thread_purged : (thread_id reason : String) → List Control
  mark_thread_purged thread_id reason =
      set_control now table (scope_text thread_scope) thread_id (action_text purge) reason

unfoldable pub unhide_thread : List Control → String → List Control
unhide_thread table thread_id =
    clear_control table (scope_text thread_scope) thread_id (action_text hide)

unfoldable pub unhide_post : List Control → String → List Control
unhide_post table post_id = clear_control table (scope_text post_scope) post_id (action_text hide)
