-- ===== src/Purge/Bans.antt =====
-- Bans of an identity, and the log by which they are lifted again: `purge_identity` of
-- retiboard/moderation/purge.py, and the moderation log of retiboard/db/database.py.
use retiboard.Base.{
  ℕ, ltb, ◌==◌, if◌then◌else◌, true, false, ◌&&◌, ◌||◌, String, same, List, [], ◌∷◌, ◌++◌, map,
  length, filter_by, any_by, Option, none, some, text_key,
}
use retiboard.Base.Sets.{contains, add}
use retiboard.Base.Sort.{sort_by}
use retiboard.Store.Models.{PostMetadata, is_op}
use retiboard.Moderation.Controls.{
  Control, clear_control, thread_scope, post_scope, purge, scope_text, action_text,
}
use retiboard.Purge.{
  ActionTarget, PurgeState, PurgeResult, empty_result, combined, purge_thread, purge_post,
}

-- `INSERT OR IGNORE`
unfoldable pub record_moderation_target :
    PurgeState → (action_id : ℕ) → (target_scope target_id : String) → PurgeState
record_moderation_target s action_id target_scope target_id =
    if any_by
      (λ t.
        t.action_id == action_id && same t.target_scope target_scope && same t.target_id target_id)
      s.targets
    then s
    else record s {
      targets =
          s.targets
          ++ record { action_id = action_id; target_scope = target_scope; target_id = target_id }
            ∷ [];
    }

-- The threads that some posts open, each once.
unfoldable pub opened_threads : List PostMetadata → List String → List String
opened_threads [] threads = threads
opened_threads (p ∷ posts) threads =
    opened_threads posts (if is_op p then add p.thread_id threads else threads)

module _ (now : ℕ) (reason : String) where
  unfoldable pub create_moderation_action :
      PurgeState → (id : ℕ) → (action_kind target_id : String) → PurgeState
  create_moderation_action s id action_kind target_id = record s {
    actions =
        s.actions
        ++ record {
          id = id;
          action_kind = action_kind;
          target_id = target_id;
          created_at = now;
          reason = reason;
          is_active = true;
          reversed_at = none;
        }
          ∷ [];
  }

  -- The first pass: the threads that the identity has opened.
  unfoldable pub purge_threads :
      PurgeState → (action_id : ℕ) → List String → PurgeResult → PurgeState × PurgeResult
  unfolding combined purge_thread record_moderation_target
  purge_threads s action_id [] result = (s, result)
  purge_threads s action_id (t ∷ threads) result =
      let (s', r) = purge_thread now reason s t in
      purge_threads (record_moderation_target s' action_id "thread" t) action_id threads
        (combined result r)

  -- The second pass: its posts in other threads, each once.
  unfoldable pub purge_posts :
      PurgeState
      → (action_id : ℕ) → (purged_threads purged_posts : List String) → List PostMetadata
      → PurgeResult
      → PurgeState × PurgeResult
  unfolding combined purge_post record_moderation_target
  purge_posts s action_id purged_threads purged_posts [] result = (s, result)
  purge_posts s action_id purged_threads purged_posts (p ∷ posts) result =
      let skipped = purge_posts s action_id purged_threads purged_posts posts result in
      let (s', r) = purge_post now reason s p.post_id in
      let rest =
        purge_posts (record_moderation_target s' action_id "post" p.post_id) action_id
          purged_threads (p.post_id ∷ purged_posts) posts (combined result r) in
      if contains p.thread_id purged_threads || contains p.post_id purged_posts
      then skipped
      else rest

  -- `action_id` is the number that the table gives the new action.
  unfoldable pub purge_identity :
      PurgeState → (action_id : ℕ) → (identity_hash : String) → PurgeState × PurgeResult
  unfolding create_moderation_action opened_threads purge_threads purge_posts
  purge_identity s action_id identity_hash =
      let posts = filter_by (λ p. same p.identity_hash identity_hash) s.board.posts in
      let logged = create_moderation_action s action_id "identity_ban" identity_hash in
      let threads = opened_threads posts [] in
      let (first, r) =
        purge_threads logged action_id threads (empty_result "identity" identity_hash) in
      purge_posts first action_id threads [] posts r

-- The rules that an action has set are lifted, one statement for each of its targets.
unfoldable pub lift_targets : List Control → List ActionTarget → List Control
lift_targets table [] = table
lift_targets table (t ∷ targets) =
    let scope =
      if same t.target_scope "thread" then scope_text thread_scope else scope_text post_scope in
    lift_targets (clear_control table scope t.target_id (action_text purge)) targets

unfoldable pub reverse_moderation_action : (now : ℕ) → PurgeState → (action_id : ℕ) → PurgeState × ℕ
unfolding lift_targets
reverse_moderation_action now s action_id =
    let targets = filter_by (λ t. t.action_id == action_id) s.targets in
    (
      record s {
        board = record s.board { content_control = lift_targets s.board.content_control targets };
        actions =
            map
              (λ a.
                if a.id == action_id
                then record a { is_active = false; reversed_at = some now }
                else a)
              s.actions;
      },
      length targets,
    )

-- `ORDER BY created_at DESC LIMIT 1`
unfoldable pub get_active_moderation_action :
    PurgeState → (action_kind target_id : String) → Option ℕ
get_active_moderation_action s action_kind target_id =
    elim (sort_by (λ a b. ltb b.created_at a.created_at)
      (filter_by (λ a. same a.action_kind action_kind && same a.target_id target_id && a.is_active)
        s.actions)) [ [] ↦ none | a ∷ _ ↦ some a.id ]
