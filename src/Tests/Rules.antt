-- ===== src/Tests/Rules.antt =====
-- A board with one thread of two posts.
use mathlib.Core.List.{Permᴰ}
use retiboard.Base.Sort.{IsSorted}
use retiboard.Base.{
  filter_by, ltb, text_key, text_discrete, ℕ, ◌+◌, ◌≡◌, ◌≢◌, true, false, not, ◌&&◌, String, same,
  List, [], ◌∷◌, take, some,
}
use retiboard.Moderation.Controls.{Control, set_control, mark_thread_purged}
use retiboard.Store.Models.{PostMetadata}
use retiboard.Moderation.Policy.{should_replicate_post, should_serve_blob}
use retiboard.Moderation.Withheld.{refers_to_thread, mark_thread_purged-Withheld}
use retiboard.Gossip.Have.{CatalogThread, RemoteThread, compare_have_to_local}
use retiboard.Gossip.Have.Requests.{all_wanted, compare_have_to_local_lem}
use retiboard.Gossip.Delta.{build_delta_response}
use retiboard.Gossip.Delta.Batch.{Batched, is_wanted, build_delta_response_lem}

abbrev first : PostMetadata
first = record {
  post_id = "1";
  thread_id = "t";
  parent_id = "";
  timestamp = 10;
  expiry_timestamp = 100;
  bump_flag = true;
  content_hash = "c1";
  payload_size = 64;
  attachment_content_hash = "";
  attachment_payload_size = 0;
  has_attachments = false;
  attachment_count = 0;
  text_only = true;
  identity_hash = "someone";
  pow_nonce = "";
  public_key = "";
  encrypted_pings = [];
  edit_signature = "";
  thread_last_activity = 10;
  is_abandoned = false;
}

abbrev posts : List PostMetadata
posts = first ∷ record first { post_id = "2"; timestamp = 20; content_hash = "c2" } ∷ []

abbrev rules : List Control
rules = set_control 5 [] "identity" "other" "block" ""

named : ◌≢◌ {A = String} "t" ""
unfolding text_discrete
named = λ e. cc

mark_thread_purged-Withheld_example :
    ((should_replicate_post (mark_thread_purged 9 rules "t" "") first).allowed
      ≡ (not (same "t" "t") && (should_replicate_post rules first).allowed))
    × ((should_serve_blob (mark_thread_purged 9 rules "t" "") posts "c1").allowed
        ≡ (not (refers_to_thread posts "c1" "t") && (should_serve_blob rules posts "c1").allowed))
mark_thread_purged-Withheld_example =
    mark_thread_purged-Withheld 9 rules posts "t" "" "c1" first named

abbrev catalog : List CatalogThread
catalog =
    record { thread_id = "t"; latest_post_timestamp = 20; post_count = 2; op = some first } ∷ []

abbrev packet : List RemoteThread
packet =
    record { thread_id = "t"; latest_post_timestamp = 20; post_count = 3 }
    ∷ record { thread_id = "u"; latest_post_timestamp = 5; post_count = 1 }
    ∷ []

compare_have_to_local_lem_example :
    compare_have_to_local rules catalog packet ≡ take 50 (all_wanted rules catalog packet)
compare_have_to_local_lem_example = compare_have_to_local_lem rules catalog packet

abbrev record_size : PostMetadata → ℕ
record_size p = 400 + p.timestamp

build_delta_response_lem_example :
    (wanted : List PostMetadata) × Permᴰ wanted
      (filter_by (is_wanted record_size rules "t" 10) posts)
    × IsSorted (λ p q. ltb p.timestamp q.timestamp) wanted
    × Batched record_size rules wanted (build_delta_response record_size rules true posts "t" 10)
build_delta_response_lem_example = build_delta_response_lem record_size rules posts "t" 10
