-- ===== src/Gossip/Delta/Batch.antt =====
-- What a batch holds, and when it says that there is more.
use retiboard.Base.{
  Bool, not, ◌&&◌, same, filter_by_twice, ℕ, ◌+◌, ◌≤◌, ◌<◌, ◌≡◌, refl, inl, inr, ◌⊎◌, arith, ltb,
  leb, Bool-cases, true, false, String, List, [], ◌∷◌, sym, subst, ◌++◌, append-nil, append_assoc,
  length, length-append, filter_by, sum_by, sum_by-append,
}
use mathlib.Core.List.{Permᴰ}
use retiboard.Base.Sort.{IsSorted, sort_by-IsSorted}
use retiboard.Base.Sort.Perm.{sort_by-perm}
use retiboard.Base.Sort.Filtered.{filter_by-perm, filter_by-IsSorted}
use retiboard.Gossip.Delta.{
  delta_max_records, delta_max_bytes, DeltaResponse, newer_posts, batch_from, build_delta_response,
}
use retiboard.Moderation.Controls.{Control}
use retiboard.Store.Models.{PostMetadata}
use retiboard.Moderation.Policy.{should_replicate_post}

module _ (record_size : PostMetadata → ℕ) (db : List Control) where
  abbrev shareable : List PostMetadata → List PostMetadata
  shareable = filter_by (λ p. (should_replicate_post db p).allowed)

  -- The batch is the first part of `wanted`, within both limits; what is left begins with a post
  -- that did not fit, and there is something left exactly if the answer says so.
  abbrev pub Batched : List PostMetadata → DeltaResponse → Type 0
  Batched wanted answer =
      (length answer.metadata ≤ delta_max_records)
      × (sum_by record_size answer.metadata ≤ delta_max_bytes)
      × (((answer.more ≡ false) × (answer.metadata ≡ wanted))
          ⊎ ((answer.more ≡ true)
              × (next : PostMetadata) × (rest : List PostMetadata) × (answer.metadata ++ next ∷ rest
                  ≡ wanted)
              × ((length answer.metadata ≡ delta_max_records)
                  ⊎ (delta_max_bytes < sum_by record_size answer.metadata + record_size next))))

  batch_from-Batched :
      (rows metadata_list : List PostMetadata) (total_bytes : ℕ)
      → length metadata_list ≤ delta_max_records
      → sum_by record_size metadata_list ≡ total_bytes
      → total_bytes ≤ delta_max_bytes
      → Batched
          (metadata_list ++ shareable rows)
          (batch_from record_size db rows metadata_list total_bytes)
  unfolding batch_from filter_by sum_by
  batch_from-Batched [] acc total few sum small =
      (few, omega (arith, sum, small), inl (refl, sym (append-nil acc)))
  batch_from-Batched (post ∷ rows) acc total few sum small =
      elim (Bool-cases (should_replicate_post db post).allowed) [
        | inr e ↦ rw (e, batch_from, filter_by) (batch_from-Batched rows acc total few sum small)
        | inl e ↦ elim (Bool-cases (leb delta_max_records (length acc))) [
          | inl full ↦
              rw (e, batch_from, filter_by, full)
                (
                  few,
                  omega (arith, sum, small),
                  inr (refl, post, shareable rows, refl, inl (ground arith)),
                )
          | inr room ↦ elim (Bool-cases (ltb delta_max_bytes (total + record_size post))) [
            | inl big ↦
                rw (e, batch_from, filter_by, room, big)
                  (
                    few,
                    omega (arith, sum, small),
                    inr (refl, post, shareable rows, refl, inr (ground (arith, sum))),
                  )
            | inr fits ↦
                rw (e, batch_from, filter_by, room, fits)
                  (subst
                    (λ w. Batched w (
                      batch_from record_size db rows (acc ++ post ∷ []) (total + record_size post)))
                    (append_assoc acc (post ∷ []) (shareable rows))
                    (batch_from-Batched rows (acc ++ post ∷ []) (total + record_size post)
                      (ground (arith, length-append acc (post ∷ [])))
                      (ground (arith, sum, sum_by-append record_size acc (post ∷ [])))
                      (ground arith)))
          ]
        ]
      ]

  -- The rows of the thread from after the time on that are not abandoned and may be replicated.
  abbrev pub is_wanted : (thread_id : String) (since_timestamp : ℕ) → PostMetadata → Bool
  is_wanted thread_id since_timestamp p =
      (should_replicate_post db p).allowed
      && (same p.thread_id thread_id && ltb since_timestamp p.timestamp && not p.is_abandoned)

  -- The answer for a board that is subscribed: take the posts of the thread that are newer than the
  -- time, not abandoned and may be replicated, in an order in which none stands
  -- after a newer one. The answer is a first part of them of at most 50 posts and at most 16 KB of
  -- their records. Either it is all of them and does not say that there is more, or it says so, one is
  -- left, and the limit on the number is reached or the next post would exceed the other limit.
  pub build_delta_response_lem :
      (posts : List PostMetadata) (thread_id : String) (since_timestamp : ℕ)
      → (wanted : List PostMetadata) × Permᴰ wanted
          (filter_by (is_wanted thread_id since_timestamp) posts)
        × IsSorted (λ p q. ltb p.timestamp q.timestamp) wanted
        × Batched wanted (build_delta_response record_size db true posts thread_id since_timestamp)
  unfolding build_delta_response sum_by newer_posts
  build_delta_response_lem posts thread_id since_timestamp =
      let newer = λ (p : PostMetadata).
        same p.thread_id thread_id && ltb since_timestamp p.timestamp && not p.is_abandoned in
      let older = λ (p : PostMetadata) (q : PostMetadata). ltb p.timestamp q.timestamp in
      (
        shareable (newer_posts posts thread_id since_timestamp),
        subst (λ w. Permᴰ (shareable (newer_posts posts thread_id since_timestamp)) w)
            (filter_by_twice (λ p. (should_replicate_post db p).allowed) newer posts)
            (filter_by-perm (λ p. (should_replicate_post db p).allowed)
              (sort_by-perm older (filter_by newer posts))),
        filter_by-IsSorted older (λ x y z h k. ground arith)
            (λ p. (should_replicate_post db p).allowed)
            (newer_posts posts thread_id since_timestamp)
            (sort_by-IsSorted older (λ x y h. ground arith) (filter_by newer posts)),
        batch_from-Batched (newer_posts posts thread_id since_timestamp) [] 0 (omega arith) refl
            (omega arith),
      )
