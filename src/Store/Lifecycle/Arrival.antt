-- ===== src/Store/Lifecycle/Arrival.antt =====
-- Posts that arrive one after another, in any order: `insert_post` for each.
use retiboard.Base.{
  ℕ, ◌≡◌, refl, sym, ap, ◌∙◌, arith, false, String, same, List, [], ◌∷◌, ◌++◌, map, append-nil,
  append_assoc, any_by, All, Option, none, some, Option-cases, inl, inr,
}
use mathlib.Core.Path.{fun_ext}
use mathlib.Core.List.{Permᴰ, map-map, map-append}
use mathlib.Core.List.Permᴰ
use retiboard.Store.Models.{PostMetadata}
use retiboard.Store.Lifecycle.{recompute_in, post_exists, insert_post}
use retiboard.Store.Lifecycle.Rows.{
  DistinctIds, DistinctIds-Permᴰ, select_thread-map, select_thread-append,
}
use retiboard.Store.Lifecycle.Settled.{
  lifecycle_of, refresh, settled, settled_row, refresh-settled, settled-Permᴰ,
}

map-refresh-none : (t : String) (table : List PostMetadata) → map (refresh t none) table ≡ table
map-refresh-none t [] = refl
map-refresh-none t (p ∷ table) = ap (◌∷◌ p) (map-refresh-none t table)

none_exist : (ps : List PostMetadata) → All (λ p. post_exists p.post_id [] ≡ false) ps
unfolding post_exists any_by
none_exist [] = tt
none_exist (p ∷ ps) = (refl, none_exist ps)

post_exists-append :
    (t : String) (qs : List PostMetadata) (p : PostMetadata)
    → post_exists t qs ≡ false
    → same p.post_id t ≡ false
    → post_exists t (qs ++ p ∷ []) ≡ false
unfolding post_exists any_by
post_exists-append t [] p h k = ground arith
post_exists-append t (q ∷ qs) p h k = ground (arith, post_exists-append t qs p)

exists-append :
    (qs : List PostMetadata) (p : PostMetadata) (ps : List PostMetadata)
    → All (λ r. post_exists r.post_id qs ≡ false) ps
    → All (λ r. same p.post_id r.post_id ≡ false) ps
    → All (λ r. post_exists r.post_id (qs ++ p ∷ []) ≡ false) ps
exists-append qs p [] h k = tt
exists-append qs p (r ∷ ps) h k =
    (post_exists-append r.post_id qs p h.0 k.0, exists-append qs p ps h.1 k.1)

module _ (start bump : ℕ) where
  -- The posts arrive in the order of the list, on a board with these times.
  abbrev pub insert_all : List PostMetadata → List PostMetadata → Option (List PostMetadata)
  insert_all table [] = some table
  insert_all table (p ∷ ps) = elim (insert_post none table p (some start) (some bump)) [
    | none ↦ none
    | some table' ↦ insert_all table' ps
  ]

  -- Every post is new when it arrives.
  abbrev AllNew : List PostMetadata → List PostMetadata → Type 0
  AllNew seen [] = Unit
  AllNew seen (p ∷ ps) = (post_exists p.post_id seen ≡ false) × AllNew (seen ++ p ∷ []) ps

  -- The recomputation as a change of each row.
  pub recompute_in_lem :
      (t : String) (table : List PostMetadata)
      → recompute_in start bump t table ≡ map (refresh t (lifecycle_of start bump table t)) table
  unfolding recompute_in
  recompute_in_lem t table = elim (Option-cases (lifecycle_of start bump table t)) [
    | inl e ↦ rw (e, recompute_in) (sym (map-refresh-none t table))
    | inr (l, e) ↦ rw (e, recompute_in) refl
  ]

  post_exists-settled :
      (t : String) (qs ps : List PostMetadata)
      → post_exists t (map (settled start bump qs) ps) ≡ post_exists t ps
  unfolding post_exists any_by
  post_exists-settled t qs [] = refl
  post_exists-settled t qs (p ∷ ps) =
      rw (ap (λ r. r.post_id) (settled_row start bump qs p).0, post_exists-settled t qs ps) refl

  -- The rows of a thread in the table are those of the posts as they arrived.
  lifecycle_of-settled :
      (qs : List PostMetadata) (p : PostMetadata) (t : String)
      → lifecycle_of start bump (map (settled start bump qs) qs ++ p ∷ []) t
        ≡ lifecycle_of start bump (qs ++ p ∷ []) t
  lifecycle_of-settled qs p t =
      rw
        (
          select_thread-append t (map (settled start bump qs) qs) (p ∷ []),
          select_thread-map t (settled start bump qs) (settled_row start bump qs) qs,
          select_thread-append t qs (p ∷ []),
        )
        refl

  recompute-settled :
      (qs : List PostMetadata) (p : PostMetadata)
      → recompute_in start bump p.thread_id (map (settled start bump qs) qs ++ p ∷ [])
        ≡ map (settled start bump (qs ++ p ∷ [])) (qs ++ p ∷ [])
  unfolding settled
  recompute-settled qs p =
      let table = map (settled start bump qs) qs in
      let all = qs ++ p ∷ [] in
      let renew = refresh p.thread_id (lifecycle_of start bump all p.thread_id) in
      recompute_in_lem p.thread_id (table ++ p ∷ [])
      ∙ ap (λ o. map (refresh p.thread_id o) (table ++ p ∷ []))
          (lifecycle_of-settled qs p p.thread_id)
      ∙ map-append renew table (p ∷ [])
      ∙ ap (λ ps. ps ++ renew p ∷ []) (map-map renew (settled start bump qs) qs)
      ∙ ap (λ f. map f qs ++ renew p ∷ []) (fun_ext (refresh-settled start bump qs p))
      ∙ sym (map-append (settled start bump all) qs (p ∷ []))

  insert_settled :
      (qs : List PostMetadata) (p : PostMetadata)
      → post_exists p.post_id qs ≡ false
      → insert_post none (map (settled start bump qs) qs) p (some start) (some bump)
        ≡ some (map (settled start bump (qs ++ p ∷ [])) (qs ++ p ∷ []))
  unfolding insert_post
  insert_settled qs p new =
      rw (post_exists-settled p.post_id qs qs, new) (ap some (recompute-settled qs p))

  insert_all-settled :
      (qs ps : List PostMetadata)
      → AllNew qs ps
      → insert_all (map (settled start bump qs) qs) ps
        ≡ some (map (settled start bump (qs ++ ps)) (qs ++ ps))
  insert_all-settled qs [] h = rw append-nil refl
  insert_all-settled qs (p ∷ ps) h =
      rw (insert_settled qs p h.0, insert_all, ← append_assoc qs (p ∷ []) ps)
        (insert_all-settled (qs ++ p ∷ []) ps h.1)

  AllNew-Distinct :
      (qs ps : List PostMetadata)
      → All (λ p. post_exists p.post_id qs ≡ false) ps
      → DistinctIds ps
      → AllNew qs ps
  AllNew-Distinct qs [] h d = tt
  AllNew-Distinct qs (p ∷ ps) h d =
      (h.0, AllNew-Distinct (qs ++ p ∷ []) ps (exists-append qs p ps h.1 d.0) d.1)

  -- However the posts arrive, the table ends with one row for each, in the order of their arrival:
  -- the post as it came, with the last activity and the expiry that a replay of all the posts of its
  -- thread gives, or untouched where the first post of its thread is missing.
  pub insert_all_lem :
      (ps : List PostMetadata)
      → DistinctIds ps
      → insert_all [] ps ≡ some (map (settled start bump ps) ps)
  insert_all_lem ps distinct =
      insert_all-settled [] ps (AllNew-Distinct [] ps (none_exist ps) distinct)

  -- Posts with different identifiers give the same rows in whatever order they arrive: the tables
  -- that two orders of arrival end with differ only in the order of their rows.
  pub insert_all-Permᴰ :
      {ps qs : List PostMetadata}
      → Permᴰ ps qs
      → DistinctIds ps
      → (a : List PostMetadata) × (b : List PostMetadata) × (insert_all [] ps ≡ some a)
        × (insert_all [] qs ≡ some b)
        × Permᴰ a b
  insert_all-Permᴰ {ps} {qs} perm distinct = (
    map (settled start bump ps) ps,
    map (settled start bump qs) qs,
    insert_all_lem ps distinct,
    insert_all_lem qs (DistinctIds-Permᴰ perm distinct),
    rw (← settled-Permᴰ start bump perm distinct) (Permᴰ.map (settled start bump ps) perm),
  )
