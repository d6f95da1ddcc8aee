-- ===== src/Gossip/Have/Requests.antt =====
-- The requests of `compare_have_to_local`, and those that it would make without its limit.
use retiboard.Base.{
  Option, ltb, same, ◌&&◌, Bool, sym, subst, ap, text_key, ℕ, zero, suc, ◌≤◌, ◌<◌, ◌≡◌, refl, inl,
  inr, arith, leb, if◌then◌else◌, Bool-cases, Option-cases, false, truthy, String, List, [], ◌∷◌,
  ◌++◌, append-nil, append_assoc, length, length-append, take, none, some,
}
use retiboard.Base.Dict.{Dict, lookup, insert, lookup-insert}
use retiboard.Moderation.Policy.{should_replicate_post}
use retiboard.Gossip.Have.{
  max_delta_batch_size, CatalogThread, ThreadState, RemoteThread, StaleThread, local_map_from,
  is_shared, stale_thread, compare_from, compare_have_to_local,
}
use retiboard.Moderation.Controls.{Control}

-- Without the limit.
abbrev all_stale : Dict String ThreadState → List RemoteThread → List StaleThread
all_stale local_map [] = []
all_stale local_map (r ∷ rs) =
    let rest = all_stale local_map rs in
    if truthy r.thread_id
    then (elim (stale_thread local_map r) [ none ↦ rest | some t ↦ t ∷ rest ])
    else rest

take_short {ℓ} : {A : Type ℓ} (n : ℕ) (xs : List A) → length xs ≤ n → take n xs ≡ xs
take_short zero [] h = refl
take_short zero (x ∷ xs) h = absurd (omega arith)
take_short (suc n) [] h = refl
take_short (suc n) (x ∷ xs) h = ap (◌∷◌ x) (take_short n xs (omega arith))

take_front {ℓ} : {A : Type ℓ} (n : ℕ) (xs ys : List A) → length xs ≡ n → take n (xs ++ ys) ≡ xs
take_front zero [] ys h = refl
take_front zero (x ∷ xs) ys h = absurd (omega arith)
take_front (suc n) [] ys h = absurd (omega arith)
take_front (suc n) (x ∷ xs) ys h = ap (◌∷◌ x) (take_front n xs ys (omega arith))

compare_from-take :
    (local_map : Dict String ThreadState) (rs : List RemoteThread) (acc : List StaleThread)
    → length acc < max_delta_batch_size
    → compare_from local_map rs acc ≡ take max_delta_batch_size (acc ++ all_stale local_map rs)
unfolding compare_from
compare_from-take local_map [] acc room =
    rw (append-nil acc) (sym (take_short max_delta_batch_size acc (omega arith)))
compare_from-take local_map (r ∷ rs) acc room = elim (Bool-cases (truthy r.thread_id)) [
  | inr skip ↦ rw (skip, compare_from) (compare_from-take local_map rs acc room)
  | inl named ↦ elim (Option-cases (stale_thread local_map r)) [
    | inl e ↦
        rw (named, e, compare_from)
          (let open_end : leb max_delta_batch_size (length acc) ≡ false = ground arith in
            rw open_end (compare_from-take local_map rs acc room))
    | inr (t, e) ↦ elim (Bool-cases (leb max_delta_batch_size (length (acc ++ t ∷ [])))) [
      | inl full ↦
          rw (named, e, compare_from, full)
            (sym (
              subst (λ w. take max_delta_batch_size w ≡ acc ++ t ∷ [])
                (append_assoc acc (t ∷ []) (all_stale local_map rs))
                (take_front max_delta_batch_size (acc ++ t ∷ []) (all_stale local_map rs)
                  (ground (arith, length-append acc (t ∷ []))))))
      | inr open_end ↦
          rw (named, e, compare_from, open_end)
            (subst (λ w. compare_from local_map rs (acc ++ t ∷ []) ≡ take max_delta_batch_size w)
              (append_assoc acc (t ∷ []) (all_stale local_map rs))
              (compare_from-take local_map rs (acc ++ t ∷ []) (ground arith)))
    ]
  ]
]

module _ (db : List Control) where
  abbrev pub shared : CatalogThread → Bool
  shared t = elim t.op [ none ↦ false | some op ↦ (should_replicate_post db op).allowed ]

  -- The last entry of the catalogue for a thread, of those whose opening post is stored and may be
  -- replicated.
  abbrev pub own_thread : List CatalogThread → String → Option CatalogThread
  own_thread [] thread_id = none
  own_thread (t ∷ ts) thread_id = elim (own_thread ts thread_id) [
    | some later ↦ some later
    | none ↦ if same t.thread_id thread_id && shared t then some t else none
  ]

  -- What is asked for a thread of the packet: all of it, if it is not had; what is newer, if the packet
  -- has later posts; all of it again, if it has no later but more posts; and else nothing.
  abbrev pub wanted : Option CatalogThread → RemoteThread → Option StaleThread
  wanted none r =
      some (record { thread_id = r.thread_id; since_timestamp = 0; known_post_count = 0 })
  wanted (some own) r =
      let ask = λ (since : ℕ). some (record {
        thread_id = r.thread_id;
        since_timestamp = since;
        known_post_count = own.post_count;
      }) in
      if ltb own.latest_post_timestamp r.latest_post_timestamp
      then ask own.latest_post_timestamp
      else if ltb own.post_count r.post_count
      then ask 0
      else none

  abbrev pub all_wanted : List CatalogThread → List RemoteThread → List StaleThread
  all_wanted catalog [] = []
  all_wanted catalog (r ∷ rs) =
      let rest = all_wanted catalog rs in
      if truthy r.thread_id
      then (elim (wanted (own_thread catalog r.thread_id) r) [ none ↦ rest | some t ↦ t ∷ rest ])
      else rest

  abbrev state_of : Option CatalogThread → Option ThreadState → Option ThreadState
  state_of none before = before
  state_of (some t) before =
      some (record { latest_post_timestamp = t.latest_post_timestamp; post_count = t.post_count })

  is_shared-eq : (t : CatalogThread) → is_shared db t ≡ shared t
  unfolding is_shared
  is_shared-eq t = refl

  lookup-local_map_from :
      (thread_id : String) (catalog : List CatalogThread) (local_map : Dict String ThreadState)
      → lookup thread_id (local_map_from db catalog local_map)
        ≡ state_of (own_thread catalog thread_id) (lookup thread_id local_map)
  unfolding local_map_from is_shared
  lookup-local_map_from thread_id [] local_map = refl
  lookup-local_map_from thread_id (t ∷ ts) local_map =
      let own : ThreadState = record {
        latest_post_timestamp = t.latest_post_timestamp;
        post_count = t.post_count;
      } in
      elim (Bool-cases (is_shared db t)) [
        | inr e ↦ elim (Option-cases (own_thread ts thread_id)) [
          | inl f ↦
              rw (e, lookup-local_map_from thread_id ts local_map, f)
                (ground (arith, is_shared-eq t))
          | inr (later, f) ↦ rw (e, lookup-local_map_from thread_id ts local_map, f) refl
        ]
        | inl e ↦ elim (Option-cases (own_thread ts thread_id)) [
          | inl f ↦
              rw (e, lookup-local_map_from thread_id ts (insert t.thread_id own local_map), f)
                (ground (arith, is_shared-eq t, lookup-insert t.thread_id thread_id own local_map))
          | inr (later, f) ↦
              rw (e, lookup-local_map_from thread_id ts (insert t.thread_id own local_map), f) refl
        ]
      ]

  stale_thread-eq :
      (catalog : List CatalogThread) (r : RemoteThread)
      → stale_thread (local_map_from db catalog []) r ≡ wanted (own_thread catalog r.thread_id) r
  unfolding stale_thread lookup
  stale_thread-eq catalog r = elim (Option-cases (own_thread catalog r.thread_id)) [
    | inl e ↦ rw (stale_thread, lookup-local_map_from r.thread_id catalog [], e) refl
    | inr (own, e) ↦
        rw (stale_thread, lookup-local_map_from r.thread_id catalog [], e) (ground arith)
  ]

  all_stale-eq :
      (catalog : List CatalogThread) (rs : List RemoteThread)
      → all_stale (local_map_from db catalog []) rs ≡ all_wanted catalog rs
  all_stale-eq catalog [] = refl
  all_stale-eq catalog (r ∷ rs) = elim (Bool-cases (truthy r.thread_id)) [
    | inr e ↦ rw e (all_stale-eq catalog rs)
    | inl e ↦ elim (Option-cases (wanted (own_thread catalog r.thread_id) r)) [
      | inl f ↦ rw (e, stale_thread-eq catalog r, f) (all_stale-eq catalog rs)
      | inr (t, f) ↦ rw (e, stale_thread-eq catalog r, f) (ap (◌∷◌ t) (all_stale-eq catalog rs))
    ]
  ]

  -- The comparison asks for the first fifty threads of the packet, in its order, that have an
  -- identifier and for which there is something to ask: everything from the start, where the thread
  -- has no entry with a shared opening post in the catalogue; what is newer than the entry's latest
  -- post, where the packet's is later; everything again, where it is not later but there are more
  -- posts. A request carries the number of posts that are had.
  pub compare_have_to_local_lem :
      (local_catalog : List CatalogThread) (active_threads : List RemoteThread)
      → compare_have_to_local db local_catalog active_threads
        ≡ take 50 (all_wanted local_catalog active_threads)
  unfolding compare_have_to_local
  compare_have_to_local_lem local_catalog active_threads =
      rw (← all_stale-eq local_catalog active_threads)
        (compare_from-take (local_map_from db local_catalog []) active_threads [] (omega arith))
