-- ===== src/AuthCache/Runs.antt =====
-- Rules for what a whole run of `synchronize` of pkg/cache/common.go keeps.
use mathlib.Core.List.{Memᴰ}
use clusterset_server.Base.{◌≡◌, refl, ◌⊎◌, inl, none, some, List, [], ◌∷◌, String, arith}
use clusterset_server.Platform.{Platform}
use clusterset_server.AuthCache.Records.{ReviewRecord, review_record_key}
use clusterset_server.AuthCache.State.{Surroundings, AuthCache}
use clusterset_server.AuthCache.Sync.{
  sync_resources, synchronize_cluster_role_bindings, purge_record, purge_records,
  purge_deleted_resources, synchronize,
}
use clusterset_server.AuthCache.Keeps.{
  Keeps, IsSyncInvariant, Keeps-bind, Keeps-sync_listed, Keeps-sync_all_bindings,
  Keeps-notify_deleted,
}

module _ ⦃P : Platform⦄ where
  open P use {StringSet, find, find-delete, find_of_mem-items, items, range, difference}

  -- The record is there unchanged, or is gone.
  abbrev pub IsWaiting : AuthCache → ReviewRecord → Type 0
  IsWaiting ac r =
      (find review_record_key ac.review_records r.request.name ≡ some r)
      ⊎ (find review_record_key ac.review_records r.request.name ≡ none)

  -- Beside that a run drops the records of names that are gone, and notes what it saw.
  pub record IsInvariant (s : Surroundings) (I J : AuthCache → Type 0) : Type 0 where
    pub sync : IsSyncInvariant s I J
    pub at_purge :
        (ac : AuthCache) (names : StringSet) (r : ReviewRecord)
        → IsWaiting ac r
        → I ac
        → I (purge_record names ac r)
    pub at_finish :
        (ac : AuthCache) (names : StringSet) (state : String)
        → I ac
        → I (record ac { all_known_names = names; last_state = state })

  pub purge_record-IsWaiting :
      (names : StringSet) (ac : AuthCache) (r q : ReviewRecord)
      → IsWaiting ac q
      → IsWaiting (purge_record names ac r) q
  unfolding purge_record
  purge_record-IsWaiting names ac r q h =
      ground (arith, find-delete review_record_key ac.review_records r q.request.name)

  module _ (s : Surroundings) (I J : AuthCache → Type 0) (inv : IsInvariant s I J) where
    purge_records-keeps :
        (names : StringSet) (records : List ReviewRecord) (ac : AuthCache)
        → ((r : ReviewRecord) → Memᴰ r records → IsWaiting ac r)
        → I ac
        → I (purge_records names ac records)
    unfolding purge_records
    purge_records-keeps names [] ac waiting h = h
    purge_records-keeps names (r ∷ records) ac waiting h =
        purge_records-keeps names records (purge_record names ac r)
          (λ q m. purge_record-IsWaiting names ac r q (waiting q (Memᴰ.tail m)))
          (inv.at_purge ac names r (waiting r (Memᴰ.head refl)) h)

    Keeps-purge_deleted_resources :
        (old_names new_names : StringSet)
        → Keeps I J (purge_deleted_resources s old_names new_names)
    unfolding purge_deleted_resources
    Keeps-purge_deleted_resources old_names new_names = record {
      at = λ ac h. (Keeps-notify_deleted s I J inv.sync.at_notify _).at _ (
          purge_records-keeps new_names _ ac
            (λ r m. inl (find_of_mem-items review_record_key ac.review_records r m)) h);
    }

    -- What is invariant is kept by a whole run, also by one that is stuck.
    pub Keeps-synchronize : Keeps I J (synchronize s)
    unfolding synchronize sync_resources synchronize_cluster_role_bindings
    Keeps-synchronize = record {
      at = λ ac h.
          (Keeps-bind _ _ (Keeps-sync_listed s I J inv.sync s.sync_requests) (λ names.
              Keeps-bind _ _ (Keeps-sync_all_bindings s I J inv.sync s.list_bindings) (λ _.
                Keeps-bind _ _ (Keeps-purge_deleted_resources _ names)
                  (λ _. record { at = λ ac' h'. inv.at_finish ac' names _ h' })))).at
            ac h;
    }
