-- ===== src/Tests/Cache.antt =====
-- The theorems on the cache of accesses in a small cluster.
use clusterset_server.AuthCache.Delivery.{returns-notify_watchers, returns}
use clusterset_server.AuthCache.Removal.{remove_watcher_removes, Removed}
use clusterset_server.Watcher.Overflow.{
  overflows-group_membership_changed, is_full, has_event, overflows,
}
use clusterset_server.Base.{
  zero, suc, ℕ, ◌≡◌, refl, false, ◌&&◌, List, [], ◌∷◌, String, not, any, contains, lookup, insert,
  copy_into, keep, delete, arith,
}
use clusterset_server.Base.Text.{join}
use clusterset_server.Objects.{Event, added, UserInfo}
use clusterset_server.Rbac.Allow.{api_group_matches, resource_matches, resource_entry_matches}
use clusterset_server.Watcher.{
  incoming_depth, CacheWatcher, new_cache_watcher, known_from, sees, has_access, send,
  notify_version, notify_changed, group_membership_changed,
}
use clusterset_server.AuthCache.State.{AuthCache, done, after, new_auth_cache}
use clusterset_server.AuthCache.Subjects.{
  add_subject, add_subjects_to_namespace, delete_resource, delete_resource_from_subjects,
}
use clusterset_server.AuthCache.Review.{
  skip_review, versions_known, merged_record, cache_review_record, last_known,
}
use clusterset_server.AuthCache.Notify.{remove_watcher, add_watcher, notify_each, notify_watchers}
use clusterset_server.AuthCache.Request.{apply_review, sync_review, sync_known, sync_request}
use clusterset_server.AuthCache.Sync.{
  get_resource_names_from, get_resource_names, sync_each, sync_listed, sync_resources, sync_names,
  sync_role, sync_bindings, sync_all_bindings, synchronize_cluster_role_bindings, purge_record,
  purge_records, notify_deleted, purge_deleted_resources, skip_synchronize, synchronize,
}
use clusterset_server.AuthCache.Names.{list_names}
use clusterset_server.AuthCache.Consistency.{IsConsistent, new_auth_cache-IsConsistent}
use clusterset_server.AuthCache.Coverage.{listed}
use clusterset_server.AuthCache.Exactness.{IsFresh, grants, synchronize_exact}
use clusterset_server.AuthCache.Returns.{first_synchronize_exact}
use clusterset_server.Tests.Lists.{list_platform, find_in}
use clusterset_server.Tests.Cluster.{
  cluster, watchable, surroundings, requests, reviews, watcher, ann,
}

-- a new cache that ann watches
abbrev pub watched : AuthCache
watched = add_watcher new_auth_cache watcher

abbrev synchronized : AuthCache
synchronized = after (synchronize surroundings watched)

returned : synchronize surroundings watched ≡ done tt synchronized
unfolding synchronize skip_synchronize sync_resources sync_listed sync_each sync_request last_known
    sync_known sync_review skip_review versions_known apply_review notify_watchers notify_each
    group_membership_changed synchronize_cluster_role_bindings sync_all_bindings sync_bindings
    sync_role sync_names purge_deleted_resources purge_records notify_deleted purge_record
    add_watcher contains new_cache_watcher has_access any notify_changed notify_version lookup
    known_from send cache_review_record merged_record insert get_resource_names
    get_resource_names_from api_group_matches resource_matches resource_entry_matches find_in
    copy_into add_subjects_to_namespace delete_resource_from_subjects add_subject delete_resource
    join sees keep delete
returned = refl

watched-IsConsistent : IsConsistent watched
unfolding add_watcher
watched-IsConsistent =
    let h = new_auth_cache-IsConsistent in
    record {
      users = h.users;
      groups = h.groups;
      no_empty_user = h.no_empty_user;
      no_empty_group = h.no_empty_group;
    }

watched-IsFresh : IsFresh reviews watched
unfolding add_watcher find_in
watched-IsFresh = record { at = λ n r e. absurd (ground arith) }

synchronize_exact_example :
    IsConsistent synchronized
    × IsFresh reviews synchronized
    × ((user : UserInfo) (n : String)
        → contains (list_names synchronized user) n
          ≡ (listed requests n && grants (reviews n) user))
synchronize_exact_example =
    synchronize_exact surroundings requests reviews watched synchronized refl (λ n. refl)
      watched-IsConsistent watched-IsFresh returned

first_synchronize_exact_example :
    (ac : AuthCache) × (synchronize surroundings new_auth_cache ≡ done tt ac)
    × ((user : UserInfo) (n : String)
        → contains (list_names ac user) n ≡ (listed requests n && grants (reviews n) user))
first_synchronize_exact_example =
    first_synchronize_exact surroundings requests reviews refl (λ n. refl)

abbrev blind_watcher : CacheWatcher
blind_watcher = new_cache_watcher 8 ann [] watchable false

abbrev repeat : ℕ → Event → List Event
repeat zero event = []
repeat (suc n) event = event ∷ repeat n event

-- ann's watcher with a full channel
abbrev full_watcher : CacheWatcher
full_watcher = record watcher { incoming = repeat incoming_depth (added (cluster "c0")) }

abbrev fully_watched : AuthCache
fully_watched = record watched { watchers = full_watcher ∷ [] }

returns-notify_watchers_example :
    returns (notify_watchers surroundings "c1" ("ann" ∷ []) [] fully_watched)
    ≡ not (any (λ w. has_event watchable "c1" ("ann" ∷ []) [] w && is_full w) (full_watcher ∷ []))
returns-notify_watchers_example =
    returns-notify_watchers surroundings "c1" ("ann" ∷ []) [] fully_watched

overflows-group_membership_changed_example :
    overflows (group_membership_changed watchable full_watcher "c1" ("ann" ∷ []) [])
    ≡ (has_event watchable "c1" ("ann" ∷ []) [] full_watcher && is_full full_watcher)
overflows-group_membership_changed_example =
    overflows-group_membership_changed watchable full_watcher "c1" ("ann" ∷ []) []

remove_watcher_removes_example :
    Removed 7
      (watcher ∷ blind_watcher ∷ [])
      (remove_watcher (record watched { watchers = watcher ∷ blind_watcher ∷ [] }) 7).watchers
    × (remove_watcher (record watched { watchers = watcher ∷ blind_watcher ∷ [] }) 7
        ≡ record watched {
          watchers =
              (remove_watcher
                (record watched { watchers = watcher ∷ blind_watcher ∷ [] })
                7).watchers;
        })
remove_watcher_removes_example =
    remove_watcher_removes (record watched { watchers = watcher ∷ blind_watcher ∷ [] }) 7
