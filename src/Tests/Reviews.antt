-- ===== src/Tests/Reviews.antt =====
-- The theorems on the records of the cache, and on the reviews that it keeps.
use clusterset_server.AuthCache.Capacity.{most_notifications}
use clusterset_server.AuthCache.Room.{Room}
use clusterset_server.AuthCache.Unlisted.{unlisted_synchronize}
use clusterset_server.AuthCache.Stale.{stale_access, AllSkipped}
use clusterset_server.Objects.{UserInfo}
use clusterset_server.AuthCache.Names.{list_names}
use clusterset_server.Base.{
  not_found, err, delete, ok, arith, false, insert, copy_into, String, any, ok, ◌≡◌, ◌↔◌, refl,
  true, not, ◌&&◌, [], ◌∷◌, some, none, contains, lookup,
}
use clusterset_server.AuthCache.Records.{ReviewRequest, ReviewRecord}
use clusterset_server.AuthCache.State.{done, after, Surroundings, AuthCache, new_auth_cache}
use clusterset_server.AuthCache.Review.{
  versions_known, cache_review_record, skip_review, merged_record,
}
use clusterset_server.AuthCache.Review.Skip.{
  HasMaps, Satisfies, skip_review_iff, skip_review-merged_record,
}
use clusterset_server.AuthCache.Request.{apply_review}
use clusterset_server.AuthCache.Consistency.{
  new_auth_cache-IsConsistent, apply_review-IsConsistent, IsConsistent, find_record,
}
use clusterset_server.AuthCache.Sync.{synchronize}
use clusterset_server.AuthCache.Coverage.{listed, has_record}
use clusterset_server.Tests.Lists.{find_in, list_platform}
use clusterset_server.Tests.Cluster.{request, reviews, surroundings}

-- the request for c1 with one role that the last review did not know
abbrev wider : ReviewRequest
wider = record (request "c1") { role_versions = ("r2", "5") ∷ ("r", "1") ∷ [] }

wider-HasMaps : HasMaps wider
unfolding lookup
wider-HasMaps = record { roles = (refl, (refl, tt)); role_bindings = (refl, tt) }

abbrev record_of_c1 : ReviewRecord
record_of_c1 = merged_record (request "c1") none (reviews "c1")

skip_review_iff_example :
    (skip_review (some wider) (some record_of_c1) ≡ true)
    ↔ ((r : ReviewRecord) × (some record_of_c1 ≡ some r) × Satisfies wider r)
skip_review_iff_example = skip_review_iff wider (some record_of_c1) wider-HasMaps

skip_review-merged_record_example :
    skip_review (some wider) (some (merged_record wider (some record_of_c1) (reviews "c1"))) ≡ true
skip_review-merged_record_example =
    skip_review-merged_record wider (some record_of_c1) (reviews "c1") wider-HasMaps

-- a cache with a record of c1
abbrev reviewed : AuthCache
reviewed = apply_review (request "c1") none (reviews "c1") new_auth_cache

abbrev bob : UserInfo
bob = record { name = "bob"; groups = []; scopes = [] }

-- All bindings are gone, and the reviewer names nobody.
abbrev unbound : Surroundings
unbound = record surroundings {
  sync_requests = ok (request "c1" ∷ []);
  list_bindings = ok [];
  reviewer = λ group resource name. ok (record { users = []; groups = []; evaluation_error = "" });
}

reviewed-Skips : AllSkipped (request "c1" ∷ []) reviewed
unfolding skip_review apply_review cache_review_record merged_record find_in versions_known lookup
    copy_into insert delete
reviewed-Skips = (refl, tt)

reviewed_covered :
    (n : String)
    → (has_record (find_record reviewed n) && not (listed (request "c1" ∷ []) n)) ≡ false
unfolding apply_review cache_review_record merged_record find_in any
reviewed_covered n = ground arith

stale_access_example :
    list_names (after (synchronize unbound reviewed)) bob ≡ list_names reviewed bob
stale_access_example =
    stale_access unbound (request "c1" ∷ []) reviewed bob refl refl reviewed-Skips reviewed_covered

-- The resources cannot be listed.
abbrev unlisted_surroundings : Surroundings
unlisted_surroundings = record unbound { sync_requests = err (not_found "") }

reviewed-IsConsistent : IsConsistent reviewed
unfolding find_in
reviewed-IsConsistent =
    apply_review-IsConsistent new_auth_cache (request "c1") (reviews "c1")
      new_auth_cache-IsConsistent

-- nobody watches
reviewed-Room : Room (most_notifications unlisted_surroundings reviewed) reviewed.watchers
unfolding apply_review
reviewed-Room = tt

unlisted_synchronize_example :
    (ac : AuthCache) × (synchronize unlisted_surroundings reviewed ≡ done tt ac)
    × ((user : UserInfo) (n : String) → contains (list_names ac user) n ≡ false)
unlisted_synchronize_example =
    unlisted_synchronize unlisted_surroundings (not_found "") reviewed refl reviewed-IsConsistent
      reviewed-Room
