-- ===== src/Server/Caches.antt =====
-- pkg/cmd/server.go: what the records of the two caches are while the server runs.
use mathlib.Core.List.{Memᴰ}
use clusterset_server.Base.{
  ◌≡◌, refl, ◌∙◌, ℕ, false, ◌||◌, ◌==◌, eq_iff, Option, none, some, List, [], ◌∷◌, String, ok, any,
  contains, arith,
}
use clusterset_server.Platform.{Platform}
use clusterset_server.Objects.{UserInfo}
use clusterset_server.AuthCache.Records.{subject_record_key}
use clusterset_server.AuthCache.State.{AuthCache, after, new_auth_cache}
use clusterset_server.AuthCache.Keeps.{IgnoresWatchers}
use clusterset_server.AuthCache.Names.{list_names, names_of_groups}
use clusterset_server.AuthCache.Listing.{list_names_exact}
use clusterset_server.AuthCache.Consistency.{
  IsConsistent-IgnoresWatchers, IsConsistent, find_record, reviews_user, reviews_group,
  new_auth_cache-IsConsistent, synchronize-IsConsistent,
}
use clusterset_server.AuthCache.Sync.{synchronize}
use clusterset_server.AuthCache.Subjects.{find_subject}
use clusterset_server.ClusterSetCache
use clusterset_server.Registry.{ListOptions}
use clusterset_server.Registry.ClusterSets
use clusterset_server.Server.{
  CacheName, clusters, cluster_sets, Library, Informers, run_cache, actions_of, post_start_hooks,
  surroundings_of, list_of, Server, new_filter_server, cache_of, Reaches,
}
use clusterset_server.Server.Steps.{
  Any, IsAlwaysInvariant, reached-always, IsServerInvariant-of_IgnoresWatchers,
}

-- No hook runs the cache of cluster sets.
pub unhooked : (period : ℕ) → Memᴰ (run_cache cluster_sets period) (actions_of post_start_hooks) → ⊥
unfolding post_start_hooks
unhooked period (Memᴰ.head e) = absurd (ground arith)
unhooked period (Memᴰ.tail (Memᴰ.head e)) = absurd (ground arith)
unhooked period (Memᴰ.tail (Memᴰ.tail (Memᴰ.head e))) = absurd (ground arith)
unhooked period (Memᴰ.tail (Memᴰ.tail (Memᴰ.tail m))) = elim m [ ]

empty_of_contains : (xs : List String) → ((n : String) → contains xs n ≡ false) → xs ≡ []
unfolding contains any
empty_of_contains [] h = refl
empty_of_contains (x ∷ xs) h =
    let first : (x == x || contains xs x) ≡ false = h x in absurd (ground (arith, eq_iff x x))

module _ ⦃P : Platform⦄ where
  open P use {StringSet, empty, has, range, has-empty, contains-range, new_store, find-new_store}

  Consistent-IsServerInvariant :
      (library : Library) → IsAlwaysInvariant library (λ c ac. IsConsistent ac)
  Consistent-IsServerInvariant library =
      IsServerInvariant-of_IgnoresWatchers library Any (λ c ac. IsConsistent ac)
        (λ c. IsConsistent-IgnoresWatchers) (λ c. new_auth_cache-IsConsistent)
        (λ c period informers ac _ _ h. synchronize-IsConsistent _ ac h)

  -- In every state that the server reaches, both caches are consistent, and a user is listed
  -- exactly the names whose review record names the user or one of the user's groups.
  pub reached_list_names_exact :
      (library : Library) {s : Server} (c : CacheName)
      → Reaches library new_filter_server s
      → IsConsistent (after (cache_of s c))
        × ((user : UserInfo) (n : String)
            → has (list_names (after (cache_of s c)) user) n ≡ (
                reviews_user (find_record (after (cache_of s c)) n) user.name
                || any (λ g. reviews_group (find_record (after (cache_of s c)) n) g) user.groups))
  reached_list_names_exact library {s} c reached =
      let consistent =
        reached-always library (λ c ac. IsConsistent ac) (Consistent-IsServerInvariant library)
          reached c in
      (consistent, λ user n. list_names_exact (after (cache_of s c)) user n consistent)

  -- No subject of the cache has a name.
  HasNoSubject : CacheName → AuthCache → Type 0
  HasNoSubject clusters ac = Unit
  HasNoSubject cluster_sets ac =
      (ac.user_subject_records ≡ new_store subject_record_key)
      × (ac.group_subject_records ≡ new_store subject_record_key)

  HasNoSubject-IsServerInvariant : (library : Library) → IsAlwaysInvariant library HasNoSubject
  unfolding HasNoSubject
  HasNoSubject-IsServerInvariant library =
      IsServerInvariant-of_IgnoresWatchers library Any HasNoSubject ignores new run
    where
      ignores : (c : CacheName) → IgnoresWatchers (HasNoSubject c)
      ignores clusters ac watchers h = tt
      ignores cluster_sets ac watchers h = h

      new : (c : CacheName) → HasNoSubject c new_auth_cache
      new clusters = tt
      new cluster_sets = (refl, refl)

      run :
          (c : CacheName) (period : ℕ) (informers : Informers) (ac : AuthCache)
          → Memᴰ (run_cache c period) (actions_of post_start_hooks)
          → Unit {0}
          → HasNoSubject c ac
          → HasNoSubject c (after (synchronize (surroundings_of library c informers ac) ac))
      run clusters period informers ac hooked _ h = tt
      run cluster_sets period informers ac hooked _ h = absurd (unhooked period hooked)

  has-list_names_none :
      (ac : AuthCache) (user : UserInfo) (n : String)
      → HasNoSubject cluster_sets ac
      → has (list_names ac user) n ≡ false
  unfolding HasNoSubject list_names names_of_groups
  has-list_names_none ac user n (no_user, no_group) =
      let found_user : find_subject ac.user_subject_records user.name ≡ none =
        rw no_user (find-new_store subject_record_key user.name) in
      rw found_user (go empty user.groups (has-empty n))
    where
      go :
          (keys : StringSet) (groups : List String)
          → has keys n ≡ false
          → has (names_of_groups ac.group_subject_records keys groups) n ≡ false
      go keys [] h = h
      go keys (g ∷ groups) h =
          let found : find_subject ac.group_subject_records g ≡ none =
            rw no_group (find-new_store subject_record_key g) in
          rw found (go keys groups h)

  -- In every state that the server reaches, a list of cluster sets by any user succeeds and is
  -- empty, whatever the roles, the bindings and the cluster sets are: no hook runs their cache.
  pub cluster_sets_listed_none :
      (library : Library) {s : Server} (informers : Informers) (user : UserInfo)
      (options : Option ListOptions)
      → Reaches library new_filter_server s
      → list_of library cluster_sets informers (after (cache_of s cluster_sets)) (some user) options
        ≡ ok []
  unfolding list_of ClusterSets.rest_list ClusterSetCache.list ClusterSetCache.list_from
  cluster_sets_listed_none library {s} informers user options reached =
      let none_held : HasNoSubject cluster_sets (after (cache_of s cluster_sets)) =
        reached-always library HasNoSubject (HasNoSubject-IsServerInvariant library) reached
          cluster_sets in
      let names : StringSet = list_names (after (cache_of s cluster_sets)) user in
      let empty_range : range names ≡ [] = empty_of_contains (range names) (λ n.
        contains-range names n
        ∙ has-list_names_none (after (cache_of s cluster_sets)) user n none_held) in
      rw empty_range
