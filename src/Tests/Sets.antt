-- ===== src/Tests/Sets.antt =====
-- The theorems on the cache and the storage of cluster sets, for two of them.
use clusterset_server.Base.{◌≡◌, ℕ, Option, none, some, StringMap, Bool}
use clusterset_server.Objects.{UserInfo}
use clusterset_server.AuthCache.State.{new_auth_cache}
use clusterset_server.ClusterCache
use clusterset_server.ClusterSetCache
use clusterset_server.ClusterSetCache.Same.{cluster_set_cache_same}
use clusterset_server.Registry
use clusterset_server.Registry.ClusterSets
use clusterset_server.Registry.ClusterSets.Same.{cluster_set_rest_same}
use clusterset_server.Tests.Clusters.{lister, policies}
use clusterset_server.Tests.Lists.{list_platform}
use clusterset_server.Tests.Scopes.{rest}

cluster_set_cache_same_example :
    (ClusterSetCache.surroundings lister policies new_auth_cache
      ≡ ClusterCache.surroundings "managedclustersets" lister policies new_auth_cache)
    × ((user : UserInfo) (selector : StringMap → Bool)
        → ClusterSetCache.list lister new_auth_cache user selector
          ≡ ClusterCache.list lister new_auth_cache user selector)
cluster_set_cache_same_example = cluster_set_cache_same lister policies new_auth_cache

cluster_set_rest_same_example :
    ((user : UserInfo)
      → ClusterSets.rest_list rest new_auth_cache (some user) none
        ≡ Registry.rest_list rest new_auth_cache (some user) none)
    × ((id : ℕ) (context : Option (Option UserInfo))
        → ClusterSets.watch rest id context none new_auth_cache
          ≡ Registry.watch rest id context none new_auth_cache)
cluster_set_rest_same_example = cluster_set_rest_same rest new_auth_cache none
