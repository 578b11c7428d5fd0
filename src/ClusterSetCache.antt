-- ===== src/ClusterSetCache.antt =====
-- pkg/cache/managedclusterset.go: what the cache of cluster sets asks to be reviewed, and what it
-- lists to a user. The file repeats managedcluster.go for another resource.
pub mod Same
use clusterset_server.Base.{
  Bool, true, not, List, [], ◌∷◌, ◌++◌, String, StringMap, Error, Result, ok, err, ◌>>=◌,
  is_not_found, if◌then◌else◌,
}
use clusterset_server.Platform.{Platform}
use clusterset_server.Objects.{Object, UserInfo}
use clusterset_server.Watcher.{WatchableCache}
use clusterset_server.AuthCache.Records.{ReviewRequest}
use clusterset_server.AuthCache.Names.{list_names}
use clusterset_server.AuthCache.State.{AuthCache, Surroundings}
use clusterset_server.ClusterCache.{Lister, Policies, everything}

-- the loop of `ListResources`
unfoldable pub requests_from : List ReviewRequest → List Object → List ReviewRequest
requests_from reqs [] = reqs
requests_from reqs (cluster ∷ clusters) =
    let req : ReviewRequest = record {
      name = cluster.name;
      resource_version = cluster.resource_version;
      role_versions = [];
      role_binding_versions = [];
    } in
    requests_from (reqs ++ req ∷ []) clusters

unfoldable pub list_resources : Lister → Result (List ReviewRequest)
list_resources clusterset_lister = do
  clusters ← clusterset_lister.list_all
  ok (requests_from [] clusters)

-- the loop of `List` over the names
unfoldable pub list_from :
    Lister → (StringMap → Bool) → List Object → List String → Result (List Object)
list_from clusterset_lister selector items [] = ok items
list_from clusterset_lister selector items (key ∷ names) = elim (clusterset_lister.get key) [
  | err e ↦ if is_not_found e then list_from clusterset_lister selector items names else err e
  | ok clusterset ↦
      if not (selector clusterset.labels)
      then list_from clusterset_lister selector items names
      else list_from clusterset_lister selector (items ++ clusterset ∷ []) names
]

-- `ConvertResource` behind the call of the lister
unfoldable pub converted : String → Result Object → Object
converted name (ok cluster) = cluster
converted name (err e) = record { name = name; resource_version = ""; labels = [] }

-- the list that `NewCacheWatcher` extracts, which after an error is nil
unfoldable pub extracted : Result (List Object) → List Object
extracted (ok items) = items
extracted (err e) = []

module _ ⦃P : Platform⦄ where
  open P use {range}

  unfoldable pub list : Lister → AuthCache → UserInfo → (StringMap → Bool) → Result (List Object)
  list clusterset_lister ac user selector =
      list_from clusterset_lister selector [] (range (list_names ac user))

  unfoldable pub list_objects : Lister → AuthCache → UserInfo → Result (List Object)
  list_objects clusterset_lister ac user = list clusterset_lister ac user everything

  -- the cache as its watchers see it
  unfoldable pub watchable : Lister → AuthCache → WatchableCache
  watchable clusterset_lister ac = record {
    list_objects = λ user. extracted (list_objects clusterset_lister ac user);
    get = clusterset_lister.get;
    convert_resource = λ name. converted name (clusterset_lister.get name);
  }

  -- the configuration that `NewClusterSetCache` gives
  unfoldable pub surroundings : Lister → Policies → AuthCache → Surroundings
  surroundings clusterset_lister policies ac = record {
    group = "cluster.open-cluster-management.io";
    resource = "managedclustersets";
    sync_requests = list_resources clusterset_lister;
    reviewer = policies.reviewer;
    list_bindings = policies.list_bindings;
    get_role = policies.get_role;
    last_sync_version = policies.last_sync_version;
    role_version = policies.role_version;
    role_binding_version = policies.role_binding_version;
    watchable = watchable clusterset_lister ac;
  }
