-- ===== src/ClusterCache.antt =====
-- pkg/cache/managedcluster.go and, with the same text for cluster sets, managedclusterset.go: what
-- the cache asks to be reviewed, and what it lists to a user.
pub mod Listing
pub mod Access
pub mod Silence
use clusterset_server.Base.{
  Bool, true, not, List, [], ◌∷◌, ◌++◌, String, StringMap, Error, Result, ok, err, ◌>>=◌,
  is_not_found, if◌then◌else◌,
}
use clusterset_server.Platform.{Platform}
use clusterset_server.Objects.{Object, UserInfo}
use clusterset_server.Rbac.{ClusterRole, ClusterRoleBinding}
use clusterset_server.Rbac.Reviewer.{Review}
use clusterset_server.Watcher.{WatchableCache}
use clusterset_server.AuthCache.Records.{ReviewRequest}
use clusterset_server.AuthCache.Names.{list_names}
use clusterset_server.AuthCache.State.{AuthCache, Surroundings}

-- The lister of an informer is what a read of it returns.
pub record Lister : Type 0 where
  pub list_all : Result (List Object)
  pub get : String → Result Object

-- `labels.Selector` is its `Matches`, and labels.Everything() matches all labels.
abbrev pub everything : StringMap → Bool
everything labels = true

abbrev pub request_of : Object → ReviewRequest
request_of cluster = record {
  name = cluster.name;
  resource_version = cluster.resource_version;
  role_versions = [];
  role_binding_versions = [];
}

-- the loop of `ListResources`
unfoldable pub requests_from : List ReviewRequest → List Object → List ReviewRequest
requests_from reqs [] = reqs
requests_from reqs (cluster ∷ clusters) = requests_from (reqs ++ request_of cluster ∷ []) clusters

unfoldable pub list_resources : Lister → Result (List ReviewRequest)
list_resources lister = do clusters ← lister.list_all; ok (requests_from [] clusters)

-- the loop of `List` over the names
unfoldable pub list_from :
    Lister → (StringMap → Bool) → List Object → List String → Result (List Object)
list_from lister selector items [] = ok items
list_from lister selector items (key ∷ names) = elim (lister.get key) [
  | err e ↦ if is_not_found e then list_from lister selector items names else err e
  | ok cluster ↦
      if not (selector cluster.labels)
      then list_from lister selector items names
      else list_from lister selector (items ++ cluster ∷ []) names
]

-- meta.ExtractList of the list, which after an error is nil
abbrev pub extract_list : Result (List Object) → List Object
extract_list (ok items) = items
extract_list (err e) = []

-- the object of `ConvertResource`
abbrev pub found_or_named : String → Result Object → Object
found_or_named name (ok cluster) = cluster
found_or_named name (err e) = record { name = name; resource_version = ""; labels = [] }

module _ ⦃P : Platform⦄ where
  open P use {range}

  unfoldable pub list : Lister → AuthCache → UserInfo → (StringMap → Bool) → Result (List Object)
  list lister ac user selector = list_from lister selector [] (range (list_names ac user))

  unfoldable pub list_objects : Lister → AuthCache → UserInfo → Result (List Object)
  list_objects lister ac user = list lister ac user everything

  -- the cache as its watchers see it
  unfoldable pub watchable : Lister → AuthCache → WatchableCache
  watchable lister ac = record {
    list_objects = λ user. extract_list (list_objects lister ac user);
    get = lister.get;
    convert_resource = λ name. found_or_named name (lister.get name);
  }

-- What the other informers and the reviewer answer while a run lasts.
pub record Policies : Type 0 where
  pub reviewer : String → String → String → Result Review
  pub list_bindings : Result (List ClusterRoleBinding)
  pub get_role : String → Result ClusterRole
  pub last_sync_version : String
  pub role_version : String
  pub role_binding_version : String

-- The configuration that `NewClusterCache` and `NewClusterSetCache` give; `resource` is
-- "managedclusters" or "managedclustersets".
unfoldable pub surroundings : ⦃P : Platform⦄ → String → Lister → Policies → AuthCache → Surroundings
surroundings resource lister policies ac = record {
  group = "cluster.open-cluster-management.io";
  resource = resource;
  sync_requests = list_resources lister;
  reviewer = policies.reviewer;
  list_bindings = policies.list_bindings;
  get_role = policies.get_role;
  last_sync_version = policies.last_sync_version;
  role_version = policies.role_version;
  role_binding_version = policies.role_binding_version;
  watchable = watchable lister ac;
}
