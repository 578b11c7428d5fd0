-- ===== src/Tests/Cluster.antt =====
-- A small cluster: two managed clusters, who may get them, and a watcher.
use clusterset_server.Base.{false, List, [], ◌∷◌, String, ◌==◌, ok, if◌then◌else◌}
use clusterset_server.Objects.{Object, UserInfo}
use clusterset_server.Rbac.{PolicyRule, Subject, ClusterRole, ClusterRoleBinding}
use clusterset_server.Rbac.Reviewer.{Review}
use clusterset_server.Watcher.{WatchableCache, CacheWatcher, new_cache_watcher}
use clusterset_server.AuthCache.Records.{ReviewRequest}
use clusterset_server.AuthCache.State.{Surroundings}
use clusterset_server.Tests.Lists.{list_platform}

abbrev pub ann : UserInfo
ann = record { name = "ann"; groups = "ops" ∷ []; scopes = [] }

abbrev pub cluster : String → Object
cluster name = record { name = name; resource_version = "1"; labels = [] }

abbrev pub request : String → ReviewRequest
request name = record {
  name = name;
  resource_version = "1";
  role_versions = ("r", "1") ∷ [];
  role_binding_versions = ("b", "1") ∷ [];
}

abbrev pub requests : List ReviewRequest
requests = request "c1" ∷ request "c2" ∷ []

abbrev pub reviews : String → Review
reviews name =
    if name == "c1"
    then record { users = "bob" ∷ []; groups = "ops" ∷ []; evaluation_error = "" }
    else record { users = "bob" ∷ []; groups = []; evaluation_error = "" }

abbrev pub get_rule : PolicyRule
get_rule = record {
  verbs = "get" ∷ [];
  api_groups = "cluster" ∷ [];
  resources = "managedclusters" ∷ [];
  resource_names = "c1" ∷ [];
  non_resource_urls = [];
}

abbrev pub role : ClusterRole
role = record { uid = "r"; resource_version = "1"; rules = get_rule ∷ [] }

abbrev pub bob_subject : Subject
bob_subject = record {
  kind = "User";
  api_group = "rbac.authorization.k8s.io";
  name = "bob";
  namespace = "";
}

abbrev pub binding : ClusterRoleBinding
binding = record {
  uid = "b";
  resource_version = "1";
  role_ref = "getter";
  subjects = bob_subject ∷ [];
}

abbrev pub watchable : WatchableCache
watchable = record {
  list_objects = λ user. [];
  get = λ name. ok (cluster name);
  convert_resource = cluster;
}

abbrev pub surroundings : Surroundings
surroundings = record {
  group = "cluster";
  resource = "managedclusters";
  sync_requests = ok requests;
  reviewer = λ group resource name. ok (reviews name);
  list_bindings = ok (binding ∷ []);
  get_role = λ ref. ok role;
  last_sync_version = "1";
  role_version = "1";
  role_binding_version = "1";
  watchable = watchable;
}

-- ann's watcher, that sees every cluster
abbrev pub watcher : CacheWatcher
watcher = new_cache_watcher 7 ann ("*" ∷ []) watchable false
