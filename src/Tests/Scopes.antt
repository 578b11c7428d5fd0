-- ===== src/Tests/Scopes.antt =====
-- The theorems on scopes and watches, for a role that gets clusters and secrets.
use mathlib.Core.List.{Memᴰ}
use clusterset_server.Base.{
  ◌≡◌, refl, true, false, not, ◌&&◌, ◌||◌, none, some, List, [], ◌∷◌, String, ◌==◌, Result, ok, err,
  failure, contains, if◌then◌else◌, any,
}
use clusterset_server.Rbac.{PolicyRule, ClusterRole, Attributes}
use clusterset_server.Rbac.Allow.{rules_allow}
use clusterset_server.Watcher.{CacheWatcher}
use clusterset_server.AuthCache.State.{AuthCache, done, new_auth_cache}
use clusterset_server.AuthCache.Notify.{add_watcher}
use clusterset_server.AuthCache.Sync.{synchronize}
use clusterset_server.ClusterCache.Listing.{named}
use clusterset_server.Scope.{
  ScopeMetadata, GroupResource, escalating_scope_resources, resolve_rules,
  scopes_to_visible_namespaces,
}
use clusterset_server.Scope.Escalation.{resolve_rules_narrow, resolve_rules_denies}
use clusterset_server.Scope.Visibility.{scopes_show, scopes_to_visible_namespaces_exact}
use clusterset_server.Registry.{Rest, watch}
use clusterset_server.Registry.Scoped.{watch_exact, unscoped_watch_untold}
use clusterset_server.Tests.Lists.{list_platform}
use clusterset_server.Tests.Cluster.{ann, surroundings}
use clusterset_server.Tests.Clusters.{clusters, lister}

abbrev pub library : ScopeMetadata
library = record {
  user_handles = λ scope. scope == "user:full" || scope == "user:info";
  cluster_role_handles = λ scope. scope == "role:keeper:c1";
  parse_scope = λ scope.
      if scope == "role:keeper:c1" then ok ("keeper", "c1", false) else err (failure "bad scope");
  no_evaluator = λ scope. failure scope;
}

abbrev secrets_rule : PolicyRule
secrets_rule = record {
  verbs = "get" ∷ [];
  api_groups = "" ∷ [];
  resources = "secrets" ∷ "namespaces" ∷ [];
  resource_names = [];
  non_resource_urls = [];
}

abbrev keeper : ClusterRole
keeper = record { uid = "k"; resource_version = "1"; rules = secrets_rule ∷ [] }

abbrev get_keeper : String → Result ClusterRole
get_keeper name = ok keeper

abbrev get_secret : Attributes
get_secret = record {
  verb = "get";
  api_group = "";
  resource = "secrets";
  subresource = "";
  name = "s";
  namespace = "";
  path = "";
  resource_request = true;
}

abbrev secrets : GroupResource
secrets = record { group = ""; resource = "secrets" }

secrets-Escalates : Memᴰ secrets escalating_scope_resources
unfolding escalating_scope_resources
secrets-Escalates = Memᴰ.head refl

resolve_rules_narrow_example :
    (rules : List PolicyRule) × (resolve_rules library get_keeper "role:keeper:c1" ≡ ok rules)
    × ((not (rules_allow get_secret rules) || rules_allow get_secret keeper.rules) ≡ true)
resolve_rules_narrow_example =
    resolve_rules_narrow library get_keeper get_secret "role:keeper:c1" "keeper" "c1" false keeper
      refl refl

resolve_rules_denies_example :
    (rules : List PolicyRule) × (resolve_rules library get_keeper "role:keeper:c1" ≡ ok rules)
    × (rules_allow get_secret rules ≡ false)
resolve_rules_denies_example =
    resolve_rules_denies library get_keeper get_secret secrets "role:keeper:c1" "keeper" "c1" keeper
      refl refl secrets-Escalates refl refl refl (λ rule m. refl)

scopes_to_visible_namespaces_exact_example :
    contains
      (scopes_to_visible_namespaces library get_keeper
        ("user:info" ∷ "role:keeper:c1" ∷ [])
        true).namespaces
      "c1"
    ≡ scopes_show library get_keeper ("user:info" ∷ "role:keeper:c1" ∷ []) "c1"
scopes_to_visible_namespaces_exact_example =
    scopes_to_visible_namespaces_exact library get_keeper ("user:info" ∷ "role:keeper:c1" ∷ []) true
      "c1"

abbrev pub rest : Rest
rest = record {
  lister = lister;
  get_role = get_keeper;
  library = library;
  aggregate = λ errors. failure "failed";
  forbidden = λ resource name e. failure resource;
  client = record {
    get_cluster = λ name options. err (failure "not found");
    get_cluster_set = λ name options. err (failure "not found");
  };
}

pub ann_without_errors :
    (scopes_to_visible_namespaces library get_keeper ann.scopes true).errors ≡ []
unfolding scopes_to_visible_namespaces
ann_without_errors = refl

watch_exact_example :
    (w : CacheWatcher) × (watch rest 3 (some (some ann)) none new_auth_cache
      ≡ ok (w, add_watcher new_auth_cache w))
    × ((n : String)
        → contains w.visible_resources n
          ≡ (named clusters n && scopes_show library get_keeper [] n))
    × (w.incoming ≡ [])
watch_exact_example = watch_exact rest 3 ann none new_auth_cache clusters refl ann_without_errors

plain_names : named clusters "*" ≡ false
unfolding any
plain_names = refl

unscoped_watch_untold_example :
    (w : CacheWatcher) × (ac : AuthCache) × (watch rest 3 (some (some ann)) none new_auth_cache
      ≡ ok (w, add_watcher new_auth_cache w))
    × (synchronize surroundings (add_watcher new_auth_cache w) ≡ done tt ac)
    × (ac.watchers ≡ w ∷ [])
    × (w.incoming ≡ [])
unscoped_watch_untold_example =
    unscoped_watch_untold rest 3 ann none new_auth_cache clusters surroundings refl refl plain_names
      tt
