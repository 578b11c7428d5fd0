-- ===== src/Tests/Servers.antt =====
-- The theorems on the server while it runs, for two managed clusters and a binding.
use mathlib.Core.List.{Memᴰ}
use mathlib.Core.List.Memᴰ
use mathlib.Core.Path.{subst}
use clusterset_server.Base.{
  err, keep, ◌≡◌, refl, ap, ◌+◌, false, [], ◌∷◌, ok, failure, any, contains, arith, inl, inr,
}
use clusterset_server.Rbac.{Subject}
use clusterset_server.Rbac.Reviewer.{get_action, MayGet}
use clusterset_server.Watcher.{new_cache_watcher}
use clusterset_server.AuthCache.Notify.{add_watcher}
use clusterset_server.AuthCache.Room.{Room}
use clusterset_server.AuthCache.Capacity.{most_notifications, synchronize_returns_with-Room}
use clusterset_server.AuthCache.State.{AuthCache, done, new_auth_cache}
use clusterset_server.AuthCache.Sync.{synchronize, get_resource_names, get_resource_names_from}
use clusterset_server.Rbac.Allow.{api_group_matches, resource_matches, resource_entry_matches}
use clusterset_server.ClusterCache.Access.{cluster_group, names}
use clusterset_server.Server.{
  clusters, Library, Informers, run_cache, actions_of, post_start_hooks, surroundings_of,
  evaluator_of, Server, new_filter_server, cache_of, put, Step, Reaches,
}
use clusterset_server.Tests.Access.{split, account, text}
use clusterset_server.Tests.Cache.{watched}
use clusterset_server.Tests.Cluster.{ann, role, binding, bob_subject, surroundings}
use clusterset_server.Tests.Clusters.{lister}
use clusterset_server.Tests.Lists.{list_platform}
use clusterset_server.Tests.Scopes
use clusterset_server.Tests.Scopes.{ann_without_errors}

abbrev pub library : Library
library = record {
  split = split;
  text = text;
  scopes = Scopes.library;
  aggregate = λ errors. failure "failed";
  forbidden = λ resource name e. failure resource;
  client = record {
    get_cluster = λ name options. err (failure "not found");
    get_cluster_set = λ name options. err (failure "not found");
  };
}

abbrev pub informers : Informers
informers = record {
  cluster_lister = lister;
  cluster_set_lister = lister;
  list_bindings = ok (binding ∷ []);
  get_role = λ ref. ok role;
  cluster_version = "1";
  cluster_set_version = "1";
  role_version = "1";
  role_binding_version = "1";
}

-- The server after the first run of the cache of clusters.
abbrev pub after_run : Server
after_run =
    put new_filter_server clusters
      (synchronize (surroundings_of library clusters informers new_auth_cache) new_auth_cache)

pub clusters_hooked : Memᴰ (run_cache clusters 1) (actions_of post_start_hooks)
unfolding post_start_hooks
clusters_hooked = Memᴰ.tail (Memᴰ.tail (Memᴰ.head refl))

pub hooked : cache_of new_filter_server clusters ≡ done tt new_auth_cache
unfolding new_filter_server
hooked = refl

abbrev first_run : Step library new_filter_server after_run
first_run = Step.ran clusters 1 informers new_auth_cache clusters_hooked hooked refl

abbrev pub has_run : Reaches library new_filter_server after_run
has_run = Reaches.later Reaches.here first_run

-- ann is not named by the binding.
pub ann_unbound :
    (s : Subject)
    → MayGet
        (evaluator_of informers)
        (binding ∷ [])
        (get_action cluster_group "managedclusters" "c1")
        s
    → names account s ann ≡ false
unfolding any
ann_unbound s (inl (inl e)) = ap (λ t. names account t ann) e
ann_unbound s (inl (inr (filled, e))) = ap (λ t. names account t ann) e
ann_unbound s (inr (b, m, binds)) =
    let e : s ≡ bob_subject =
      Memᴰ.eq_of_singleton (subst (λ c. Memᴰ s c.subjects) (Memᴰ.eq_of_singleton m) binds.bound) in
    ap (λ t. names account t ann) e

-- ann's watcher has room for what a run can send it, and for 990 events more.
roomy : Room (most_notifications surroundings watched + 990) watched.watchers
unfolding add_watcher new_cache_watcher get_resource_names get_resource_names_from api_group_matches
    resource_matches resource_entry_matches keep contains any
roomy = (omega arith, tt)

synchronize_returns_with-Room_example :
    (ac : AuthCache) × (synchronize surroundings watched ≡ done tt ac) × Room 990 ac.watchers
synchronize_returns_with-Room_example = synchronize_returns_with-Room surroundings watched 990 roomy
