-- ===== src/Server.antt =====
-- pkg/cmd/server.go: the caches and handlers that `NewFilterServer` puts together, and what happens
-- to the caches while the server runs, as a step relation.
pub mod Watching
pub mod Steps
pub mod Caches
pub mod Bounds
pub mod Granted
pub mod Deadlock
pub mod Spares
pub mod Told
pub mod Steady
pub mod Interleaved
use mathlib.Core.List.{Memᴰ}
use clusterset_server.Base.{
  ◌≡◌, ℕ, Bool, false, Option, List, [], ◌∷◌, ◌++◌, String, StringMap, Error, Result, ok, any,
  nat_eq,
}
use clusterset_server.Platform.{Platform}
use clusterset_server.Objects.{Object, UserInfo, Event}
use clusterset_server.Rbac.{Subject, ClusterRole, ClusterRoleBinding}
use clusterset_server.Rbac.Locator.{SubjectAccessEvaluator}
use clusterset_server.Rbac.Reviewer.{review}
use clusterset_server.Scope.{ScopeMetadata}
use clusterset_server.Watcher.{CacheWatcher}
use clusterset_server.AuthCache.State.{
  Surroundings, AuthCache, Outcome, done, stuck, after, new_auth_cache,
}
use clusterset_server.AuthCache.Notify.{remove_watcher}
use clusterset_server.AuthCache.Sync.{synchronize}
use clusterset_server.ClusterCache
use clusterset_server.ClusterCache.{Lister, Policies}
use clusterset_server.ClusterSetCache
use clusterset_server.Registry
use clusterset_server.Registry.{Client, Rest, ListOptions, GetOptions}
use clusterset_server.Registry.ClusterSets

-- the two caches of the server
pub data CacheName : Type 0 where
  clusters cluster_sets : CacheName

-- What a post-start hook starts; the period of a cache is in seconds.
pub data Action : Type 0 where
  start_informers start_cluster_informers : Action
  run_cache : CacheName → ℕ → Action

-- The hooks that `NewFilterServer` adds. The line that runs the cache of cluster sets is commented
-- out.
unfoldable pub post_start_hooks : List (String × List Action)
post_start_hooks =
    ("start-informers", start_informers ∷ start_cluster_informers ∷ [])
    ∷ ("start-cache", run_cache clusters 1 ∷ [])
    ∷ []

abbrev pub actions_of : List (String × List Action) → List Action
actions_of [] = []
actions_of ((name, actions) ∷ hooks) = actions ++ actions_of hooks

-- What the server takes from libraries: the split of subjects into users and groups, the texts and
-- aggregates of errors, the parser of scopes, and the client.
pub record Library : Type 0 where
  pub split : List Subject → String → List String × List String
  pub text : List Error → String
  pub scopes : ScopeMetadata
  pub client : Client
  pub aggregate : List Error → Error
  pub forbidden : String → String → Error → Error

-- What the informers hold at a moment.
pub record Informers : Type 0 where
  pub cluster_lister : Lister
  pub cluster_set_lister : Lister
  pub list_bindings : Result (List ClusterRoleBinding)
  pub get_role : String → Result ClusterRole
  pub cluster_version : String
  pub cluster_set_version : String
  pub role_version : String
  pub role_binding_version : String

abbrev pub lister_of : CacheName → Informers → Lister
lister_of clusters informers = informers.cluster_lister
lister_of cluster_sets informers = informers.cluster_set_lister

abbrev version_of : CacheName → Informers → String
version_of clusters informers = informers.cluster_version
version_of cluster_sets informers = informers.cluster_set_version

-- `NewSubjectAccessEvaluator` with its arguments
abbrev pub evaluator_of : Informers → SubjectAccessEvaluator
evaluator_of informers = record {
  super_user = "cluster-amdin";
  list_bindings = informers.list_bindings;
  get_role = informers.get_role;
}

abbrev pub policies_of : Library → CacheName → Informers → Policies
policies_of library c informers = record {
  reviewer = review library.split library.text (evaluator_of informers);
  list_bindings = informers.list_bindings;
  get_role = informers.get_role;
  last_sync_version = version_of c informers;
  role_version = informers.role_version;
  role_binding_version = informers.role_binding_version;
}

-- the arguments of the two `NewREST`
abbrev pub rest_of : Library → CacheName → Informers → Rest
rest_of library c informers = record {
  lister = lister_of c informers;
  get_role = informers.get_role;
  client = library.client;
  library = library.scopes;
  aggregate = library.aggregate;
  forbidden = library.forbidden;
}

module _ ⦃P : Platform⦄ where
  -- what a run of a cache reads
  unfoldable pub surroundings_of : Library → CacheName → Informers → AuthCache → Surroundings
  surroundings_of library clusters informers ac =
      ClusterCache.surroundings "managedclusters" informers.cluster_lister
        (policies_of library clusters informers) ac
  surroundings_of library cluster_sets informers ac =
      ClusterSetCache.surroundings informers.cluster_set_lister
        (policies_of library cluster_sets informers) ac

  -- the storage of "managedclusters" and of "managedclustersets"
  unfoldable pub list_of :
      Library
      → CacheName
      → Informers
      → AuthCache
      → Option UserInfo
      → Option ListOptions
      → Result (List Object)
  list_of library clusters informers = Registry.rest_list (rest_of library clusters informers)
  list_of library cluster_sets informers =
      ClusterSets.rest_list (rest_of library cluster_sets informers)

  unfoldable pub watch_of :
      Library
      → CacheName
      → Informers
      → ℕ
      → Option (Option UserInfo)
      → Option ListOptions
      → AuthCache
      → Result (CacheWatcher × AuthCache)
  watch_of library clusters informers = Registry.watch (rest_of library clusters informers)
  watch_of library cluster_sets informers =
      ClusterSets.watch (rest_of library cluster_sets informers)

  -- A cache that is `stuck` has a run that holds the lock of the watchers for ever.
  pub record Server : Type 0 where
    pub clusters_cache : Outcome (Unit {0})
    pub cluster_sets_cache : Outcome (Unit {0})

  -- the caches that `NewFilterServer` makes
  unfoldable pub new_filter_server : Server
  new_filter_server = record {
    clusters_cache = done tt new_auth_cache;
    cluster_sets_cache = done tt new_auth_cache;
  }

  abbrev pub cache_of : Server → CacheName → Outcome (Unit {0})
  cache_of s clusters = s.clusters_cache
  cache_of s cluster_sets = s.cluster_sets_cache

  abbrev pub put : Server → CacheName → Outcome (Unit {0}) → Server
  put s clusters o = record s { clusters_cache = o }
  put s cluster_sets o = record s { cluster_sets_cache = o }

  abbrev pub with_watchers : Outcome (Unit {0}) → List CacheWatcher → Outcome (Unit {0})
  with_watchers (done a ac) watchers = done a (record ac { watchers = watchers })
  with_watchers (stuck ac) watchers = stuck (record ac { watchers = watchers })

  -- What can happen to a cache. Whatever takes the lock of its watchers waits while it is stuck.
  pub data Step (library : Library) (s : Server) : Server → Type 0 where
    -- a run of a cache that a hook has started
    ran :
        {t : Server} (c : CacheName) (period : ℕ) (informers : Informers) (ac : AuthCache)
        → Memᴰ (run_cache c period) (actions_of post_start_hooks)
        → cache_of s c ≡ done tt ac
        → t ≡ put s c (synchronize (surroundings_of library c informers ac) ac)
        → Step library s t
    -- a request for a watch that succeeds, with its watcher at an address that is not in use
    watched :
        {t : Server} (c : CacheName) (informers : Informers) (id : ℕ)
        (context : Option (Option UserInfo)) (options : Option ListOptions) (ac ac' : AuthCache)
        (w : CacheWatcher)
        → cache_of s c ≡ done tt ac
        → any (λ v. nat_eq v.id id) ac.watchers ≡ false
        → watch_of library c informers id context options ac ≡ ok (w, ac')
        → t ≡ put s c (done tt ac')
        → Step library s t
    -- the end of the goroutine of a watcher, which removes it
    ended :
        {t : Server} (c : CacheName) (id : ℕ) (ac : AuthCache)
        → cache_of s c ≡ done tt ac
        → t ≡ put s c (done tt (remove_watcher ac id))
        → Step library s t
    -- the goroutine of a watcher takes an event from its channel
    received :
        {t : Server} (c : CacheName) (front back : List CacheWatcher) (w : CacheWatcher) (e : Event)
        (rest : List Event)
        → (after (cache_of s c)).watchers ≡ front ++ w ∷ back
        → w.incoming ≡ e ∷ rest
        → t ≡ put s c (with_watchers (cache_of s c) (front ++ record w { incoming = rest } ∷ back))
        → Step library s t

  pub data Reaches (library : Library) (s : Server) : Server → Type 0 where
    here : Reaches library s s
    later : {t u : Server} → Reaches library s t → Step library t u → Reaches library s u
