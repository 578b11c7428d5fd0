-- ===== src/Server/Deadlock.antt =====
-- pkg/cmd/server.go: a cache whose run is stuck, while the server goes on.
use mathlib.Core.Path.{subst}
use clusterset_server.Base.{◌≡◌, refl, sym, ap, ◌∙◌, Option, List, arith}
use clusterset_server.Platform.{Platform}
use clusterset_server.Objects.{UserInfo}
use clusterset_server.Watcher.{CacheWatcher}
use clusterset_server.AuthCache.State.{AuthCache, Outcome, done, stuck, after}
use clusterset_server.AuthCache.Names.{list_names}
use clusterset_server.ClusterCache
use clusterset_server.ClusterSetCache
use clusterset_server.Registry
use clusterset_server.Registry.{ListOptions}
use clusterset_server.Registry.ClusterSets
use clusterset_server.Server.{
  CacheName, clusters, cluster_sets, Library, Informers, list_of, Server, cache_of, put,
  with_watchers, Step, Reaches,
}

module _ ⦃P : Platform⦄ where
  -- The cache is stuck with these records.
  abbrev pub IsStuck : Server → CacheName → AuthCache → Type 0
  IsStuck s c ac =
      (watchers : List CacheWatcher) × (cache_of s c ≡ stuck (record ac { watchers = watchers }))

  done_not_stuck :
      {ac ac' : AuthCache} (o : Outcome (Unit {0})) → o ≡ done tt ac → o ≡ stuck ac' → ⊥
  done_not_stuck (done tt ac) h h' = ground arith
  done_not_stuck (stuck ac) h h' = ground arith

  -- A step of a cache that is not stuck leaves another alone.
  put-IsStuck :
      (s : Server) (c c' : CacheName) (ac ac' : AuthCache) (o : Outcome (Unit {0}))
      → cache_of s c' ≡ done tt ac'
      → IsStuck s c ac
      → IsStuck (put s c' o) c ac
  put-IsStuck s clusters clusters ac ac' o h (ws, e) = absurd (done_not_stuck s.clusters_cache h e)
  put-IsStuck s clusters cluster_sets ac ac' o h k = k
  put-IsStuck s cluster_sets clusters ac ac' o h k = k
  put-IsStuck s cluster_sets cluster_sets ac ac' o h (ws, e) =
      absurd (done_not_stuck s.cluster_sets_cache h e)

  receive-IsStuck :
      (s : Server) (c c' : CacheName) (ac : AuthCache) (watchers : List CacheWatcher)
      → IsStuck s c ac
      → IsStuck (put s c' (with_watchers (cache_of s c') watchers)) c ac
  receive-IsStuck s clusters clusters ac ws (_, e) = (ws, ap (λ o. with_watchers o ws) e)
  receive-IsStuck s clusters cluster_sets ac ws k = k
  receive-IsStuck s cluster_sets clusters ac ws k = k
  receive-IsStuck s cluster_sets cluster_sets ac ws (_, e) = (ws, ap (λ o. with_watchers o ws) e)

  step-IsStuck :
      {library : Library} {s t : Server} (c : CacheName) (ac : AuthCache)
      → Step library s t
      → IsStuck s c ac
      → IsStuck t c ac
  step-IsStuck {library} {s} c ac (Step.ran c' period informers ac' hooked e same) k =
      subst (λ u. IsStuck u c ac) (sym same) (put-IsStuck s c c' ac ac' _ e k)
  step-IsStuck {library} {s} c ac
        (Step.watched c' informers id context options ac' ac'' w e fresh watched same) k =
      subst (λ u. IsStuck u c ac) (sym same) (put-IsStuck s c c' ac ac' _ e k)
  step-IsStuck {library} {s} c ac (Step.ended c' id ac' e same) k =
      subst (λ u. IsStuck u c ac) (sym same) (put-IsStuck s c c' ac ac' _ e k)
  step-IsStuck {library} {s} c ac (Step.received c' front back w e rest split full same) k =
      subst (λ u. IsStuck u c ac) (sym same) (receive-IsStuck s c c' ac _ k)

  reached-IsStuck :
      {library : Library} {s t : Server} (c : CacheName) (ac : AuthCache)
      → Reaches library s t
      → IsStuck s c ac
      → IsStuck t c ac
  reached-IsStuck c ac Reaches.here k = k
  reached-IsStuck c ac (Reaches.later reached step) k =
      step-IsStuck c ac step (reached-IsStuck c ac reached k)

  pub list_of-watchers :
      (library : Library) (c : CacheName) (informers : Informers) (ac : AuthCache)
      (watchers : List CacheWatcher) (user : Option UserInfo) (options : Option ListOptions)
      → list_of library c informers (record ac { watchers = watchers }) user options
        ≡ list_of library c informers ac user options
  unfolding list_of Registry.rest_list ClusterSets.rest_list ClusterCache.list ClusterSetCache.list
      list_names
  list_of-watchers library clusters informers ac watchers user options = refl
  list_of-watchers library cluster_sets informers ac watchers user options = refl

  -- Once a run of a cache is stuck, every later list over the cache answers as if the records were
  -- those of that moment, whatever the roles and the bindings have become.
  pub stuck_lists_frozen :
      (library : Library) {s t : Server} (c : CacheName) (ac : AuthCache) (informers : Informers)
      (user : Option UserInfo) (options : Option ListOptions)
      → cache_of s c ≡ stuck ac
      → Reaches library s t
      → ((watchers : List CacheWatcher) × (cache_of t c
            ≡ stuck (record ac { watchers = watchers })))
        × (list_of library c informers (after (cache_of t c)) user options
            ≡ list_of library c informers ac user options)
  stuck_lists_frozen library {s} {t} c ac informers user options here reached =
      let (ws, e) = reached-IsStuck c ac reached (ac.watchers, here) in
      (
        (ws, e),
        ap (λ o. list_of library c informers (after o) user options) e
            ∙ list_of-watchers library c informers ac ws user options,
      )
