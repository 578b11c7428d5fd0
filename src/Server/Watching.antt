-- ===== src/Server/Watching.antt =====
-- pkg/registry/managedcluster/storage.go and managedclusterset/storage.go, `Watch`: the watcher that
-- a watch of the server adds.
use clusterset_server.Base.{
  ◌≡◌, sym, ◌∙◌, ℕ, Bool, true, Option, none, some, Option-cases, ok, Result-cases, inl, inr, arith,
}
use clusterset_server.Platform.{Platform}
use clusterset_server.Objects.{UserInfo}
use clusterset_server.Watcher.{CacheWatcher, new_cache_watcher}
use clusterset_server.AuthCache.State.{AuthCache}
use clusterset_server.AuthCache.Notify.{add_watcher}
use clusterset_server.Scope.{Visible, scopes_to_visible_namespaces}
use clusterset_server.ClusterCache
use clusterset_server.ClusterCache.{Lister}
use clusterset_server.Registry
use clusterset_server.Registry.{Rest, ListOptions, aggregated, include_all_existing}
use clusterset_server.Registry.ClusterSets.Same.{cluster_set_rest_same}
use clusterset_server.Server.{
  CacheName, clusters, cluster_sets, Library, Informers, watch_of, rest_of, lister_of,
}

module _ ⦃P : Platform⦄ where
  open P use {StringSet, empty}

  -- A watcher that sees the objects of the lister is added.
  abbrev pub IsAdded : Lister → ℕ → AuthCache → CacheWatcher → AuthCache → Type 0
  IsAdded lister id ac w ac' =
      (user : UserInfo) × (allowed : StringSet) × (include_all : Bool) × (w
        ≡ new_cache_watcher id user allowed (ClusterCache.watchable lister ac) include_all)
      × (ac' ≡ add_watcher ac w)

  watch-IsAdded :
      (rest : Rest) (id : ℕ) (context : Option (Option UserInfo)) (options : Option ListOptions)
      (ac ac' : AuthCache) (w : CacheWatcher)
      → Registry.watch rest id context options ac ≡ ok (w, ac')
      → IsAdded rest.lister id ac w ac'
  unfolding Registry.watch Registry.watch_user
  watch-IsAdded rest id none options ac ac' w e = absurd (ground arith)
  watch-IsAdded rest id (some none) options ac ac' w e = absurd (ground arith)
  watch-IsAdded rest id (some (some user)) options ac ac' w e =
      let visible : Visible =
        scopes_to_visible_namespaces rest.library rest.get_role user.scopes true in
      elim (Option-cases (aggregated rest visible.errors)) [
        | inr (e', failed) ↦ absurd (ground arith)
        | inl fine ↦ elim (Result-cases rest.lister.list_all) [
          | inl (objects, listed) ↦ (
            user,
            Registry.allowed_from empty visible.namespaces objects,
            include_all_existing options,
            ground arith,
            ground arith,
          )
          | inr (e', failed) ↦ absurd (ground arith)
        ]
      ]

  pub watch_of-IsAdded :
      (library : Library) (c : CacheName) (informers : Informers) (id : ℕ)
      (context : Option (Option UserInfo)) (options : Option ListOptions) (ac ac' : AuthCache)
      (w : CacheWatcher)
      → watch_of library c informers id context options ac ≡ ok (w, ac')
      → IsAdded (lister_of c informers) id ac w ac'
  unfolding watch_of
  watch_of-IsAdded library clusters informers id context options ac ac' w e =
      watch-IsAdded (rest_of library clusters informers) id context options ac ac' w e
  watch_of-IsAdded library cluster_sets informers id context options ac ac' w e =
      let rest = rest_of library cluster_sets informers in
      let same = (cluster_set_rest_same rest ac options).1 id context in
      watch-IsAdded rest id context options ac ac' w (sym same ∙ e)
