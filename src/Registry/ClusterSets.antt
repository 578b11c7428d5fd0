-- ===== src/Registry/ClusterSets.antt =====
-- pkg/registry/managedclusterset/storage.go: the handlers of a get, of a list and of a watch of cluster sets.
-- The file repeats managedcluster/storage.go over the cache of cluster sets.
pub mod Same
use clusterset_server.Base.{
  ℕ, Bool, true, Option, none, some, List, [], ◌∷◌, Error, failure, Result, ok, err, ◌>>=◌, String,
  if◌then◌else◌,
}
use clusterset_server.Platform.{Platform}
use clusterset_server.Objects.{Object, UserInfo}
use clusterset_server.Watcher.{CacheWatcher, new_cache_watcher}
use clusterset_server.AuthCache.State.{AuthCache}
use clusterset_server.AuthCache.Notify.{add_watcher}
use clusterset_server.ClusterSetCache
use clusterset_server.Scope.{scopes_to_visible_namespaces}
use clusterset_server.Registry.{
  Rest, ListOptions, GetOptions, label_selector_of, aggregated, include_all_existing,
}

-- `Get`, which drops its options
unfoldable pub rest_get : Rest → String → Option GetOptions → Result Object
rest_get rest name options = rest.client.get_cluster_set name (record { resource_version = "" })

module _ ⦃P : Platform⦄ where
  open P use {StringSet, empty, insert_all, has}

  -- `List`; `user` is what the context holds
  unfoldable pub rest_list :
      Rest → AuthCache → Option UserInfo → Option ListOptions → Result (List Object)
  rest_list rest ac none options = err (
      rest.forbidden "managedclustersets" ""
        (failure "unable to list projects without a user on the context"))
  rest_list rest ac (some user) options =
      ClusterSetCache.list rest.lister ac user (label_selector_of options)

  -- the loop of `Watch` over the objects
  unfoldable pub allowed_from : StringSet → StringSet → List Object → StringSet
  allowed_from allowed namespaces [] = allowed
  allowed_from allowed namespaces (clusterset ∷ clustersets) =
      allowed_from
        (if has namespaces clusterset.name
          then insert_all allowed (clusterset.name ∷ [])
          else allowed)
        namespaces clustersets

  -- `Watch`; no context is a nil interface
  unfoldable pub watch :
      Rest
      → ℕ
      → Option (Option UserInfo)
      → Option ListOptions
      → AuthCache
      → Result (CacheWatcher × AuthCache)
  watch rest id none options ac = err (failure "Context is nil")
  watch rest id (some none) options ac = err (failure "no user")
  watch rest id (some (some user)) options ac =
      let visible = scopes_to_visible_namespaces rest.library rest.get_role user.scopes true in
      elim (aggregated rest visible.errors) [
        | some e ↦ err e
        | none ↦ do
          clustersets ← rest.lister.list_all
          let w =
              new_cache_watcher id user (allowed_from empty visible.namespaces clustersets)
                (ClusterSetCache.watchable rest.lister ac) (include_all_existing options)
          ok (w, add_watcher ac w)
      ]
