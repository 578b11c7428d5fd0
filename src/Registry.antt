-- ===== src/Registry.antt =====
-- pkg/registry/managedcluster/storage.go and, with the same text for cluster sets,
-- managedclusterset/storage.go: the handlers of a get, of a list and of a watch; and matcher.go of
-- pkg/apis/helpers.
pub mod Scoped
pub mod ClusterSets
use clusterset_server.Base.{
  ℕ, Bool, true, false, ◌&&◌, Option, none, some, List, [], ◌∷◌, String, ◌==◌, StringMap, Error,
  failure, Result, ok, err, ◌>>=◌, if◌then◌else◌,
}
use clusterset_server.Platform.{Platform}
use clusterset_server.Objects.{Object, UserInfo}
use clusterset_server.Rbac.{ClusterRole}
use clusterset_server.Watcher.{CacheWatcher, new_cache_watcher}
use clusterset_server.AuthCache.State.{AuthCache}
use clusterset_server.AuthCache.Notify.{add_watcher}
use clusterset_server.ClusterCache.{Lister, everything, watchable}
use clusterset_server.ClusterCache as ClusterCache
use clusterset_server.Scope.{ScopeMetadata, scopes_to_visible_namespaces}

-- `ListOptions`; no selector is a nil interface
pub record ListOptions : Type 0 where
  pub resource_version : String
  pub label_selector : Option (StringMap → Bool)

-- The label selector of `InternalListOptionsToSelectors`; the callers drop the field selector.
unfoldable pub label_selector_of : Option ListOptions → StringMap → Bool
label_selector_of none = everything
label_selector_of (some options) = elim options.label_selector [
  | none ↦ everything
  | some selector ↦ selector
]

-- `GetOptions`
pub record GetOptions : Type 0 where
  pub resource_version : String

-- The `Get` of the client for either kind of object.
pub record Client : Type 0 where
  pub get_cluster : String → GetOptions → Result Object
  pub get_cluster_set : String → GetOptions → Result Object

-- What `REST` holds: the lister of its objects and that of the roles, the client, and the scopes
-- library. `aggregate` makes one error of some, and `forbidden` is `errors.NewForbidden` of a
-- resource, a name and an error, with `clusterv1.Resource` (`clusterv1alpha1.Resource`) applied.
pub record Rest : Type 0 where
  pub lister : Lister
  pub get_role : String → Result ClusterRole
  pub client : Client
  pub library : ScopeMetadata
  pub aggregate : List Error → Error
  pub forbidden : String → String → Error → Error

-- the second result of `NewAggregate`: nil without errors
abbrev pub aggregated : Rest → List Error → Option Error
aggregated rest [] = none
aggregated rest (e ∷ errors) = some (rest.aggregate (e ∷ errors))

-- `Get`, which drops its options
unfoldable pub rest_get : Rest → String → Option GetOptions → Result Object
rest_get rest name options = rest.client.get_cluster name (record { resource_version = "" })

module _ ⦃P : Platform⦄ where
  open P use {StringSet, empty, insert_all, has}

  -- `List`; `user` is what the context holds
  unfoldable pub rest_list :
      Rest → AuthCache → Option UserInfo → Option ListOptions → Result (List Object)
  rest_list rest ac none options = err (
      rest.forbidden "managedclusters" ""
        (failure "unable to list projects without a user on the context"))
  rest_list rest ac (some user) options =
      ClusterCache.list rest.lister ac user (label_selector_of options)

  -- options != nil && options.ResourceVersion == "0"
  abbrev pub include_all_existing : Option ListOptions → Bool
  include_all_existing none = false
  include_all_existing (some options) = options.resource_version == "0"

  -- the loop of `Watch` over the objects
  unfoldable pub allowed_from : StringSet → StringSet → List Object → StringSet
  allowed_from allowed namespaces [] = allowed
  allowed_from allowed namespaces (cluster ∷ clusters) =
      allowed_from
        (if has namespaces cluster.name then insert_all allowed (cluster.name ∷ []) else allowed)
        namespaces clusters

  -- `Watch` behind the lookup of the user; `id` is the address of the watcher that it makes.
  unfoldable pub watch_user :
      Rest → ℕ → UserInfo → Option ListOptions → AuthCache → Result (CacheWatcher × AuthCache)
  watch_user rest id user options ac =
      let visible = scopes_to_visible_namespaces rest.library rest.get_role user.scopes true in
      elim (aggregated rest visible.errors) [
        | some e ↦ err e
        | none ↦ do
          clusters ← rest.lister.list_all
          let w =
              new_cache_watcher id user (allowed_from empty visible.namespaces clusters)
                (watchable rest.lister ac) (include_all_existing options)
          ok (w, add_watcher ac w)
      ]

  -- `Watch`; no context is a nil interface
  unfoldable pub watch :
      Rest
      → ℕ
      → Option (Option UserInfo)
      → Option ListOptions
      → AuthCache
      → Result (CacheWatcher × AuthCache)
  watch rest id none options ac = err (failure "Context is nil")
  watch rest id (some none) options ac = err (failure "no user")
  watch rest id (some (some user)) options ac = watch_user rest id user options ac
