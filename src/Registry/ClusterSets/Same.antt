-- ===== src/Registry/ClusterSets/Same.antt =====
-- pkg/registry/managedclusterset/storage.go against managedcluster/storage.go.
use clusterset_server.Base.{
  ◌≡◌, refl, ℕ, true, Option, none, some, Option-cases, List, [], ◌∷◌, Result-cases, inl, inr,
  arith, if◌then◌else◌,
}
use clusterset_server.Platform.{Platform}
use clusterset_server.Objects.{Object, UserInfo}
use clusterset_server.AuthCache.State.{AuthCache}
use clusterset_server.ClusterSetCache.Same.{list_same, watchable_same}
use clusterset_server.Scope.{scopes_to_visible_namespaces}
use clusterset_server.Registry
use clusterset_server.Registry.{
  Rest, ListOptions, GetOptions, aggregated, include_all_existing, label_selector_of,
}
use clusterset_server.Registry.ClusterSets

module _ ⦃P : Platform⦄ where
  open P use {StringSet, empty, insert_all, has}

  allowed_from_same :
      (allowed namespaces : StringSet) (objects : List Object)
      → ClusterSets.allowed_from allowed namespaces objects
        ≡ Registry.allowed_from allowed namespaces objects
  unfolding ClusterSets.allowed_from Registry.allowed_from
  allowed_from_same allowed namespaces [] = refl
  allowed_from_same allowed namespaces (c ∷ objects) =
      allowed_from_same
        (if has namespaces c.name then insert_all allowed (c.name ∷ []) else allowed) namespaces
        objects

  watch_user_same :
      (rest : Rest) (id : ℕ) (user : UserInfo) (options : Option ListOptions) (ac : AuthCache)
      → ClusterSets.watch rest id (some (some user)) options ac
        ≡ Registry.watch rest id (some (some user)) options ac
  unfolding ClusterSets.watch Registry.watch Registry.watch_user
  watch_user_same rest id user options ac =
      let visible = scopes_to_visible_namespaces rest.library rest.get_role user.scopes true in
      elim (Option-cases (aggregated rest visible.errors)) [
        | inr (e, failed) ↦ ground arith
        | inl fine ↦ elim (Result-cases rest.lister.list_all) [
          | inl (objects, listed) ↦ ground (
            arith,
            allowed_from_same empty visible.namespaces objects,
            watchable_same rest.lister ac,
          )
          | inr (e, failed) ↦ ground arith
        ]
      ]

  watch_same :
      (rest : Rest) (id : ℕ) (context : Option (Option UserInfo)) (options : Option ListOptions)
      (ac : AuthCache)
      → ClusterSets.watch rest id context options ac ≡ Registry.watch rest id context options ac
  unfolding ClusterSets.watch Registry.watch
  watch_same rest id none options ac = refl
  watch_same rest id (some none) options ac = refl
  watch_same rest id (some (some user)) options ac = watch_user_same rest id user options ac

  -- The handlers of cluster sets answer as those of clusters do over the same lister and cache: to
  -- every list by a user and to every request for a watch, with or without a user, errors included.
  pub cluster_set_rest_same :
      (rest : Rest) (ac : AuthCache) (options : Option ListOptions)
      → ((user : UserInfo)
          → ClusterSets.rest_list rest ac (some user) options
            ≡ Registry.rest_list rest ac (some user) options)
        × ((id : ℕ) (context : Option (Option UserInfo))
            → ClusterSets.watch rest id context options ac
              ≡ Registry.watch rest id context options ac)
  unfolding ClusterSets.rest_list Registry.rest_list
  cluster_set_rest_same rest ac options = (
    λ user. list_same rest.lister ac user (label_selector_of options),
    λ id context. watch_same rest id context options ac,
  )
