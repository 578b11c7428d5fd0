-- ===== src/Server/Steady.antt =====
-- pkg/cmd/server.go: what is listed while the bindings and the roles of RBAC stay as they are.
use mathlib.Core.List.{Memᴰ}
use mathlib.Core.Path.{subst}
use clusterset_server.Base.{
  ◌≡◌, ◌↔◌, refl, ap, ◌∙◌, ℕ, Bool, true, Option, some, List, [], String, ok,
}
use clusterset_server.Platform.{Platform}
use clusterset_server.Objects.{Object, UserInfo}
use clusterset_server.Rbac.{Subject, ClusterRoleBinding}
use clusterset_server.Rbac.Reviewer.{Review, get_action, review, SplitsSubjects, MayGet}
use clusterset_server.AuthCache.Capacity.{most_notifications, synchronize_done}
use clusterset_server.AuthCache.Room.{Room}
use clusterset_server.AuthCache.Consistency.{
  IsConsistent, IsConsistent-IgnoresWatchers, new_auth_cache-IsConsistent, synchronize-IsConsistent,
}
use clusterset_server.AuthCache.Coverage.{ReviewsAll}
use clusterset_server.AuthCache.Exactness.{IsFresh, synchronize-IsFresh, synchronize_exact}
use clusterset_server.AuthCache.Keeps.{IgnoresWatchers}
use clusterset_server.AuthCache.Returns.{IsFresh-new_auth_cache}
use clusterset_server.AuthCache.State.{AuthCache, done, after, new_auth_cache}
use clusterset_server.AuthCache.Sync.{synchronize}
use clusterset_server.ClusterCache
use clusterset_server.ClusterCache.{requests_from}
use clusterset_server.ClusterCache.Access.{
  cluster_group, names, reviewed, review-reviewed, reviewed_exact, list_of_granted,
}
use clusterset_server.ClusterCache.Listing.{IsLister}
use clusterset_server.Registry
use clusterset_server.Registry.{ListOptions, label_selector_of}
use clusterset_server.Server.{
  CacheName, clusters, cluster_sets, Library, Informers, run_cache, actions_of, post_start_hooks,
  evaluator_of, surroundings_of, list_of, Server, new_filter_server, cache_of, Reaches,
}
use clusterset_server.Server.Steps.{
  Any, EveryRun, IsServerInvariant, IsServerInvariant-of_IgnoresWatchers, reached-Holds,
}

module _ (library : Library) (account : String → Subject → String → Bool)
    (splits : SplitsSubjects library.split account) (informers : Informers)
    (bindings : List ClusterRoleBinding) (listed : informers.list_bindings ≡ ok bindings) where
  -- The bindings and the roles are those of `informers`.
  abbrev pub IsSteady : Informers → Type 0
  IsSteady now = evaluator_of now ≡ evaluator_of informers

  -- what the reviewer says of a cluster
  abbrev pub verdict : String → Review
  verdict =
      reviewed library.split library.text account splits (evaluator_of informers) bindings listed
        "managedclusters"

  module _ ⦃P : Platform⦄ where
    pub reviews_all :
        (now : Informers) (ac : AuthCache)
        → IsSteady now
        → ReviewsAll (surroundings_of library clusters now ac) verdict
    unfolding surroundings_of ClusterCache.surroundings
    reviews_all now ac same n =
        ap (λ e. review library.split library.text e cluster_group "managedclusters" n) same
        ∙ review-reviewed library.split library.text account splits (evaluator_of informers)
            bindings listed "managedclusters" n

    abbrev IsCurrent : CacheName → AuthCache → Type 0
    IsCurrent clusters ac = IsConsistent ac × IsFresh verdict ac
    IsCurrent cluster_sets ac = Unit

    IsCurrent-IsServerInvariant : IsServerInvariant library IsSteady Any IsCurrent
    IsCurrent-IsServerInvariant =
        IsServerInvariant-of_IgnoresWatchers library IsSteady IsCurrent ignores new run
      where
        ignores : (c : CacheName) → IgnoresWatchers (IsCurrent c)
        ignores clusters ac watchers (h, fresh) =
            (IsConsistent-IgnoresWatchers ac watchers h, record { at = fresh.at })
        ignores cluster_sets ac watchers h = tt

        new : (c : CacheName) → IsCurrent c new_auth_cache
        new clusters = (new_auth_cache-IsConsistent, IsFresh-new_auth_cache verdict)
        new cluster_sets = tt

        run :
            (c : CacheName) (period : ℕ) (now : Informers) (ac : AuthCache)
            → Memᴰ (run_cache c period) (actions_of post_start_hooks)
            → IsSteady now
            → IsCurrent c ac
            → IsCurrent c (after (synchronize (surroundings_of library c now ac) ac))
        run clusters period now ac hooked same (h, fresh) =
            let s = surroundings_of library clusters now ac in
            (
              synchronize-IsConsistent s ac h,
              synchronize-IsFresh s verdict ac (reviews_all now ac same) fresh,
            )
        run cluster_sets period now ac hooked same h = tt

    pub sync_requests-listed :
        (objects : List Object) (ac : AuthCache)
        → IsLister informers.cluster_lister objects
        → (surroundings_of library clusters informers ac).sync_requests
          ≡ ok (requests_from [] objects)
    unfolding surroundings_of ClusterCache.surroundings ClusterCache.list_resources
    sync_requests-listed objects ac h = rw (h.listed_all, ClusterCache.list_resources)

    -- What a list gives after a run that returns, from consistent stores of what the reviewer says.
    pub returned_list_exact :
        (objects : List Object) (ac ac' : AuthCache) (user : UserInfo)
        (options : Option ListOptions)
        → IsConsistent ac
        → IsFresh verdict ac
        → IsLister informers.cluster_lister objects
        → synchronize (surroundings_of library clusters informers ac) ac ≡ done tt ac'
        → (items : List Object) × (list_of library clusters informers ac' (some user) options
            ≡ ok items)
          × ((c : Object)
              → Memᴰ c items ↔ (
                  Memᴰ c objects
                  × ((s : Subject) × MayGet
                        (evaluator_of informers)
                        bindings
                        (get_action cluster_group "managedclusters" c.name)
                        s
                      × (names account s user ≡ true))
                  × (label_selector_of options c.labels ≡ true)))
    unfolding list_of Registry.rest_list
    returned_list_exact objects ac ac' user options consistent fresh h returned =
        let (_, _, exact) =
          synchronize_exact (surroundings_of library clusters informers ac)
            (requests_from [] objects) verdict ac ac' (sync_requests-listed objects ac h)
            (reviews_all informers ac refl) consistent fresh returned in
        let (items, found, inside) =
          list_of_granted informers.cluster_lister objects verdict ac' user
            (label_selector_of options) h (exact user) in
        let granted =
          reviewed_exact library.split library.text account splits (evaluator_of informers) bindings
            listed "managedclusters" in
        (
          items,
          found,
          λ c. (
            λ m.
                let (there, grant, selected) = (inside c).0 m in
                (there, (granted c.name user).0 grant, selected),
            λ (there, may, selected). (inside c).1 (there, (granted c.name user).1 may, selected),
          ),
        )

    -- Where subjects are split as documented, the bindings and the roles were the same at every run
    -- so far, with the bindings listed, and the channels have room for what a run can send, a run
    -- with them and a lister that is an index by name returns, and then a list of clusters by any
    -- user gives exactly the listed clusters that a subject may get which names the user, the user's
    -- account or one of the user's groups, of those that the selector matches.
    pub steady_list_exact :
        {s : Server} (reached : Reaches library new_filter_server s) (objects : List Object)
        (ac : AuthCache)
        → EveryRun IsSteady reached
        → IsLister informers.cluster_lister objects
        → cache_of s clusters ≡ done tt ac
        → Room (most_notifications (surroundings_of library clusters informers ac) ac) ac.watchers
        → (ac' : AuthCache) × (synchronize (surroundings_of library clusters informers ac) ac
            ≡ done tt ac')
          × ((user : UserInfo) (options : Option ListOptions)
              → (items : List Object) × (list_of library clusters informers ac' (some user) options
                  ≡ ok items)
                × ((c : Object)
                    → Memᴰ c items ↔ (
                        Memᴰ c objects
                        × ((s : Subject) × MayGet
                              (evaluator_of informers)
                              bindings
                              (get_action cluster_group "managedclusters" c.name)
                              s
                            × (names account s user ≡ true))
                        × (label_selector_of options c.labels ≡ true))))
    steady_list_exact {s} reached objects ac runs h idle room =
        let (ac', returned) =
          synchronize_done (surroundings_of library clusters informers ac) ac room in
        let (consistent, fresh) : IsCurrent clusters ac =
          subst (λ o. IsCurrent clusters (after o)) idle
            (reached-Holds library IsSteady Any IsCurrent IsCurrent-IsServerInvariant reached runs
              clusters) in
        (
          ac',
          returned,
          λ user options.
              returned_list_exact objects ac ac' user options consistent fresh h returned,
        )
