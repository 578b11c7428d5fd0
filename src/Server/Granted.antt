-- ===== src/Server/Granted.antt =====
-- pkg/cmd/server.go: the bindings of RBAC over the time of the server, and what is listed.
use mathlib.Core.List.{Memᴰ}
use mathlib.Core.Path.{subst}
use clusterset_server.Base.{
  ◌≡◌, ◌≢◌, ℕ, sym, ap, ◌∙◌, Bool, true, false, ◌||◌, Bool-cases, Option, some, List, [], String,
  arith, inl, inr, any, contains, Result, ok, err, Result-cases, mem_of_any, any_of_mem,
}
use clusterset_server.Platform.{Platform}
use clusterset_server.Objects.{Object, UserInfo}
use clusterset_server.Rbac.{Subject, ClusterRoleBinding, Attributes}
use clusterset_server.Rbac.Locator.{SubjectAccessEvaluator, allowed_subjects}
use clusterset_server.Rbac.Locator.Spec.{allowed_subjects_iff, allowed_subjects_unlisted}
use clusterset_server.Rbac.Reviewer.{
  Review, get_action, review, SplitsSubjects, MayGet, names_user, names_group,
}
use clusterset_server.AuthCache.Consistency.{
  IsConsistent-IgnoresWatchers, IsConsistent, new_auth_cache-IsConsistent, synchronize-IsConsistent,
  find_record,
}
use clusterset_server.AuthCache.Names.{list_names}
use clusterset_server.AuthCache.Listing.{list_names_exact}
use clusterset_server.AuthCache.Exactness.{grants}
use clusterset_server.AuthCache.Granted.{Denies, shows, shows-none, synchronize-Hides}
use clusterset_server.AuthCache.Keeps.{IgnoresWatchers}
use clusterset_server.AuthCache.Records.{review_record_key}
use clusterset_server.AuthCache.Sync.{synchronize}
use clusterset_server.AuthCache.State.{AuthCache, after, new_auth_cache}
use clusterset_server.ClusterCache
use clusterset_server.ClusterCache.Access.{cluster_group, names}
use clusterset_server.ClusterCache.Listing.{IsLister, list_exact}
use clusterset_server.Registry
use clusterset_server.Registry.{ListOptions, label_selector_of}
use clusterset_server.Server.{
  CacheName, clusters, cluster_sets, Library, Informers, evaluator_of, surroundings_of, list_of,
  run_cache, actions_of, post_start_hooks, Server, new_filter_server, cache_of, Reaches,
}
use clusterset_server.Server.Steps.{
  Any, EveryRun, IsServerInvariant, IsServerInvariant-of_IgnoresWatchers, reached-Holds,
}

-- the bindings that a run sees: none without their list
abbrev pub seen_bindings : Result (List ClusterRoleBinding) → List ClusterRoleBinding
seen_bindings (err e) = []
seen_bindings (ok bindings) = bindings

MayGet-of_mem :
    (evaluator : SubjectAccessEvaluator) (action : Attributes) (s : Subject)
    → Memᴰ s (allowed_subjects evaluator action).subjects
    → MayGet evaluator (seen_bindings evaluator.list_bindings) action s
MayGet-of_mem evaluator action s m = elim (Result-cases evaluator.list_bindings) [
  | inl (bindings, listed) ↦
      subst (λ o. MayGet evaluator (seen_bindings o) action s) (sym listed)
        ((allowed_subjects_iff evaluator action s bindings listed).0 m)
  | inr (e, failed) ↦ inl (((allowed_subjects_unlisted evaluator action e failed).0 s).0 m)
]

module _ (library : Library) (account : String → Subject → String → Bool)
    (splits : SplitsSubjects library.split account) where
  names_of_user :
      (s : Subject) (user : UserInfo)
      → (names_user s user.name || account "" s user.name) ≡ true
      → names account s user ≡ true
  names_of_user s user h = ground arith

  names_of_group :
      (s : Subject) (user : UserInfo) (g : String)
      → Memᴰ g user.groups
      → names_group s g ≡ true
      → names account s user ≡ true
  names_of_group s user g m h =
      let found : any (names_group s) user.groups ≡ true =
        any_of_mem (names_group s) user.groups m h in
      ground arith

  -- A review that grants the user is one of a subject that may get the resource and names the user.
  subject_of_grants :
      (evaluator : SubjectAccessEvaluator) (group resource n : String) (v : Review)
      (user : UserInfo)
      → review library.split library.text evaluator group resource n ≡ ok v
      → grants v user ≡ true
      → (s : Subject) × Memᴰ s (allowed_subjects evaluator (get_action group resource n)).subjects
        × (names account s user ≡ true)
  unfolding review
  subject_of_grants evaluator group resource n v user reviewed h =
      let found = (allowed_subjects evaluator (get_action group resource n)).subjects in
      let users : v.users ≡ (library.split found "").0 = ground arith in
      let groups : v.groups ≡ (library.split found "").1 = ground arith in
      elim (Bool-cases (contains v.users user.name)) [
        | inl there ↦
            let (s, m, e) =
              mem_of_any (λ s. names_user s user.name || account "" s user.name) found
                (sym (splits.users-split found "" user.name)
                  ∙ ap (λ us. contains us user.name) (sym users)
                  ∙ there) in
            (s, m, names_of_user s user e)
        | inr missing ↦
            let (g, k, there) = mem_of_any (contains v.groups) user.groups (ground arith) in
            let (s, m, e) =
              mem_of_any (λ s. names_group s g) found
                (sym (splits.groups-split found "" g)
                  ∙ ap (λ gs. contains gs g) (sym groups)
                  ∙ there) in
            (s, m, names_of_group s user g k e)
      ]

  module _ ⦃P : Platform⦄ (user : UserInfo) (n : String) where
    open P use {has, find-new_store}

    -- No subject that may get the cluster names the user.
    abbrev pub IsUnbound : Informers → Type 0
    IsUnbound informers =
        (s : Subject)
        → MayGet (evaluator_of informers) (seen_bindings informers.list_bindings)
            (get_action cluster_group "managedclusters" n) s
        → names account s user ≡ false

    pub Denies_of_IsUnbound :
        (informers : Informers) (ac : AuthCache)
        → IsUnbound informers
        → Denies (surroundings_of library clusters informers ac) user n
    unfolding surroundings_of ClusterCache.surroundings
    Denies_of_IsUnbound informers ac unbound v reviewed = elim (Bool-cases (grants v user)) [
      | inr denied ↦ denied
      | inl granted ↦
          let action = get_action cluster_group "managedclusters" n in
          let (s, m, e) =
            subject_of_grants (evaluator_of informers) cluster_group "managedclusters" n v user
              reviewed granted in
          absurd (ground (arith, e, unbound s (MayGet-of_mem (evaluator_of informers) action s m)))
    ]

    -- The cache is consistent, and that of clusters does not show the user the name.
    abbrev pub IsHiding : CacheName → AuthCache → Type 0
    IsHiding clusters ac = IsConsistent ac × (shows (find_record ac n) user ≡ false)
    IsHiding cluster_sets ac = Unit

    pub IsHiding-IsServerInvariant : IsServerInvariant library IsUnbound Any IsHiding
    IsHiding-IsServerInvariant =
        IsServerInvariant-of_IgnoresWatchers library IsUnbound IsHiding ignores new run
      where
        ignores : (c : CacheName) → IgnoresWatchers (IsHiding c)
        ignores clusters ac watchers (h, hidden) =
            (IsConsistent-IgnoresWatchers ac watchers h, hidden)
        ignores cluster_sets ac watchers h = tt

        new : (c : CacheName) → IsHiding c new_auth_cache
        new clusters =
            (new_auth_cache-IsConsistent, rw (find-new_store review_record_key n) (shows-none user))
        new cluster_sets = tt

        run :
            (c : CacheName) (period : ℕ) (informers : Informers) (ac : AuthCache)
            → Memᴰ (run_cache c period) (actions_of post_start_hooks)
            → IsUnbound informers
            → IsHiding c ac
            → IsHiding c (after (synchronize (surroundings_of library c informers ac) ac))
        run clusters period informers ac hooked unbound (h, hidden) =
            let s = surroundings_of library clusters informers ac in
            (
              synchronize-IsConsistent s ac h,
              synchronize-Hides s user n ac (Denies_of_IsUnbound informers ac unbound) hidden,
            )
        run cluster_sets period informers ac hooked unbound h = tt

    -- Where subjects are split as documented, and at no run so far a subject that may get the
    -- cluster names the user, the user's account or one of the user's groups, a list of clusters by
    -- the user, with a lister that is an index by name, succeeds, and gives listed clusters only,
    -- and not this one.
    pub never_bound_never_listed :
        {s : Server} (reached : Reaches library new_filter_server s) (informers : Informers)
        (objects : List Object) (options : Option ListOptions)
        → EveryRun IsUnbound reached
        → IsLister informers.cluster_lister objects
        → (items : List Object) × (list_of library clusters informers
              (after (cache_of s clusters))
              (some user)
              options
            ≡ ok items)
          × ((c : Object) → Memᴰ c items → Memᴰ c objects × (c.name ≢ n))
    unfolding list_of Registry.rest_list
    never_bound_never_listed {s} reached informers objects options runs h =
        let ac : AuthCache = after (cache_of s clusters) in
        let (consistent, hidden) =
          reached-Holds library IsUnbound Any IsHiding IsHiding-IsServerInvariant reached runs
            clusters in
        let unlisted : has (list_names ac user) n ≡ false =
          list_names_exact ac user n consistent ∙ hidden in
        let (items, found, inside) =
          list_exact informers.cluster_lister objects ac user (label_selector_of options) h in
        (
          items,
          found,
          λ c m.
              let (there, visible, _) = (inside c).0 m in
              (
                there,
                λ same. absurd (
                    ground (
                      arith,
                      sym (subst (λ k. has (list_names ac user) k ≡ true) same visible) ∙ unlisted,
                    )),
              ),
        )
