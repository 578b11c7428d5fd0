-- ===== src/Server/Told.antt =====
-- pkg/cmd/server.go: the bindings of RBAC over the time of the server, and what watchers are told.
use mathlib.Core.List.{Memᴰ}
use clusterset_server.Base.{◌≡◌, ◌∙◌, ℕ, Bool, false, List, ◌∷◌, ◌++◌, String, ◌==◌, any}
use clusterset_server.Platform.{Platform}
use clusterset_server.Objects.{UserInfo, Event}
use clusterset_server.Rbac.{Subject}
use clusterset_server.Rbac.Reviewer.{SplitsSubjects}
use clusterset_server.Watcher.{group_membership_changed, CacheWatcher, new_cache_watcher}
use clusterset_server.Watcher.Spared.{is_about}
use clusterset_server.AuthCache.Each.{
  Each, Each-Mem, Each-append, Each-Removed, Each-replace, synchronize-Each,
}
use clusterset_server.AuthCache.Keeps.{IsNotice}
use clusterset_server.AuthCache.Listing.{list_names_exact}
use clusterset_server.AuthCache.Notify.{add_watcher, remove_watcher}
use clusterset_server.AuthCache.Removal.{remove_watcher_removes}
use clusterset_server.AuthCache.State.{AuthCache, after, new_auth_cache}
use clusterset_server.AuthCache.Sync.{synchronize}
use clusterset_server.ClusterCache
use clusterset_server.ClusterCache.{Lister, everything, found_or_named}
use clusterset_server.ClusterCache.Silence.{notice_denied}
use clusterset_server.Server.{
  CacheName, clusters, cluster_sets, Library, Informers, run_cache, actions_of, post_start_hooks,
  surroundings_of, lister_of, Server, new_filter_server, cache_of, Reaches,
}
use clusterset_server.Server.Granted.{
  IsUnbound, Denies_of_IsUnbound, IsHiding, IsHiding-IsServerInvariant,
}
use clusterset_server.Server.Steps.{EveryRead, IsServerInvariant, reached-Holds}
use clusterset_server.Watcher.Knowledge.{left_by}
use clusterset_server.Server.Spares.{
  IsIndex, SparesUser, tell-SparesUser, made-SparesUser, IsSpared-received,
}

module _ ⦃P : Platform⦄ where
  open P use {StringSet, has, has_any}

  module _ (library : Library) (account : String → Subject → String → Bool)
      (splits : SplitsSubjects library.split account) (user : UserInfo) (n : String) where
    abbrev Unbound : Informers → Type 0
    Unbound informers = IsUnbound library account splits user n informers × IsIndex informers

    abbrev Spares : CacheWatcher → Type 0
    Spares w = SparesUser user n w

    -- The cache hides the name from the user, and spares the user's watchers it.
    abbrev IsSilent : CacheName → AuthCache → Type 0
    IsSilent clusters ac =
        IsHiding library account splits user n clusters ac × Each Spares ac.watchers
    IsSilent cluster_sets ac = Unit

    notice-Spares :
        (informers : Informers) (ac : AuthCache)
        → Unbound informers
        → (name : String) (users groups : StringSet)
        → IsNotice (surroundings_of library clusters informers ac) name users groups
        → (w : CacheWatcher) → Spares w
        → Spares (
            left_by (
              group_membership_changed
                (surroundings_of library clusters informers ac).watchable
                w
                name
                users
                groups))
    notice-Spares informers ac (unbound, index) name users groups notice w =
        tell-SparesUser user n library informers ac w name users groups index (
          notice_denied (surroundings_of library clusters informers ac) user n name users groups
            (Denies_of_IsUnbound library account splits user n informers ac unbound) notice)

    run-IsSilent :
        (period : ℕ) (informers : Informers) (ac : AuthCache)
        → Memᴰ (run_cache clusters period) (actions_of post_start_hooks)
        → Unbound informers
        → IsSilent clusters ac
        → IsSilent clusters (after (synchronize (surroundings_of library clusters informers ac) ac))
    run-IsSilent period informers ac hooked (unbound, index) (hiding, each) = (
      (IsHiding-IsServerInvariant library account splits user n).at_run clusters period informers ac
          hooked unbound hiding,
      synchronize-Each Spares (surroundings_of library clusters informers ac)
          (notice-Spares informers ac (unbound, index)) ac each,
    )

    watch-IsSilent :
        (informers : Informers) (ac : AuthCache) (id : ℕ) (watching : UserInfo)
        (allowed : StringSet) (include_all : Bool)
        → IsIndex informers
        → IsSilent clusters ac
        → IsSilent clusters (
            add_watcher ac (
              new_cache_watcher id watching allowed
                (ClusterCache.watchable informers.cluster_lister ac)
                include_all))
    unfolding add_watcher
    watch-IsSilent informers ac id watching allowed include_all index (hiding, each) = (
      (IsHiding-IsServerInvariant library account splits user n).at_watch clusters informers ac id
          watching allowed include_all tt hiding,
      Each-append Spares ac.watchers _ each (
        made-SparesUser user n informers ac id watching allowed include_all index
            (list_names_exact ac user n hiding.0 ∙ hiding.1),
        tt,
      ),
    )

    IsSilent-IsServerInvariant : IsServerInvariant library Unbound IsIndex IsSilent
    IsSilent-IsServerInvariant = record {
      at_new = new;
      at_run = run;
      at_watch = watching;
      at_end = end;
      at_receive = receive;
    }
      where
        new : (c : CacheName) → IsSilent c new_auth_cache
        new clusters =
            ((IsHiding-IsServerInvariant library account splits user n).at_new clusters, tt)
        new cluster_sets = tt

        run :
            (c : CacheName) (period : ℕ) (informers : Informers) (ac : AuthCache)
            → Memᴰ (run_cache c period) (actions_of post_start_hooks)
            → Unbound informers
            → IsSilent c ac
            → IsSilent c (after (synchronize (surroundings_of library c informers ac) ac))
        run clusters period informers ac hooked q h = run-IsSilent period informers ac hooked q h
        run cluster_sets period informers ac hooked q h = tt

        watching :
            (c : CacheName) (informers : Informers) (ac : AuthCache) (id : ℕ) (u : UserInfo)
            (allowed : StringSet) (include_all : Bool)
            → IsIndex informers
            → IsSilent c ac
            → IsSilent c (
                add_watcher ac (
                  new_cache_watcher id u allowed
                    (ClusterCache.watchable (lister_of c informers) ac)
                    include_all))
        watching clusters informers ac id u allowed include_all index h =
            watch-IsSilent informers ac id u allowed include_all index h
        watching cluster_sets informers ac id u allowed include_all index h = tt

        end :
            (c : CacheName) (ac : AuthCache) (id : ℕ)
            → IsSilent c ac
            → IsSilent c (remove_watcher ac id)
        end clusters ac id (hiding, each) = (
          (IsHiding-IsServerInvariant library account splits user n).at_end clusters ac id hiding,
          Each-Removed Spares id ac.watchers _ (remove_watcher_removes ac id).0 each,
        )
        end cluster_sets ac id h = tt

        receive :
            (c : CacheName) (ac : AuthCache) (front back : List CacheWatcher) (w : CacheWatcher)
            (e : Event) (rest : List Event)
            → ac.watchers ≡ front ++ w ∷ back
            → w.incoming ≡ e ∷ rest
            → IsSilent c ac
            → IsSilent c (record ac { watchers = front ++ record w { incoming = rest } ∷ back })
        receive clusters ac front back w e rest split full (hiding, each) = (
          (IsHiding-IsServerInvariant library account splits user n).at_receive clusters ac front
              back w e rest split full hiding,
          Each-replace Spares front w _ back ac.watchers split
              (IsSpared-received user n w e rest full) each,
        )
        receive cluster_sets ac front back w e rest split full h = tt

    -- Where subjects are split as documented, at no run so far a subject that may get the cluster
    -- names the user, the user's account or one of the user's groups, and the lister of clusters was
    -- an index by name at every run and at every watch, no watcher of the user has the cluster among
    -- its initial objects, and no event about it waits in its channel.
    pub never_bound_never_told :
        {s : Server} (reached : Reaches library new_filter_server s) (w : CacheWatcher)
        → EveryRead Unbound IsIndex reached
        → Memᴰ w (after (cache_of s clusters)).watchers
        → w.user ≡ user
        → (any (is_about n) w.incoming ≡ false)
          × (any (λ object. object.name == n) w.initial_resources ≡ false)
    never_bound_never_told {s} reached w reads m mine =
        let silent =
          reached-Holds library Unbound IsIndex IsSilent IsSilent-IsServerInvariant reached reads
            clusters in
        let spared = Each-Mem Spares (after (cache_of s clusters)).watchers silent.1 w m mine in
        (spared.unheard, spared.uninitial)
