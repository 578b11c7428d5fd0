-- ===== src/Server/Spares.antt =====
-- pkg/cmd/server.go: what a watcher of a user is spared when it is made, is told, and takes an event.
use mathlib.Core.Path.{subst}
use clusterset_server.Base.{
  ◌==◌, ℕ, ◌≡◌, sym, ◌∙◌, Bool, false, ◌||◌, List, ◌∷◌, String, arith, any,
}
use clusterset_server.Platform.{Platform}
use clusterset_server.Objects.{Object, UserInfo, Event}
use clusterset_server.Watcher.{CacheWatcher, has_access, group_membership_changed}
use clusterset_server.Watcher.Knowledge.{left_by}
use clusterset_server.Watcher.Users.{user-group_membership_changed}
use clusterset_server.Watcher.Spared.{
  new_cache_watcher-IsSpared, is_about, IsSpared, IsSpared-group_membership_changed,
}
use clusterset_server.AuthCache.Names.{list_names}
use clusterset_server.Watcher.{new_cache_watcher}
use clusterset_server.ClusterCache.Silence.{listed_without}
use clusterset_server.AuthCache.State.{AuthCache}
use clusterset_server.ClusterCache
use clusterset_server.ClusterCache.{Lister, everything, found_or_named}
use clusterset_server.ClusterCache.Listing.{IsLister}
use clusterset_server.ClusterCache.Silence.{GivesNamed-of_IsLister}
use clusterset_server.Server.{clusters, Library, Informers, surroundings_of}

-- The lister of clusters is an index by name.
abbrev pub IsIndex : Informers → Type 0
IsIndex informers = (objects : List Object) × IsLister informers.cluster_lister objects

module _ ⦃P : Platform⦄ where
  open P use {StringSet, has, has_any}

  module _ (user : UserInfo) (n : String) where
    -- A watcher of the user is spared the name.
    abbrev pub SparesUser : CacheWatcher → Type 0
    SparesUser w = w.user ≡ user → IsSpared n w

    pub tell-SparesUser :
        (library : Library) (informers : Informers) (ac : AuthCache) (w : CacheWatcher)
        (name : String) (users groups : StringSet)
        → IsIndex informers
        → (name ≡ n → (has users user.name || has_any groups user.groups) ≡ false)
        → SparesUser w
        → SparesUser (
            left_by (
              group_membership_changed
                (surroundings_of library clusters informers ac).watchable
                w
                name
                users
                groups))
    unfolding surroundings_of ClusterCache.surroundings has_access
    tell-SparesUser library informers ac w name users groups (objects, h) denied spares same =
        let s = surroundings_of library clusters informers ac in
        let mine : w.user ≡ user =
          sym (user-group_membership_changed s.watchable w name users groups) ∙ same in
        IsSpared-group_membership_changed n s.watchable w name users groups
          (GivesNamed-of_IsLister informers.cluster_lister objects ac h) (spares mine)
          (λ about.
            subst (λ u. (has users u.name || has_any groups u.groups) ≡ false) (sym mine)
              (denied about))

    pub made-SparesUser :
        (informers : Informers) (ac : AuthCache) (id : ℕ) (watching : UserInfo)
        (allowed : StringSet) (include_all : Bool)
        → IsIndex informers
        → has (list_names ac user) n ≡ false
        → SparesUser (
            new_cache_watcher id watching allowed
              (ClusterCache.watchable informers.cluster_lister ac)
              include_all)
    unfolding new_cache_watcher
    made-SparesUser informers ac id watching allowed include_all (objects, h) unlisted same =
        new_cache_watcher-IsSpared n id watching allowed
          (ClusterCache.watchable informers.cluster_lister ac) include_all
          (subst
            (λ u.
              any (λ object. object.name == n)
                ((ClusterCache.watchable informers.cluster_lister ac).list_objects u)
              ≡ false)
            (sym same) (listed_without informers.cluster_lister objects ac user n h unlisted))

    pub IsSpared-received :
        (w : CacheWatcher) (e : Event) (rest : List Event)
        → w.incoming ≡ e ∷ rest
        → SparesUser w
        → SparesUser (record w { incoming = rest })
    unfolding any
    IsSpared-received w e rest full spares same =
        let spared = spares same in
        let unheard : any (is_about n) (e ∷ rest) ≡ false =
          subst (λ events. any (is_about n) events ≡ false) full spared.unheard in
        record {
          unknown = spared.unknown;
          unheard = ground (arith, unheard);
          uninitial = spared.uninitial;
        }
