-- ===== src/Server/Interleaved/Laws.antt =====
-- pkg/cmd/server.go: the interface of what all accesses of a cache keep.
use clusterset_server.Base.{◌≡◌, ℕ, Bool, List, ◌∷◌, String}
use clusterset_server.Platform.{Platform}
use clusterset_server.Objects.{UserInfo, Event}
use clusterset_server.Watcher.{CacheWatcher, new_cache_watcher, group_membership_changed}
use clusterset_server.Watcher.Knowledge.{left_by}
use clusterset_server.AuthCache.Each.{Each}
use clusterset_server.AuthCache.Keeps.{IgnoresWatchers}
use clusterset_server.AuthCache.Program.{Write, written, readings}
use clusterset_server.AuthCache.Program.Rights.{Rights, IsWithin, IsForRun}
use clusterset_server.AuthCache.State.{AuthCache, new_auth_cache}
use clusterset_server.ClusterCache
use clusterset_server.ClusterCache.{Lister}
use clusterset_server.Server.{CacheName, Library, Informers, surroundings_of, lister_of}
use clusterset_server.Server.Interleaved.{Phase, idle, running, notifying, waiting, Live}

module _ ⦃P : Platform⦄ where
  open P use {StringSet}

  -- What the accesses may do: `I` speaks of the stores, and `V` of each watcher.
  pub record IsLiveInvariant (library : Library) (c : CacheName) (Q W : Informers → Type 0)
      (R : Rights) (I : AuthCache → Type 0) (V : CacheWatcher → Type 0) : Type 0 where
    pub rights : IsForRun R
    pub at_read :
        (informers : Informers) (ac : AuthCache)
        → Q informers
        → R.read (readings (surroundings_of library c informers ac))
    pub at_new : I new_auth_cache
    pub ignores : IgnoresWatchers I
    pub at_write : (w : Write) (ac : AuthCache) → R.write w → I ac → I (written w ac)
    pub at_tell :
        (informers : Informers) (ac : AuthCache) (w : CacheWatcher) (name : String)
        (users groups : StringSet)
        → Q informers
        → R.notice name users groups
        → I ac
        → V w
        → V (
            left_by (
              group_membership_changed
                (surroundings_of library c informers ac).watchable
                w
                name
                users
                groups))
    pub at_made :
        (informers : Informers) (ac : AuthCache) (id : ℕ) (user : UserInfo) (allowed : StringSet)
        (include_all : Bool)
        → W informers
        → I ac
        → V (
            new_cache_watcher id user allowed
              (ClusterCache.watchable (lister_of c informers) ac)
              include_all)
    pub at_receive :
        (w : CacheWatcher) (e : Event) (rest : List Event)
        → w.incoming ≡ e ∷ rest
        → V w
        → V (record w { incoming = rest })

  module _ (R : Rights) where
    -- what is left of a run keeps within its rights
    abbrev pub IsLawful : Phase → Type 0
    IsLawful idle = Unit
    IsLawful (running p) = IsWithin R p
    IsLawful (notifying name users groups i p) = R.notice name users groups × IsWithin R p
    IsLawful waiting = Unit

    pub record IsLive (I : AuthCache → Type 0) (V : CacheWatcher → Type 0) (x : Live) : Type 0 where
      pub stores : I x.cache
      pub watchers : Each V x.cache.watchers
      pub pending : Each V x.pending
      pub lawful : IsLawful x.phase
