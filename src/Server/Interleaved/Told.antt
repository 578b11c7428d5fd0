-- ===== src/Server/Interleaved/Told.antt =====
-- pkg/cmd/server.go: the bindings of RBAC over the time of the server, and what watchers are told,
-- at every access of a run.
use mathlib.Core.List.{Memᴰ}
use clusterset_server.Base.{◌≡◌, Bool, false, String, ◌==◌, any}
use clusterset_server.Platform.{Platform}
use clusterset_server.Objects.{UserInfo}
use clusterset_server.Rbac.{Subject}
use clusterset_server.Rbac.Reviewer.{SplitsSubjects}
use clusterset_server.Watcher.{CacheWatcher}
use clusterset_server.Watcher.Spared.{is_about}
use clusterset_server.AuthCache.Each.{Each-Mem}
use clusterset_server.AuthCache.Names.{list_names}
use clusterset_server.Server.{clusters, Library, Informers}
use clusterset_server.Server.Granted.{IsUnbound, Denies_of_IsUnbound}
use clusterset_server.Server.Spares.{
  IsIndex, SparesUser, tell-SparesUser, made-SparesUser, IsSpared-received,
}
use clusterset_server.Server.Interleaved.{Live, new_live, Runs}
use clusterset_server.Server.Interleaved.Hidden.{
  withholding, withholding-IsForRun, IsUnlisted, written-IsUnlisted, new-IsUnlisted,
}
use clusterset_server.Server.Interleaved.Keeps.{runs-IsLive}
use clusterset_server.Server.Interleaved.Laws.{IsLiveInvariant}
use clusterset_server.Server.Interleaved.Sights.{EverySight}

module _ ⦃P : Platform⦄ where
  open P use {StringSet, has, has_any}

  module _ (library : Library) (account : String → Subject → String → Bool)
      (splits : SplitsSubjects library.split account) (user : UserInfo) (n : String) where
    abbrev Unbound : Informers → Type 0
    Unbound informers = IsUnbound library account splits user n informers × IsIndex informers

    abbrev Spares : CacheWatcher → Type 0
    Spares w = SparesUser user n w

    Spares-IsLiveInvariant :
        IsLiveInvariant library clusters Unbound IsIndex
          (withholding user n)
          (IsUnlisted user n)
          Spares
    unfolding list_names
    Spares-IsLiveInvariant = record {
      rights = withholding-IsForRun user n;
      at_read = λ informers ac (unbound, _).
          Denies_of_IsUnbound library account splits user n informers ac unbound;
      at_new = new-IsUnlisted user n;
      ignores = λ ac watchers h. h;
      at_write = written-IsUnlisted user n;
      at_tell = λ informers ac w name users groups q notice _ spares.
          tell-SparesUser user n library informers ac w name users groups q.1 notice spares;
      at_made = made-SparesUser user n;
      at_receive = IsSpared-received user n;
    }

    -- Where subjects are split as documented, whenever a run read the informers no subject that may
    -- get the cluster named the user, the user's account or one of the user's groups, and the lister
    -- of clusters was an index by name then and whenever a watcher was made: after every access,
    -- also in the middle of a run, no watcher of the user has the cluster among its initial objects,
    -- and no event about it waits in its channel.
    pub never_bound_never_live_told :
        {x : Live} (runs : Runs library clusters new_live x) (w : CacheWatcher)
        → EverySight Unbound IsIndex runs
        → Memᴰ w x.cache.watchers
        → w.user ≡ user
        → (any (is_about n) w.incoming ≡ false)
          × (any (λ object. object.name == n) w.initial_resources ≡ false)
    never_bound_never_live_told {x} runs w seen m mine =
        let live =
          runs-IsLive library clusters Unbound IsIndex (withholding user n) (IsUnlisted user n)
            Spares Spares-IsLiveInvariant runs seen in
        let spared = Each-Mem Spares x.cache.watchers live.watchers w m mine in
        (spared.unheard, spared.uninitial)
