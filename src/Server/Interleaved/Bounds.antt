-- ===== src/Server/Interleaved/Bounds.antt =====
-- pkg/cmd/server.go: the channels of the watchers at every access.
use mathlib.Core.List.{Memᴰ}
use clusterset_server.Base.{◌≤◌, length, arith}
use clusterset_server.Platform.{Platform}
use clusterset_server.Watcher.{CacheWatcher, new_cache_watcher}
use clusterset_server.Watcher.Depth.{Fits, Fits-received, IsBounded-group_membership_changed}
use clusterset_server.AuthCache.Each.{Each-Mem}
use clusterset_server.AuthCache.Program.Rights.{Rights}
use clusterset_server.Server.{CacheName, Library}
use clusterset_server.Server.Steps.{Any}
use clusterset_server.Server.Interleaved.{Live, new_live, Runs}
use clusterset_server.Server.Interleaved.Keeps.{runs-IsLive}
use clusterset_server.Server.Interleaved.Laws.{IsLiveInvariant}
use clusterset_server.Server.Interleaved.Sights.{EverySight-always}

module _ ⦃P : Platform⦄ where
  abbrev any_rights : Rights
  any_rights = record { read = λ s. Unit; write = λ w. Unit; notice = λ name users groups. Unit }

  Fits-IsLiveInvariant :
      (library : Library) (c : CacheName)
      → IsLiveInvariant library c Any Any any_rights (λ ac. Unit) Fits
  Fits-IsLiveInvariant library c = record {
    rights = record {
      deletes_user = λ subject name. tt;
      deletes_group = λ subject name. tt;
      drops = λ r. tt;
      ends = λ names state. tt;
      silences = λ name. tt;
      adds_user = λ s name subject v _ _ _. tt;
      adds_group = λ s name subject v _ _ _. tt;
      puts = λ s request last v _ _. tt;
      tells = λ s name v _ _. tt;
    };
    at_read = λ informers ac _. tt;
    at_new = tt;
    ignores = λ ac watchers _. tt;
    at_write = λ w ac _ _. tt;
    at_tell = λ informers ac w name users groups _ _ _ fits.
        (IsBounded-group_membership_changed _ w name users groups).fits fits;
    at_made =
        λ informers ac id user allowed include_all _ _. unfold new_cache_watcher in omega arith;
    at_receive = Fits-received;
  }

  -- After every access, also in the middle of a run, no watcher of the cache has more than 1000
  -- events in its channel.
  pub live_channels_fit :
      (library : Library) (c : CacheName) {x : Live} (w : CacheWatcher)
      → Runs library c new_live x
      → Memᴰ w x.cache.watchers
      → length w.incoming ≤ 1000
  live_channels_fit library c {x} w runs m =
      let live =
        runs-IsLive library c Any Any any_rights (λ ac. Unit) Fits (Fits-IsLiveInvariant library c)
          runs (EverySight-always runs) in
      Each-Mem Fits x.cache.watchers live.watchers w m
