-- ===== src/Server/Bounds.antt =====
-- pkg/cmd/server.go: the channels of the watchers while the server runs.
use mathlib.Core.List.{Memᴰ}
use clusterset_server.Base.{◌≤◌, [], length}
use clusterset_server.Platform.{Platform}
use clusterset_server.Watcher.{CacheWatcher}
use clusterset_server.AuthCache.State.{Outcome, done, stuck, after}
use clusterset_server.Server.{CacheName, Library, new_filter_server, cache_of, Server, Reaches}
use clusterset_server.Server.Interleaved.Alone.{ended}
use clusterset_server.Server.Interleaved.Bounds.{live_channels_fit}
use clusterset_server.Server.Interleaved.Covers.{reached_by_accesses}

module _ ⦃P : Platform⦄ where
  watched_at_end :
      (w : CacheWatcher) (o : Outcome (Unit {0}))
      → Memᴰ w (after o).watchers
      → Memᴰ w (ended [] o).cache.watchers
  watched_at_end w (done tt ac) m = m
  watched_at_end w (stuck ac) m = m

  -- In every state that the server reaches, no watcher of a cache has more than 1000 events in its
  -- channel.
  pub reached_channels_fit :
      (library : Library) {s : Server} (c : CacheName) (w : CacheWatcher)
      → Reaches library new_filter_server s
      → Memᴰ w (after (cache_of s c)).watchers
      → length w.incoming ≤ 1000
  reached_channels_fit library {s} c w reached m =
      live_channels_fit library c w (reached_by_accesses library c reached)
        (watched_at_end w (cache_of s c) m)
