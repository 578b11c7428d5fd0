-- ===== src/Tests/Overflow.antt =====
-- The theorem on a watcher whose channel is full: ann gets and loses access to c1 five hundred times,
-- gets it once more, and then takes all that waits.
use clusterset_server.Base.{◌≡◌, ℕ, zero, suc, false, some, List, [], ◌∷◌, ◌++◌}
use clusterset_server.Objects.{Event, added, deleted}
use clusterset_server.Watcher.{CacheWatcher}
use clusterset_server.Watcher.Feed.{Feed, new_feed, Reaches}
use clusterset_server.Watcher.Feed.Replay.{NamesObjects}
use clusterset_server.Tests.Lists.{list_platform}
use clusterset_server.Tests.Cluster.{cluster, watcher}

rounds : ℕ → List Event
rounds zero = []
rounds (suc n) = (rounds n ++ added (cluster "c1") ∷ []) ++ deleted (cluster "c1") ∷ []

-- with what waits, without and with access
abbrev without_access : List Event → CacheWatcher
without_access events = record watcher { incoming = events }

abbrev with_access : List Event → CacheWatcher
with_access events = record watcher { incoming = events; known_resources = ("c1", "1") ∷ [] }

abbrev at_round : ℕ → Feed
at_round n = record (new_feed watcher) { watcher = without_access (rounds n) }

abbrev overflowed_feed : Feed
overflowed_feed = record (at_round 500) {
  watcher = with_access (rounds 500);
  blocked = some "add notification timeout";
}

-- where everything was taken and the user goes on
record IsDrained (f g : Feed) : Type 0 where
  reached : Reaches NamesObjects f g
  going : g.stopped ≡ false
  sent_all : g.unsent ≡ []
  taken_all : g.watcher.incoming ≡ []
