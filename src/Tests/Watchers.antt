-- ===== src/Tests/Watchers.antt =====
-- The theorems on watchers, for a watcher that is sent one event.
use clusterset_server.Base.{
  ◌≡◌, refl, true, none, some, [], ◌∷◌, String, ◌==◌, ok, lookup, if◌then◌else◌, contains,
}
use clusterset_server.Objects.{Object, added}
use clusterset_server.Watcher.{
  CacheWatcher, new_cache_watcher, sees, has_access, group_membership_changed,
}
use clusterset_server.Watcher.Feed.{Feed, new_feed}
use clusterset_server.Watcher.Feed.Replay.{NamesObjects}
use clusterset_server.Watcher.Knowledge.{left_by, lookup-group_membership_changed}
use clusterset_server.Tests.Lists.{list_platform}
use clusterset_server.Tests.Cluster.{cluster, watchable, watcher}

pub watchable-NamesObjects : NamesObjects watchable
watchable-NamesObjects = record {
  gets = λ name object e. ok_name name object e;
  converts = λ name. refl;
}
  where
    ok_name : (name : String) (object : Object) → ok (cluster name) ≡ ok object → object.name ≡ name
    ok_name name object e = cc e

-- ann gets access to c1, and the event is handed on to her client
abbrev told : CacheWatcher
told = record watcher { incoming = added (cluster "c1") ∷ []; known_resources = ("c1", "1") ∷ [] }

abbrev started : Feed
started = new_feed watcher

abbrev notified_feed : Feed
notified_feed = record started { watcher = told }

abbrev sent_feed : Feed
sent_feed = record notified_feed {
  watcher = record told { incoming = [] };
  sent = added (cluster "c1") ∷ [];
}

watcher-Sees : sees watcher "c1" ≡ true
unfolding sees new_cache_watcher contains
watcher-Sees = refl

lookup-group_membership_changed_example :
    lookup "c1"
      (left_by (group_membership_changed watchable watcher "c1" ("ann" ∷ []) [])).known_resources
    ≡ (if "c1" == "c1"
        then if has_access watcher ("ann" ∷ []) [] then some "1" else none
        else lookup "c1" watcher.known_resources)
lookup-group_membership_changed_example =
    lookup-group_membership_changed watchable watcher "c1" "c1" ("ann" ∷ []) [] (cluster "c1")
      watcher-Sees refl
