-- ===== src/Watcher/Feed.antt =====
-- The goroutine `Watch` of pkg/cache/watcher.go, which hands the events on to the client, with the
-- notifications and the `Stop` that run beside it: a step relation.
pub mod Replay
pub mod Invariant
pub mod Coherence
pub mod Blocked
use clusterset_server.Base.{
  ◌≡◌, Bool, true, false, Option, none, some, List, [], ◌∷◌, ◌++◌, String, StringMap, insert,
  delete,
}
use clusterset_server.Platform.{Platform}
use clusterset_server.Objects.{Object, Event, added, modified, deleted, error}
use clusterset_server.Watcher.{
  WatchableCache, CacheWatcher, settled, overflowed, group_membership_changed,
}

-- `makeErrorEvent`
abbrev pub make_error_event : String → Event
make_error_event message = error message

abbrev pub is_error : Event → Bool
is_error (added object) = false
is_error (modified object) = false
is_error (deleted object) = false
is_error (error message) = true

module _ ⦃P : Platform⦄ where
  open P use {StringSet}

  -- `unsent` is what is left of the loop over the initial resources, `sent` what the client received
  -- on `outgoing`, `cache_error` the channel of that name, `stopped` says that `userStop` is closed,
  -- and `ended` that the loops of the goroutine are over. `blocked` says that the caller of
  -- `GroupMembershipChanged` waits in `RemoveWatcher` for the lock of the watchers, with what is to
  -- be put into `cache_error` after it: `notifyWatchers`, the only caller, holds that lock itself
  -- until the call returns.
  pub record Feed : Type 0 where
    pub watcher : CacheWatcher
    pub unsent : List Object
    pub sent : List Event
    pub cache_error : Option String
    pub blocked : Option String
    pub stopped : Bool
    pub ended : Bool

  unfoldable pub new_feed : CacheWatcher → Feed
  new_feed w = record {
    watcher = w;
    unsent = w.initial_resources;
    sent = [];
    cache_error = none;
    blocked = none;
    stopped = false;
    ended = false;
  }

  -- `emit`: the client receives the event, or the event is dropped since the user has stopped.
  pub data Emits (e : Event) : Feed → Feed → Type 0 where
    received : {f f' : Feed} → f' ≡ record f { sent = f.sent ++ e ∷ [] } → Emits e f f'
    dropped : {f f' : Feed} → f.stopped ≡ true → f' ≡ f → Emits e f f'

  -- Each notification reads the cache as it is at that moment, a cache of which `Q` holds.
  pub data Step (Q : WatchableCache → Type 0) : Feed → Feed → Type 0 where
    -- a notification that returns; the lock is taken for it
    notify :
        {f f' : Feed} (cache : WatchableCache) (name : String) (users groups : StringSet)
        (w : CacheWatcher)
        → Q cache
        → f.blocked ≡ none
        → group_membership_changed cache f.watcher name users groups ≡ settled w
        → f' ≡ record f { watcher = w }
        → Step Q f f'
    -- A notification whose channel is full: it has changed the known versions, and waits.
    break :
        {f f' : Feed} (cache : WatchableCache) (name : String) (users groups : StringSet)
        (w : CacheWatcher) (message : String)
        → Q cache
        → f.blocked ≡ none
        → group_membership_changed cache f.watcher name users groups ≡ overflowed w message
        → f' ≡ record f { watcher = w; blocked = some message }
        → Step Q f f'
    -- `Stop`, also where it finds the channel closed
    stop : {f f' : Feed} → f' ≡ record f { stopped = true } → Step Q f f'
    -- the loop over the initial resources
    send_initial :
        {f f' : Feed} (object : Object) (rest : List Object)
        → f.ended ≡ false
        → f.unsent ≡ object ∷ rest
        → f.cache_error ≡ none
        → Emits (added object) (record f { unsent = rest }) f'
        → Step Q f f'
    -- an error, in either loop
    fail :
        {f f' : Feed} (message : String)
        → f.ended ≡ false
        → f.cache_error ≡ some message
        → Emits (make_error_event message) (record f { cache_error = none; ended = true }) f'
        → Step Q f f'
    -- the second loop
    send_incoming :
        {f f' : Feed} (e : Event) (rest : List Event)
        → f.ended ≡ false
        → f.unsent ≡ []
        → f.watcher.incoming ≡ e ∷ rest
        → Emits e (record f { watcher = record f.watcher { incoming = rest } }) f'
        → Step Q f f'
    finish :
        {f f' : Feed}
        → f.ended ≡ false
        → f.unsent ≡ []
        → f.stopped ≡ true
        → f' ≡ record f { ended = true }
        → Step Q f f'

  pub data Reaches (Q : WatchableCache → Type 0) : Feed → Feed → Type 0 where
    here : {f : Feed} → Reaches Q f f
    later : {f g h : Feed} → Reaches Q f g → Step Q g h → Reaches Q f h

-- What a client makes of an event, in a map from names to resource versions.
unfoldable pub apply_event : StringMap → Event → StringMap
apply_event m (added object) = insert object.name object.resource_version m
apply_event m (modified object) = insert object.name object.resource_version m
apply_event m (deleted object) = delete object.name m
apply_event m (error message) = m

unfoldable pub replay : StringMap → List Event → StringMap
replay m [] = m
replay m (e ∷ events) = replay (apply_event m e) events

-- the events of the initial resources
unfoldable pub additions : List Object → List Event
additions [] = []
additions (object ∷ objects) = added object ∷ additions objects
