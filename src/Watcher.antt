-- ===== src/Watcher.antt =====
-- pkg/cache/watcher.go: the state of a watcher and what it makes of a change of access.
pub mod Overflow
pub mod Feed
pub mod Knowledge
pub mod Depth
pub mod Users
pub mod Spared
use clusterset_server.Base.{
  ℕ, Bool, true, false, not, ◌&&◌, ◌||◌, Option, none, some, List, [], ◌∷◌, ◌++◌, String, StringMap,
  Result, ok, err, ◌==◌, ltb, length, lookup, insert, delete, if◌then◌else◌,
}
use clusterset_server.Platform.{Platform}
use clusterset_server.Objects.{Object, UserInfo, Event, added, modified, deleted}

-- `WatchableCache`, without `RemoveWatcher`
pub record WatchableCache : Type 0 where
  pub list_objects : UserInfo → List Object
  pub get : String → Result Object
  pub convert_resource : String → Object

-- the depth of the channel `cacheIncoming`
abbrev pub incoming_depth : ℕ
incoming_depth = 1000

-- does `lookup` find an entry?
abbrev pub known : Option String → Bool
known none = false
known (some v) = true

module _ ⦃P : Platform⦄ where
  open P use {StringSet, has, has_any}

  -- `id` is the address of the watcher. `incoming` is what waits in the channel `cacheIncoming`.
  pub record CacheWatcher : Type 0 where
    pub id : ℕ
    pub user : UserInfo
    pub visible_resources : StringSet
    pub incoming : List Event
    pub initial_resources : List Object
    pub known_resources : StringMap

  -- How a notification ends: it returns, or the channel is full and the watcher goes on to remove
  -- itself from the cache and to put the message into `cacheError`.
  pub data Reaction : Type 0 where
    settled : CacheWatcher → Reaction
    overflowed : CacheWatcher → String → Reaction

  -- for _, object := range objs { knownResources[object.name] = object.resourceVersion }
  unfoldable pub known_from : StringMap → List Object → StringMap
  known_from resources [] = resources
  known_from resources (object ∷ objs) =
      known_from (insert object.name object.resource_version resources) objs

  unfoldable pub new_cache_watcher : ℕ → UserInfo → StringSet → WatchableCache → Bool → CacheWatcher
  new_cache_watcher id user visible cache include_all = record {
    id = id;
    user = user;
    visible_resources = visible;
    incoming = [];
    initial_resources = if include_all then cache.list_objects user else [];
    known_resources = known_from [] (cache.list_objects user);
  }

  -- select { case w.cacheIncoming <- event: default: ... }
  unfoldable pub send : CacheWatcher → Event → String → Reaction
  send w event message =
      if ltb (length w.incoming) incoming_depth
      then settled (record w { incoming = w.incoming ++ event ∷ [] })
      else overflowed w message

  unfoldable pub sees : CacheWatcher → String → Bool
  sees w name = has w.visible_resources "*" || has w.visible_resources name

  unfoldable pub has_access : CacheWatcher → StringSet → StringSet → Bool
  has_access w users groups = has users w.user.name || has_any groups w.user.groups

  -- the branch `!hasAccess && known`
  unfoldable pub notify_removed : WatchableCache → CacheWatcher → String → Reaction
  notify_removed cache w name =
      send (record w { known_resources = delete name w.known_resources })
        (deleted (cache.convert_resource name)) "delete notification timeout"

  -- what follows the lookup of the last resource version in the branch `hasAccess`
  unfoldable pub notify_version : CacheWatcher → String → Object → Option String → Reaction
  notify_version w name object none =
      send (record w { known_resources = insert name object.resource_version w.known_resources })
        (added object) "add notification timeout"
  notify_version w name object (some last) =
      if last == object.resource_version
      then settled w
      else send
          (record w { known_resources = insert name object.resource_version w.known_resources })
          (modified object) "add notification timeout"

  -- the branch `hasAccess`; an error of `Get` is only logged
  unfoldable pub notify_changed : WatchableCache → CacheWatcher → String → Reaction
  notify_changed cache w name = elim (cache.get name) [
    | err e ↦ settled w
    | ok object ↦ notify_version w name object (lookup name w.known_resources)
  ]

  unfoldable pub group_membership_changed :
      WatchableCache → CacheWatcher → String → StringSet → StringSet → Reaction
  group_membership_changed cache w name users groups =
      if not (has w.visible_resources "*") && not (has w.visible_resources name)
      then settled w
      else if not (has_access w users groups) && known (lookup name w.known_resources)
      then notify_removed cache w name
      else if has_access w users groups
      then notify_changed cache w name
      else settled w
