-- ===== src/Watcher/Users.antt =====
-- pkg/cache/watcher.go, `GroupMembershipChanged`: the user of a watcher.
use clusterset_server.Base.{
  ◌≡◌, Bool-cases, inl, inr, Option, none, some, String, ◌==◌, arith, Result-cases, lookup, delete,
}
use clusterset_server.Platform.{Platform}
use clusterset_server.Objects.{Object, Event, deleted}
use clusterset_server.Watcher.{
  WatchableCache, CacheWatcher, send, notify_removed, notify_version, notify_changed,
  group_membership_changed,
}
use clusterset_server.Watcher.Knowledge.{left_by}

module _ ⦃P : Platform⦄ where
  open P use {StringSet}

  user-send :
      (w : CacheWatcher) (event : Event) (message : String)
      → (left_by (send w event message)).user ≡ w.user
  unfolding send
  user-send w event message = ground arith

  user-notify_version :
      (w : CacheWatcher) (name : String) (object : Object) (last : Option String)
      → (left_by (notify_version w name object last)).user ≡ w.user
  unfolding notify_version
  user-notify_version w name object none = user-send _ _ _
  user-notify_version w name object (some last) =
      elim (Bool-cases (last == object.resource_version)) [
        | inl same ↦ rw same
        | inr other ↦ rw other (user-send _ _ _)
      ]

  user-notify_changed :
      (cache : WatchableCache) (w : CacheWatcher) (name : String)
      → (left_by (notify_changed cache w name)).user ≡ w.user
  unfolding notify_changed
  user-notify_changed cache w name = elim (Result-cases (cache.get name)) [
    | inl (object, found) ↦
        rw (found, notify_changed)
          (user-notify_version w name object (lookup name w.known_resources))
    | inr (e, failed) ↦ rw (failed, notify_changed)
  ]

  -- A notification leaves the watcher its user.
  pub user-group_membership_changed :
      (cache : WatchableCache) (w : CacheWatcher) (name : String) (users groups : StringSet)
      → (left_by (group_membership_changed cache w name users groups)).user ≡ w.user
  unfolding group_membership_changed notify_removed
  user-group_membership_changed cache w name users groups =
      let removed : CacheWatcher = record w { known_resources = delete name w.known_resources } in
      ground (
        arith,
        user-send removed (deleted (cache.convert_resource name)) "delete notification timeout",
        user-notify_changed cache w name,
      )
