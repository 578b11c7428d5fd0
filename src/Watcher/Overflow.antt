-- ===== src/Watcher/Overflow.antt =====
-- pkg/cache/watcher.go, `GroupMembershipChanged`: when it finds the channel full.
use clusterset_server.Base.{
  ◌≡◌, inl, inr, Bool, true, false, not, ◌&&◌, Bool-cases, Option, none, some, String, ◌==◌, arith,
  Result, ok, err, Result-cases, if◌then◌else◌, length, ltb, lookup, delete,
}
use clusterset_server.Platform.{Platform}
use clusterset_server.Objects.{Object, Event, deleted}
use clusterset_server.Watcher.{
  WatchableCache, CacheWatcher, Reaction, settled, overflowed, send, sees, has_access,
  notify_removed, notify_version, notify_changed, group_membership_changed, known, incoming_depth,
}

-- Is the version of the object another than the one the watcher knows?
abbrev pub is_news : Object → Option String → Bool
is_news object none = true
is_news object (some last) = not (last == object.resource_version)

abbrev pub has_news : Result Object → Option String → Bool
has_news (err e) last = false
has_news (ok object) last = is_news object last

module _ ⦃P : Platform⦄ where
  open P use {StringSet, has}

  -- Is there something to tell the watcher? It must see the name, and lose access to what it knows
  -- or have access to what is new to it.
  abbrev pub has_event : WatchableCache → String → StringSet → StringSet → CacheWatcher → Bool
  has_event cache name users groups w =
      sees w name
      && (if has_access w users groups
          then has_news (cache.get name) (lookup name w.known_resources)
          else known (lookup name w.known_resources))

  abbrev pub is_full : CacheWatcher → Bool
  is_full w = not (ltb (length w.incoming) incoming_depth)

  abbrev pub overflows : Reaction → Bool
  overflows (settled w) = false
  overflows (overflowed w message) = true

  overflows-send :
      (w : CacheWatcher) (event : Event) (message : String)
      → overflows (send w event message) ≡ is_full w
  unfolding send
  overflows-send w event message = ground arith

  overflows-notify_version :
      (w : CacheWatcher) (name : String) (object : Object) (last : Option String)
      → overflows (notify_version w name object last) ≡ (is_news object last && is_full w)
  unfolding notify_version
  overflows-notify_version w name object none = overflows-send _ _ _
  overflows-notify_version w name object (some last) =
      elim (Bool-cases (last == object.resource_version)) [
        | inl same ↦ rw same
        | inr other ↦ rw other (overflows-send _ _ _)
      ]

  overflows-notify_changed :
      (cache : WatchableCache) (w : CacheWatcher) (name : String)
      → overflows (notify_changed cache w name)
        ≡ (has_news (cache.get name) (lookup name w.known_resources) && is_full w)
  unfolding notify_changed
  overflows-notify_changed cache w name = elim (Result-cases (cache.get name)) [
    | inl (object, found) ↦
        rw (found, notify_changed)
          (overflows-notify_version w name object (lookup name w.known_resources))
    | inr (e, failed) ↦ rw (failed, notify_changed)
  ]

  -- A watcher overflows exactly when there is an event for it and its channel is full.
  pub overflows-group_membership_changed :
      (cache : WatchableCache) (w : CacheWatcher) (name : String) (users groups : StringSet)
      → overflows (group_membership_changed cache w name users groups)
        ≡ (has_event cache name users groups w && is_full w)
  unfolding group_membership_changed notify_removed sees
  overflows-group_membership_changed cache w name users groups =
      let removed : CacheWatcher = record w { known_resources = delete name w.known_resources } in
      let event = deleted (cache.convert_resource name) in
      ground (
        arith,
        overflows-send removed event "delete notification timeout",
        overflows-notify_changed cache w name,
      )
