-- ===== src/Watcher/Knowledge.antt =====
-- pkg/cache/watcher.go, `GroupMembershipChanged`: the versions that a watcher knows.
use clusterset_server.Base.{
  ◌≡◌, refl, ap, ◌∙◌, true, Option, none, some, String, ◌==◌, ok, arith, eq_iff, Bool-cases,
  Option-cases, inl, inr, if◌then◌else◌, lookup, delete, lookup-insert, lookup-delete,
}
use clusterset_server.Platform.{Platform}
use clusterset_server.Objects.{Object, Event, deleted}
use clusterset_server.Watcher.{
  WatchableCache, CacheWatcher, Reaction, settled, overflowed, send, sees, has_access,
  notify_removed, notify_version, notify_changed, group_membership_changed,
}

module _ ⦃P : Platform⦄ where
  open P use {StringSet, has}

  -- the watcher that a reaction leaves
  abbrev pub left_by : Reaction → CacheWatcher
  left_by (settled w) = w
  left_by (overflowed w message) = w

  known-send :
      (w : CacheWatcher) (e : Event) (message : String)
      → (left_by (send w e message)).known_resources ≡ w.known_resources
  unfolding send
  known-send w e message = ground arith

  lookup-notify_version :
      (w : CacheWatcher) (name n : String) (object : Object) (last : Option String)
      → last ≡ lookup name w.known_resources
      → lookup n (left_by (notify_version w name object last)).known_resources
        ≡ (if name == n then some object.resource_version else lookup n w.known_resources)
  unfolding notify_version
  lookup-notify_version w name n object none same =
      ap (lookup n) (known-send _ _ _)
      ∙ lookup-insert name n object.resource_version w.known_resources
  lookup-notify_version w name n object (some last) same =
      elim (Bool-cases (last == object.resource_version)) [
        | inl old ↦
            rw (old, notify_version)
              (ground (arith, eq_iff name n, eq_iff last object.resource_version))
        | inr news ↦
            rw (news, notify_version)
              (ap (lookup n) (known-send _ _ _)
                ∙ lookup-insert name n object.resource_version w.known_resources)
      ]

  -- A watcher that sees the name of an object that there is knows, once it is notified, the version
  -- of the object if its user has access, and nothing of the name otherwise; what it knows of other
  -- names stays.
  pub lookup-group_membership_changed :
      (cache : WatchableCache) (w : CacheWatcher) (name n : String) (users groups : StringSet)
      (object : Object)
      → sees w name ≡ true
      → cache.get name ≡ ok object
      → lookup n (left_by (group_membership_changed cache w name users groups)).known_resources ≡ (
          if name == n
          then if has_access w users groups then some object.resource_version else none
          else lookup n w.known_resources)
  unfolding group_membership_changed notify_removed notify_changed sees
  lookup-group_membership_changed cache w name n users groups object seen found =
      let version = lookup-notify_version w name n object (lookup name w.known_resources) refl in
      elim (Bool-cases (has_access w users groups)) [
        | inl access ↦ ground (arith, version)
        | inr denied ↦ elim (Option-cases (lookup name w.known_resources)) [
          | inl missing ↦ ground (arith, eq_iff name n)
          | inr (v, there) ↦
              let removed : CacheWatcher = record w {
                known_resources = delete name w.known_resources;
              } in
              ground (
                arith,
                ap (lookup n) (
                    known-send removed (deleted (cache.convert_resource name))
                      "delete notification timeout"),
                lookup-delete name n w.known_resources,
              )
        ]
      ]
