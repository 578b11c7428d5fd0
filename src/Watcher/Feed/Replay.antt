-- ===== src/Watcher/Feed/Replay.antt =====
-- pkg/cache/watcher.go, `GroupMembershipChanged`: the events and the known versions.
use mathlib.Core.List.{append-nil}
use clusterset_server.Base.{
  arith, any, ◌≡◌, refl, sym, ap, Bool, true, false, not, ◌&&◌, Option, none, some, List, [], ◌∷◌,
  ◌++◌, String, ◌==◌, StringMap, ok, Bool-cases, Result-cases, inl, inr, if◌then◌else◌, ltb, length,
  lookup, insert, delete,
}
use clusterset_server.Platform.{Platform}
use clusterset_server.Objects.{Object, Event, added, modified, deleted}
use clusterset_server.Watcher.{
  WatchableCache, CacheWatcher, Reaction, settled, overflowed, incoming_depth, send, has_access,
  known, notify_removed, notify_version, notify_changed, group_membership_changed,
}
use clusterset_server.Watcher.Feed.{is_error, apply_event, replay}

pub replay-append :
    (m : StringMap) (xs ys : List Event) → replay m (xs ++ ys) ≡ replay (replay m xs) ys
unfolding replay
replay-append m [] ys = refl
replay-append m (e ∷ xs) ys = replay-append (apply_event m e) xs ys

-- The objects that the cache gives for a name have that name.
pub record NamesObjects (cache : WatchableCache) : Type 0 where
  pub gets : (name : String) (object : Object) → cache.get name ≡ ok object → object.name ≡ name
  pub converts : (name : String) → (cache.convert_resource name).name ≡ name

module _ ⦃P : Platform⦄ where
  open P use {StringSet, has}

  -- The events that a notification appends, no errors, lead from what the watcher knew to what it
  -- knows.
  unfoldable pub Tells : CacheWatcher → CacheWatcher → Type 0
  Tells w w' =
      (events : List Event) × (w'.incoming ≡ w.incoming ++ events)
      × (replay w.known_resources events ≡ w'.known_resources)
      × (any is_error events ≡ false)

  unfoldable pub Told : CacheWatcher → Reaction → Type 0
  Told w (settled w') = Tells w w'
  Told w (overflowed w' message) = w'.incoming ≡ w.incoming

  Told-settled : (w : CacheWatcher) → Told w (settled w)
  unfolding Told Tells replay any
  Told-settled w = ([], sym (append-nil w.incoming), refl, refl)

  Told-send :
      (w : CacheWatcher) (resources : StringMap) (e : Event) (message : String)
      → apply_event w.known_resources e ≡ resources
      → is_error e ≡ false
      → Told w (send (record w { known_resources = resources }) e message)
  unfolding Told Tells replay send any
  Told-send w resources e message same plain =
      elim (Bool-cases (ltb (length w.incoming) incoming_depth)) [
        | inl room ↦ rw (room, send) (e ∷ [], refl, same, ground (arith, plain))
        | inr full ↦ rw (full, send) refl
      ]

  Told-notify_version :
      (w : CacheWatcher) (name : String) (object : Object) (last : Option String)
      → object.name ≡ name
      → Told w (notify_version w name object last)
  unfolding notify_version apply_event
  Told-notify_version w name object none same =
      Told-send w _ (added object) _
        (ap (λ n. insert n object.resource_version w.known_resources) same) refl
  Told-notify_version w name object (some last) same =
      elim (Bool-cases (last == object.resource_version)) [
        | inl known ↦ rw (known, notify_version) (Told-settled w)
        | inr news ↦
            rw (news, notify_version)
              (Told-send w _ (modified object) _
                (ap (λ n. insert n object.resource_version w.known_resources) same) refl)
      ]

  module _ (cache : WatchableCache) (h : NamesObjects cache) where
    Told-notify_changed : (w : CacheWatcher) (name : String) → Told w (notify_changed cache w name)
    unfolding notify_changed
    Told-notify_changed w name = elim (Result-cases (cache.get name)) [
      | inl (object, found) ↦
          rw (found, notify_changed)
            (Told-notify_version w name object _ (h.gets name object found))
      | inr (e, failed) ↦ rw (failed, notify_changed) (Told-settled w)
    ]

    Told-notify_removed : (w : CacheWatcher) (name : String) → Told w (notify_removed cache w name)
    unfolding notify_removed apply_event
    Told-notify_removed w name =
        Told-send w _ (deleted (cache.convert_resource name)) _
          (ap (λ n. delete n w.known_resources) (h.converts name)) refl

    pub Told-group_membership_changed :
        (w : CacheWatcher) (name : String) (users groups : StringSet)
        → Told w (group_membership_changed cache w name users groups)
    unfolding group_membership_changed
    Told-group_membership_changed w name users groups =
        go (not (has w.visible_resources "*") && not (has w.visible_resources name))
          (not (has_access w users groups) && known (lookup name w.known_resources))
          (has_access w users groups)
      where
        go :
            (unseen lost access : Bool)
            → Told w (
                if unseen
                then settled w
                else if lost
                then notify_removed cache w name
                else if access
                then notify_changed cache w name
                else settled w)
        go true lost access = Told-settled w
        go false true access = Told-notify_removed w name
        go false false true = Told-notify_changed w name
        go false false false = Told-settled w
