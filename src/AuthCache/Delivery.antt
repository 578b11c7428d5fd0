-- ===== src/AuthCache/Delivery.antt =====
-- pkg/cache/common.go, `notifyWatchers`: the lock of the watchers and a full channel.
use clusterset_server.Base.{
  ◌≡◌, refl, ap, ◌∙◌, Bool, true, false, not, ◌&&◌, List, [], ◌∷◌, String, arith, any, any_ext,
}
use clusterset_server.Platform.{Platform}
use clusterset_server.Watcher.{WatchableCache, CacheWatcher, group_membership_changed}
use clusterset_server.Watcher.Overflow.{
  has_event, is_full, overflows, overflows-group_membership_changed,
}
use clusterset_server.AuthCache.State.{Surroundings, AuthCache, Outcome, done, stuck}
use clusterset_server.AuthCache.Notify.{notify_each, notify_watchers, notified}

module _ ⦃P : Platform⦄ where
  open P use {StringSet, has}

  abbrev pub returns : {A : Type 0} → Outcome A → Bool
  returns (done a ac) = true
  returns (stuck ac) = false

  notify_each-overflows :
      (cache : WatchableCache) (name : String) (users groups : StringSet)
      (watchers : List CacheWatcher)
      → (notify_each cache name users groups watchers).1
        ≡ not (any (λ w. overflows (group_membership_changed cache w name users groups)) watchers)
  unfolding notify_each any
  notify_each-overflows cache name users groups [] = refl
  notify_each-overflows cache name users groups (w ∷ watchers) =
      ground (arith, notify_each-overflows cache name users groups watchers)

  returns-notified : (ac : AuthCache) (r : List CacheWatcher × Bool) → returns (notified ac r) ≡ r.1
  returns-notified ac (watchers, true) = refl
  returns-notified ac (watchers, false) = refl

  -- A notification returns exactly when no watcher that has an event to be told has a full channel:
  -- otherwise the watcher asks for the lock that the notification holds, and the cache is stuck.
  pub returns-notify_watchers :
      (s : Surroundings) (name : String) (users groups : StringSet) (ac : AuthCache)
      → returns (notify_watchers s name users groups ac)
        ≡ not (any (λ w. has_event s.watchable name users groups w && is_full w) ac.watchers)
  unfolding notify_watchers
  returns-notify_watchers s name users groups ac =
      returns-notified ac (notify_each s.watchable name users groups ac.watchers)
      ∙ notify_each-overflows s.watchable name users groups ac.watchers
      ∙ ap not (
          any_ext _ _ ac.watchers
            (λ w. overflows-group_membership_changed s.watchable w name users groups))
