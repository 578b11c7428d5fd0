-- ===== src/AuthCache/Notify.antt =====
-- The watchers of the cache: `AddWatcher`, `RemoveWatcher` and `notifyWatchers` of
-- pkg/cache/common.go.
use clusterset_server.Base.{
  Bool, true, false, Option, none, some, List, [], ◌∷◌, ◌++◌, String, ℕ, suc, ◌-◌, ltb, nat_eq,
  length, take, drop, copy, if◌then◌else◌,
}
use clusterset_server.Platform.{Platform}
use clusterset_server.Watcher.{
  WatchableCache, CacheWatcher, settled, overflowed, group_membership_changed,
}
use clusterset_server.AuthCache.State.{Surroundings, AuthCache, Outcome, done, stuck, M}

module _ ⦃P : Platform⦄ where
  open P use {StringSet}

  -- The loop of `notifyWatchers`, the lock held. A watcher whose channel is full asks for the lock
  -- once more to remove itself: the watchers so far, and `false` for a run that waits for ever.
  unfoldable pub notify_each :
      WatchableCache → String → StringSet → StringSet → List CacheWatcher → List CacheWatcher × Bool
  notify_each cache name users groups [] = ([], true)
  notify_each cache name users groups (w ∷ watchers) =
      elim (group_membership_changed cache w name users groups) [
        | settled w' ↦
            let (rest, returned) = notify_each cache name users groups watchers in
            (w' ∷ rest, returned)
        | overflowed w' message ↦ (w' ∷ watchers, false)
      ]

  abbrev pub notified : AuthCache → List CacheWatcher × Bool → Outcome (Unit {0})
  notified ac (watchers, true) = done tt (record ac { watchers = watchers })
  notified ac (watchers, false) = stuck (record ac { watchers = watchers })

  unfoldable pub notify_watchers : Surroundings → String → StringSet → StringSet → M (Unit {0})
  notify_watchers s name users groups ac =
      notified ac (notify_each s.watchable name users groups ac.watchers)

  unfoldable pub add_watcher : AuthCache → CacheWatcher → AuthCache
  add_watcher ac w = record ac { watchers = ac.watchers ++ w ∷ [] }

  -- the loop of `RemoveWatcher` up to the first watcher at this address
  unfoldable pub index_from : ℕ → ℕ → List CacheWatcher → Option ℕ
  index_from i id [] = none
  index_from i id (w ∷ watchers) = if nat_eq w.id id then some i else index_from (suc i) id watchers

  -- the body of the loop
  unfoldable pub remove_at : ℕ → List CacheWatcher → List CacheWatcher
  remove_at i watchers =
      let last = length watchers - 1 in
      take last (
        if ltb i last
        then take i watchers ++ copy (drop i watchers) (drop (suc i) watchers)
        else watchers)

  unfoldable pub remove_watcher : AuthCache → ℕ → AuthCache
  unfolding index_from remove_at
  remove_watcher ac id = elim (index_from 0 id ac.watchers) [
    | none ↦ ac
    | some i ↦ record ac { watchers = remove_at i ac.watchers }
  ]
