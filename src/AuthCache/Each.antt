-- ===== src/AuthCache/Each.antt =====
-- pkg/cache/common.go: what a run keeps of each watcher.
use mathlib.Core.List.{Memᴰ}
use mathlib.Core.Path.{subst}
use clusterset_server.Base.{◌≡◌, sym, Bool, true, false, List, [], ◌∷◌, ◌++◌, String, arith, ℕ}
use clusterset_server.Platform.{Platform}
use clusterset_server.Watcher.{
  WatchableCache, CacheWatcher, Reaction, settled, overflowed, group_membership_changed,
}
use clusterset_server.Watcher.Knowledge.{left_by}
use clusterset_server.AuthCache.Records.{ReviewRecord}
use clusterset_server.AuthCache.Removal.{Removed}
use clusterset_server.AuthCache.Request.{apply_review}
use clusterset_server.AuthCache.State.{Surroundings, AuthCache, after}
use clusterset_server.AuthCache.Notify.{notify_each, notify_watchers, notified}
use clusterset_server.AuthCache.Sync.{synchronize, purge_record}
use clusterset_server.AuthCache.Keeps.{Ends, Keeps, IsNotice, after_of_Ends}
use clusterset_server.AuthCache.Runs.{IsInvariant, Keeps-synchronize}

module _ ⦃P : Platform⦄ where
  open P use {StringSet}

  -- the rest of the loop behind the notification of one watcher
  abbrev pub gone_on :
      List CacheWatcher → List CacheWatcher × Bool → Reaction → List CacheWatcher × Bool
  gone_on watchers others r = elim r [
    | settled w' ↦ let (rest, returned) = others in (w' ∷ rest, returned)
    | overflowed w' message ↦ (w' ∷ watchers, false)
  ]

  -- purging leaves the watchers as they are
  pub purge_record-watchers :
      (names : StringSet) (ac : AuthCache) (r : ReviewRecord)
      → (purge_record names ac r).watchers ≡ ac.watchers
  unfolding purge_record
  purge_record-watchers names ac r = ground arith

  module _ (Q : CacheWatcher → Type 0) where
    abbrev pub Each : List CacheWatcher → Type 0
    Each [] = Unit
    Each (w ∷ watchers) = Q w × Each watchers

    pub Each-Mem :
        (watchers : List CacheWatcher) → Each watchers → (w : CacheWatcher) → Memᴰ w watchers → Q w
    Each-Mem [] h w m = elim m [ ]
    Each-Mem (v ∷ watchers) (first, rest) w (Memᴰ.head e) = subst Q (sym e) first
    Each-Mem (v ∷ watchers) (first, rest) w (Memᴰ.tail m) = Each-Mem watchers rest w m

    pub Each-append :
        (front back : List CacheWatcher) → Each front → Each back → Each (front ++ back)
    Each-append [] back h h' = h'
    Each-append (w ∷ front) back (first, rest) h = (first, Each-append front back rest h)

    pub Each-split :
        (front back : List CacheWatcher) → Each (front ++ back) → Each front × Each back
    Each-split [] back h = (tt, h)
    Each-split (w ∷ front) back (first, rest) =
        let (h, h') = Each-split front back rest in ((first, h), h')

    pub Each-Removed :
        (id : ℕ) (watchers result : List CacheWatcher)
        → Removed id watchers result
        → Each watchers
        → Each result
    Each-Removed id watchers result (Removed.absent _ same) h = subst Each (sym same) h
    Each-Removed id watchers result (Removed.taken front w back _ _ split left) h =
        let (h₁, (_, h₂)) = Each-split front (w ∷ back) (subst Each split h) in
        subst Each (sym left) (Each-append front back h₁ h₂)

    -- one watcher among others becomes another
    pub Each-replace :
        (front : List CacheWatcher) (w w' : CacheWatcher) (back watchers : List CacheWatcher)
        → watchers ≡ front ++ w ∷ back
        → (Q w → Q w')
        → Each watchers
        → Each (front ++ w' ∷ back)
    Each-replace front w w' back watchers split step h =
        let (h₁, (first, h₂)) = Each-split front (w ∷ back) (subst Each split h) in
        Each-append front (w' ∷ back) h₁ (step first, h₂)

    notify_each-Each :
        (cache : WatchableCache) (name : String) (users groups : StringSet)
        (watchers : List CacheWatcher)
        → ((w : CacheWatcher)
            → Q w
            → Q (left_by (group_membership_changed cache w name users groups)))
        → Each watchers
        → Each (notify_each cache name users groups watchers).0
    unfolding notify_each
    notify_each-Each cache name users groups [] step h = tt
    notify_each-Each cache name users groups (w ∷ watchers) step (first, rest) =
        go (group_membership_changed cache w name users groups) (step w first)
          (notify_each-Each cache name users groups watchers step rest)
      where
        go :
            (r : Reaction)
            → Q (left_by r)
            → Each (notify_each cache name users groups watchers).0
            → Each (gone_on watchers (notify_each cache name users groups watchers) r).0
        go (settled w') kept others = (kept, others)
        go (overflowed w' message) kept others = (kept, rest)

    abbrev EachOf : AuthCache → Type 0
    EachOf ac = Each ac.watchers

    module _ (s : Surroundings)
        (step : (name : String) (users groups : StringSet)
          → IsNotice s name users groups
          → (w : CacheWatcher) → Q w
          → Q (left_by (group_membership_changed s.watchable w name users groups))) where
      Keeps-EachOf :
          (name : String) (users groups : StringSet)
          → IsNotice s name users groups
          → Keeps EachOf EachOf (notify_watchers s name users groups)
      unfolding notify_watchers
      Keeps-EachOf name users groups notice = record {
        at = λ ac h. go ac (notify_each s.watchable name users groups ac.watchers) (
            notify_each-Each s.watchable name users groups ac.watchers
              (step name users groups notice) h);
      }
        where
          go :
              (ac : AuthCache) (r : List CacheWatcher × Bool)
              → Each r.0
              → Ends EachOf EachOf (notified ac r)
          go ac (watchers, true) h = h
          go ac (watchers, false) h = h

      EachOf-IsInvariant : IsInvariant s EachOf EachOf
      unfolding apply_review
      EachOf-IsInvariant = record {
        sync = record { at_notify = Keeps-EachOf; at_review = λ ac request review _ h. h };
        at_purge = λ ac names r _ h. subst Each (sym (purge_record-watchers names ac r)) h;
        at_finish = λ ac names state h. h;
      }

      -- What a notification keeps of a watcher, a run keeps of all, also when it is stuck.
      pub synchronize-Each :
          (ac : AuthCache) → Each ac.watchers → Each (after (synchronize s ac)).watchers
      synchronize-Each ac h =
          after_of_Ends EachOf (synchronize s ac)
            ((Keeps-synchronize s EachOf EachOf EachOf-IsInvariant).at ac h)
