-- ===== src/AuthCache/Returns.antt =====
-- pkg/cache/common.go, `synchronize`, over watchers that are scoped to nothing, or over none.
use mathlib.Core.Path.{subst}
use clusterset_server.Base.{◌≡◌, refl, sym, true, false, ◌&&◌, List, [], ◌∷◌, String, arith, ok}
use clusterset_server.Platform.{Platform}
use clusterset_server.Objects.{UserInfo}
use clusterset_server.Rbac.Reviewer.{Review}
use clusterset_server.Watcher.{WatchableCache, CacheWatcher, settled, group_membership_changed}
use clusterset_server.AuthCache.Records.{ReviewRequest, review_record_key}
use clusterset_server.AuthCache.Consistency.{new_auth_cache-IsConsistent}
use clusterset_server.AuthCache.Request.{apply_review}
use clusterset_server.AuthCache.State.{
  Surroundings, AuthCache, Outcome, done, stuck, new_auth_cache,
}
use clusterset_server.AuthCache.Notify.{notify_each, notify_watchers, notified}
use clusterset_server.AuthCache.Names.{list_names}
use clusterset_server.AuthCache.Sync.{synchronize, purge_record}
use clusterset_server.AuthCache.Keeps.{Ends}
use clusterset_server.AuthCache.Runs.{IsInvariant, Keeps-synchronize}
use clusterset_server.AuthCache.Coverage.{listed, ReviewsAll}
use clusterset_server.AuthCache.Exactness.{IsFresh, grants, synchronize_exact}

module _ ⦃P : Platform⦄ where
  open P use {StringSet, has, find-new_store}

  -- The watcher is scoped to nothing.
  abbrev pub IsBlind : CacheWatcher → Type 0
  IsBlind w = (name : String) → has w.visible_resources name ≡ false

  abbrev pub AllBlind : List CacheWatcher → Type 0
  AllBlind [] = Unit
  AllBlind (w ∷ watchers) = IsBlind w × AllBlind watchers

  -- A blind watcher is told nothing, whatever changes.
  pub group_membership_changed_blind :
      (cache : WatchableCache) (w : CacheWatcher) (name : String) (users groups : StringSet)
      → IsBlind w
      → group_membership_changed cache w name users groups ≡ settled w
  unfolding group_membership_changed
  group_membership_changed_blind cache w name users groups blind =
      ground (arith, blind "*", blind name)

  notify_each_blind :
      (cache : WatchableCache) (name : String) (users groups : StringSet)
      (watchers : List CacheWatcher)
      → AllBlind watchers
      → notify_each cache name users groups watchers ≡ (watchers, true)
  unfolding notify_each
  notify_each_blind cache name users groups [] blind = refl
  notify_each_blind cache name users groups (w ∷ watchers) (here, blind) =
      rw (group_membership_changed_blind cache w name users groups here, notify_each)
        (rw (notify_each_blind cache name users groups watchers blind))

  -- the watchers of the cache are these, and they are blind
  Unwatched : List CacheWatcher → AuthCache → Type 0
  Unwatched watchers ac = (ac.watchers ≡ watchers) × AllBlind watchers

  Never : AuthCache → Type 0
  Never ac = ⊥

  Unwatched-IsInvariant :
      (s : Surroundings) (watchers : List CacheWatcher) → IsInvariant s (Unwatched watchers) Never
  unfolding Unwatched Never apply_review purge_record notify_watchers
  Unwatched-IsInvariant s watchers = record {
    sync = record {
      at_notify = λ name users groups _. record {
        at = λ ac h.
            subst (λ r. Ends (Unwatched watchers) Never (notified ac r))
              (sym (
                notify_each_blind s.watchable name users groups ac.watchers
                  (subst AllBlind (sym h.0) h.1)))
              h;
      };
      at_review = λ ac request review _ h. h;
    };
    at_purge = λ ac names r _ h. (ground arith, h.1);
    at_finish = λ ac names state h. h;
  }

  -- A run over blind watchers returns, and leaves them as they are.
  pub synchronize_returns :
      (s : Surroundings) (ac : AuthCache)
      → AllBlind ac.watchers
      → (ac' : AuthCache) × (synchronize s ac ≡ done tt ac') × (ac'.watchers ≡ ac.watchers)
  unfolding Unwatched Never
  synchronize_returns s ac blind = go (synchronize s ac) (
      (Keeps-synchronize s (Unwatched ac.watchers) Never (Unwatched-IsInvariant s ac.watchers)).at
        ac (refl, blind))
    where
      go :
          (o : Outcome (Unit {0}))
          → Ends (Unwatched ac.watchers) Never o
          → (ac' : AuthCache) × (o ≡ done tt ac') × (ac'.watchers ≡ ac.watchers)
      go (done tt ac') h = (ac', refl, h.0)
      go (stuck ac') h = absurd h

  pub IsFresh-new_auth_cache : (review : String → Review) → IsFresh review new_auth_cache
  IsFresh-new_auth_cache review = record {
    at = λ n r e. absurd (ground (arith, find-new_store review_record_key n));
  }

  -- The first run of a new cache returns, and then a user is listed exactly the names of the
  -- resources whose review names the user or one of the user's groups.
  pub first_synchronize_exact :
      (s : Surroundings) (requests : List ReviewRequest) (review : String → Review)
      → s.sync_requests ≡ ok requests
      → ReviewsAll s review
      → (ac : AuthCache) × (synchronize s new_auth_cache ≡ done tt ac)
        × ((user : UserInfo) (n : String)
            → has (list_names ac user) n ≡ (listed requests n && grants (review n) user))
  first_synchronize_exact s requests review listing total =
      let (ac, returned, _) = synchronize_returns s new_auth_cache tt in
      (
        ac,
        returned,
        (synchronize_exact s requests review new_auth_cache ac listing total
            new_auth_cache-IsConsistent (IsFresh-new_auth_cache review) returned).2,
      )
