-- ===== src/Watcher/Feed/Coherence.antt =====
-- pkg/cache/watcher.go, `Watch`: a client that replays what it is sent.
use mathlib.Core.List.{append-nil}
use clusterset_server.Base.{
  any, ◌≡◌, refl, ap, ◌∙◌, ℕ, Bool, true, false, List, [], ◌∷◌, ◌++◌, StringMap, arith, insert,
  if◌then◌else◌,
}
use clusterset_server.Platform.{Platform}
use clusterset_server.Objects.{Object, UserInfo}
use clusterset_server.Watcher.{WatchableCache, known_from, new_cache_watcher}
use clusterset_server.Watcher.Feed.{is_error, Feed, new_feed, apply_event, replay, additions}
use clusterset_server.Watcher.Feed.Invariant.{whole, IsCoherent}

module _ ⦃P : Platform⦄ where
  open P use {StringSet}

  replay-additions :
      (m : StringMap) (objects : List Object) → replay m (additions objects) ≡ known_from m objects
  unfolding replay additions known_from apply_event
  replay-additions m [] = refl
  replay-additions m (object ∷ objects) =
      replay-additions (insert object.name object.resource_version m) objects

  -- What a client starts from: nothing where it is sent the objects that there are, or else those
  -- objects, which it has listed.
  abbrev pub start_of : WatchableCache → UserInfo → Bool → StringMap
  start_of cache user include_all =
      if include_all then [] else known_from [] (cache.list_objects user)

  additions_plain : (objects : List Object) → any is_error (additions objects ++ []) ≡ false
  unfolding additions any
  additions_plain [] = refl
  additions_plain (object ∷ objects) = additions_plain objects

  replay-new_feed :
      (cache : WatchableCache) (id : ℕ) (user : UserInfo) (visible : StringSet) (include_all : Bool)
      → replay
          (start_of cache user include_all)
          (whole (new_feed (new_cache_watcher id user visible cache include_all)))
        ≡ (new_cache_watcher id user visible cache include_all).known_resources
  unfolding new_feed new_cache_watcher
  replay-new_feed cache id user visible true =
      ap (replay []) (append-nil (additions (cache.list_objects user)))
      ∙ replay-additions [] (cache.list_objects user)
  replay-new_feed cache id user visible false = unfold replay additions in refl

  pub IsCoherent-new_feed :
      (cache : WatchableCache) (id : ℕ) (user : UserInfo) (visible : StringSet) (include_all : Bool)
      → IsCoherent
          (start_of cache user include_all)
          (new_feed (new_cache_watcher id user visible cache include_all))
  unfolding new_feed new_cache_watcher
  IsCoherent-new_feed cache id user visible include_all = record {
    well = refl;
    ends = λ ended. absurd (ground (arith, ended));
    untold =
        additions_plain (new_cache_watcher id user visible cache include_all).initial_resources;
    replays = λ free going. replay-new_feed cache id user visible include_all;
  }
