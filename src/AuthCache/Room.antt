-- ===== src/AuthCache/Room.antt =====
-- pkg/cache/common.go, `synchronize`, over watchers whose channels have room.
use clusterset_server.Base.{
  ◌≡◌, refl, Bool, true, false, inl, inr, Bool-cases, Option, none, some, List, [], ◌∷◌, String,
  ◌&&◌, arith, ℕ, suc, ◌+◌, ◌≤◌, length, Result, ok, err,
}
use clusterset_server.Platform.{Platform}
use clusterset_server.Rbac.Reviewer.{Review}
use clusterset_server.Watcher.{
  WatchableCache, CacheWatcher, Reaction, settled, overflowed, group_membership_changed,
  incoming_depth,
}
use clusterset_server.Watcher.Depth.{IsBounded, IsBounded-group_membership_changed}
use clusterset_server.Watcher.Overflow.{
  has_event, is_full, overflows, overflows-group_membership_changed,
}
use clusterset_server.AuthCache.Each.{gone_on}
use clusterset_server.AuthCache.Records.{ReviewRequest, ReviewRecord, review_record_key}
use clusterset_server.AuthCache.Review.{skip_review, last_known}
use clusterset_server.AuthCache.Request.{sync_request, sync_known, sync_review, apply_review}
use clusterset_server.AuthCache.State.{
  Surroundings, AuthCache, Outcome, done, stuck, M, pure, ◌>>=◌,
}
use clusterset_server.AuthCache.Notify.{notify_each, notify_watchers, notified}

module _ ⦃P : Platform⦄ where
  open P use {StringSet, has, find, find_error-none, insert_all, empty}

  -- Every channel has room for so many events.
  abbrev pub Room : ℕ → List CacheWatcher → Type 0
  Room k [] = Unit
  Room k (w ∷ watchers) = (length w.incoming + k ≤ incoming_depth) × Room k watchers

  pub Room-mono :
      (k l : ℕ) (watchers : List CacheWatcher) → l ≤ k → Room k watchers → Room l watchers
  Room-mono k l [] below h = tt
  Room-mono k l (w ∷ watchers) below (first, rest) =
      (omega arith, Room-mono k l watchers below rest)

  -- A step that starts with the known names `known` and with room for `j` more events returns with
  -- a value for which `Q` holds, with the same known names and with room for `j` events.
  abbrev pub Ended : {A : Type 0} → StringSet → (A → Type 0) → ℕ → Outcome A → Type 0
  Ended known Q j (done a ac) = Q a × (ac.all_known_names ≡ known) × Room j ac.watchers
  Ended known Q j (stuck ac) = ⊥

  -- The step returns where every channel has room for `cost` events.
  pub record Costs {A : Type 0} (known : StringSet) (cost : ℕ) (m : M A) (Q : A → Type 0)
      : Type 0 where
    pub at :
        (j : ℕ) (ac : AuthCache)
        → ac.all_known_names ≡ known
        → Room (cost + j) ac.watchers
        → Ended known Q j (m ac)

  module _ {A B : Type 0} {known : StringSet} where
    pub Ended-bind :
        (j : ℕ) (o : Outcome A) (f : A → M B) (Q : A → Type 0) (G : Outcome B → Type 0)
        → Ended known Q j o
        → ((a : A) (ac : AuthCache)
            → Q a
            → ac.all_known_names ≡ known
            → Room j ac.watchers
            → G (f a ac))
        → G (elim o [ done a ac ↦ f a ac | stuck ac ↦ stuck ac ])
    Ended-bind j (done a ac) f Q G (q, same, room) next = next a ac q same room
    Ended-bind j (stuck ac) f Q G h next = absurd h

    pub Costs-bind :
        (cost cost' : ℕ) (m : M A) (f : A → M B) (Q : A → Type 0) (R : B → Type 0)
        → Costs known cost m Q
        → ((a : A) → Q a → Costs known cost' (f a) R)
        → Costs known (cost + cost') (m >>= f) R
    Costs-bind cost cost' m f Q R km kf = record {
      at = λ j ac same room.
          Ended-bind (cost' + j) (m ac) f Q (Ended known R j)
            (km.at (cost' + j) ac same (Room-mono _ _ ac.watchers (omega arith) room))
            (λ a ac' q same' room'. (kf a q).at j ac' same' room');
    }

  pub Costs-mono :
      {A : Type 0} {known : StringSet} (cost cost' : ℕ) (m : M A) (Q : A → Type 0)
      → cost ≤ cost'
      → Costs known cost m Q
      → Costs known cost' m Q
  Costs-mono cost cost' m Q below k = record {
    at = λ j ac same room. k.at j ac same (Room-mono _ _ ac.watchers (omega arith) room);
  }

  pub Costs-pure :
      {A : Type 0} {known : StringSet} (a : A) (Q : A → Type 0) → Q a → Costs known 0 (pure a) Q
  Costs-pure a Q q = record {
    at = λ j ac same room. (q, same, Room-mono _ _ ac.watchers (omega arith) room);
  }

  abbrev pub Any : {A : Type 0} → A → Type 0
  Any a = Unit

  -- Watchers with room for one more event are all notified.
  notify_each-Room :
      (cache : WatchableCache) (name : String) (users groups : StringSet) (j : ℕ)
      (watchers : List CacheWatcher)
      → Room (suc j) watchers
      → ((notify_each cache name users groups watchers).1 ≡ true)
        × Room j (notify_each cache name users groups watchers).0
  unfolding notify_each
  notify_each-Room cache name users groups j [] room = (refl, tt)
  notify_each-Room cache name users groups j (w ∷ watchers) (first, rest) =
      go (group_membership_changed cache w name users groups)
        (IsBounded-group_membership_changed cache w name users groups)
        (overflows-group_membership_changed cache w name users groups)
        (notify_each cache name users groups watchers)
        (notify_each-Room cache name users groups j watchers rest)
    where
      go :
          (r : Reaction)
          → IsBounded w r
          → overflows r ≡ (has_event cache name users groups w && is_full w)
          → (others : List CacheWatcher × Bool) → (others.1 ≡ true) × Room j others.0
          → ((gone_on watchers others r).1 ≡ true) × Room j (gone_on watchers others r).0
      go (settled w') bounded e others (returned, room) =
          (returned, (omega (arith, bounded.one_more), room))
      go (overflowed w' message) bounded e others h =
          let full : is_full w ≡ true = ground arith in absurd (ground (arith, full))

  pub Costs-notify_watchers :
      (s : Surroundings) (known : StringSet) (name : String) (users groups : StringSet)
      → Costs known 1 (notify_watchers s name users groups) Any
  unfolding notify_watchers
  Costs-notify_watchers s known name users groups = record {
    at = λ j ac same room. go j ac (notify_each s.watchable name users groups ac.watchers) same (
        notify_each-Room s.watchable name users groups j ac.watchers
          (Room-mono _ _ ac.watchers (omega arith) room));
  }
    where
      go :
          (j : ℕ) (ac : AuthCache) (r : List CacheWatcher × Bool)
          → ac.all_known_names ≡ known
          → (r.1 ≡ true) × Room j r.0
          → Ended known Any j (notified ac r)
      go j ac (watchers, true) same (_, room) = (tt, same, room)
      go j ac (watchers, false) same (returned, _) = absurd (ground arith)

  sync_review-Ended :
      (s : Surroundings) (known : StringSet) (j : ℕ) (request : ReviewRequest)
      (last : Option ReviewRecord) (o : Result Review) (ac : AuthCache)
      → ac.all_known_names ≡ known
      → Room (1 + j) ac.watchers
      → Ended known Any j (sync_review s request last o ac)
  unfolding sync_review apply_review
  sync_review-Ended s known j request last (err e) ac same room =
      (tt, same, Room-mono _ _ ac.watchers (omega arith) room)
  sync_review-Ended s known j request last (ok review) ac same room =
      (Costs-bind 1 0 _ _ Any Any (Costs-notify_watchers s known request.name _ _)
          (λ _ _. Costs-pure none Any tt)).at
        j _ same room

  sync_known-Ended :
      (s : Surroundings) (known : StringSet) (j : ℕ) (request : ReviewRequest)
      (last : Option ReviewRecord) (ac : AuthCache)
      → ac.all_known_names ≡ known
      → Room (1 + j) ac.watchers
      → Ended known Any j (sync_known s request last ac)
  unfolding sync_known
  sync_known-Ended s known j request last ac same room =
      elim (Bool-cases (skip_review (some request) last)) [
        | inl skipped ↦
            rw (skipped, sync_known) (tt, same, Room-mono _ _ ac.watchers (omega arith) room)
        | inr wanted ↦
            rw (wanted, sync_known)
              (sync_review-Ended s known j request last (s.reviewer s.group s.resource request.name)
                ac same room)
      ]

  -- A request notifies the watchers at most once.
  pub Costs-sync_request :
      (s : Surroundings) (known : StringSet) (request : ReviewRequest)
      → Costs known 1 (sync_request s request) Any
  unfolding sync_request last_known
  Costs-sync_request s known request = record {
    at = λ j ac same room.
        rw
          (
            find_error-none review_record_key ac.review_records request.name,
            sync_request,
            last_known,
          )
          (sync_known-Ended s known j request
            (find review_record_key ac.review_records request.name) ac same room);
  }
