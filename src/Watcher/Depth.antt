-- ===== src/Watcher/Depth.antt =====
-- pkg/cache/watcher.go: the depth of the channel `cacheIncoming`.
use mathlib.Core.Path.{subst}
use clusterset_server.Base.{
  ◌≡◌, refl, Bool, true, false, Bool-cases, inl, inr, Option, none, some, List, [], ◌∷◌, ◌++◌,
  String, ◌==◌, suc, ◌≤◌, arith, length, ltb, lookup, Result-cases, if◌then◌else◌,
}
use clusterset_server.Platform.{Platform}
use clusterset_server.Objects.{Object, Event}
use clusterset_server.Watcher.{
  WatchableCache, CacheWatcher, Reaction, settled, send, incoming_depth, notify_removed,
  notify_version, notify_changed, group_membership_changed,
}
use clusterset_server.Watcher.Knowledge.{left_by}

pub length-snoc : (xs : List Event) (e : Event) → length (xs ++ e ∷ []) ≡ suc (length xs)
length-snoc [] e = refl
length-snoc (x ∷ xs) e = rw (length-snoc xs e)

module _ ⦃P : Platform⦄ where
  open P use {StringSet, has, has_any}

  -- The channel of the watcher has at most its depth.
  abbrev pub Fits : CacheWatcher → Type 0
  Fits w = length w.incoming ≤ incoming_depth

  -- What a notification does to the channel.
  pub record IsBounded (w : CacheWatcher) (r : Reaction) : Type 0 where
    pub one_more : length (left_by r).incoming ≤ suc (length w.incoming)
    pub fits : Fits w → Fits (left_by r)

  IsBounded-settled : (w : CacheWatcher) → IsBounded w (settled w)
  IsBounded-settled w = record { one_more = omega arith; fits = λ h. h }

  IsBounded-send :
      (w v : CacheWatcher) (event : Event) (message : String)
      → v.incoming ≡ w.incoming
      → IsBounded w (send v event message)
  unfolding send
  IsBounded-send w v event message same =
      elim (Bool-cases (ltb (length v.incoming) incoming_depth)) [
        | inl room ↦ rw room (record {
          one_more = rw (length-snoc v.incoming event) (rw same (omega arith));
          fits = λ h. ground (arith, length-snoc v.incoming event, room);
        })
        | inr full ↦ rw full (record { one_more = rw same (omega arith); fits = λ h. rw same h })
      ]

  IsBounded-notify_version :
      (w : CacheWatcher) (name : String) (object : Object) (last : Option String)
      → IsBounded w (notify_version w name object last)
  unfolding notify_version
  IsBounded-notify_version w name object none = IsBounded-send w _ _ _ refl
  IsBounded-notify_version w name object (some last) =
      elim (Bool-cases (last == object.resource_version)) [
        | inl same ↦ rw same (IsBounded-settled w)
        | inr other ↦ rw other (IsBounded-send w _ _ _ refl)
      ]

  IsBounded-notify_changed :
      (cache : WatchableCache) (w : CacheWatcher) (name : String)
      → IsBounded w (notify_changed cache w name)
  unfolding notify_changed
  IsBounded-notify_changed cache w name = elim (Result-cases (cache.get name)) [
    | inl (object, found) ↦
        rw (found, notify_changed)
          (IsBounded-notify_version w name object (lookup name w.known_resources))
    | inr (e, failed) ↦ rw (failed, notify_changed) (IsBounded-settled w)
  ]

  pub IsBounded-if :
      (b : Bool) (w : CacheWatcher) (r r' : Reaction)
      → IsBounded w r
      → IsBounded w r'
      → IsBounded w (if b then r else r')
  IsBounded-if true w r r' h h' = h
  IsBounded-if false w r r' h h' = h'

  pub IsBounded-group_membership_changed :
      (cache : WatchableCache) (w : CacheWatcher) (name : String) (users groups : StringSet)
      → IsBounded w (group_membership_changed cache w name users groups)
  unfolding group_membership_changed notify_removed
  IsBounded-group_membership_changed cache w name users groups =
      IsBounded-if _ w _ _ (IsBounded-settled w) (
        IsBounded-if _ w _ _ (IsBounded-send w _ _ _ refl)
          (IsBounded-if _ w _ _ (IsBounded-notify_changed cache w name) (IsBounded-settled w)))

  -- an event is taken
  pub Fits-received :
      (w : CacheWatcher) (e : Event) (rest : List Event)
      → w.incoming ≡ e ∷ rest
      → Fits w
      → length rest ≤ incoming_depth
  Fits-received w e rest full h =
      let fits : length (e ∷ rest) ≤ incoming_depth =
        subst (λ events. length events ≤ incoming_depth) full h in
      omega arith
