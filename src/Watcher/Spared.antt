-- ===== src/Watcher/Spared.antt =====
-- pkg/cache/watcher.go, `GroupMembershipChanged`: a name that a watcher is not to hear of.
use clusterset_server.Base.{
  ℕ, ◌≡◌, refl, ◌∙◌, Bool, true, false, not, ◌&&◌, Bool-cases, inl, inr, Option, none, some, List,
  [], ◌∷◌, String, ◌==◌, eq-cases, arith, ok, Result-cases, any, any-append, if◌then◌else◌, length,
  ltb, lookup, insert, lookup-insert, lookup-delete,
}
use clusterset_server.Platform.{Platform}
use clusterset_server.Objects.{Object, UserInfo, Event, added, modified, deleted, error}
use clusterset_server.Watcher.{
  WatchableCache, CacheWatcher, Reaction, settled, send, has_access, known, notify_removed,
  notify_version, notify_changed, group_membership_changed, known_from, new_cache_watcher,
  incoming_depth,
}
use clusterset_server.Watcher.Knowledge.{left_by}

-- Is the event about the name?
abbrev pub is_about : String → Event → Bool
is_about n (added object) = object.name == n
is_about n (modified object) = object.name == n
is_about n (deleted object) = object.name == n
is_about n (error message) = false

-- The cache gives an object of the name that it is asked for.
pub record GivesNamed (cache : WatchableCache) : Type 0 where
  pub gets : (name : String) (object : Object) → cache.get name ≡ ok object → object.name ≡ name
  pub converts : (name : String) → (cache.convert_resource name).name ≡ name

module _ ⦃P : Platform⦄ (n : String) where
  open P use {StringSet, has, has_any}

  -- The watcher knows nothing of the name, and no event about it waits.
  pub record IsSpared (w : CacheWatcher) : Type 0 where
    pub unknown : lookup n w.known_resources ≡ none
    pub unheard : any (is_about n) w.incoming ≡ false
    pub uninitial : any (λ object. object.name == n) w.initial_resources ≡ false

  -- a watcher whose knowledge is replaced
  IsSpared-send :
      (w v : CacheWatcher) (event : Event) (message : String)
      → IsSpared w
      → v.incoming ≡ w.incoming
      → v.initial_resources ≡ w.initial_resources
      → lookup n v.known_resources ≡ none
      → is_about n event ≡ false
      → IsSpared (left_by (send v event message))
  unfolding send any
  IsSpared-send w v event message spared same same' unknown other =
      let before : any (is_about n) v.incoming ≡ false = rw same spared.unheard in
      elim (Bool-cases (ltb (length v.incoming) incoming_depth)) [
        | inl room ↦ rw room (record {
          unknown = unknown;
          unheard = any-append (is_about n) v.incoming (event ∷ []) ∙ ground (arith, before, other);
          uninitial = rw same' spared.uninitial;
        })
        | inr full ↦ rw full (record {
          unknown = unknown;
          unheard = rw same spared.unheard;
          uninitial = rw same' spared.uninitial;
        })
      ]

  IsSpared-if :
      (b : Bool) (r r' : Reaction)
      → (b ≡ true → IsSpared (left_by r))
      → (b ≡ false → IsSpared (left_by r'))
      → IsSpared (left_by (if b then r else r'))
  IsSpared-if true r r' h h' = h refl
  IsSpared-if false r r' h h' = h' refl

  module _ (w : CacheWatcher) (name : String) (spared : IsSpared w)
      (other : (name == n) ≡ false) where
    still_unknown : (version : String) → lookup n (insert name version w.known_resources) ≡ none
    still_unknown version =
        lookup-insert name n version w.known_resources ∙ ground (arith, other, spared.unknown)

    about_other : (object : Object) → object.name ≡ name → (object.name == n) ≡ false
    about_other object same = rw same other

    IsSpared-notify_version :
        (object : Object) (last : Option String)
        → object.name ≡ name
        → IsSpared (left_by (notify_version w name object last))
    unfolding notify_version
    IsSpared-notify_version object none same =
        IsSpared-send w _ _ _ spared refl refl (still_unknown object.resource_version)
          (about_other object same)
    IsSpared-notify_version object (some last) same =
        IsSpared-if (last == object.resource_version) _ _ (λ _. spared)
          (λ _.
            IsSpared-send w _ _ _ spared refl refl (still_unknown object.resource_version)
              (about_other object same))

    IsSpared-notify_changed :
        (cache : WatchableCache)
        → GivesNamed cache
        → IsSpared (left_by (notify_changed cache w name))
    unfolding notify_changed
    IsSpared-notify_changed cache named = elim (Result-cases (cache.get name)) [
      | inl (object, found) ↦
          rw (found, notify_changed)
            (IsSpared-notify_version object (lookup name w.known_resources)
              (named.gets name object found))
      | inr (e, failed) ↦ rw (failed, notify_changed) spared
    ]

    IsSpared-notify_removed :
        (cache : WatchableCache)
        → GivesNamed cache
        → IsSpared (left_by (notify_removed cache w name))
    unfolding notify_removed
    IsSpared-notify_removed cache named =
        IsSpared-send w _ _ _ spared refl refl
          (lookup-delete name n w.known_resources ∙ ground (arith, other, spared.unknown))
          (about_other (cache.convert_resource name) (named.converts name))

  module _ (cache : WatchableCache) (w : CacheWatcher) (name : String) (users groups : StringSet)
      (named : GivesNamed cache) (spared : IsSpared w) where
    IsSpared-removed :
        (not (has_access w users groups) && known (lookup name w.known_resources)) ≡ true
        → IsSpared (left_by (notify_removed cache w name))
    IsSpared-removed lost = elim (eq-cases name n) [
      | inl (e, same) ↦
          let unknown : lookup name w.known_resources ≡ none = rw same spared.unknown in
          absurd (ground (arith, unknown))
      | inr (e, other) ↦ IsSpared-notify_removed w name spared e cache named
    ]

    IsSpared-changed :
        (name ≡ n → has_access w users groups ≡ false)
        → has_access w users groups ≡ true
        → IsSpared (left_by (notify_changed cache w name))
    IsSpared-changed denied access = elim (eq-cases name n) [
      | inl (e, same) ↦ absurd (ground (arith, denied same))
      | inr (e, other) ↦ IsSpared-notify_changed w name spared e cache named
    ]

    -- A notification spares the watcher the name, where the user has no access by it if it is of
    -- this name.
    pub IsSpared-group_membership_changed :
        (name ≡ n → has_access w users groups ≡ false)
        → IsSpared (left_by (group_membership_changed cache w name users groups))
    unfolding group_membership_changed
    IsSpared-group_membership_changed denied =
        let access = has_access w users groups in
        let lost = not access && known (lookup name w.known_resources) in
        let changed : Reaction = if access then notify_changed cache w name else settled w in
        let seen : Reaction = if lost then notify_removed cache w name else changed in
        IsSpared-if (not (has w.visible_resources "*") && not (has w.visible_resources name))
          (settled w) seen (λ _. spared)
          (λ _. IsSpared-if lost (notify_removed cache w name) changed IsSpared-removed (λ _.
            IsSpared-if access (notify_changed cache w name) (settled w) (IsSpared-changed denied)
              (λ _. spared)))

  -- A new watcher of a cache that lists its user no object of this name.
  known_from-none :
      (resources : List (String × String)) (objects : List Object)
      → lookup n resources ≡ none
      → any (λ object. object.name == n) objects ≡ false
      → lookup n (known_from resources objects) ≡ none
  unfolding known_from any
  known_from-none resources [] unknown absent = unknown
  known_from-none resources (object ∷ objects) unknown absent =
      known_from-none (insert object.name object.resource_version resources) objects
        (lookup-insert object.name n object.resource_version resources ∙ ground (arith, unknown))
        (ground arith)

  pub new_cache_watcher-IsSpared :
      (id : ℕ) (user : UserInfo) (visible : StringSet) (cache : WatchableCache) (include_all : Bool)
      → any (λ object. object.name == n) (cache.list_objects user) ≡ false
      → IsSpared (new_cache_watcher id user visible cache include_all)
  unfolding new_cache_watcher any lookup
  new_cache_watcher-IsSpared id user visible cache true absent = record {
    unknown = known_from-none [] (cache.list_objects user) refl absent;
    unheard = refl;
    uninitial = absent;
  }
  new_cache_watcher-IsSpared id user visible cache false absent = record {
    unknown = known_from-none [] (cache.list_objects user) refl absent;
    unheard = refl;
    uninitial = refl;
  }
