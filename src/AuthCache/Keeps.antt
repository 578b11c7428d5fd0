-- ===== src/AuthCache/Keeps.antt =====
-- Rules for what the steps of a run keep, one for each operation of pkg/cache/common.go that a run
-- is made of.
use clusterset_server.Base.{
  ◌≡◌, refl, Bool, true, false, Bool-cases, inl, inr, ◌⊎◌, none, some, List, [], ◌∷◌, String,
  Result, ok, err,
}
use clusterset_server.Platform.{Platform}
use clusterset_server.Rbac.{ClusterRole, ClusterRoleBinding}
use clusterset_server.Rbac.Reviewer.{Review}
use clusterset_server.Watcher.{CacheWatcher}
use clusterset_server.AuthCache.Records.{ReviewRequest, review_record_key}
use clusterset_server.AuthCache.Review.{skip_review, last_known}
use clusterset_server.AuthCache.Notify.{notify_each, notify_watchers, notified}
use clusterset_server.AuthCache.Request.{sync_request, sync_known, sync_review, apply_review}
use clusterset_server.AuthCache.State.{
  Surroundings, AuthCache, Outcome, done, stuck, after, M, pure, ◌>>=◌,
}
use clusterset_server.AuthCache.Sync.{
  sync_each, sync_listed, sync_names, sync_role, sync_all_bindings, sync_bindings, notify_deleted,
  binding_request,
}

module _ ⦃P : Platform⦄ where
  open P use {
    StringSet, Store, find, find-delete, find_of_mem-items, list, insert_all, find_error-none,
    empty, has, range, difference, items,
  }

  -- A step that returns ends in `I`, and one that is stuck in `J`.
  abbrev pub Ends : {A : Type 0} → (AuthCache → Type 0) → (AuthCache → Type 0) → Outcome A → Type 0
  Ends I J (done a ac) = I ac
  Ends I J (stuck ac) = J ac

  pub after_of_Ends :
      {A : Type 0} (I : AuthCache → Type 0) (o : Outcome A) → Ends I I o → I (after o)
  after_of_Ends I (done a ac) h = h
  after_of_Ends I (stuck ac) h = h

  -- From `I` the step `m` ends in `I`, or is stuck in `J`.
  pub record Keeps {A : Type 0} (I J : AuthCache → Type 0) (m : M A) : Type 0 where
    pub at : (ac : AuthCache) → I ac → Ends I J (m ac)

  -- A run notifies of a name with what the reviewer says of it, or with nobody where it is gone.
  abbrev pub IsNotice : Surroundings → String → StringSet → StringSet → Type 0
  IsNotice s name users groups =
      ((v : Review) × (s.reviewer s.group s.resource name ≡ ok v)
        × (users ≡ insert_all empty v.users)
        × (groups ≡ insert_all empty v.groups))
      ⊎ ((users ≡ empty) × (groups ≡ empty))

  -- What a run does to the cache before it drops records: it notifies the watchers, and it applies
  -- the review of a request that was not skipped.
  pub record IsSyncInvariant (s : Surroundings) (I J : AuthCache → Type 0) : Type 0 where
    pub at_notify :
        (name : String) (users groups : StringSet)
        → IsNotice s name users groups
        → Keeps I J (notify_watchers s name users groups)
    pub at_review :
        (ac : AuthCache) (request : ReviewRequest) (review : Review)
        → s.reviewer s.group s.resource request.name ≡ ok review
        → I ac
        → I (apply_review request (find review_record_key ac.review_records request.name) review ac)

  module _ {A B : Type 0} {I J : AuthCache → Type 0} where
    pub Keeps-bind :
        (m : M A) (f : A → M B) → Keeps I J m → ((a : A) → Keeps I J (f a)) → Keeps I J (m >>= f)
    Keeps-bind m f km kf = record { at = λ ac h. go (m ac) (km.at ac h) }
      where
        go :
            (o : Outcome A)
            → Ends I J o
            → Ends I J (elim o [ done a ac ↦ f a ac | stuck ac ↦ stuck ac ])
        go (done a ac) h = (kf a).at ac h
        go (stuck ac) h = h

  pub Keeps-pure : {A : Type 0} {I J : AuthCache → Type 0} (a : A) → Keeps I J (pure a)
  Keeps-pure a = record { at = λ ac h. h }

  -- An invariant that does not speak of the watchers.
  abbrev pub IgnoresWatchers : (AuthCache → Type 0) → Type 0
  IgnoresWatchers I =
      (ac : AuthCache) (watchers : List CacheWatcher) → I ac → I (record ac { watchers = watchers })

  pub Keeps-of_IgnoresWatchers :
      (s : Surroundings) (I : AuthCache → Type 0)
      → IgnoresWatchers I
      → (name : String) (users groups : StringSet) → IsNotice s name users groups
      → Keeps I I (notify_watchers s name users groups)
  unfolding notify_watchers
  Keeps-of_IgnoresWatchers s I ignores name users groups _ = record {
    at = λ ac h. go ac h (notify_each s.watchable name users groups ac.watchers);
  }
    where
      go : (ac : AuthCache) → I ac → (r : List CacheWatcher × Bool) → Ends I I (notified ac r)
      go ac h (watchers, true) = ignores ac watchers h
      go ac h (watchers, false) = ignores ac watchers h

  pub Keeps-notify_deleted :
      (s : Surroundings) (I J : AuthCache → Type 0)
      → ((name : String) (users groups : StringSet)
          → IsNotice s name users groups
          → Keeps I J (notify_watchers s name users groups))
      → (names : List String) → Keeps I J (notify_deleted s names)
  unfolding notify_deleted
  Keeps-notify_deleted s I J notify [] = Keeps-pure tt
  Keeps-notify_deleted s I J notify (name ∷ names) =
      Keeps-bind _ _ (notify name empty empty (inr (refl, refl)))
        (λ _. Keeps-notify_deleted s I J notify names)

  module _ (s : Surroundings) (I J : AuthCache → Type 0) (inv : IsSyncInvariant s I J) where
    pub sync_review-keeps :
        (request : ReviewRequest) (o : Result Review) (ac : AuthCache)
        → s.reviewer s.group s.resource request.name ≡ o
        → I ac
        → Ends I J
            (sync_review s request (find review_record_key ac.review_records request.name) o ac)
    unfolding sync_review
    sync_review-keeps request (err e) ac reviewed h = h
    sync_review-keeps request (ok review) ac reviewed h =
        (Keeps-bind _ _ (inv.at_notify request.name _ _ (inl (review, reviewed, refl, refl)))
            (λ _. Keeps-pure none)).at
          _ (inv.at_review ac request review reviewed h)

    pub sync_known-keeps :
        (request : ReviewRequest) (ac : AuthCache)
        → I ac
        → Ends I J (sync_known s request (find review_record_key ac.review_records request.name) ac)
    unfolding sync_known
    sync_known-keeps request ac h =
        let last = find review_record_key ac.review_records request.name in
        elim (Bool-cases (skip_review (some request) last)) [
          | inl skipped ↦ rw (skipped, sync_known) h
          | inr wanted ↦
              rw (wanted, sync_known)
                (sync_review-keeps request (s.reviewer s.group s.resource request.name) ac refl h)
        ]

    pub Keeps-sync_request : (request : ReviewRequest) → Keeps I J (sync_request s request)
    unfolding sync_request last_known
    Keeps-sync_request request = record {
      at = λ ac h.
          rw
            (
              find_error-none review_record_key ac.review_records request.name,
              sync_request,
              last_known,
            )
            (sync_known-keeps request ac h);
    }

    pub Keeps-sync_each :
        (names : StringSet) (requests : List ReviewRequest) → Keeps I J (sync_each s names requests)
    unfolding sync_each
    Keeps-sync_each names [] = Keeps-pure names
    Keeps-sync_each names (request ∷ requests) =
        Keeps-bind _ _ (Keeps-sync_request request)
          (λ _. Keeps-sync_each (insert_all names (request.name ∷ [])) requests)

    pub Keeps-sync_listed : (o : Result (List ReviewRequest)) → Keeps I J (sync_listed s o)
    unfolding sync_listed
    Keeps-sync_listed (err e) = Keeps-pure empty
    Keeps-sync_listed (ok requests) = Keeps-sync_each empty requests

    pub Keeps-sync_names :
        (binding : ClusterRoleBinding) (role : ClusterRole) (names : List String)
        → Keeps I J (sync_names s binding role names)
    unfolding sync_names
    Keeps-sync_names binding role [] = Keeps-pure tt
    Keeps-sync_names binding role (name ∷ names) =
        Keeps-bind _ _ (Keeps-sync_request (binding_request binding role name))
          (λ _. Keeps-sync_names binding role names)

    pub Keeps-sync_role :
        (binding : ClusterRoleBinding) (o : Result ClusterRole) → Keeps I J (sync_role s binding o)
    unfolding sync_role
    Keeps-sync_role binding (err e) = record { at = λ ac h. h }
    Keeps-sync_role binding (ok role) = record {
      at = λ ac h. (Keeps-sync_names binding role _).at ac h;
    }

    pub Keeps-sync_bindings :
        (bindings : List ClusterRoleBinding) → Keeps I J (sync_bindings s bindings)
    unfolding sync_bindings
    Keeps-sync_bindings [] = Keeps-pure tt
    Keeps-sync_bindings (binding ∷ bindings) =
        Keeps-bind _ _ (Keeps-sync_role binding (s.get_role binding.role_ref))
          (λ _. Keeps-sync_bindings bindings)

    pub Keeps-sync_all_bindings :
        (o : Result (List ClusterRoleBinding)) → Keeps I J (sync_all_bindings s o)
    unfolding sync_all_bindings
    Keeps-sync_all_bindings (err e) = Keeps-pure tt
    Keeps-sync_all_bindings (ok bindings) = Keeps-sync_bindings bindings
