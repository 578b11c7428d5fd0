-- ===== src/AuthCache/Capacity.antt =====
-- pkg/cache/common.go, `synchronize`: how many events a run can send to a watcher.
use mathlib.Core.Path.{subst}
use clusterset_server.Base.{
  ◌≡◌, refl, sym, ◌∙◌, List, [], ◌∷◌, String, arith, ℕ, ◌+◌, length, Result, ok, err, if◌then◌else◌,
}
use clusterset_server.Platform.{Platform}
use clusterset_server.Rbac.{ClusterRole, ClusterRoleBinding}
use clusterset_server.AuthCache.Each.{purge_record-watchers}
use clusterset_server.AuthCache.Records.{ReviewRequest, ReviewRecord, review_record_key}
use clusterset_server.AuthCache.State.{Surroundings, AuthCache, Outcome, done}
use clusterset_server.AuthCache.Sync.{
  get_resource_names, sync_each, sync_listed, sync_resources, binding_request, sync_names,
  names_or_all, sync_role, sync_bindings, sync_all_bindings, synchronize_cluster_role_bindings,
  purge_record, purge_records, notify_deleted, purge_deleted_resources, synchronize,
}
use clusterset_server.AuthCache.Room.{
  Room, Room-mono, Ended-bind, Costs, Costs-bind, Costs-mono, Costs-pure, Any,
  Costs-notify_watchers, Costs-sync_request,
}

module _ ⦃P : Platform⦄ where
  open P use {StringSet, list, insert_all, empty, range, difference, items}

  -- the requests that there are, and their names
  abbrev pub requested : Result (List ReviewRequest) → List ReviewRequest
  requested (err e) = []
  requested (ok requests) = requests

  abbrev pub names_from : StringSet → List ReviewRequest → StringSet
  names_from names [] = names
  names_from names (request ∷ requests) = names_from (insert_all names (request.name ∷ [])) requests

  -- how many names a role bears on, where these names are known
  abbrev pub role_reach : Surroundings → StringSet → Result ClusterRole → ℕ
  role_reach s known (err e) = 0
  role_reach s known (ok role) =
      let (names, all) = get_resource_names role s.group s.resource in
      length (list (if all then known else names))

  abbrev pub bindings_reach : Surroundings → StringSet → List ClusterRoleBinding → ℕ
  bindings_reach s known [] = 0
  bindings_reach s known (binding ∷ bindings) =
      role_reach s known (s.get_role binding.role_ref) + bindings_reach s known bindings

  abbrev pub all_bindings_reach : Surroundings → StringSet → Result (List ClusterRoleBinding) → ℕ
  all_bindings_reach s known (err e) = 0
  all_bindings_reach s known (ok bindings) = bindings_reach s known bindings

  -- One for each resource that is listed, one for each name that a role of a binding bears on, and
  -- one for each name that is gone.
  abbrev pub most_notifications : Surroundings → AuthCache → ℕ
  most_notifications s ac =
      length (requested s.sync_requests)
      + all_bindings_reach s ac.all_known_names s.list_bindings
      + length
          (range (difference ac.all_known_names (names_from empty (requested s.sync_requests))))

  module _ (s : Surroundings) (known : StringSet) where
    Costs-sync_each :
        (names : StringSet) (requests : List ReviewRequest)
        → Costs known
            (length requests)
            (sync_each s names requests)
            (λ names'. names' ≡ names_from names requests)
    unfolding sync_each
    Costs-sync_each names [] = Costs-pure names _ refl
    Costs-sync_each names (request ∷ requests) = Costs-mono _ _ _ _ (omega arith) (
        Costs-bind 1 (length requests) _ _ Any _ (Costs-sync_request s known request)
          (λ _ _. Costs-sync_each (insert_all names (request.name ∷ [])) requests))

    Costs-sync_listed :
        (o : Result (List ReviewRequest))
        → Costs known
            (length (requested o))
            (sync_listed s o)
            (λ names. names ≡ names_from empty (requested o))
    unfolding sync_listed
    Costs-sync_listed (err e) = Costs-pure empty _ refl
    Costs-sync_listed (ok requests) = Costs-sync_each empty requests

    Costs-sync_names :
        (binding : ClusterRoleBinding) (role : ClusterRole) (names : List String)
        → Costs known (length names) (sync_names s binding role names) Any
    unfolding sync_names
    Costs-sync_names binding role [] = Costs-pure tt Any tt
    Costs-sync_names binding role (name ∷ names) = Costs-mono _ _ _ Any (omega arith) (
        Costs-bind 1 (length names) _ _ Any Any
          (Costs-sync_request s known (binding_request binding role name))
          (λ _ _. Costs-sync_names binding role names))

    Costs-sync_role :
        (binding : ClusterRoleBinding) (o : Result ClusterRole)
        → Costs known (role_reach s known o) (sync_role s binding o) Any
    unfolding sync_role
    Costs-sync_role binding (err e) = Costs-pure tt Any tt
    Costs-sync_role binding (ok role) = record {
      at = λ j ac same room.
          (Costs-sync_names binding role
              (list (names_or_all ac (get_resource_names role s.group s.resource)))).at
            j ac same
            (subst
              (λ k.
                Room
                  (length (
                      list (
                        if (get_resource_names role s.group s.resource).1
                        then k
                        else (get_resource_names role s.group s.resource).0))
                    + j)
                  ac.watchers)
              (sym same) room);
    }

    Costs-sync_bindings :
        (bindings : List ClusterRoleBinding)
        → Costs known (bindings_reach s known bindings) (sync_bindings s bindings) Any
    unfolding sync_bindings
    Costs-sync_bindings [] = Costs-pure tt Any tt
    Costs-sync_bindings (binding ∷ bindings) =
        Costs-bind _ _ _ _ Any Any (Costs-sync_role binding (s.get_role binding.role_ref))
          (λ _ _. Costs-sync_bindings bindings)

    Costs-sync_all_bindings :
        (o : Result (List ClusterRoleBinding))
        → Costs known (all_bindings_reach s known o) (sync_all_bindings s o) Any
    unfolding sync_all_bindings
    Costs-sync_all_bindings (err e) = Costs-pure tt Any tt
    Costs-sync_all_bindings (ok bindings) = Costs-sync_bindings bindings

    Costs-notify_deleted :
        (names : List String) → Costs known (length names) (notify_deleted s names) Any
    unfolding notify_deleted
    Costs-notify_deleted [] = Costs-pure tt Any tt
    Costs-notify_deleted (name ∷ names) = Costs-mono _ _ _ Any (omega arith) (
        Costs-bind 1 (length names) _ _ Any Any (Costs-notify_watchers s known name empty empty)
          (λ _ _. Costs-notify_deleted names))

  purge_records-keeps :
      (names : StringSet) (records : List ReviewRecord) (ac : AuthCache)
      → ((purge_records names ac records).watchers ≡ ac.watchers)
        × ((purge_records names ac records).all_known_names ≡ ac.all_known_names)
  unfolding purge_records
  purge_records-keeps names [] ac = (refl, refl)
  purge_records-keeps names (r ∷ records) ac =
      let (watchers, known) = purge_records-keeps names records (purge_record names ac r) in
      (watchers ∙ purge_record-watchers names ac r, known ∙ (unfold purge_record in ground arith))

  Costs-purge_deleted_resources :
      (s : Surroundings) (known old_names names : StringSet)
      → Costs known
          (length (range (difference old_names names)))
          (purge_deleted_resources s old_names names)
          Any
  unfolding purge_deleted_resources
  Costs-purge_deleted_resources s known old_names names = record {
    at = λ j ac same room.
        let (watchers, known_names) =
          purge_records-keeps names (items review_record_key ac.review_records) ac in
        (Costs-notify_deleted s known _).at j _ (known_names ∙ same)
          (subst (Room _) (sym watchers) room);
  }

  -- A run returns over watchers whose channels have room for one event for each resource that is
  -- listed, each name that a role of a binding bears on and each name that is gone. What room there
  -- is beyond that, there is afterwards.
  pub synchronize_returns_with-Room :
      (s : Surroundings) (ac : AuthCache) (j : ℕ)
      → Room (most_notifications s ac + j) ac.watchers
      → (ac' : AuthCache) × (synchronize s ac ≡ done tt ac') × Room j ac'.watchers
  unfolding synchronize sync_resources synchronize_cluster_role_bindings
  synchronize_returns_with-Room s ac j room =
      let G : Outcome (Unit {0}) → Type 0 =
        λ o. (ac' : AuthCache) × (o ≡ done tt ac') × Room j ac'.watchers in
      let known = ac.all_known_names in
      let names = names_from empty (requested s.sync_requests) in
      let bound = all_bindings_reach s known s.list_bindings in
      let gone = length (range (difference known names)) in
      Ended-bind (bound + (gone + j)) (sync_listed s s.sync_requests ac) _ _ G
        ((Costs-sync_listed s known s.sync_requests).at _ ac refl
          (Room-mono _ _ ac.watchers (omega arith) room))
        (λ names' ac₁ q same₁ room₁.
          Ended-bind (gone + j) (sync_all_bindings s s.list_bindings ac₁) _ Any G
            ((Costs-sync_all_bindings s known s.list_bindings).at _ ac₁ same₁ room₁)
            (λ _ ac₂ _ same₂ room₂.
              Ended-bind j (purge_deleted_resources s known names' ac₂) _ Any G
                ((Costs-purge_deleted_resources s known known names').at j ac₂ same₂ (
                  subst (λ ns. Room (length (range (difference known ns)) + j) ac₂.watchers) (sym q)
                    room₂))
                (λ _ ac₃ _ same₃ room₃. (_, refl, room₃))))

  pub synchronize_done :
      (s : Surroundings) (ac : AuthCache)
      → Room (most_notifications s ac) ac.watchers
      → (ac' : AuthCache) × (synchronize s ac ≡ done tt ac')
  synchronize_done s ac room =
      let (ac', returned, _) =
        synchronize_returns_with-Room s ac 0 (Room-mono _ _ ac.watchers (omega arith) room) in
      (ac', returned)
