-- ===== src/AuthCache/Program/Alone/Synchronize.antt =====
-- pkg/cache/common.go: a program that nothing interferes with is the run of `synchronize`.
use clusterset_server.Base.{
  ◌≡◌, refl, ap, ◌∙◌, Result, Bool-cases, inl, inr, List, [], ◌∷◌, String, ok, err,
}
use clusterset_server.Platform.{Platform}
use clusterset_server.Rbac.{ClusterRole, ClusterRoleBinding}
use clusterset_server.AuthCache.Notify.{notify_watchers}
use clusterset_server.AuthCache.Records.{ReviewRequest, ReviewRecord, review_record_key}
use clusterset_server.AuthCache.Request.{sync_request}
use clusterset_server.AuthCache.State.{Surroundings, AuthCache, done}
use clusterset_server.AuthCache.Sync.{
  sync_each, sync_listed, sync_resources, sync_names, sync_role, sync_bindings, sync_all_bindings,
  synchronize_cluster_role_bindings, purge_record, purge_records, notify_deleted,
  purge_deleted_resources, synchronize,
}
use clusterset_server.AuthCache.Program.{written, readings, reads, ◌then◌}
use clusterset_server.AuthCache.Program.Synchronize.{
  request_program, each_program, listed_program, names_program, role_program, bindings_program,
  all_bindings_program, purge_program, deleted_program, purge_deleted_program, synchronize_program,
}
use clusterset_server.AuthCache.Program.Alone.{alone, on, on-ext, alone-then, alone-bind}
use clusterset_server.AuthCache.Program.Alone.Requests.{
  alone-delete_users, alone-delete_groups, alone-request_program,
}

module _ ⦃P : Platform⦄ where
  open P use {StringSet, empty, insert_all, has, list, range, difference, items}

  module _ (s : Surroundings) where
    alone-each_program :
        (names : StringSet) (requests : List ReviewRequest) (ac : AuthCache)
        → alone s (each_program names requests) ac ≡ sync_each s names requests ac
    unfolding alone each_program sync_each
    alone-each_program names [] ac = refl
    alone-each_program names (request ∷ requests) ac =
        alone-bind s (request_program request) (sync_request s request) _ _
          (alone-request_program s request)
          (λ _. alone-each_program (insert_all names (request.name ∷ [])) requests) ac

    alone-listed_program :
        (o : Result (List ReviewRequest)) (ac : AuthCache)
        → alone s (listed_program o) ac ≡ sync_listed s o ac
    unfolding alone listed_program sync_listed
    alone-listed_program (err e) ac = refl
    alone-listed_program (ok requests) ac = alone-each_program empty requests ac

    alone-names_program :
        (binding : ClusterRoleBinding) (role : ClusterRole) (names : List String) (ac : AuthCache)
        → alone s (names_program binding role names) ac ≡ sync_names s binding role names ac
    unfolding alone names_program sync_names
    alone-names_program binding role [] ac = refl
    alone-names_program binding role (name ∷ names) ac =
        alone-bind s (request_program _) (sync_request s _) _ _ (alone-request_program s _)
          (λ _. alone-names_program binding role names) ac

    alone-role_program :
        (binding : ClusterRoleBinding) (o : Result ClusterRole) (ac : AuthCache)
        → alone s (role_program (readings s) binding o) ac ≡ sync_role s binding o ac
    unfolding alone role_program sync_role
    alone-role_program binding (err e) ac = refl
    alone-role_program binding (ok role) ac = alone-names_program binding role _ ac

    alone-bindings_program :
        (bindings : List ClusterRoleBinding) (ac : AuthCache)
        → alone s (bindings_program bindings) ac ≡ sync_bindings s bindings ac
    unfolding alone bindings_program sync_bindings
    alone-bindings_program [] ac = refl
    alone-bindings_program (binding ∷ bindings) ac =
        alone-bind s (reads (λ s'. role_program s' binding (s'.get_role binding.role_ref)))
          (sync_role s binding (s.get_role binding.role_ref)) _ _
          (alone-role_program binding (s.get_role binding.role_ref))
          (λ _. alone-bindings_program bindings) ac

    alone-all_bindings_program :
        (o : Result (List ClusterRoleBinding)) (ac : AuthCache)
        → alone s (all_bindings_program o) ac ≡ sync_all_bindings s o ac
    unfolding alone all_bindings_program sync_all_bindings
    alone-all_bindings_program (err e) ac = refl
    alone-all_bindings_program (ok bindings) ac = alone-bindings_program bindings ac

    alone-purge_program :
        (new_names : StringSet) (records : List ReviewRecord) (ac : AuthCache)
        → alone s (purge_program new_names records) ac
          ≡ done tt (purge_records new_names ac records)
    unfolding alone purge_program purge_records purge_record written
    alone-purge_program new_names [] ac = refl
    alone-purge_program new_names (r ∷ records) ac =
        elim (Bool-cases (has new_names r.request.name)) [
          | inl kept ↦ rw kept (alone-purge_program new_names records ac)
          | inr gone ↦ rw gone (
              alone-delete_users s _ _ _ _
              ∙ alone-delete_groups s _ _ _ _
              ∙ alone-purge_program new_names records _)
        ]

    alone-deleted_program :
        (names : List String) (ac : AuthCache)
        → alone s (deleted_program names) ac ≡ notify_deleted s names ac
    unfolding alone deleted_program notify_deleted
    alone-deleted_program [] ac = refl
    alone-deleted_program (name ∷ names) ac =
        on-ext s (notify_watchers s name empty empty ac) _ _ (λ _. alone-deleted_program names)

    alone-purge_deleted_program :
        (old_names new_names : StringSet) (ac : AuthCache)
        → alone s (purge_deleted_program old_names new_names) ac
          ≡ purge_deleted_resources s old_names new_names ac
    unfolding alone purge_deleted_program purge_deleted_resources ◌then◌
    alone-purge_deleted_program old_names new_names ac =
        let records = items review_record_key ac.review_records in
        alone-then s (purge_program new_names records) _ ac
        ∙ ap (λ o. on s o (λ _. alone s (deleted_program (range (difference old_names new_names)))))
            (alone-purge_program new_names records ac)
        ∙ alone-deleted_program _ _

    -- Without interference the program of a run does what `synchronize` does.
    pub alone-synchronize_program :
        (ac : AuthCache) → alone s synchronize_program ac ≡ synchronize s ac
    unfolding alone synchronize_program synchronize sync_resources synchronize_cluster_role_bindings
        written
    alone-synchronize_program ac =
        alone-bind s (reads (λ s'. listed_program s'.sync_requests)) (sync_listed s s.sync_requests)
          _ _ (alone-listed_program s.sync_requests)
          (λ names.
            alone-bind s (reads (λ s'. all_bindings_program s'.list_bindings))
              (sync_all_bindings s s.list_bindings) _ _ (alone-all_bindings_program s.list_bindings)
              (λ _.
                alone-bind s (purge_deleted_program ac.all_known_names names)
                  (purge_deleted_resources s ac.all_known_names names) _ _
                  (alone-purge_deleted_program ac.all_known_names names) (λ _ ac'. refl)))
          ac
