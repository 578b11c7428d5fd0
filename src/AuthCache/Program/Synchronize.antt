-- ===== src/AuthCache/Program/Synchronize.antt =====
-- pkg/cache/common.go: `synchronize` and what it calls, as programs.
use clusterset_server.Base.{
  Result, Bool, not, Option, none, some, List, [], ◌∷◌, String, Error, ok, err, if◌then◌else◌,
}
use clusterset_server.Platform.{Platform}
use clusterset_server.Rbac.{ClusterRole, ClusterRoleBinding}
use clusterset_server.Rbac.Reviewer.{Review}
use clusterset_server.AuthCache.Records.{ReviewRequest, ReviewRecord, review_record_key}
use clusterset_server.AuthCache.Review.{skip_review, last_known, merged_record}
use clusterset_server.AuthCache.Request.{to_remove, last_users, last_groups}
use clusterset_server.AuthCache.State.{Surroundings}
use clusterset_server.AuthCache.Sync.{
  get_resource_names, names_or_all, binding_request, skip_synchronize, union_version,
}
use clusterset_server.AuthCache.Program.{
  Write, delete_user, delete_group, add_user, add_group, put_record, drop_record, end_run, Program,
  returns, reads, looks, writes, notifies, ◌then◌,
}

module _ ⦃P : Platform⦄ where
  open P use {StringSet, empty, insert_all, has, list, range, difference, items}

  -- the loops of `deleteResourceFromSubjects` and of `addSubjectsToNamespace`
  unfoldable pub each_subject :
      {A : Type 0} → (String → String → Write) → List String → String → Program A → Program A
  each_subject write [] name p = p
  each_subject write (subject ∷ subjects) name p =
      writes (write subject name) (each_subject write subjects name p)

  -- `syncRequest` behind the call of the reviewer
  unfoldable pub review_program :
      ReviewRequest → Option ReviewRecord → Result Review → Program (Option Error)
  review_program request last (err e) = returns (some e)
  review_program request last (ok review) =
      let name = request.name in
      each_subject delete_user (list (to_remove (last_users last) review.users)) name (
        each_subject delete_group (list (to_remove (last_groups last) review.groups)) name (
          each_subject add_user review.users name (
            each_subject add_group review.groups name (
              writes (put_record (merged_record request last review)) (
                notifies name (insert_all empty review.users) (insert_all empty review.groups)
                  (returns none))))))

  -- `syncRequest` behind the lookup of the last known record
  unfoldable pub known_program : ReviewRequest → Option ReviewRecord → Program (Option Error)
  known_program request last =
      if skip_review (some request) last
      then returns none
      else reads (λ s. review_program request last (s.reviewer s.group s.resource request.name))

  unfoldable pub last_known_program :
      ReviewRequest → Result (Option ReviewRecord) → Program (Option Error)
  last_known_program request (err e) = returns (some e)
  last_known_program request (ok last) = known_program request last

  unfoldable pub request_program : ReviewRequest → Program (Option Error)
  request_program request =
      looks (λ ac. last_known_program request (last_known ac.review_records request.name))

  -- `syncResources`
  unfoldable pub each_program : StringSet → List ReviewRequest → Program StringSet
  each_program names [] = returns names
  each_program names (request ∷ requests) =
      request_program request then λ _. each_program (insert_all names (request.name ∷ [])) requests

  unfoldable pub listed_program : Result (List ReviewRequest) → Program StringSet
  listed_program (err e) = returns empty
  listed_program (ok requests) = each_program empty requests

  -- `synchronizeClusterRoleBindings`, from its inner loop to its outer one
  unfoldable pub names_program : ClusterRoleBinding → ClusterRole → List String → Program (Unit {0})
  names_program binding role [] = returns tt
  names_program binding role (name ∷ names) =
      request_program (binding_request binding role name) then λ _. names_program binding role names

  unfoldable pub role_program :
      Surroundings → ClusterRoleBinding → Result ClusterRole → Program (Unit {0})
  role_program s binding (err e) = returns tt
  role_program s binding (ok role) = looks (λ ac.
      names_program binding role
        (list (names_or_all ac (get_resource_names role s.group s.resource))))

  unfoldable pub bindings_program : List ClusterRoleBinding → Program (Unit {0})
  bindings_program [] = returns tt
  bindings_program (binding ∷ bindings) =
      reads (λ s. role_program s binding (s.get_role binding.role_ref)) then λ _.
      bindings_program bindings

  unfoldable pub all_bindings_program : Result (List ClusterRoleBinding) → Program (Unit {0})
  all_bindings_program (err e) = returns tt
  all_bindings_program (ok bindings) = bindings_program bindings

  -- `purgeDeletedResources`: the loop over the review records, and the notifications
  unfoldable pub purge_program : StringSet → List ReviewRecord → Program (Unit {0})
  purge_program new_names [] = returns tt
  purge_program new_names (r ∷ records) =
      let rest = purge_program new_names records in
      if not (has new_names r.request.name)
      then each_subject delete_user r.users r.request.name
          (each_subject delete_group r.groups r.request.name (writes (drop_record r) rest))
      else rest

  unfoldable pub deleted_program : List String → Program (Unit {0})
  deleted_program [] = returns tt
  deleted_program (name ∷ names) = notifies name empty empty (deleted_program names)

  unfoldable pub purge_deleted_program : StringSet → StringSet → Program (Unit {0})
  purge_deleted_program old_names new_names =
      looks (λ ac. purge_program new_names (items review_record_key ac.review_records)) then λ _.
      deleted_program (range (difference old_names new_names))

  -- `currentState` of `SkipSynchronize`
  abbrev pub current_state : Surroundings → String → Bool × String
  current_state s last =
      let policy_version = union_version (s.role_version ∷ s.role_binding_version ∷ []) in
      skip_synchronize last (s.last_sync_version ∷ policy_version ∷ [])

  -- No other goroutine writes the known names, so they are looked up at the start.
  unfoldable pub synchronize_program : Program (Unit {0})
  synchronize_program = reads (λ s. looks (λ ac.
      reads (λ s'. listed_program s'.sync_requests) then λ names.
      (reads (λ s'. all_bindings_program s'.list_bindings) then λ _.
      (purge_deleted_program ac.all_known_names names then λ _.
      writes (end_run names (current_state s ac.last_state).1) (returns tt)))))
