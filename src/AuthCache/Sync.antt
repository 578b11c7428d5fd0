-- ===== src/AuthCache/Sync.antt =====
-- The operations of pkg/cache/common.go that change the cache.
use clusterset_server.Base.{
  Result, Bool, false, not, ◌||◌, List, [], ◌∷◌, String, ◌==◌, ok, err, if◌then◌else◌,
}
use clusterset_server.Base.Text.{join}
use clusterset_server.Platform.{Platform}
use clusterset_server.Rbac.{PolicyRule, ClusterRole, ClusterRoleBinding}
use clusterset_server.Rbac.Allow.{api_group_matches, resource_matches, is_nil}
use clusterset_server.AuthCache.Records.{ReviewRequest, ReviewRecord, review_record_key}
use clusterset_server.AuthCache.Notify.{notify_watchers}
use clusterset_server.AuthCache.Request.{sync_request}
use clusterset_server.AuthCache.State.{Surroundings, AuthCache, done, M, pure, ◌>>=◌, ◌>>◌}
use clusterset_server.AuthCache.Subjects.{delete_resource_from_subjects}

-- One round of `getResoureNamesFromClusterRole`: does the rule bear on the resource?
abbrev pub bears_on : String → String → PolicyRule → Bool
bears_on group resource rule =
    if not (api_group_matches rule group) then false else resource_matches rule resource ""

-- `LastSyncResourceVersion` of some listers
unfoldable pub union_version : List String → String
union_version versions = join versions ""

module _ ⦃P : Platform⦄ where
  open P use {
    StringSet, Store, empty, insert_all, delete_all, has, list, range, difference, delete, items,
    find,
  }

  unfoldable pub get_resource_names_from :
      String → String → StringSet × Bool → List PolicyRule → StringSet × Bool
  get_resource_names_from group resource out [] = out
  get_resource_names_from group resource (names, all) (rule ∷ rules) =
      get_resource_names_from group resource
        (if bears_on group resource rule
          then (insert_all names rule.resource_names, is_nil rule.resource_names || all)
          else (names, all))
        rules

  unfoldable pub get_resource_names : ClusterRole → String → String → StringSet × Bool
  get_resource_names role group resource =
      get_resource_names_from group resource (empty, false) role.rules

  -- the loop of `syncResources`; the errors of its rounds are logged
  unfoldable pub sync_each : Surroundings → StringSet → List ReviewRequest → M StringSet
  sync_each s names [] = pure names
  sync_each s names (request ∷ requests) = do
    sync_request s request
    sync_each s (insert_all names (request.name ∷ [])) requests

  -- the names that were synchronized; without the list it is nil
  unfoldable pub sync_listed : Surroundings → Result (List ReviewRequest) → M StringSet
  sync_listed s (err e) = pure empty
  sync_listed s (ok requests) = sync_each s empty requests

  unfoldable pub sync_resources : Surroundings → M StringSet
  sync_resources s = sync_listed s s.sync_requests

  -- the request that a binding and its role make for a name
  abbrev pub binding_request : ClusterRoleBinding → ClusterRole → String → ReviewRequest
  binding_request binding role name = record {
    name = name;
    resource_version = "";
    role_versions = (role.uid, role.resource_version) ∷ [];
    role_binding_versions = (binding.uid, binding.resource_version) ∷ [];
  }

  unfoldable pub sync_names :
      Surroundings → ClusterRoleBinding → ClusterRole → List String → M (Unit {0})
  sync_names s binding role [] = pure tt
  sync_names s binding role (name ∷ names) = do
    sync_request s (binding_request binding role name)
    sync_names s binding role names

  -- `resources`, which is all the known names where some rule is for all
  abbrev pub names_or_all : AuthCache → StringSet × Bool → StringSet
  names_or_all ac (names, all) = if all then ac.all_known_names else names

  -- one round of `synchronizeClusterRoleBindings`, with the role that the binding refers to
  unfoldable pub sync_role : Surroundings → ClusterRoleBinding → Result ClusterRole → M (Unit {0})
  sync_role s binding (err e) ac = done tt ac
  sync_role s binding (ok role) ac =
      sync_names s binding role
        (list (names_or_all ac (get_resource_names role s.group s.resource))) ac

  unfoldable pub sync_bindings : Surroundings → List ClusterRoleBinding → M (Unit {0})
  sync_bindings s [] = pure tt
  sync_bindings s (binding ∷ bindings) = do
    sync_role s binding (s.get_role binding.role_ref)
    sync_bindings s bindings

  unfoldable pub sync_all_bindings : Surroundings → Result (List ClusterRoleBinding) → M (Unit {0})
  sync_all_bindings s (err e) = pure tt
  sync_all_bindings s (ok bindings) = sync_bindings s bindings

  unfoldable pub synchronize_cluster_role_bindings : Surroundings → M (Unit {0})
  synchronize_cluster_role_bindings s = sync_all_bindings s s.list_bindings

  -- one round of the loop of `purgeDeletedResources` over the review records
  unfoldable pub purge_record : StringSet → AuthCache → ReviewRecord → AuthCache
  purge_record new_names ac r =
      if not (has new_names r.request.name)
      then record ac {
        user_subject_records =
            delete_resource_from_subjects ac.user_subject_records r.users r.request.name;
        group_subject_records =
            delete_resource_from_subjects ac.group_subject_records r.groups r.request.name;
        review_records = delete review_record_key ac.review_records r;
      }
      else ac

  unfoldable pub purge_records : StringSet → AuthCache → List ReviewRecord → AuthCache
  purge_records new_names ac [] = ac
  purge_records new_names ac (r ∷ records) =
      purge_records new_names (purge_record new_names ac r) records

  unfoldable pub notify_deleted : Surroundings → List String → M (Unit {0})
  notify_deleted s [] = pure tt
  notify_deleted s (name ∷ names) = do notify_watchers s name empty empty; notify_deleted s names

  unfoldable pub purge_deleted_resources : Surroundings → StringSet → StringSet → M (Unit {0})
  purge_deleted_resources s old_names new_names ac =
      notify_deleted s (range (difference old_names new_names))
        (purge_records new_names ac (items review_record_key ac.review_records))

  -- ac.allKnownNames = newKnownNames, ac.lastState = currentState
  abbrev pub finish : StringSet → String → M (Unit {0})
  finish names state ac = done tt (record ac { all_known_names = names; last_state = state })

  -- `SkipSynchronize`: does the state of the reflectors equal the last, and that state
  unfoldable pub skip_synchronize : String → List String → Bool × String
  skip_synchronize previous versions =
      let current = join versions "," in (current == previous, current)

  -- The run goes on whatever `SkipSynchronize` answers: the `return` is commented out.
  unfoldable pub synchronize : Surroundings → M (Unit {0})
  synchronize s ac =
      let policy_version = union_version (s.role_version ∷ s.role_binding_version ∷ []) in
      let current =
        (skip_synchronize ac.last_state (s.last_sync_version ∷ policy_version ∷ [])).1 in
      (do
        new_known_names ← sync_resources s
        synchronize_cluster_role_bindings s
        purge_deleted_resources s ac.all_known_names new_known_names
        finish new_known_names current)
        ac
