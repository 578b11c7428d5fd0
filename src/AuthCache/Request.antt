-- ===== src/AuthCache/Request.antt =====
-- `syncRequest` of pkg/cache/common.go.
use clusterset_server.Base.{
  Result, Option, none, some, List, [], String, Error, ok, err, if◌then◌else◌,
}
use clusterset_server.Platform.{Platform}
use clusterset_server.Rbac.Reviewer.{Review}
use clusterset_server.AuthCache.Records.{ReviewRequest, ReviewRecord}
use clusterset_server.AuthCache.Review.{skip_review, last_known, cache_review_record}
use clusterset_server.AuthCache.Notify.{notify_watchers}
use clusterset_server.AuthCache.Subjects.{delete_resource_from_subjects, add_subjects_to_namespace}
use clusterset_server.AuthCache.State.{Surroundings, AuthCache, done, M, pure, ◌>>◌}

module _ ⦃P : Platform⦄ where
  open P use {StringSet, empty, insert_all, delete_all, list}

  -- usersToRemove, groupsToRemove
  abbrev pub to_remove : List String → List String → StringSet
  to_remove old new = delete_all (insert_all empty old) new

  abbrev pub last_users : Option ReviewRecord → List String
  last_users none = []
  last_users (some last) = last.users

  abbrev pub last_groups : Option ReviewRecord → List String
  last_groups none = []
  last_groups (some last) = last.groups

  -- what `syncRequest` does with a review, before it notifies the watchers
  unfoldable pub apply_review : ReviewRequest → Option ReviewRecord → Review → AuthCache → AuthCache
  apply_review request last review ac =
      let name = request.name in
      let users_to_remove = to_remove (last_users last) review.users in
      let groups_to_remove = to_remove (last_groups last) review.groups in
      record ac {
        user_subject_records =
            add_subjects_to_namespace
              (delete_resource_from_subjects ac.user_subject_records (list users_to_remove) name)
              review.users name;
        group_subject_records =
            add_subjects_to_namespace
              (delete_resource_from_subjects ac.group_subject_records (list groups_to_remove) name)
              review.groups name;
        review_records = cache_review_record request last review ac.review_records;
      }

  -- `syncRequest` behind the call of the reviewer
  unfoldable pub sync_review :
      Surroundings → ReviewRequest → Option ReviewRecord → Result Review → M (Option Error)
  sync_review s request last (err e) ac = done (some e) ac
  sync_review s request last (ok review) ac =
      (do
        notify_watchers s request.name (insert_all empty review.users)
            (insert_all empty review.groups)
        pure none)
        (apply_review request last review ac)

  -- `syncRequest` behind the lookup of the last known record
  unfoldable pub sync_known : Surroundings → ReviewRequest → Option ReviewRecord → M (Option Error)
  sync_known s request last ac =
      if skip_review (some request) last
      then done none ac
      else sync_review s request last (s.reviewer s.group s.resource request.name) ac

  -- the error that `syncRequest` returns, if any
  unfoldable pub sync_request : Surroundings → ReviewRequest → M (Option Error)
  sync_request s request ac = elim (last_known ac.review_records request.name) [
    | err e ↦ done (some e) ac
    | ok last ↦ sync_known s request last ac
  ]
