-- ===== src/AuthCache/Review.antt =====
-- pkg/cache/common.go: `skipReview`, `cacheReviewRecord` and `lastKnown`.
pub mod Skip
use clusterset_server.Base.{
  Bool, true, false, not, ◌&&◌, ◌||◌, Option, none, some, List, [], ◌∷◌, String, ◌==◌, StringMap,
  Result, ok, err, lookup, copy_into, if◌then◌else◌,
}
use clusterset_server.Platform.{Platform}
use clusterset_server.Rbac.Reviewer.{Review}
use clusterset_server.AuthCache.Records.{ReviewRequest, ReviewRecord, review_record_key}

-- oldValue, exists := known[k]; exists && v == oldValue
abbrev pub is_value : Option String → String → Bool
is_value none v = false
is_value (some old) v = v == old

-- for k, v := range wanted { if !exists || v != oldValue { return false } }
unfoldable pub versions_known : StringMap → StringMap → Bool
versions_known [] known = true
versions_known ((k, v) ∷ wanted) known =
    if is_value (lookup k known) v then versions_known wanted known else false

unfoldable pub skip_review : Option ReviewRequest → Option ReviewRecord → Bool
skip_review none last = true
skip_review (some request) none = false
skip_review (some request) (some last) =
    if not (request.name == last.request.name)
    then false
    else if not (request.resource_version == "")
        && not (request.resource_version == last.request.resource_version)
    then false
    else if not (versions_known request.role_binding_versions last.request.role_binding_versions)
    then false
    else versions_known request.role_versions last.request.role_versions

-- the fields of the last known record, "by default"
abbrev pub last_version : Option ReviewRecord → String
last_version none = ""
last_version (some last) = last.request.resource_version

abbrev pub last_roles : Option ReviewRecord → StringMap
last_roles none = []
last_roles (some last) = copy_into last.request.role_versions []

abbrev pub last_role_bindings : Option ReviewRecord → StringMap
last_role_bindings none = []
last_role_bindings (some last) = copy_into last.request.role_binding_versions []

-- the record that `cacheReviewRecord` builds
unfoldable pub merged_record : ReviewRequest → Option ReviewRecord → Review → ReviewRecord
merged_record request last review = record {
  request = record {
    name = request.name;
    resource_version =
        if not (request.resource_version == "")
        then request.resource_version
        else last_version last;
    role_versions = copy_into request.role_versions (last_roles last);
    role_binding_versions = copy_into request.role_binding_versions (last_role_bindings last);
  };
  users = review.users;
  groups = review.groups;
}

module _ ⦃P : Platform⦄ where
  open P use {Store, find, find_error, add}

  unfoldable pub cache_review_record :
      ReviewRequest → Option ReviewRecord → Review → Store ReviewRecord → Store ReviewRecord
  cache_review_record request last review store =
      add review_record_key store (merged_record request last review)

  -- `lastKnown`; no record is a nil pointer
  unfoldable pub last_known : Store ReviewRecord → String → Result (Option ReviewRecord)
  last_known store name = elim (find_error review_record_key store name) [
    | some e ↦ err e
    | none ↦ ok (find review_record_key store name)
  ]
