-- ===== src/AuthCache/Names.antt =====
-- `listNames` of pkg/cache/common.go: what a user may see.
use clusterset_server.Base.{Option, none, some, List, [], ◌∷◌, String}
use clusterset_server.Platform.{Platform}
use clusterset_server.Objects.{UserInfo}
use clusterset_server.AuthCache.Records.{SubjectRecord}
use clusterset_server.AuthCache.Subjects.{find_subject}
use clusterset_server.AuthCache.State.{AuthCache}

module _ ⦃P : Platform⦄ where
  open P use {StringSet, Store, empty, insert_all, list}

  -- if exists { keys.Insert(subjectRecord.names.List()...) }
  abbrev pub insert_found : StringSet → Option SubjectRecord → StringSet
  insert_found keys none = keys
  insert_found keys (some r) = insert_all keys (list r.names)

  -- the keys of the groups of a user
  unfoldable pub names_of_groups : Store SubjectRecord → StringSet → List String → StringSet
  names_of_groups store keys [] = keys
  names_of_groups store keys (group ∷ groups) =
      names_of_groups store (insert_found keys (find_subject store group)) groups

  unfoldable pub list_names : AuthCache → UserInfo → StringSet
  list_names ac user =
      names_of_groups ac.group_subject_records
        (insert_found empty (find_subject ac.user_subject_records user.name)) user.groups
