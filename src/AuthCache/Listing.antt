-- ===== src/AuthCache/Listing.antt =====
-- pkg/cache/common.go, `listNames`: what it reads of the records.
use clusterset_server.Base.{
  ◌≡◌, ◌||◌, Option-cases, List, [], ◌∷◌, String, arith, inl, inr, any, any_ext,
}
use clusterset_server.Platform.{Platform}
use clusterset_server.Objects.{UserInfo}
use clusterset_server.AuthCache.Records.{SubjectRecord}
use clusterset_server.AuthCache.State.{AuthCache}
use clusterset_server.AuthCache.Names.{list_names, names_of_groups, insert_found}
use clusterset_server.AuthCache.Subjects.{find_subject, holds}
use clusterset_server.AuthCache.Consistency.{IsConsistent, find_record, reviews_user, reviews_group}

module _ ⦃P : Platform⦄ where
  open P use {StringSet, Store, empty, has, list, has-insert_all, has-empty, contains-list}

  has-insert_found :
      (store : Store SubjectRecord) (keys : StringSet) (subject n : String)
      → has (insert_found keys (find_subject store subject)) n
        ≡ (has keys n || holds store subject n)
  has-insert_found store keys subject n = elim (Option-cases (find_subject store subject)) [
    | inl missing ↦ ground arith
    | inr (r, found) ↦ ground (arith, has-insert_all keys (list r.names) n, contains-list r.names n)
  ]

  has-names_of_groups :
      (store : Store SubjectRecord) (keys : StringSet) (groups : List String) (n : String)
      → has (names_of_groups store keys groups) n
        ≡ (has keys n || any (λ g. holds store g n) groups)
  unfolding names_of_groups any
  has-names_of_groups store keys [] n = ground arith
  has-names_of_groups store keys (g ∷ groups) n = ground (
    arith,
    has-insert_found store keys g n,
    has-names_of_groups store (insert_found keys (find_subject store g)) groups n,
  )

  -- A user is listed the names that the user or one of the user's groups holds.
  pub has-list_names :
      (ac : AuthCache) (user : UserInfo) (n : String)
      → has (list_names ac user) n ≡ (
          holds ac.user_subject_records user.name n
          || any (λ g. holds ac.group_subject_records g n) user.groups)
  unfolding list_names
  has-list_names ac user n = ground (
    arith,
    has-empty n,
    has-insert_found ac.user_subject_records empty user.name n,
    has-names_of_groups ac.group_subject_records
        (insert_found empty (find_subject ac.user_subject_records user.name)) user.groups n,
  )

  -- In a consistent cache a user is listed exactly the names whose review names the user or one of
  -- the user's groups.
  pub list_names_exact :
      (ac : AuthCache) (user : UserInfo) (n : String)
      → IsConsistent ac
      → has (list_names ac user) n ≡ (
          reviews_user (find_record ac n) user.name
          || any (λ g. reviews_group (find_record ac n) g) user.groups)
  list_names_exact ac user n h = ground (
    arith,
    h.users user.name n,
    has-list_names ac user n,
    any_ext (λ g. holds ac.group_subject_records g n) (λ g. reviews_group (find_record ac n) g)
        user.groups (λ g. h.groups g n),
  )
