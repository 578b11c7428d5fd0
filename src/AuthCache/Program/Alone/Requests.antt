-- ===== src/AuthCache/Program/Alone/Requests.antt =====
-- pkg/cache/common.go, `syncRequest`: a request that nothing interferes with.
use clusterset_server.Base.{
  ◌≡◌, refl, ◌∙◌, Result, Option, some, List, [], ◌∷◌, String, ok, err, arith,
}
use clusterset_server.Platform.{Platform}
use clusterset_server.Rbac.Reviewer.{Review}
use clusterset_server.AuthCache.Records.{ReviewRequest, ReviewRecord}
use clusterset_server.AuthCache.Request.{apply_review, sync_review, sync_known, sync_request}
use clusterset_server.AuthCache.Review.{cache_review_record, last_known}
use clusterset_server.AuthCache.State.{Surroundings, AuthCache, done}
use clusterset_server.AuthCache.Subjects.{delete_resource_from_subjects, add_subjects_to_namespace}
use clusterset_server.AuthCache.Program.{
  delete_user, delete_group, add_user, add_group, written, Program,
}
use clusterset_server.AuthCache.Program.Synchronize.{
  each_subject, review_program, known_program, last_known_program, request_program,
}
use clusterset_server.AuthCache.Program.Alone.{alone}

module _ ⦃P : Platform⦄ where
  open P use {StringSet, empty, insert_all, has, list, range, difference, items}

  module _ (s : Surroundings) where
    module _ {A : Type 0} where
      pub alone-delete_users :
          (subjects : List String) (name : String) (p : Program A) (ac : AuthCache)
          → alone s (each_subject delete_user subjects name p) ac
            ≡ alone s p (record ac {
              user_subject_records =
                  delete_resource_from_subjects ac.user_subject_records subjects name;
            })
      unfolding alone each_subject written delete_resource_from_subjects
      alone-delete_users [] name p ac = refl
      alone-delete_users (subject ∷ subjects) name p ac =
          alone-delete_users subjects name p (written (delete_user subject name) ac)

      pub alone-delete_groups :
          (subjects : List String) (name : String) (p : Program A) (ac : AuthCache)
          → alone s (each_subject delete_group subjects name p) ac
            ≡ alone s p (record ac {
              group_subject_records =
                  delete_resource_from_subjects ac.group_subject_records subjects name;
            })
      unfolding alone each_subject written delete_resource_from_subjects
      alone-delete_groups [] name p ac = refl
      alone-delete_groups (subject ∷ subjects) name p ac =
          alone-delete_groups subjects name p (written (delete_group subject name) ac)

      alone-add_users :
          (subjects : List String) (name : String) (p : Program A) (ac : AuthCache)
          → alone s (each_subject add_user subjects name p) ac
            ≡ alone s p (record ac {
              user_subject_records =
                  add_subjects_to_namespace ac.user_subject_records subjects name;
            })
      unfolding alone each_subject written add_subjects_to_namespace
      alone-add_users [] name p ac = refl
      alone-add_users (subject ∷ subjects) name p ac =
          alone-add_users subjects name p (written (add_user subject name) ac)

      alone-add_groups :
          (subjects : List String) (name : String) (p : Program A) (ac : AuthCache)
          → alone s (each_subject add_group subjects name p) ac
            ≡ alone s p (record ac {
              group_subject_records =
                  add_subjects_to_namespace ac.group_subject_records subjects name;
            })
      unfolding alone each_subject written add_subjects_to_namespace
      alone-add_groups [] name p ac = refl
      alone-add_groups (subject ∷ subjects) name p ac =
          alone-add_groups subjects name p (written (add_group subject name) ac)

    alone-review_program :
        (request : ReviewRequest) (last : Option ReviewRecord) (o : Result Review) (ac : AuthCache)
        → alone s (review_program request last o) ac ≡ sync_review s request last o ac
    unfolding alone review_program sync_review apply_review written cache_review_record
    alone-review_program request last (err e) ac = refl
    alone-review_program request last (ok review) ac =
        alone-delete_users _ _ _ _
        ∙ alone-delete_groups _ _ _ _
        ∙ alone-add_users _ _ _ _
        ∙ alone-add_groups _ _ _ _

    alone-known_program :
        (request : ReviewRequest) (last : Option ReviewRecord) (ac : AuthCache)
        → alone s (known_program request last) ac ≡ sync_known s request last ac
    unfolding alone known_program sync_known
    alone-known_program request last ac =
        let reviewed =
          alone-review_program request last (s.reviewer s.group s.resource request.name) ac in
        ground (arith, reviewed)

    pub alone-request_program :
        (request : ReviewRequest) (ac : AuthCache)
        → alone s (request_program request) ac ≡ sync_request s request ac
    unfolding alone request_program sync_request last_known_program
    alone-request_program request ac = go (last_known ac.review_records request.name)
      where
        go :
            (o : Result (Option ReviewRecord))
            → alone s (last_known_program request o) ac
              ≡ elim o [ err e ↦ done (some e) ac | ok last ↦ sync_known s request last ac ]
        go (err e) = refl
        go (ok last) = alone-known_program request last ac
