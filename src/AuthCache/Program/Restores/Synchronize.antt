-- ===== src/AuthCache/Program/Restores/Synchronize.antt =====
-- pkg/cache/common.go: what a run of `synchronize` restores.
use mathlib.Core.List.{Memᴰ}
use mathlib.Core.Path.{subst}
use clusterset_server.Base.{
  ◌≡◌, refl, Result, Bool-cases, inl, inr, some, List, [], ◌∷◌, String, ok, err,
}
use clusterset_server.Platform.{Platform}
use clusterset_server.Rbac.{ClusterRole, ClusterRoleBinding}
use clusterset_server.Rbac.Reviewer.{Review}
use clusterset_server.AuthCache.Consistency.{find_record}
use clusterset_server.AuthCache.Records.{ReviewRequest, ReviewRecord, review_record_key}
use clusterset_server.AuthCache.Request.{apply_review}
use clusterset_server.AuthCache.Review.{skip_review, last_known, cache_review_record}
use clusterset_server.AuthCache.Runs.{IsWaiting, purge_record-IsWaiting}
use clusterset_server.AuthCache.State.{Surroundings, AuthCache}
use clusterset_server.AuthCache.Sync.{binding_request, purge_record}
use clusterset_server.AuthCache.Program.{written, Program, reads, looks}
use clusterset_server.AuthCache.Program.Synchronize.{
  review_program, known_program, last_known_program, request_program, each_program, listed_program,
  names_program, role_program, bindings_program, all_bindings_program, purge_program,
  deleted_program, purge_deleted_program, synchronize_program,
}
use clusterset_server.AuthCache.Program.Restores.{
  IsRestored, Restores, IsRestoring, then-IsRestoring, delete_users-Restores,
  delete_groups-Restores, add_users-Restores, add_groups-Restores, round,
}

module _ ⦃P : Platform⦄ where
  open P use {StringSet, empty, insert_all, has, items, find, find_error-none, find_of_mem-items}

  module _ (Q : Surroundings → Type 0) (I : AuthCache → Type 0) where
    module _ (restored : IsRestored Q I) where
      review_program-Restores :
          (s : Surroundings) (request : ReviewRequest) (o : Result Review) (ac : AuthCache)
          → Q s
          → s.reviewer s.group s.resource request.name ≡ o
          → I ac
          → Restores Q I (review_program request (find_record ac request.name) o) ac
      unfolding review_program written apply_review cache_review_record
      review_program-Restores s request (err e) ac q reviewed h = h
      review_program-Restores s request (ok v) ac q reviewed h =
          let whole = restored.at_review s ac request v q reviewed h in
          delete_users-Restores Q I _ _ _ _ (
            delete_groups-Restores Q I _ _ _ _
              (add_users-Restores Q I _ _ _ _ (add_groups-Restores Q I _ _ _ _ (whole, whole))))

      known_program-Restores :
          (request : ReviewRequest) (ac : AuthCache)
          → I ac
          → Restores Q I (known_program request (find_record ac request.name)) ac
      unfolding known_program
      known_program-Restores request ac h =
          elim (Bool-cases (skip_review (some request) (find_record ac request.name))) [
            | inl skipped ↦ rw skipped h
            | inr wanted ↦ rw wanted (λ s q. review_program-Restores s request _ ac q refl h)
          ]

      request_program-IsRestoring :
          (request : ReviewRequest) → IsRestoring Q I (request_program request)
      unfolding request_program last_known last_known_program
      request_program-IsRestoring request ac h =
          rw (find_error-none review_record_key ac.review_records request.name, Restores)
            (known_program-Restores request ac h)

      each_program-IsRestoring :
          (names : StringSet) (requests : List ReviewRequest)
          → IsRestoring Q I (each_program names requests)
      unfolding each_program
      each_program-IsRestoring names [] = λ ac h. h
      each_program-IsRestoring names (request ∷ requests) =
          then-IsRestoring Q I _ _ (request_program-IsRestoring request)
            (λ _. each_program-IsRestoring (insert_all names (request.name ∷ [])) requests)

      listed_program-IsRestoring :
          (o : Result (List ReviewRequest)) → IsRestoring Q I (listed_program o)
      unfolding listed_program
      listed_program-IsRestoring (err e) = λ ac h. h
      listed_program-IsRestoring (ok requests) = each_program-IsRestoring empty requests

      names_program-IsRestoring :
          (binding : ClusterRoleBinding) (role : ClusterRole) (names : List String)
          → IsRestoring Q I (names_program binding role names)
      unfolding names_program
      names_program-IsRestoring binding role [] = λ ac h. h
      names_program-IsRestoring binding role (name ∷ names) =
          then-IsRestoring Q I _ _ (request_program-IsRestoring (binding_request binding role name))
            (λ _. names_program-IsRestoring binding role names)

      role_program-IsRestoring :
          (s : Surroundings) (binding : ClusterRoleBinding) (o : Result ClusterRole)
          → IsRestoring Q I (role_program s binding o)
      unfolding role_program
      role_program-IsRestoring s binding (err e) ac h = h
      role_program-IsRestoring s binding (ok role) ac h =
          names_program-IsRestoring binding role _ ac h

      bindings_program-IsRestoring :
          (bindings : List ClusterRoleBinding) → IsRestoring Q I (bindings_program bindings)
      unfolding bindings_program
      bindings_program-IsRestoring [] = λ ac h. h
      bindings_program-IsRestoring (binding ∷ bindings) =
          then-IsRestoring Q I (reads _) _ (λ ac h s q. role_program-IsRestoring s binding _ ac h)
            (λ _. bindings_program-IsRestoring bindings)

      all_bindings_program-IsRestoring :
          (o : Result (List ClusterRoleBinding)) → IsRestoring Q I (all_bindings_program o)
      unfolding all_bindings_program
      all_bindings_program-IsRestoring (err e) = λ ac h. h
      all_bindings_program-IsRestoring (ok bindings) = bindings_program-IsRestoring bindings

      -- one round, and what is left of the loop
      purge_round :
          (names : StringSet) (ac : AuthCache) (r : ReviewRecord) (rest : Program (Unit {0}))
          → Restores Q I rest (purge_record names ac r)
          → Restores Q I (round names r rest) ac
      unfolding purge_record written
      purge_round names ac r rest h = elim (Bool-cases (has names r.request.name)) [
        | inl kept ↦ rw kept (subst (Restores Q I rest) (rw kept refl) h)
        | inr gone ↦ rw gone (
            delete_users-Restores Q I _ _ _ _
              (delete_groups-Restores Q I _ _ _ _ (subst (Restores Q I rest) (rw gone refl) h)))
      ]

      purge_program-Restores :
          (names : StringSet) (records : List ReviewRecord) (ac : AuthCache)
          → ((r : ReviewRecord) → Memᴰ r records → IsWaiting ac r)
          → I ac
          → Restores Q I (purge_program names records) ac
      unfolding purge_program purge_record written
      purge_program-Restores names [] ac waiting h = h
      purge_program-Restores names (r ∷ records) ac waiting h =
          let rest =
            purge_program-Restores names records (purge_record names ac r)
              (λ q m. purge_record-IsWaiting names ac r q (waiting q (Memᴰ.tail m)))
              (restored.at_purge ac names r (waiting r (Memᴰ.head refl)) h) in
          purge_round names ac r (purge_program names records) rest

      deleted_program-IsRestoring : (names : List String) → IsRestoring Q I (deleted_program names)
      unfolding deleted_program
      deleted_program-IsRestoring [] ac h = h
      deleted_program-IsRestoring (name ∷ names) ac h = (h, deleted_program-IsRestoring names ac h)

      -- A run restores what a whole review and a whole round of the purge keep.
      pub synchronize_program-IsRestoring : IsRestoring Q I synchronize_program
      unfolding synchronize_program purge_deleted_program written
      synchronize_program-IsRestoring ac h = λ s q.
          then-IsRestoring Q I (reads _) _
            (λ ac' h' s' q'. listed_program-IsRestoring s'.sync_requests ac' h')
            (λ names.
              then-IsRestoring Q I (reads _) _
                (λ ac' h' s' q'. all_bindings_program-IsRestoring s'.list_bindings ac' h')
                (λ _.
                  then-IsRestoring Q I _ _
                    (then-IsRestoring Q I (looks _) _
                      (λ ac' h'.
                        purge_program-Restores names _ ac'
                          (λ r m. inl (find_of_mem-items review_record_key ac'.review_records r m))
                          h')
                      (λ _. deleted_program-IsRestoring _))
                    (λ _ ac' h'. restored.at_end ac' names _ h')))
            ac h
