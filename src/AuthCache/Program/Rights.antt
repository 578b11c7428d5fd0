-- ===== src/AuthCache/Program/Rights.antt =====
-- pkg/cache/common.go: what a run may write, and whom it may notify of what, at any of its accesses.
use mathlib.Core.List.{Memᴰ}
use clusterset_server.Base.{
  ◌≡◌, refl, Result, Bool-cases, inl, inr, Option, some, List, [], ◌∷◌, String, ok, err,
}
use clusterset_server.Platform.{Platform}
use clusterset_server.Rbac.{ClusterRole, ClusterRoleBinding}
use clusterset_server.Rbac.Reviewer.{Review}
use clusterset_server.AuthCache.Records.{ReviewRequest, ReviewRecord}
use clusterset_server.AuthCache.Review.{skip_review, merged_record}
use clusterset_server.AuthCache.State.{Surroundings, AuthCache}
use clusterset_server.AuthCache.Sync.{binding_request}
use clusterset_server.AuthCache.Program.{
  Write, delete_user, delete_group, add_user, add_group, put_record, drop_record, end_run, Program,
  returns, reads, looks, writes, notifies, ◌then◌,
}
use clusterset_server.AuthCache.Program.Synchronize.{
  each_subject, review_program, known_program, last_known_program, request_program, each_program,
  listed_program, names_program, role_program, bindings_program, all_bindings_program,
  purge_program, deleted_program, purge_deleted_program, synchronize_program,
}

module _ ⦃P : Platform⦄ where
  open P use {StringSet, empty, insert_all, has}

  -- `read` is so of what is read, `write` of each write, and `notice` of each notification.
  pub record Rights : Type 1 where
    pub read : Surroundings → Type 0
    pub write : Write → Type 0
    pub notice : String → StringSet → StringSet → Type 0

  -- The program keeps within the rights, whatever it looks up.
  abbrev pub IsWithin : {A : Type 0} → Rights → Program A → Type 0
  IsWithin R (returns a) = Unit
  IsWithin R (reads k) = (s : Surroundings) → R.read s → IsWithin R (k s)
  IsWithin R (looks k) = (ac : AuthCache) → IsWithin R (k ac)
  IsWithin R (writes w p) = R.write w × IsWithin R p
  IsWithin R (notifies name users groups p) = R.notice name users groups × IsWithin R p

  -- What a run needs: it deletes freely, gives names and notifies by the reviewer, and notifies of
  -- what is gone.
  pub record IsForRun (R : Rights) : Type 0 where
    pub deletes_user : (subject name : String) → R.write (delete_user subject name)
    pub deletes_group : (subject name : String) → R.write (delete_group subject name)
    pub drops : (r : ReviewRecord) → R.write (drop_record r)
    pub ends : (names : StringSet) (state : String) → R.write (end_run names state)
    pub silences : (name : String) → R.notice name empty empty
    pub adds_user :
        (s : Surroundings) (name subject : String) (v : Review)
        → R.read s
        → s.reviewer s.group s.resource name ≡ ok v
        → Memᴰ subject v.users
        → R.write (add_user subject name)
    pub adds_group :
        (s : Surroundings) (name subject : String) (v : Review)
        → R.read s
        → s.reviewer s.group s.resource name ≡ ok v
        → Memᴰ subject v.groups
        → R.write (add_group subject name)
    pub puts :
        (s : Surroundings) (request : ReviewRequest) (last : Option ReviewRecord) (v : Review)
        → R.read s
        → s.reviewer s.group s.resource request.name ≡ ok v
        → R.write (put_record (merged_record request last v))
    pub tells :
        (s : Surroundings) (name : String) (v : Review)
        → R.read s
        → s.reviewer s.group s.resource name ≡ ok v
        → R.notice name (insert_all empty v.users) (insert_all empty v.groups)

  module _ (R : Rights) where
    pub then-IsWithin :
        {A B : Type 0} (p : Program A) (f : A → Program B)
        → IsWithin R p
        → ((a : A) → IsWithin R (f a))
        → IsWithin R (p then f)
    unfolding ◌then◌
    then-IsWithin (returns a) f h k = k a
    then-IsWithin (reads j) f h k = λ s q. then-IsWithin (j s) f (h s q) k
    then-IsWithin (looks j) f h k = λ ac. then-IsWithin (j ac) f (h ac) k
    then-IsWithin (writes w p) f h k = (h.0, then-IsWithin p f h.1 k)
    then-IsWithin (notifies name users groups p) f h k = (h.0, then-IsWithin p f h.1 k)

    each_subject-IsWithin :
        {A : Type 0} (write : String → String → Write) (subjects : List String) (name : String)
        (p : Program A)
        → ((subject : String) → Memᴰ subject subjects → R.write (write subject name))
        → IsWithin R p
        → IsWithin R (each_subject write subjects name p)
    unfolding each_subject
    each_subject-IsWithin write [] name p h k = k
    each_subject-IsWithin write (subject ∷ subjects) name p h k = (
      h subject (Memᴰ.head refl),
      each_subject-IsWithin write subjects name p (λ s m. h s (Memᴰ.tail m)) k,
    )

    module _ (rights : IsForRun R) where
      review_program-IsWithin :
          (s : Surroundings) (request : ReviewRequest) (last : Option ReviewRecord)
          (o : Result Review)
          → R.read s
          → s.reviewer s.group s.resource request.name ≡ o
          → IsWithin R (review_program request last o)
      unfolding review_program
      review_program-IsWithin s request last (err e) q reviewed = tt
      review_program-IsWithin s request last (ok v) q reviewed =
          each_subject-IsWithin _ _ _ _ (λ subject _. rights.deletes_user subject request.name)
            (each_subject-IsWithin _ _ _ _ (λ subject _. rights.deletes_group subject request.name)
              (each_subject-IsWithin _ _ _ _
                (λ subject m. rights.adds_user s request.name subject v q reviewed m)
                (each_subject-IsWithin _ _ _ _
                  (λ subject m. rights.adds_group s request.name subject v q reviewed m)
                  (
                    rights.puts s request last v q reviewed,
                    (rights.tells s request.name v q reviewed, tt),
                  ))))

      known_program-IsWithin :
          (request : ReviewRequest) (last : Option ReviewRecord)
          → IsWithin R (known_program request last)
      unfolding known_program
      known_program-IsWithin request last = elim (Bool-cases (skip_review (some request) last)) [
        | inl skipped ↦ rw skipped tt
        | inr wanted ↦ rw wanted (λ s q. review_program-IsWithin s request last _ q refl)
      ]

      last_known_program-IsWithin :
          (request : ReviewRequest) (o : Result (Option ReviewRecord))
          → IsWithin R (last_known_program request o)
      unfolding last_known_program
      last_known_program-IsWithin request (err e) = tt
      last_known_program-IsWithin request (ok last) = known_program-IsWithin request last

      request_program-IsWithin : (request : ReviewRequest) → IsWithin R (request_program request)
      unfolding request_program
      request_program-IsWithin request = λ ac. last_known_program-IsWithin request _

      each_program-IsWithin :
          (names : StringSet) (requests : List ReviewRequest)
          → IsWithin R (each_program names requests)
      unfolding each_program
      each_program-IsWithin names [] = tt
      each_program-IsWithin names (request ∷ requests) =
          then-IsWithin _ _ (request_program-IsWithin request)
            (λ _. each_program-IsWithin (insert_all names (request.name ∷ [])) requests)

      listed_program-IsWithin : (o : Result (List ReviewRequest)) → IsWithin R (listed_program o)
      unfolding listed_program
      listed_program-IsWithin (err e) = tt
      listed_program-IsWithin (ok requests) = each_program-IsWithin empty requests

      names_program-IsWithin :
          (binding : ClusterRoleBinding) (role : ClusterRole) (names : List String)
          → IsWithin R (names_program binding role names)
      unfolding names_program
      names_program-IsWithin binding role [] = tt
      names_program-IsWithin binding role (name ∷ names) =
          then-IsWithin _ _ (request_program-IsWithin (binding_request binding role name))
            (λ _. names_program-IsWithin binding role names)

      role_program-IsWithin :
          (s : Surroundings) (binding : ClusterRoleBinding) (o : Result ClusterRole)
          → IsWithin R (role_program s binding o)
      unfolding role_program
      role_program-IsWithin s binding (err e) = tt
      role_program-IsWithin s binding (ok role) = λ ac. names_program-IsWithin binding role _

      bindings_program-IsWithin :
          (bindings : List ClusterRoleBinding) → IsWithin R (bindings_program bindings)
      unfolding bindings_program
      bindings_program-IsWithin [] = tt
      bindings_program-IsWithin (binding ∷ bindings) =
          then-IsWithin (reads _) _ (λ s q. role_program-IsWithin s binding _)
            (λ _. bindings_program-IsWithin bindings)

      all_bindings_program-IsWithin :
          (o : Result (List ClusterRoleBinding)) → IsWithin R (all_bindings_program o)
      unfolding all_bindings_program
      all_bindings_program-IsWithin (err e) = tt
      all_bindings_program-IsWithin (ok bindings) = bindings_program-IsWithin bindings

      purge_program-IsWithin :
          (new_names : StringSet) (records : List ReviewRecord)
          → IsWithin R (purge_program new_names records)
      unfolding purge_program
      purge_program-IsWithin new_names [] = tt
      purge_program-IsWithin new_names (r ∷ records) =
          let rest = purge_program-IsWithin new_names records in
          elim (Bool-cases (has new_names r.request.name)) [
            | inl kept ↦ rw kept rest
            | inr gone ↦ rw gone (
                each_subject-IsWithin _ _ _ _ (λ subject _. rights.deletes_user subject _)
                  (each_subject-IsWithin _ _ _ _ (λ subject _. rights.deletes_group subject _)
                    (rights.drops r, rest)))
          ]

      deleted_program-IsWithin : (names : List String) → IsWithin R (deleted_program names)
      unfolding deleted_program
      deleted_program-IsWithin [] = tt
      deleted_program-IsWithin (name ∷ names) =
          (rights.silences name, deleted_program-IsWithin names)

      -- A run keeps within the rights that it needs, whatever other goroutines do meanwhile.
      pub synchronize_program-IsWithin : IsWithin R synchronize_program
      unfolding synchronize_program purge_deleted_program
      synchronize_program-IsWithin = λ s q ac.
          then-IsWithin (reads _) _ (λ s' q'. listed_program-IsWithin s'.sync_requests)
            (λ names.
              then-IsWithin (reads _) _ (λ s' q'. all_bindings_program-IsWithin s'.list_bindings)
                (λ _.
                  then-IsWithin _ _
                    (then-IsWithin (looks _) _ (λ ac'. purge_program-IsWithin names _)
                      (λ _. deleted_program-IsWithin _))
                    (λ _. (rights.ends names _, tt))))
