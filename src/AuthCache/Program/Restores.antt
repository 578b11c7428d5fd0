-- ===== src/AuthCache/Program/Restores.antt =====
-- pkg/cache/common.go: what the writes of a run make up for before it notifies watchers or ends.
pub mod Synchronize
use mathlib.Core.List.{Memᴰ}
use mathlib.Core.Path.{subst}
use clusterset_server.Base.{
  ◌≡◌, refl, Result, not, if◌then◌else◌, Bool-cases, inl, inr, some, List, [], ◌∷◌, String, ok, err,
}
use clusterset_server.Platform.{Platform}
use clusterset_server.Rbac.{ClusterRole, ClusterRoleBinding}
use clusterset_server.Rbac.Reviewer.{Review}
use clusterset_server.Watcher.{CacheWatcher}
use clusterset_server.AuthCache.Consistency.{find_record}
use clusterset_server.AuthCache.Records.{ReviewRequest, ReviewRecord, review_record_key}
use clusterset_server.AuthCache.Request.{apply_review}
use clusterset_server.AuthCache.Review.{skip_review, last_known, cache_review_record}
use clusterset_server.AuthCache.Runs.{IsWaiting, purge_record-IsWaiting}
use clusterset_server.AuthCache.State.{Surroundings, AuthCache}
use clusterset_server.AuthCache.Subjects.{delete_resource_from_subjects, add_subjects_to_namespace}
use clusterset_server.AuthCache.Sync.{binding_request, purge_record}
use clusterset_server.AuthCache.Program.{
  stores, delete_user, delete_group, add_user, add_group, drop_record, written, Program, returns,
  reads, looks, writes, notifies, ◌then◌,
}
use clusterset_server.AuthCache.Program.Synchronize.{
  each_subject, review_program, known_program, last_known_program, request_program, each_program,
  listed_program, names_program, role_program, bindings_program, all_bindings_program,
  purge_program, deleted_program, purge_deleted_program, synchronize_program,
}

module _ ⦃P : Platform⦄ where
  open P use {StringSet, empty, insert_all, has, items, find, find_error-none, find_of_mem-items}

  -- What a whole review and a whole round of the purge keep of the stores, where `Q` is so of all
  -- that is read.
  pub record IsRestored (Q : Surroundings → Type 0) (I : AuthCache → Type 0) : Type 0 where
    pub at_review :
        (s : Surroundings) (ac : AuthCache) (request : ReviewRequest) (v : Review)
        → Q s
        → s.reviewer s.group s.resource request.name ≡ ok v
        → I ac
        → I (apply_review request (find_record ac request.name) v ac)
    pub at_purge :
        (ac : AuthCache) (names : StringSet) (r : ReviewRecord)
        → IsWaiting ac r
        → I ac
        → I (purge_record names ac r)
    pub at_end :
        (ac : AuthCache) (names : StringSet) (state : String)
        → I ac
        → I (record ac { all_known_names = names; last_state = state })

  -- one round of the loop of `purgeDeletedResources`
  abbrev pub round : StringSet → ReviewRecord → Program (Unit {0}) → Program (Unit {0})
  round names r rest =
      if not (has names r.request.name)
      then each_subject delete_user r.users r.request.name
          (each_subject delete_group r.groups r.request.name (writes (drop_record r) rest))
      else rest

  module _ (Q : Surroundings → Type 0) (I : AuthCache → Type 0) where
    -- From these stores `I` is so at each notification of the program and at its end, whatever the
    -- watchers are meanwhile.
    abbrev pub Restores : {A : Type 0} → Program A → AuthCache → Type 0
    Restores (returns a) ac = I ac
    Restores (reads k) ac = (s : Surroundings) → Q s → Restores (k s) ac
    Restores (looks k) ac = Restores (k (stores ac)) ac
    Restores (writes w p) ac = Restores p (written w ac)
    Restores (notifies name users groups p) ac = I ac × Restores p ac

    -- From any stores of which `I` is so.
    abbrev pub IsRestoring : {A : Type 0} → Program A → Type 0
    IsRestoring p = (ac : AuthCache) → I ac → Restores p ac

    then-Restores :
        {A B : Type 0} (p : Program A) (f : A → Program B) (ac : AuthCache)
        → ((a : A) → IsRestoring (f a))
        → Restores p ac
        → Restores (p then f) ac
    unfolding ◌then◌
    then-Restores (returns a) f ac k h = k a ac h
    then-Restores (reads j) f ac k h = λ s q. then-Restores (j s) f ac k (h s q)
    then-Restores (looks j) f ac k h = then-Restores (j (stores ac)) f ac k h
    then-Restores (writes w p) f ac k h = then-Restores p f (written w ac) k h
    then-Restores (notifies name users groups p) f ac k h = (h.0, then-Restores p f ac k h.1)

    pub then-IsRestoring :
        {A B : Type 0} (p : Program A) (f : A → Program B)
        → IsRestoring p
        → ((a : A) → IsRestoring (f a))
        → IsRestoring (p then f)
    then-IsRestoring p f h k = λ ac i. then-Restores p f ac k (h ac i)

    module _ {A : Type 0} where
      pub delete_users-Restores :
          (subjects : List String) (name : String) (p : Program A) (ac : AuthCache)
          → Restores p (record ac {
            user_subject_records =
                delete_resource_from_subjects ac.user_subject_records subjects name;
          })
          → Restores (each_subject delete_user subjects name p) ac
      unfolding each_subject written delete_resource_from_subjects
      delete_users-Restores [] name p ac h = h
      delete_users-Restores (subject ∷ subjects) name p ac h =
          delete_users-Restores subjects name p _ h

      pub delete_groups-Restores :
          (subjects : List String) (name : String) (p : Program A) (ac : AuthCache)
          → Restores p (record ac {
            group_subject_records =
                delete_resource_from_subjects ac.group_subject_records subjects name;
          })
          → Restores (each_subject delete_group subjects name p) ac
      unfolding each_subject written delete_resource_from_subjects
      delete_groups-Restores [] name p ac h = h
      delete_groups-Restores (subject ∷ subjects) name p ac h =
          delete_groups-Restores subjects name p _ h

      pub add_users-Restores :
          (subjects : List String) (name : String) (p : Program A) (ac : AuthCache)
          → Restores p (record ac {
            user_subject_records = add_subjects_to_namespace ac.user_subject_records subjects name;
          })
          → Restores (each_subject add_user subjects name p) ac
      unfolding each_subject written add_subjects_to_namespace
      add_users-Restores [] name p ac h = h
      add_users-Restores (subject ∷ subjects) name p ac h = add_users-Restores subjects name p _ h

      pub add_groups-Restores :
          (subjects : List String) (name : String) (p : Program A) (ac : AuthCache)
          → Restores p (record ac {
            group_subject_records =
                add_subjects_to_namespace ac.group_subject_records subjects name;
          })
          → Restores (each_subject add_group subjects name p) ac
      unfolding each_subject written add_subjects_to_namespace
      add_groups-Restores [] name p ac h = h
      add_groups-Restores (subject ∷ subjects) name p ac h = add_groups-Restores subjects name p _ h
