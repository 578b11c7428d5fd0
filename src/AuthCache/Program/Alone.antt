-- ===== src/AuthCache/Program/Alone.antt =====
-- pkg/cache/common.go: a program that nothing interferes with is the run of `synchronize`.
pub mod Requests
pub mod Synchronize
use clusterset_server.Base.{
  ◌≡◌, refl, ap, ◌∙◌, Result, Bool-cases, inl, inr, Option, some, List, [], ◌∷◌, String, ok, err,
  arith, if◌then◌else◌,
}
use clusterset_server.Platform.{Platform}
use clusterset_server.Rbac.{ClusterRole, ClusterRoleBinding}
use clusterset_server.Rbac.Reviewer.{Review}
use clusterset_server.AuthCache.Notify.{notify_watchers}
use clusterset_server.AuthCache.Records.{ReviewRequest, ReviewRecord, review_record_key}
use clusterset_server.AuthCache.Request.{apply_review, sync_review, sync_known, sync_request}
use clusterset_server.AuthCache.Review.{cache_review_record, last_known}
use clusterset_server.AuthCache.State.{
  Surroundings, AuthCache, Outcome, done, stuck, M, ◌>>=◌, ◌>>◌,
}
use clusterset_server.AuthCache.Subjects.{delete_resource_from_subjects, add_subjects_to_namespace}
use clusterset_server.AuthCache.Sync.{
  sync_each, sync_listed, sync_resources, sync_names, sync_role, sync_bindings, sync_all_bindings,
  synchronize_cluster_role_bindings, purge_record, purge_records, notify_deleted,
  purge_deleted_resources, synchronize,
}
use clusterset_server.AuthCache.Program.{
  delete_user, delete_group, add_user, add_group, written, readings, stores, Program, returns,
  reads, looks, writes, notifies, ◌then◌,
}
use clusterset_server.AuthCache.Program.Synchronize.{
  each_subject, review_program, known_program, last_known_program, request_program, each_program,
  listed_program, names_program, role_program, bindings_program, all_bindings_program,
  purge_program, deleted_program, purge_deleted_program, synchronize_program,
}

module _ ⦃P : Platform⦄ where
  open P use {StringSet, empty, insert_all, has, list, range, difference, items}

  -- The run of a program where the informers do not change and no other goroutine goes on.
  unfoldable pub alone : {A : Type 0} → Surroundings → Program A → M A
  alone s (returns a) ac = done a ac
  alone s (reads k) ac = alone s (k (readings s)) ac
  alone s (looks k) ac = alone s (k (stores ac)) ac
  alone s (writes w p) ac = alone s p (written w ac)
  alone s (notifies name users groups p) ac = (notify_watchers s name users groups >> alone s p) ac

  module _ (s : Surroundings) where
    -- what follows a step that ended so
    abbrev pub on : {A B : Type 0} → Outcome A → (A → M B) → Outcome B
    on o f = elim o [ done a ac ↦ f a ac | stuck ac ↦ stuck ac ]

    pub on-on :
        {A B C : Type 0} (o : Outcome A) (k : A → M C) (j : A → M B) (f : B → M C)
        → ((a : A) (ac : AuthCache) → k a ac ≡ on (j a ac) f)
        → on o k ≡ on (on o j) f
    on-on (done a ac) k j f h = h a ac
    on-on (stuck ac) k j f h = refl

    pub on-ext :
        {A B : Type 0} (o : Outcome A) (k j : A → M B)
        → ((a : A) (ac : AuthCache) → k a ac ≡ j a ac)
        → on o k ≡ on o j
    on-ext (done a ac) k j h = h a ac
    on-ext (stuck ac) k j h = refl

    pub alone-then :
        {A B : Type 0} (p : Program A) (f : A → Program B) (ac : AuthCache)
        → alone s (p then f) ac ≡ on (alone s p ac) (λ a. alone s (f a))
    unfolding alone ◌then◌
    alone-then (returns a) f ac = refl
    alone-then (reads k) f ac = alone-then (k (readings s)) f ac
    alone-then (looks k) f ac = alone-then (k (stores ac)) f ac
    alone-then (writes w p) f ac = alone-then p f (written w ac)
    alone-then (notifies name users groups p) f ac =
        on-on (notify_watchers s name users groups ac) _ _ _ (λ _ ac'. alone-then p f ac')

    -- A program and a step that are followed by programs and steps that agree.
    pub alone-bind :
        {A B : Type 0} (p : Program A) (m : M A) (f : A → Program B) (g : A → M B)
        → ((ac : AuthCache) → alone s p ac ≡ m ac)
        → ((a : A) (ac : AuthCache) → alone s (f a) ac ≡ g a ac)
        → (ac : AuthCache) → alone s (p then f) ac ≡ (m >>= g) ac
    alone-bind p m f g h k ac =
        alone-then p f ac ∙ ap (λ o. on o (λ a. alone s (f a))) (h ac) ∙ on-ext (m ac) _ _ k
