-- ===== src/AuthCache/Consistency.antt =====
-- pkg/cache/common.go: the agreement of the subject records with the review records.
use clusterset_server.AuthCache.Keeps.{IgnoresWatchers, Keeps-of_IgnoresWatchers, after_of_Ends}
use mathlib.Core.Path.{subst}
use clusterset_server.Base.{
  ◌≡◌, refl, ◌∙◌, Bool, false, Bool-cases, Option, none, some, List, String, arith, inl, inr,
  contains, eq_iff, ◌==◌, if◌then◌else◌,
}
use clusterset_server.Platform.{Platform}
use clusterset_server.Rbac.Reviewer.{Review}
use clusterset_server.AuthCache.Records.{
  ReviewRequest, ReviewRecord, SubjectRecord, subject_record_key, review_record_key,
}
use clusterset_server.AuthCache.Review.{merged_record, cache_review_record}
use clusterset_server.AuthCache.Request.{apply_review, to_remove, last_users, last_groups}
use clusterset_server.AuthCache.State.{Surroundings, AuthCache, new_auth_cache, after}
use clusterset_server.AuthCache.Sync.{purge_record, synchronize}
use clusterset_server.AuthCache.Runs.{IsInvariant, IsWaiting, Keeps-synchronize}
use clusterset_server.AuthCache.Subjects.{
  holds, NoEmptySubject, delete_resource_from_subjects, add_subjects_to_namespace,
  holds-delete_resource_from_subjects, holds-add_subjects_to_namespace,
  delete_resource_from_subjects-NoEmptySubject, add_subjects_to_namespace-NoEmptySubject,
}

-- Does the review name the user, or the group?
abbrev pub reviews_user : Option ReviewRecord → String → Bool
reviews_user none u = false
reviews_user (some r) u = contains r.users u

abbrev pub reviews_group : Option ReviewRecord → String → Bool
reviews_group none g = false
reviews_group (some r) g = contains r.groups g

module _ ⦃P : Platform⦄ where
  open P use {
    StringSet, Store, empty, insert_all, delete_all, has, list, find, add, delete, find-add,
    find-delete, find-new_store, has-insert_all, has-delete_all, has-empty, contains-list,
  }

  abbrev pub find_record : AuthCache → String → Option ReviewRecord
  find_record ac = find review_record_key ac.review_records

  -- A subject holds a name exactly when the review of that name names the subject, and no subject
  -- is kept that holds nothing.
  pub record IsConsistent (ac : AuthCache) : Type 0 where
    pub users :
        (u n : String) → holds ac.user_subject_records u n ≡ reviews_user (find_record ac n) u
    pub groups :
        (g n : String) → holds ac.group_subject_records g n ≡ reviews_group (find_record ac n) g
    pub no_empty_user : NoEmptySubject ac.user_subject_records
    pub no_empty_group : NoEmptySubject ac.group_subject_records

  pub new_auth_cache-IsConsistent : IsConsistent new_auth_cache
  new_auth_cache-IsConsistent = record {
    users = λ u n.
        ground (arith, find-new_store subject_record_key u, find-new_store review_record_key n);
    groups = λ g n.
        ground (arith, find-new_store subject_record_key g, find-new_store review_record_key n);
    no_empty_user = λ u r e. ground (arith, find-new_store subject_record_key u);
    no_empty_group = λ g r e. ground (arith, find-new_store subject_record_key g);
  }

  -- What a store of subjects holds when the old names are taken back and the new are given.
  holds_exchange :
      (store : Store SubjectRecord) (old new : List String) (name s n : String)
      → (name ≡ n → holds store s n ≡ contains old s)
      → holds
          (add_subjects_to_namespace
            (delete_resource_from_subjects store (list (to_remove old new)) name)
            new
            name)
          s
          n
        ≡ (if name == n then contains new s else holds store s n)
  holds_exchange store old new name s n h =
      let removed = list (to_remove old new) in
      ground (
        arith,
        eq_iff name n,
        holds-add_subjects_to_namespace (delete_resource_from_subjects store removed name) new name
            s n,
        holds-delete_resource_from_subjects store removed name s n,
        contains-list (to_remove old new) s,
        has-delete_all (insert_all empty old) new s,
        has-insert_all empty old s,
        has-empty s,
      )

  -- The record of the request's name is the merged one, and the others are untouched.
  pub find-apply_review :
      (request : ReviewRequest) (last : Option ReviewRecord) (review : Review) (ac : AuthCache)
      (n : String)
      → find_record (apply_review request last review ac) n
        ≡ (if request.name == n then some (merged_record request last review) else find_record ac n)
  unfolding apply_review cache_review_record merged_record
  find-apply_review request last review ac n =
      find-add review_record_key ac.review_records (merged_record request last review) n

  reviews_user-last :
      (last : Option ReviewRecord) (u : String) → reviews_user last u ≡ contains (last_users last) u
  unfolding contains
  reviews_user-last none u = refl
  reviews_user-last (some r) u = refl

  reviews_group-last :
      (last : Option ReviewRecord) (g : String)
      → reviews_group last g ≡ contains (last_groups last) g
  unfolding contains
  reviews_group-last none g = refl
  reviews_group-last (some r) g = refl

  module _ (ac : AuthCache) (h : IsConsistent ac) (name n : String) (same : name ≡ n) where
    holds_user-last :
        (u : String)
        → holds ac.user_subject_records u n ≡ contains (last_users (find_record ac name)) u
    holds_user-last u =
        subst
          (λ m. holds ac.user_subject_records u m ≡ contains (last_users (find_record ac name)) u)
          same (h.users u name ∙ reviews_user-last (find_record ac name) u)

    holds_group-last :
        (g : String)
        → holds ac.group_subject_records g n ≡ contains (last_groups (find_record ac name)) g
    holds_group-last g =
        subst
          (λ m. holds ac.group_subject_records g m ≡ contains (last_groups (find_record ac name)) g)
          same (h.groups g name ∙ reviews_group-last (find_record ac name) g)

  pub apply_review-IsConsistent :
      (ac : AuthCache) (request : ReviewRequest) (review : Review)
      → IsConsistent ac
      → IsConsistent (apply_review request (find_record ac request.name) review ac)
  apply_review-IsConsistent ac request review h =
      let last = find_record ac request.name in
      record {
        users = λ u n.
            let found = find-apply_review request last review ac n in
            let held =
              holds_exchange ac.user_subject_records (last_users last) review.users request.name u n
                (λ e. holds_user-last ac h request.name n e u) in
            unfold apply_review merged_record in ground (arith, h.users u n, found, held);
        groups = λ g n.
            let found = find-apply_review request last review ac n in
            let held =
              holds_exchange ac.group_subject_records (last_groups last) review.groups request.name
                g n (λ e. holds_group-last ac h request.name n e g) in
            unfold apply_review merged_record in ground (arith, h.groups g n, found, held);
        no_empty_user =
            unfold apply_review in
            add_subjects_to_namespace-NoEmptySubject _ _ _
              (delete_resource_from_subjects-NoEmptySubject _ _ _ h.no_empty_user);
        no_empty_group =
            unfold apply_review in
            add_subjects_to_namespace-NoEmptySubject _ _ _
              (delete_resource_from_subjects-NoEmptySubject _ _ _ h.no_empty_group);
      }

  pub purge_record-IsConsistent :
      (ac : AuthCache) (names : StringSet) (r : ReviewRecord)
      → IsWaiting ac r
      → IsConsistent ac
      → IsConsistent (purge_record names ac r)
  purge_record-IsConsistent ac names r waiting h = elim (Bool-cases (has names r.request.name)) [
    | inl kept ↦ unfold purge_record in rw (kept, purge_record) h
    | inr gone ↦
        unfold purge_record in
        rw (gone, purge_record)
          (record {
            users = λ u n. ground (
              arith,
              eq_iff r.request.name n,
              h.users u n,
              holds-delete_resource_from_subjects ac.user_subject_records r.users r.request.name u
                  n,
              find-delete review_record_key ac.review_records r n,
            );
            groups = λ g n. ground (
              arith,
              eq_iff r.request.name n,
              h.groups g n,
              holds-delete_resource_from_subjects ac.group_subject_records r.groups r.request.name g
                  n,
              find-delete review_record_key ac.review_records r n,
            );
            no_empty_user = delete_resource_from_subjects-NoEmptySubject _ _ _ h.no_empty_user;
            no_empty_group = delete_resource_from_subjects-NoEmptySubject _ _ _ h.no_empty_group;
          })
  ]

  pub IsConsistent-IgnoresWatchers : IgnoresWatchers IsConsistent
  IsConsistent-IgnoresWatchers ac watchers h = record {
    users = h.users;
    groups = h.groups;
    no_empty_user = h.no_empty_user;
    no_empty_group = h.no_empty_group;
  }

  pub finished-IsConsistent :
      (ac : AuthCache) (names : StringSet) (state : String)
      → IsConsistent ac
      → IsConsistent (record ac { all_known_names = names; last_state = state })
  finished-IsConsistent ac names state h = record {
    users = h.users;
    groups = h.groups;
    no_empty_user = h.no_empty_user;
    no_empty_group = h.no_empty_group;
  }

  IsConsistent-IsInvariant : (s : Surroundings) → IsInvariant s IsConsistent IsConsistent
  IsConsistent-IsInvariant s = record {
    sync = record {
      at_notify = Keeps-of_IgnoresWatchers s IsConsistent IsConsistent-IgnoresWatchers;
      at_review = λ ac request review _ h. apply_review-IsConsistent ac request review h;
    };
    at_purge = λ ac names r waiting h. purge_record-IsConsistent ac names r waiting h;
    at_finish = finished-IsConsistent;
  }

  -- A run keeps a consistent cache consistent, whatever it reads and wherever it may be stuck.
  pub synchronize-IsConsistent :
      (s : Surroundings) (ac : AuthCache)
      → IsConsistent ac
      → IsConsistent (after (synchronize s ac))
  synchronize-IsConsistent s ac h =
      after_of_Ends IsConsistent (synchronize s ac)
        ((Keeps-synchronize s IsConsistent IsConsistent (IsConsistent-IsInvariant s)).at ac h)
