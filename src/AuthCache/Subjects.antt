-- ===== src/AuthCache/Subjects.antt =====
-- pkg/cache/common.go, `deleteResourceFromSubjects` and `addSubjectsToNamespace`: which names a
-- user or a group holds.
use clusterset_server.Base.{
  ◌≡◌, Bool, false, not, ◌&&◌, ◌||◌, Option, none, some, List, [], ◌∷◌, String, ◌==◌, arith,
  if◌then◌else◌, contains, contains_singleton, eq_iff, eq_self, Option-cases, inl, inr,
}
use clusterset_server.Platform.{Platform}
use clusterset_server.AuthCache.Records.{SubjectRecord, subject_record_key}

module _ ⦃P : Platform⦄ where
  open P use {
    StringSet, empty, insert_all, delete_all, has, is_empty, Store, find, add, delete, find-add,
    find-delete, key_of_find, has-delete_all, has-insert_all, has-empty, has_of_is_empty,
  }

  abbrev pub find_subject : Store SubjectRecord → String → Option SubjectRecord
  find_subject = find subject_record_key

  -- One round of the loop. The record that the store holds is changed through its pointer, which
  -- is the store with the record written anew.
  unfoldable pub delete_resource : Store SubjectRecord → String → String → Store SubjectRecord
  delete_resource store subject name = elim (find_subject store subject) [
    | none ↦ store
    | some r ↦
        let r' : SubjectRecord = record r { names = delete_all r.names (name ∷ []) } in
        if is_empty r'.names
        then delete subject_record_key store r'
        else add subject_record_key store r'
  ]

  unfoldable pub delete_resource_from_subjects :
      Store SubjectRecord → List String → String → Store SubjectRecord
  delete_resource_from_subjects store [] name = store
  delete_resource_from_subjects store (subject ∷ subjects) name =
      delete_resource_from_subjects (delete_resource store subject name) subjects name

  unfoldable pub add_subject : Store SubjectRecord → String → String → Store SubjectRecord
  add_subject store subject name = elim (find_subject store subject) [
    | none ↦
        add subject_record_key store
          (record { subject = subject; names = insert_all empty (name ∷ []) })
    | some r ↦ add subject_record_key store (record r { names = insert_all r.names (name ∷ []) })
  ]

  unfoldable pub add_subjects_to_namespace :
      Store SubjectRecord → List String → String → Store SubjectRecord
  add_subjects_to_namespace store [] name = store
  add_subjects_to_namespace store (subject ∷ subjects) name =
      add_subjects_to_namespace (add_subject store subject name) subjects name

  -- Does the store let the subject see the name?
  abbrev names_has : Option SubjectRecord → String → Bool
  names_has none name = false
  names_has (some r) name = has r.names name

  abbrev pub holds : Store SubjectRecord → String → String → Bool
  holds store subject name = names_has (find_subject store subject) name

  pub holds-delete_resource :
      (store : Store SubjectRecord) (subject name s n : String)
      → holds (delete_resource store subject name) s n
        ≡ (holds store s n && not (subject == s && name == n))
  unfolding delete_resource
  holds-delete_resource store subject name s n = elim (Option-cases (find_subject store subject)) [
    | inl missing ↦ ground (arith, eq_iff subject s)
    | inr (r, found) ↦
        let r' : SubjectRecord = record r { names = delete_all r.names (name ∷ []) } in
        ground (
          arith,
          eq_iff subject s,
          key_of_find subject_record_key store subject r found,
          find-delete subject_record_key store r' s,
          find-add subject_record_key store r' s,
          has-delete_all r.names (name ∷ []) n,
          contains_singleton name n,
          has_of_is_empty r'.names n,
        )
  ]

  -- Deleting takes the name from the listed subjects, and nothing else.
  pub holds-delete_resource_from_subjects :
      (store : Store SubjectRecord) (subjects : List String) (name s n : String)
      → holds (delete_resource_from_subjects store subjects name) s n
        ≡ (holds store s n && not (contains subjects s && name == n))
  unfolding delete_resource_from_subjects contains
  holds-delete_resource_from_subjects store [] name s n = ground arith
  holds-delete_resource_from_subjects store (subject ∷ subjects) name s n = ground (
    arith,
    holds-delete_resource store subject name s n,
    holds-delete_resource_from_subjects (delete_resource store subject name) subjects name s n,
  )

  pub holds-add_subject :
      (store : Store SubjectRecord) (subject name s n : String)
      → holds (add_subject store subject name) s n ≡ (holds store s n || subject == s && name == n)
  unfolding add_subject
  holds-add_subject store subject name s n = elim (Option-cases (find_subject store subject)) [
    | inl missing ↦
        let r' : SubjectRecord = record {
          subject = subject;
          names = insert_all empty (name ∷ []);
        } in
        ground (
          arith,
          eq_iff subject s,
          find-add subject_record_key store r' s,
          has-insert_all empty (name ∷ []) n,
          contains_singleton name n,
          has-empty n,
        )
    | inr (r, found) ↦
        let r' : SubjectRecord = record r { names = insert_all r.names (name ∷ []) } in
        ground (
          arith,
          eq_iff subject s,
          key_of_find subject_record_key store subject r found,
          find-add subject_record_key store r' s,
          has-insert_all r.names (name ∷ []) n,
          contains_singleton name n,
        )
  ]

  -- Adding gives the name to the listed subjects, and nothing else.
  pub holds-add_subjects_to_namespace :
      (store : Store SubjectRecord) (subjects : List String) (name s n : String)
      → holds (add_subjects_to_namespace store subjects name) s n
        ≡ (holds store s n || contains subjects s && name == n)
  unfolding add_subjects_to_namespace contains
  holds-add_subjects_to_namespace store [] name s n = ground arith
  holds-add_subjects_to_namespace store (subject ∷ subjects) name s n = ground (
    arith,
    holds-add_subject store subject name s n,
    holds-add_subjects_to_namespace (add_subject store subject name) subjects name s n,
  )

  -- No subject is kept with an empty set of names.
  abbrev pub NoEmptySubject : Store SubjectRecord → Type 0
  NoEmptySubject store =
      (s : String) (r : SubjectRecord) → find_subject store s ≡ some r → is_empty r.names ≡ false

  delete_resource-NoEmptySubject :
      (store : Store SubjectRecord) (subject name : String)
      → NoEmptySubject store
      → NoEmptySubject (delete_resource store subject name)
  unfolding delete_resource
  delete_resource-NoEmptySubject store subject name h s q e =
      elim (Option-cases (find_subject store subject)) [
        | inl missing ↦ h s q (ground arith)
        | inr (r, found) ↦
            let r' : SubjectRecord = record r { names = delete_all r.names (name ∷ []) } in
            ground (
              arith,
              find-delete subject_record_key store r' s,
              find-add subject_record_key store r' s,
              h s q,
            )
      ]

  pub delete_resource_from_subjects-NoEmptySubject :
      (store : Store SubjectRecord) (subjects : List String) (name : String)
      → NoEmptySubject store
      → NoEmptySubject (delete_resource_from_subjects store subjects name)
  unfolding delete_resource_from_subjects
  delete_resource_from_subjects-NoEmptySubject store [] name h = h
  delete_resource_from_subjects-NoEmptySubject store (subject ∷ subjects) name h =
      delete_resource_from_subjects-NoEmptySubject (delete_resource store subject name) subjects
        name (delete_resource-NoEmptySubject store subject name h)

  is_empty-insert_all :
      (names : StringSet) (n : String) → is_empty (insert_all names (n ∷ [])) ≡ false
  is_empty-insert_all names n = ground (
    arith,
    has_of_is_empty (insert_all names (n ∷ [])) n,
    has-insert_all names (n ∷ []) n,
    contains_singleton n n,
    eq_self n,
  )

  add_subject-NoEmptySubject :
      (store : Store SubjectRecord) (subject name : String)
      → NoEmptySubject store
      → NoEmptySubject (add_subject store subject name)
  unfolding add_subject
  add_subject-NoEmptySubject store subject name h s q e =
      elim (Option-cases (find_subject store subject)) [
        | inl missing ↦
            let r' : SubjectRecord = record {
              subject = subject;
              names = insert_all empty (name ∷ []);
            } in
            ground
              (arith, find-add subject_record_key store r' s, is_empty-insert_all empty name, h s q)
        | inr (r, found) ↦
            let r' : SubjectRecord = record r { names = insert_all r.names (name ∷ []) } in
            ground (
              arith,
              find-add subject_record_key store r' s,
              is_empty-insert_all r.names name,
              h s q,
            )
      ]

  pub add_subjects_to_namespace-NoEmptySubject :
      (store : Store SubjectRecord) (subjects : List String) (name : String)
      → NoEmptySubject store
      → NoEmptySubject (add_subjects_to_namespace store subjects name)
  unfolding add_subjects_to_namespace
  add_subjects_to_namespace-NoEmptySubject store [] name h = h
  add_subjects_to_namespace-NoEmptySubject store (subject ∷ subjects) name h =
      add_subjects_to_namespace-NoEmptySubject (add_subject store subject name) subjects name
        (add_subject-NoEmptySubject store subject name h)
