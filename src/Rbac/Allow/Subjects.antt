-- ===== src/Rbac/Allow/Subjects.antt =====
-- pkg/cache/rbac/allow.go, `SubjectsStrings`.
use mathlib.Core.List.{append-nil, append_assoc}
use clusterset_server.Base.{
  ◌≡◌, refl, sym, Bool, false, not, ◌&&◌, ◌||◌, List, [], ◌∷◌, ◌++◌, String, ◌==◌, arith, eq_iff,
  Bool-cases, inl, inr, if◌then◌else◌,
}
use clusterset_server.Rbac.{Subject}
use clusterset_server.Rbac.Allow.{
  SubjectNames, slashed, add_subject_string, subjects_strings_from, subjects_strings,
}

-- the display names of the subjects that pass a test, in order
unfoldable pub display : (Subject → Bool) → (Subject → String) → List Subject → List String
display test name [] = []
display test name (s ∷ subjects) =
    let rest = display test name subjects in if test s then name s ∷ rest else rest

abbrev pub is_kind : String → Subject → Bool
is_kind kind s = s.kind == kind

abbrev pub is_other : Subject → Bool
is_other s = not (is_kind "User" s || is_kind "Group" s || is_kind "ServiceAccount" s)

abbrev pub plain_name : Subject → String
plain_name s = s.name

abbrev pub account_name : Subject → String
account_name s = slashed s.namespace s.name

abbrev pub full_name : Subject → String
full_name s = slashed s.kind (slashed s.namespace s.name)

-- The four lists, with what they held at the start.
abbrev Sorted : SubjectNames → List Subject → SubjectNames → Type 0
Sorted out subjects result =
    (result.users ≡ out.users ++ display (is_kind "User") plain_name subjects)
    × (result.groups ≡ out.groups ++ display (is_kind "Group") plain_name subjects)
    × (result.service_accounts
        ≡ out.service_accounts ++ display (is_kind "ServiceAccount") account_name subjects)
    × (result.others ≡ out.others ++ display is_other full_name subjects)

kinds_differ :
    (kind : String)
    → ((kind == "User" && kind == "Group")
        || (kind == "User" && kind == "ServiceAccount")
        || (kind == "Group" && kind == "ServiceAccount"))
      ≡ false
kinds_differ kind = elim (Bool-cases (kind == "User")) [
  | inl user ↦ rw ((eq_iff kind "User").0 user) refl
  | inr other ↦ elim (Bool-cases (kind == "Group")) [
    | inl group ↦ rw ((eq_iff kind "Group").0 group) refl
    | inr neither ↦ ground arith
  ]
]

subjects_strings_from-Sorted :
    (out : SubjectNames) (subjects : List Subject)
    → Sorted out subjects (subjects_strings_from out subjects)
unfolding subjects_strings_from add_subject_string display
subjects_strings_from-Sorted out [] = (
  sym (append-nil out.users),
  sym (append-nil out.groups),
  sym (append-nil out.service_accounts),
  sym (append-nil out.others),
)
subjects_strings_from-Sorted out (s ∷ subjects) =
    let (users, groups, accounts, others) =
      subjects_strings_from-Sorted (add_subject_string out s) subjects in
    let differ = kinds_differ s.kind in
    (
      ground (
        arith,
        users,
        differ,
        append_assoc out.users (plain_name s ∷ []) (display (is_kind "User") plain_name subjects),
      ),
      ground (
        arith,
        groups,
        differ,
        append_assoc out.groups (plain_name s ∷ []) (display (is_kind "Group") plain_name subjects),
      ),
      ground (
        arith,
        accounts,
        differ,
        append_assoc out.service_accounts (account_name s ∷ [])
            (display (is_kind "ServiceAccount") account_name subjects),
      ),
      ground (
        arith,
        others,
        differ,
        append_assoc out.others (full_name s ∷ []) (display is_other full_name subjects),
      ),
    )

-- Every subject is displayed in one list, by its kind, in order: users and groups by name, service
-- accounts with their namespace, and the others with their kind and namespace.
pub subjects_strings_exact :
    (subjects : List Subject)
    → let out = subjects_strings subjects in
      (out.users ≡ display (is_kind "User") plain_name subjects)
      × (out.groups ≡ display (is_kind "Group") plain_name subjects)
      × (out.service_accounts ≡ display (is_kind "ServiceAccount") account_name subjects)
      × (out.others ≡ display is_other full_name subjects)
unfolding subjects_strings
subjects_strings_exact subjects =
    subjects_strings_from-Sorted
      (record { users = []; groups = []; service_accounts = []; others = [] }) subjects
