-- ===== src/Tests/Access.antt =====
-- The theorems on the rules and the bindings of RBAC.
use mathlib.Core.List.{Memᴰ}
use clusterset_server.Base.{
  ◌≡◌, ◌↔◌, ◌⊎◌, refl, Bool, true, false, ◌&&◌, ◌||◌, List, [], ◌∷◌, String, ◌==◌, ok, err,
  not_found, Error, contains, any, any_ext, arith, if◌then◌else◌, ◌∙◌,
}
use clusterset_server.Rbac.{PolicyRule, ClusterRoleBinding, Subject, Attributes}
use clusterset_server.Rbac.Allow.{rules_allow, subjects_strings}
use clusterset_server.Rbac.Allow.Subjects.{
  display, is_kind, is_other, plain_name, account_name, full_name, subjects_strings_exact,
}
use clusterset_server.Rbac.Allow.Spec.{Allows, rules_allow_iff}
use clusterset_server.Rbac.Locator.{SubjectAccessEvaluator, allowed_subjects}
use clusterset_server.Rbac.Locator.Errors.{AllFound, allowed_subjects_errors}
use clusterset_server.Rbac.Locator.Spec.{IsBuiltin, Binds, allowed_subjects_iff}
use clusterset_server.Rbac.Reviewer.{
  Review, get_action, review, SplitsSubjects, MayGet, names_user, names_group, review_exact,
}
use clusterset_server.Tests.Cluster.{role, get_rule, binding, bob_subject}

abbrev pub evaluator : SubjectAccessEvaluator
evaluator = record {
  super_user = "root";
  list_bindings = ok (binding ∷ []);
  get_role = λ ref. ok role;
}

abbrev action : Attributes
action = get_action "cluster" "managedclusters" "c1"

rules_allow_iff_example :
    (rules_allow action (get_rule ∷ []) ≡ true)
    ↔ ((rule : PolicyRule) × Memᴰ rule (get_rule ∷ []) × Allows action rule)
rules_allow_iff_example = rules_allow_iff action (get_rule ∷ [])

allowed_subjects_iff_example : Memᴰ bob_subject (allowed_subjects evaluator action).subjects ↔ (
    IsBuiltin evaluator bob_subject
    ⊎ ((b : ClusterRoleBinding) × Memᴰ b (binding ∷ []) × Binds evaluator action bob_subject b))
allowed_subjects_iff_example = allowed_subjects_iff evaluator action bob_subject (binding ∷ []) refl

abbrev unlisted : SubjectAccessEvaluator
unlisted = record evaluator { list_bindings = err (not_found "") }

allowed_subjects_errors_example :
    ((allowed_subjects evaluator action).errors ≡ []) ↔ AllFound evaluator (binding ∷ [])
allowed_subjects_errors_example = allowed_subjects_errors evaluator action (binding ∷ []) refl

-- the names of the subjects that pass a test
abbrev names_where : (Subject → Bool) → List Subject → List String
names_where test [] = []
names_where test (s ∷ subjects) =
    let rest = names_where test subjects in if test s then s.name ∷ rest else rest

contains-names_where :
    (test : Subject → Bool) (subjects : List Subject) (n : String)
    → contains (names_where test subjects) n ≡ any (λ s. test s && s.name == n) subjects
unfolding contains any
contains-names_where test [] n = refl
contains-names_where test (s ∷ subjects) n = ground (arith, contains-names_where test subjects n)

abbrev is_user : Subject → Bool
is_user s = s.api_group == "rbac.authorization.k8s.io" && s.kind == "User"

abbrev is_group : Subject → Bool
is_group s = s.api_group == "rbac.authorization.k8s.io" && s.kind == "Group"

abbrev pub split : List Subject → String → List String × List String
split subjects namespace = (names_where is_user subjects, names_where is_group subjects)

abbrev pub account : String → Subject → String → Bool
account namespace s u = false

pub split-SplitsSubjects : SplitsSubjects split account
split-SplitsSubjects = record {
  users-split = λ subjects namespace u.
      contains-names_where is_user subjects u
      ∙ any_ext (λ s. is_user s && s.name == u) (λ s. names_user s u || account namespace s u)
          subjects (λ s. ground arith);
  groups-split = λ subjects namespace g.
      contains-names_where is_group subjects g
      ∙ any_ext (λ s. is_group s && s.name == g) (λ s. names_group s g) subjects
          (λ s. ground arith);
}

abbrev pub text : List Error → String
text errors = "failed"

review_exact_example :
    (v : Review) × (review split text evaluator "cluster" "managedclusters" "c1" ≡ ok v)
    × ((u : String)
        → (contains v.users u ≡ true) ↔ (
            (s : Subject) × MayGet evaluator (binding ∷ []) action s
            × ((names_user s u || account "" s u) ≡ true)))
    × ((g : String)
        → (contains v.groups g ≡ true)
          ↔ ((s : Subject) × MayGet evaluator (binding ∷ []) action s × (names_group s g ≡ true)))
review_exact_example =
    review_exact split text account split-SplitsSubjects evaluator (binding ∷ []) "cluster"
      "managedclusters" "c1" refl

abbrev subjects : List Subject
subjects = bob_subject ∷ record bob_subject { kind = "ServiceAccount"; namespace = "ns" } ∷ []

subjects_strings_exact_example :
    ((subjects_strings subjects).users ≡ display (is_kind "User") plain_name subjects)
    × ((subjects_strings subjects).groups ≡ display (is_kind "Group") plain_name subjects)
    × ((subjects_strings subjects).service_accounts
        ≡ display (is_kind "ServiceAccount") account_name subjects)
    × ((subjects_strings subjects).others ≡ display is_other full_name subjects)
subjects_strings_exact_example = subjects_strings_exact subjects
