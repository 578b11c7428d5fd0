-- ===== src/Rbac/Locator.antt =====
-- pkg/cache/rbac/subject_locator.go: the subjects that the cluster role bindings let do something.
pub mod Spec
pub mod Errors
use clusterset_server.Base.{
  Bool, true, false, not, List, [], ◌∷◌, ◌++◌, String, ◌==◌, Error, Result, ok, err, ◌>>=◌,
  if◌then◌else◌,
}
use clusterset_server.Rbac.{PolicyRule, Subject, ClusterRole, ClusterRoleBinding, Attributes}
use clusterset_server.Rbac.Allow.{rules_allow}

-- The listers of client-go are what a read of them returns.
pub record SubjectAccessEvaluator : Type 0 where
  pub super_user : String
  pub list_bindings : Result (List ClusterRoleBinding)
  pub get_role : String → Result ClusterRole

-- rbacv1.Subject{Kind: GroupKind, APIGroup: GroupName, Name: user.SystemPrivilegedGroup}
abbrev pub privileged_group : Subject
privileged_group = record {
  kind = "Group";
  api_group = "rbac.authorization.k8s.io";
  name = "system:masters";
  namespace = "";
}

abbrev pub super_user_subject : String → Subject
super_user_subject name = record {
  kind = "User";
  api_group = "rbac.authorization.k8s.io";
  name = name;
  namespace = "";
}

unfoldable pub get_rules_from_role_ref : SubjectAccessEvaluator → String → Result (List PolicyRule)
get_rules_from_role_ref r ref = do role ← r.get_role ref; ok role.rules

-- `subjects` and `errorlist`
pub record Located : Type 0 where
  pub subjects : List Subject
  pub errors : List Error

-- one round of the loop over the bindings
unfoldable pub locate_binding :
    SubjectAccessEvaluator → Attributes → Located → ClusterRoleBinding → Located
locate_binding r a out binding = elim (get_rules_from_role_ref r binding.role_ref) [
  | err e ↦ record out { errors = out.errors ++ e ∷ [] }
  | ok rules ↦
      if rules_allow a rules
      then record out { subjects = out.subjects ++ binding.subjects }
      else out
]

unfoldable pub locate_from :
    SubjectAccessEvaluator → Attributes → Located → List ClusterRoleBinding → Located
locate_from r a out [] = out
locate_from r a out (binding ∷ bindings) = locate_from r a (locate_binding r a out binding) bindings

-- the two appends before the loop
unfoldable pub first_subjects : SubjectAccessEvaluator → List Subject
first_subjects r =
    if not (r.super_user == "")
    then privileged_group ∷ super_user_subject r.super_user ∷ []
    else privileged_group ∷ []

-- `AllowedSubjects`, with the list that is aggregated for the error
unfoldable pub allowed_subjects : SubjectAccessEvaluator → Attributes → Located
allowed_subjects r a = elim r.list_bindings [
  | err e ↦ record { subjects = first_subjects r; errors = e ∷ [] }
  | ok bindings ↦ locate_from r a (record { subjects = first_subjects r; errors = [] }) bindings
]
