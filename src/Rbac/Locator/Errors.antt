-- ===== src/Rbac/Locator/Errors.antt =====
-- pkg/cache/rbac/subject_locator.go, `AllowedSubjects`: its errors.
use mathlib.Core.List.{Memᴰ}
use mathlib.Core.List.{append-nil, append_assoc}
use clusterset_server.Base.{
  ◌≡◌, refl, sym, ◌↔◌, inl, inr, List, [], ◌∷◌, ◌++◌, Error, ok, err, arith, Result-cases,
}
use clusterset_server.Rbac.{ClusterRole, ClusterRoleBinding, Attributes}
use clusterset_server.Rbac.Locator.{
  SubjectAccessEvaluator, get_rules_from_role_ref, Located, locate_binding, locate_from,
  first_subjects, allowed_subjects,
}

-- Every binding refers to a role that is found.
abbrev pub AllFound : SubjectAccessEvaluator → List ClusterRoleBinding → Type 0
AllFound r bindings =
    (b : ClusterRoleBinding)
    → Memᴰ b bindings
    → (role : ClusterRole) × (r.get_role b.role_ref ≡ ok role)

module _ (r : SubjectAccessEvaluator) (a : Attributes) where
  failures : List ClusterRoleBinding → List Error
  failures [] = []
  failures (b ∷ bindings) = elim (r.get_role b.role_ref) [
    | ok role ↦ failures bindings
    | err e ↦ e ∷ failures bindings
  ]

  errors-locate_from :
      (out : Located) (bindings : List ClusterRoleBinding)
      → (locate_from r a out bindings).errors ≡ out.errors ++ failures bindings
  unfolding locate_from failures locate_binding get_rules_from_role_ref
  errors-locate_from out [] = sym (append-nil out.errors)
  errors-locate_from out (b ∷ bindings) = elim (Result-cases (r.get_role b.role_ref)) [
    | inl (role, found) ↦ ground (arith, errors-locate_from (locate_binding r a out b) bindings)
    | inr (e, failed) ↦ ground (
      arith,
      errors-locate_from (locate_binding r a out b) bindings,
      append_assoc out.errors (e ∷ []) (failures bindings),
    )
  ]

  AllFound-of_failures :
      (bindings : List ClusterRoleBinding) → failures bindings ≡ [] → AllFound r bindings
  unfolding failures
  AllFound-of_failures [] h b m = elim m [ ]
  AllFound-of_failures (c ∷ bindings) h b (Memᴰ.head e) =
      elim (Result-cases (r.get_role c.role_ref)) [
        | inl (role, found) ↦ (role, rw e found)
        | inr (x, failed) ↦ absurd (ground arith)
      ]
  AllFound-of_failures (c ∷ bindings) h b (Memᴰ.tail m) =
      AllFound-of_failures bindings (ground arith) b m

  failures_of_AllFound :
      (bindings : List ClusterRoleBinding) → AllFound r bindings → failures bindings ≡ []
  unfolding failures
  failures_of_AllFound [] h = refl
  failures_of_AllFound (c ∷ bindings) h =
      let (role, found) = h c (Memᴰ.head refl) in
      ground (arith, failures_of_AllFound bindings (λ b m. h b (Memᴰ.tail m)))

  -- With the bindings listed, the answer comes without an error exactly when every binding, whether
  -- it bears on the request or not, refers to a role that is found.
  pub allowed_subjects_errors :
      (bindings : List ClusterRoleBinding)
      → r.list_bindings ≡ ok bindings
      → ((allowed_subjects r a).errors ≡ []) ↔ AllFound r bindings
  unfolding allowed_subjects
  allowed_subjects_errors bindings listed =
      let out : Located = record { subjects = first_subjects r; errors = [] } in
      let errors : (allowed_subjects r a).errors ≡ failures bindings =
        ground (arith, errors-locate_from out bindings) in
      rw errors (AllFound-of_failures bindings, failures_of_AllFound bindings)
