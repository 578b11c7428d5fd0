-- ===== src/Rbac/Reviewer.antt =====
-- pkg/cache/rbac/reviewer.go: who can get a resource.
use mathlib.Core.List.{Memᴰ}
use clusterset_server.Base.{
  ◌≡◌, ◌↔◌, ◌⊎◌, refl, Bool, true, ◌&&◌, ◌||◌, List, [], String, ◌==◌, any, any_of_mem, mem_of_any,
  contains, Error, Result, ok,
}
use clusterset_server.Rbac.{Subject, ClusterRoleBinding, Attributes}
use clusterset_server.Rbac.Locator.{SubjectAccessEvaluator, Located, allowed_subjects}
use clusterset_server.Rbac.Locator.Spec.{IsBuiltin, Binds, allowed_subjects_iff}

-- `defaultReview`
pub record Review : Type 0 where
  pub users : List String
  pub groups : List String
  pub evaluation_error : String

-- the `action` of a review
abbrev pub get_action : String → String → String → Attributes
get_action group resource name = record {
  verb = "get";
  api_group = group;
  resource = resource;
  subresource = "";
  name = name;
  namespace = "";
  path = "";
  resource_request = true;
}

-- Is the subject the RBAC user, or the RBAC group, of this name?
abbrev pub names_user : Subject → String → Bool
names_user s u = s.api_group == "rbac.authorization.k8s.io" && s.kind == "User" && s.name == u

abbrev pub names_group : Subject → String → Bool
names_group s g = s.api_group == "rbac.authorization.k8s.io" && s.kind == "Group" && s.name == g

-- `split` is `authorizationutil.RBACSubjectsToUsersAndGroups`; `text` is the text of the aggregate
-- of some errors.
module _ (split : List Subject → String → List String × List String) (text : List Error → String)
    (evaluator : SubjectAccessEvaluator) where
  abbrev evaluation_error : List Error → String
  evaluation_error [] = ""
  evaluation_error errors = text errors

  unfoldable pub review : String → String → String → Result Review
  review group resource name =
      let action : Attributes = get_action group resource name in
      let located : Located = allowed_subjects evaluator action in
      let (users, groups) = split located.subjects action.namespace in
      ok (record {
        users = users;
        groups = groups;
        evaluation_error = evaluation_error located.errors;
      })

-- The documented behaviour of `RBACSubjectsToUsersAndGroups`: the names of the RBAC users are
-- users, and those of the RBAC groups are groups; `account` says which user a service account is.
pub record SplitsSubjects (split : List Subject → String → List String × List String)
    (account : String → Subject → String → Bool) : Type 0 where
  pub users-split :
      (subjects : List Subject) (namespace u : String)
      → contains (split subjects namespace).0 u
        ≡ any (λ s. names_user s u || account namespace s u) subjects
  pub groups-split :
      (subjects : List Subject) (namespace g : String)
      → contains (split subjects namespace).1 g ≡ any (λ s. names_group s g) subjects

-- A subject that a review of the named resource is about.
abbrev pub MayGet : SubjectAccessEvaluator → List ClusterRoleBinding → Attributes → Subject → Type 0
MayGet evaluator bindings action s =
    IsBuiltin evaluator s
    ⊎ ((b : ClusterRoleBinding) × Memᴰ b bindings × Binds evaluator action s b)

module _ (split : List Subject → String → List String × List String) (text : List Error → String)
    (account : String → Subject → String → Bool) (splits : SplitsSubjects split account)
    (evaluator : SubjectAccessEvaluator) where
  -- A search through the located subjects finds one that may get the resource, and finds any.
  any-allowed_subjects :
      (bindings : List ClusterRoleBinding) (action : Attributes) (test : Subject → Bool)
      → evaluator.list_bindings ≡ ok bindings
      → (any test (allowed_subjects evaluator action).subjects ≡ true)
        ↔ ((s : Subject) × MayGet evaluator bindings action s × (test s ≡ true))
  any-allowed_subjects bindings action test listed = (
    λ h.
        let (s, m, e) = mem_of_any test (allowed_subjects evaluator action).subjects h in
        (s, (allowed_subjects_iff evaluator action s bindings listed).0 m, e),
    λ (s, may, e).
        any_of_mem test (allowed_subjects evaluator action).subjects
          ((allowed_subjects_iff evaluator action s bindings listed).1 may) e,
  )

  -- With the bindings listed a review succeeds. Its users are those that a subject names which may
  -- get the resource: a built-in subject, or one bound to a role that allows "get"; its groups
  -- likewise.
  pub review_exact :
      (bindings : List ClusterRoleBinding) (group resource name : String)
      → evaluator.list_bindings ≡ ok bindings
      → let action = get_action group resource name in
        (v : Review) × (review split text evaluator group resource name ≡ ok v)
        × ((u : String)
            → (contains v.users u ≡ true) ↔ (
                (s : Subject) × MayGet evaluator bindings action s
                × ((names_user s u || account "" s u) ≡ true)))
        × ((g : String)
            → (contains v.groups g ≡ true)
              ↔ ((s : Subject) × MayGet evaluator bindings action s × (names_group s g ≡ true)))
  unfolding review
  review_exact bindings group resource name listed =
      let action : Attributes = get_action group resource name in
      let found : List Subject = (allowed_subjects evaluator action).subjects in
      (
        _,
        refl,
        λ u.
            rw (splits.users-split found "" u)
              (any-allowed_subjects bindings action (λ s. names_user s u || account "" s u) listed),
        λ g.
            rw (splits.groups-split found "" g)
              (any-allowed_subjects bindings action (λ s. names_group s g) listed),
      )
