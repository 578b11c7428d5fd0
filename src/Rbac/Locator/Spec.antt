-- ===== src/Rbac/Locator/Spec.antt =====
-- pkg/cache/rbac/subject_locator.go, `AllowedSubjects`: who is located.
use mathlib.Core.List.Memᴰ
use mathlib.Core.List.{Memᴰ}
use mathlib.Core.List.{append-nil, append_assoc}
use mathlib.Core.Path.{subst}
use clusterset_server.Base.{
  ◌≡◌, refl, sym, ◌≢◌, ◌↔◌, ◌⊎◌, inl, inr, Bool, true, false, List, [], ◌∷◌, ◌++◌, ◌==◌, eq_iff,
  Error, Result, ok, err, arith, Bool-cases, Result-cases, if◌then◌else◌,
}
use clusterset_server.Rbac.{Subject, ClusterRole, ClusterRoleBinding, Attributes}
use clusterset_server.Rbac.Allow.{rules_allow}
use clusterset_server.Rbac.Locator.{
  SubjectAccessEvaluator, privileged_group, super_user_subject, get_rules_from_role_ref, Located,
  locate_binding, locate_from, first_subjects, allowed_subjects,
}

-- The binding has the subject, and refers to a role whose rules allow the request.
pub record Binds (r : SubjectAccessEvaluator) (a : Attributes) (s : Subject)
    (b : ClusterRoleBinding) : Type 0 where
  pub role : ClusterRole
  pub found : r.get_role b.role_ref ≡ ok role
  pub allowed : rules_allow a role.rules ≡ true
  pub bound : Memᴰ s b.subjects

module _ (r : SubjectAccessEvaluator) (a : Attributes) where
  -- Does the role that the binding refers to allow the request?
  role_allows : Result ClusterRole → Bool
  role_allows (err e) = false
  role_allows (ok role) = rules_allow a role.rules

  gathered : List ClusterRoleBinding → List Subject
  gathered [] = []
  gathered (b ∷ bindings) =
      if role_allows (r.get_role b.role_ref)
      then b.subjects ++ gathered bindings
      else gathered bindings

  subjects-locate_binding :
      (out : Located) (b : ClusterRoleBinding)
      → (locate_binding r a out b).subjects
        ≡ (if role_allows (r.get_role b.role_ref) then out.subjects ++ b.subjects else out.subjects)
  unfolding locate_binding get_rules_from_role_ref role_allows
  subjects-locate_binding out b = ground arith

  subjects-locate_from :
      (out : Located) (bindings : List ClusterRoleBinding)
      → (locate_from r a out bindings).subjects ≡ out.subjects ++ gathered bindings
  unfolding locate_from gathered
  subjects-locate_from out [] = sym (append-nil out.subjects)
  subjects-locate_from out (b ∷ bindings) = ground (
    arith,
    subjects-locate_binding out b,
    subjects-locate_from (locate_binding r a out b) bindings,
    append_assoc out.subjects b.subjects (gathered bindings),
  )

  Bound : Subject → ClusterRoleBinding → Type 0
  Bound s b = (role_allows (r.get_role b.role_ref) ≡ true) × Memᴰ s b.subjects

  Binds-of_Bound : (s : Subject) (b : ClusterRoleBinding) → Bound s b → Binds r a s b
  unfolding Bound role_allows
  Binds-of_Bound s b (allows, m) = elim (Result-cases (r.get_role b.role_ref)) [
    | inl (role, found) ↦ record { role = role; found = found; allowed = ground arith; bound = m }
    | inr (e, failed) ↦ absurd (ground arith)
  ]

  Bound-of_Binds : (s : Subject) (b : ClusterRoleBinding) → Binds r a s b → Bound s b
  unfolding Bound role_allows
  Bound-of_Binds s b h = (ground (arith, h.found, h.allowed), h.bound)

  mem_of_gathered :
      (s : Subject) (bindings : List ClusterRoleBinding)
      → Memᴰ s (gathered bindings)
      → (b : ClusterRoleBinding) × Memᴰ b bindings × Bound s b
  unfolding gathered Bound
  mem_of_gathered s [] m = elim m [ ]
  mem_of_gathered s (b ∷ bindings) m = elim (Bool-cases (role_allows (r.get_role b.role_ref))) [
    | inl allows ↦ elim (Memᴰ.append_cases b.subjects (rw allows at m)) [
      | inl here ↦ (b, Memᴰ.head refl, (allows, here))
      | inr later ↦ let (c, n, h) = mem_of_gathered s bindings later in (c, Memᴰ.tail n, h)
    ]
    | inr denied ↦
        let (c, n, h) = mem_of_gathered s bindings (rw denied at m) in (c, Memᴰ.tail n, h)
  ]

  gathered_of_mem :
      (s : Subject) (b : ClusterRoleBinding) (bindings : List ClusterRoleBinding)
      → Memᴰ b bindings
      → Bound s b
      → Memᴰ s (gathered bindings)
  unfolding gathered Bound
  gathered_of_mem s b [] m h = elim m [ ]
  gathered_of_mem s b (c ∷ bindings) (Memᴰ.head e) h =
      let h' : Bound s c = subst (Bound s) e h in
      rw h'.0 (Memᴰ.append_left (gathered bindings) h'.1)
  gathered_of_mem s b (c ∷ bindings) (Memᴰ.tail m) h =
      elim (Bool-cases (role_allows (r.get_role c.role_ref))) [
        | inl allows ↦ rw allows (Memᴰ.append_right c.subjects (gathered_of_mem s b bindings m h))
        | inr denied ↦ rw denied (gathered_of_mem s b bindings m h)
      ]

-- The subjects that hold whatever the bindings say.
abbrev pub IsBuiltin : SubjectAccessEvaluator → Subject → Type 0
IsBuiltin r s = (s ≡ privileged_group) ⊎ (r.super_user ≢ "") × (s ≡ super_user_subject r.super_user)

first_subjects_iff :
    (r : SubjectAccessEvaluator) (s : Subject) → Memᴰ s (first_subjects r) ↔ IsBuiltin r s
unfolding first_subjects
first_subjects_iff r s = elim (Bool-cases (r.super_user == "")) [
  | inl empty ↦
      rw (empty, first_subjects)
        (
          λ m. inl (Memᴰ.eq_of_singleton m),
          λ h. elim h [
            | inl e ↦ Memᴰ.head e
            | inr (filled, e) ↦ absurd (filled ((eq_iff r.super_user "").0 empty))
          ],
        )
  | inr filled ↦
      let filled' : r.super_user ≢ "" = λ e. ground (arith, (eq_iff r.super_user "").1 e) in
      rw (filled, first_subjects)
        (
          λ m. elim (Memᴰ.cases_cons m) [
            | inl e ↦ inl e
            | inr later ↦ inr (filled', Memᴰ.eq_of_singleton later)
          ],
          λ h. elim h [ inl e ↦ Memᴰ.head e | inr (_, e) ↦ Memᴰ.tail (Memᴰ.head e) ],
        )
]

subjects-allowed_subjects :
    (r : SubjectAccessEvaluator) (a : Attributes) (bindings : List ClusterRoleBinding)
    → r.list_bindings ≡ ok bindings
    → (allowed_subjects r a).subjects ≡ first_subjects r ++ gathered r a bindings
unfolding allowed_subjects
subjects-allowed_subjects r a bindings listed =
    ground (
      arith,
      subjects-locate_from r a (record { subjects = first_subjects r; errors = [] }) bindings,
    )

-- With the bindings listed, the located subjects are the system:masters group, the super user if
-- there is one, and the subjects of the bindings whose role is found and allows the request.
pub allowed_subjects_iff :
    (r : SubjectAccessEvaluator) (a : Attributes) (s : Subject) (bindings : List ClusterRoleBinding)
    → r.list_bindings ≡ ok bindings
    → Memᴰ s (allowed_subjects r a).subjects
      ↔ (IsBuiltin r s ⊎ ((b : ClusterRoleBinding) × Memᴰ b bindings × Binds r a s b))
allowed_subjects_iff r a s bindings listed = rw (subjects-allowed_subjects r a bindings listed) (
  λ m. elim (Memᴰ.append_cases (first_subjects r) m) [
    | inl builtin ↦ inl ((first_subjects_iff r s).0 builtin)
    | inr found ↦
        let (b, n, h) = mem_of_gathered r a s bindings found in inr (b, n, Binds-of_Bound r a s b h)
  ],
  λ h. elim h [
    | inl builtin ↦ Memᴰ.append_left (gathered r a bindings) ((first_subjects_iff r s).1 builtin)
    | inr (b, n, binds) ↦
        Memᴰ.append_right (first_subjects r)
          (gathered_of_mem r a s b bindings n (Bound-of_Binds r a s b binds))
  ],
)

-- Without the list of the bindings only the built-in subjects are located, and the error is kept.
pub allowed_subjects_unlisted :
    (r : SubjectAccessEvaluator) (a : Attributes) (e : Error)
    → r.list_bindings ≡ err e
    → ((s : Subject) → Memᴰ s (allowed_subjects r a).subjects ↔ IsBuiltin r s)
      × ((allowed_subjects r a).errors ≡ e ∷ [])
unfolding allowed_subjects
allowed_subjects_unlisted r a e failed =
    let subjects : (allowed_subjects r a).subjects ≡ first_subjects r = ground arith in
    (λ s. rw subjects (first_subjects_iff r s), ground arith)
