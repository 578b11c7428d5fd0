-- ===== src/AuthCache/Review/Skip.antt =====
-- pkg/cache/common.go, `skipReview`: which requests need a review.
use mathlib.Core.Option.{some-injective}
use mathlib.Core.Path.{subst}
use clusterset_server.Base.{
  ◌≡◌, refl, sym, ◌↔◌, ◌⊎◌, true, Option, none, some, [], ◌∷◌, String, StringMap, arith, eq_iff,
  eq_self, lookup, lookup-copy_into, IsMap,
}
use clusterset_server.Rbac.Reviewer.{Review}
use clusterset_server.AuthCache.Records.{ReviewRequest, ReviewRecord}
use clusterset_server.AuthCache.Review.{
  is_value, versions_known, skip_review, merged_record, last_roles, last_role_bindings,
}

-- Every version that the request observed is the version that was known.
abbrev pub SameVersions : StringMap → StringMap → Type 0
SameVersions wanted known = (k v : String) → lookup k wanted ≡ some v → lookup k known ≡ some v

is_value_iff : (o : Option String) (v : String) → (is_value o v ≡ true) ↔ (o ≡ some v)
is_value_iff none v = (λ h. ground arith, λ h. ground arith)
is_value_iff (some old) v = (λ h. ground (arith, eq_iff v old), λ h. ground (arith, eq_iff v old))

SameVersions-of_known :
    (wanted known : StringMap) → versions_known wanted known ≡ true → SameVersions wanted known
unfolding versions_known lookup
SameVersions-of_known [] known h k v e = ground arith
SameVersions-of_known ((j, w) ∷ wanted) known h k v e = ground (
  arith,
  eq_iff j k,
  is_value_iff (lookup j known) w,
  SameVersions-of_known wanted known (ground arith) k v,
)

known_of_SameVersions :
    (wanted known : StringMap)
    → IsMap wanted
    → SameVersions wanted known
    → versions_known wanted known ≡ true
unfolding versions_known lookup
known_of_SameVersions [] known m h = refl
known_of_SameVersions ((j, w) ∷ wanted) known (fresh, m) h = ground (
  arith,
  eq_self j,
  h j w,
  is_value_iff (lookup j known) w,
  known_of_SameVersions wanted known m (λ k v e. ground (arith, eq_iff j k, h k v)),
)

-- What the last review has to know of a request for it to be satisfied.
pub record Satisfies (request : ReviewRequest) (last : ReviewRecord) : Type 0 where
  pub same_name : request.name ≡ last.request.name
  pub same_version :
      (request.resource_version ≡ "") ⊎ (request.resource_version ≡ last.request.resource_version)
  pub same_bindings : SameVersions request.role_binding_versions last.request.role_binding_versions
  pub same_roles : SameVersions request.role_versions last.request.role_versions

-- The observed versions come from Go maps.
pub record HasMaps (request : ReviewRequest) : Type 0 where
  pub roles : IsMap request.role_versions
  pub role_bindings : IsMap request.role_binding_versions

Satisfies-of_skip_review :
    (request : ReviewRequest) (last : ReviewRecord)
    → skip_review (some request) (some last) ≡ true
    → Satisfies request last
unfolding skip_review
Satisfies-of_skip_review request last h = record {
  same_name = ground (arith, eq_iff request.name last.request.name);
  same_version = ground (
    arith,
    eq_iff request.resource_version "",
    eq_iff request.resource_version last.request.resource_version,
  );
  same_bindings = SameVersions-of_known _ _ (ground arith);
  same_roles = SameVersions-of_known _ _ (ground arith);
}

skip_review_of_Satisfies :
    (request : ReviewRequest) (last : ReviewRecord)
    → HasMaps request
    → Satisfies request last
    → skip_review (some request) (some last) ≡ true
unfolding skip_review
skip_review_of_Satisfies request last m h = ground (
  arith,
  eq_iff request.name last.request.name,
  eq_iff request.resource_version "",
  eq_iff request.resource_version last.request.resource_version,
  known_of_SameVersions _ _ m.role_bindings h.same_bindings,
  known_of_SameVersions _ _ m.roles h.same_roles,
)

-- A request is skipped exactly when a record is known, of the name asked for, that has the wanted
-- resource version (if one is wanted) and the version of every role and role binding observed.
pub skip_review_iff :
    (request : ReviewRequest) (last : Option ReviewRecord)
    → HasMaps request
    → (skip_review (some request) last ≡ true)
      ↔ ((r : ReviewRecord) × (last ≡ some r) × Satisfies request r)
skip_review_iff request none m =
    (λ h. absurd (unfold skip_review in ground arith), λ (r, e, _). ground arith)
skip_review_iff request (some last) m = (
  λ h. (last, refl, Satisfies-of_skip_review request last h),
  λ (r, e, h).
      skip_review_of_Satisfies request last m
        (subst (Satisfies request) (sym (some-injective _ _ e)) h),
)

-- A record that was kept for a request satisfies that request: the same request is not
-- reviewed twice.
pub skip_review-merged_record :
    (request : ReviewRequest) (last : Option ReviewRecord) (review : Review)
    → HasMaps request
    → skip_review (some request) (some (merged_record request last review)) ≡ true
skip_review-merged_record request last review m =
    skip_review_of_Satisfies request (merged_record request last review) m (record {
      same_name = unfold merged_record in refl;
      same_version = unfold merged_record in ground (arith, eq_iff request.resource_version "");
      same_bindings =
          unfold merged_record in
          λ k v e. ground (
            arith,
            lookup-copy_into request.role_binding_versions (last_role_bindings last) k
                m.role_bindings,
          );
      same_roles =
          unfold merged_record in
          λ k v e.
            ground (arith, lookup-copy_into request.role_versions (last_roles last) k m.roles);
    })
