-- ===== src/ClusterCache/Access.antt =====
-- From the bindings of RBAC to what is listed: the first run of a cache, and then `List`.
use mathlib.Core.List.{Memᴰ}
use clusterset_server.Base.{
  ◌≡◌, ◌∙◌, ◌↔◌, Bool, true, ◌&&◌, ◌||◌, List, [], String, ◌==◌, StringMap, arith, eq_self, Error,
  ok, Bool-cases, inl, inr, any, contains, ap, any_of_mem, mem_of_any,
}
use clusterset_server.Platform.{Platform}
use clusterset_server.Objects.{Object, UserInfo}
use clusterset_server.Rbac.{Subject, ClusterRoleBinding}
use clusterset_server.Rbac.Locator.{SubjectAccessEvaluator}
use clusterset_server.Rbac.Reviewer.{
  Review, get_action, review, SplitsSubjects, MayGet, names_user, names_group, review_exact,
}
use clusterset_server.AuthCache.Sync.{synchronize}
use clusterset_server.AuthCache.State.{AuthCache, done, new_auth_cache}
use clusterset_server.AuthCache.Coverage.{listed}
use clusterset_server.AuthCache.Names.{list_names}
use clusterset_server.AuthCache.Exactness.{grants}
use clusterset_server.AuthCache.Returns.{first_synchronize_exact}
use clusterset_server.ClusterCache.{
  Lister, Policies, requests_from, list_resources, list, surroundings,
}
use clusterset_server.ClusterCache.Listing.{IsLister, listed-requests_from, list_exact}

abbrev pub cluster_group : String
cluster_group = "cluster.open-cluster-management.io"

module _ ⦃P : Platform⦄ where
  open P use {has}

  -- Where a user may see the names of the objects that are granted, the objects are listed.
  pub list_of_granted :
      (lister : Lister) (objects : List Object) (reviews : String → Review) (ac : AuthCache)
      (user : UserInfo) (selector : StringMap → Bool)
      → IsLister lister objects
      → ((n : String)
          → has (list_names ac user) n
            ≡ (listed (requests_from [] objects) n && grants (reviews n) user))
      → (items : List Object) × (list lister ac user selector ≡ ok items)
        × ((c : Object)
            → Memᴰ c items ↔ (
                Memᴰ c objects
                × (grants (reviews c.name) user ≡ true)
                × (selector c.labels ≡ true)))
  list_of_granted lister objects reviews ac user selector h exact =
      let (items, found, inside) = list_exact lister objects ac user selector h in
      (
        items,
        found,
        λ c. (
          λ m.
              let (there, visible, selected) = (inside c).0 m in
              (there, ground (arith, exact c.name), selected),
          λ (there, granted, selected). (inside c).1 (
            there,
            ground (
              arith,
              exact c.name,
              listed-requests_from objects c.name,
              any_of_mem (λ d. d.name == c.name) objects there (eq_self c.name),
            ),
            selected,
          ),
        ),
      )

  -- The first run of a new cache returns, and then a user is listed exactly the objects whose
  -- review names the user or one of the user's groups, of those that the selector matches.
  pub granted_list_exact :
      (resource : String) (lister : Lister) (objects : List Object) (policies : Policies)
      (reviews : String → Review)
      → IsLister lister objects
      → ((n : String) → policies.reviewer cluster_group resource n ≡ ok (reviews n))
      → (ac : AuthCache) × (synchronize
            (surroundings resource lister policies new_auth_cache)
            new_auth_cache
          ≡ done tt ac)
        × ((user : UserInfo) (selector : StringMap → Bool)
            → (items : List Object) × (list lister ac user selector ≡ ok items)
              × ((c : Object)
                  → Memᴰ c items ↔ (
                      Memᴰ c objects
                      × (grants (reviews c.name) user ≡ true)
                      × (selector c.labels ≡ true))))
  unfolding surroundings list_resources
  granted_list_exact resource lister objects policies reviews h total =
      let s = surroundings resource lister policies new_auth_cache in
      let requests = requests_from [] objects in
      let listing : s.sync_requests ≡ ok requests = rw (h.listed_all, list_resources) in
      let (ac, returned, exact) = first_synchronize_exact s requests reviews listing total in
      (
        ac,
        returned,
        λ user selector. list_of_granted lister objects reviews ac user selector h (exact user),
      )

-- Does the subject name the user, the user's account or one of the user's groups?
abbrev pub names : (String → Subject → String → Bool) → Subject → UserInfo → Bool
names account s user =
    names_user s user.name || account "" s user.name || any (names_group s) user.groups

module _ (split : List Subject → String → List String × List String) (text : List Error → String)
    (account : String → Subject → String → Bool) (splits : SplitsSubjects split account)
    (evaluator : SubjectAccessEvaluator) (bindings : List ClusterRoleBinding)
    (listed_all : evaluator.list_bindings ≡ ok bindings) where
  -- The review of a name, which does not fail.
  pub reviewed : String → String → Review
  reviewed resource name =
      (review_exact split text account splits evaluator bindings cluster_group resource name
        listed_all).0

  pub review-reviewed :
      (resource name : String)
      → review split text evaluator cluster_group resource name ≡ ok (reviewed resource name)
  unfolding reviewed
  review-reviewed resource name =
      (review_exact split text account splits evaluator bindings cluster_group resource name
        listed_all).1

  pub reviewed_exact :
      (resource name : String) (user : UserInfo)
      → (grants (reviewed resource name) user ≡ true) ↔ (
          (s : Subject) × MayGet evaluator bindings (get_action cluster_group resource name) s
          × (names account s user ≡ true))
  unfolding reviewed
  reviewed_exact resource name user =
      let (v, same, users, groups) =
        review_exact split text account splits evaluator bindings cluster_group resource name
          listed_all in
      (
        λ h. elim (Bool-cases (contains v.users user.name)) [
          | inl there ↦ let (s, may, e) = (users user.name).0 there in (s, may, ground arith)
          | inr missing ↦
              let (g, m, there) = mem_of_any (contains v.groups) user.groups (ground arith) in
              let (s, may, e) = (groups g).0 there in
              (s, may, ground (arith, any_of_mem (names_group s) user.groups m e))
        ],
        λ (s, may, e). elim (Bool-cases (names_user s user.name || account "" s user.name)) [
          | inl there ↦ ground (arith, (users user.name).1 (s, may, there))
          | inr missing ↦
              let (g, m, there) = mem_of_any (names_group s) user.groups (ground arith) in
              ground
                (arith, any_of_mem (contains v.groups) user.groups m ((groups g).1 (s, may, there)))
        ],
      )

  module _ ⦃P : Platform⦄ where
    -- With the reviewer of RBAC, the first run of a new cache returns, and then a user is listed
    -- exactly the objects that a subject may get which names the user, the user's account or one of
    -- the user's groups, of those that the selector matches.
    pub bound_list_exact :
        (resource : String) (lister : Lister) (objects : List Object) (policies : Policies)
        → IsLister lister objects
        → policies.reviewer ≡ review split text evaluator
        → (ac : AuthCache) × (synchronize
              (surroundings resource lister policies new_auth_cache)
              new_auth_cache
            ≡ done tt ac)
          × ((user : UserInfo) (selector : StringMap → Bool)
              → (items : List Object) × (list lister ac user selector ≡ ok items)
                × ((c : Object)
                    → Memᴰ c items ↔ (
                        Memᴰ c objects
                        × ((s : Subject) × MayGet evaluator bindings
                              (get_action cluster_group resource c.name)
                              s
                            × (names account s user ≡ true))
                        × (selector c.labels ≡ true))))
    unfolding reviewed
    bound_list_exact resource lister objects policies h same =
        let (ac, returned, lists) =
          granted_list_exact resource lister objects policies (reviewed resource) h
            (λ n. ap (λ r. r cluster_group resource n) same ∙ review-reviewed resource n) in
        (
          ac,
          returned,
          λ user selector.
              let (items, found, inside) = lists user selector in
              (
                items,
                found,
                λ c. (
                  λ m.
                      let (there, granted, selected) = (inside c).0 m in
                      (there, (reviewed_exact resource c.name user).0 granted, selected),
                  λ (there, may, selected).
                      (inside c).1 (there, (reviewed_exact resource c.name user).1 may, selected),
                ),
              ),
        )
