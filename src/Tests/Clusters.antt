-- ===== src/Tests/Clusters.antt =====
-- The theorems on what is listed, for two managed clusters and a binding.
use mathlib.Core.List.{Memᴰ}
use mathlib.Core.List.Memᴰ
use clusterset_server.Base.{
  ◌≡◌, refl, sym, ap, ◌∙◌, ◌↔◌, Bool, true, List, [], ◌∷◌, ◌==◌, ok, err, not_found, contains,
  arith, eq_iff, if◌then◌else◌, StringMap, Bool-cases, inl, inr,
}
use clusterset_server.Objects.{Object, UserInfo}
use clusterset_server.Rbac.{Subject}
use clusterset_server.Rbac.Reviewer.{get_action, review, MayGet}
use clusterset_server.AuthCache.Sync.{synchronize}
use clusterset_server.AuthCache.State.{AuthCache, done, new_auth_cache}
use clusterset_server.AuthCache.Names.{list_names}
use clusterset_server.ClusterCache.{Lister, Policies, everything, list, surroundings}
use clusterset_server.ClusterCache.Listing.{IsLister, list_exact}
use clusterset_server.ClusterCache.Access.{names, cluster_group, bound_list_exact}
use clusterset_server.Tests.Lists.{list_platform}
use clusterset_server.Tests.Cluster.{cluster, reviews, ann, role, binding}
use clusterset_server.Tests.Access.{split, account, split-SplitsSubjects, text, evaluator}

abbrev pub clusters : List Object
clusters = cluster "c1" ∷ cluster "c2" ∷ []

abbrev pub lister : Lister
lister = record {
  list_all = ok clusters;
  get = λ n.
      if n == "c1"
      then ok (cluster "c1")
      else if n == "c2"
      then ok (cluster "c2")
      else err (not_found n);
}

gets_of_mem : (c : Object) → Memᴰ c clusters → lister.get c.name ≡ ok c
gets_of_mem c m = elim (Memᴰ.cases_cons m) [
  | inl e ↦ ap (λ d. lister.get d.name) e ∙ ap ok (sym e)
  | inr later ↦ let e = Memᴰ.eq_of_singleton later in ap (λ d. lister.get d.name) e ∙ ap ok (sym e)
]

pub lister-IsLister : IsLister lister clusters
lister-IsLister = record {
  listed_all = refl;
  gets = λ n c. (
    λ h. elim (Bool-cases (n == "c1")) [
      | inl first ↦
          let e : c ≡ cluster "c1" = ground arith in
          (Memᴰ.head e, ap (λ d. d.name) e ∙ sym ((eq_iff n "c1").0 first))
      | inr other ↦ elim (Bool-cases (n == "c2")) [
        | inl second ↦
            let e : c ≡ cluster "c2" = ground arith in
            (Memᴰ.tail (Memᴰ.head e), ap (λ d. d.name) e ∙ sym ((eq_iff n "c2").0 second))
        | inr neither ↦ absurd (ground arith)
      ]
    ],
    λ (m, same). ap lister.get (sym same) ∙ gets_of_mem c m,
  );
  misses = λ n e h. ground arith;
}

abbrev pub policies : Policies
policies = record {
  reviewer = λ group resource name. ok (reviews name);
  list_bindings = ok (binding ∷ []);
  get_role = λ ref. ok role;
  last_sync_version = "1";
  role_version = "1";
  role_binding_version = "1";
}

list_exact_example :
    (items : List Object) × (list lister new_auth_cache ann everything ≡ ok items)
    × ((c : Object)
        → Memᴰ c items ↔ (
            Memᴰ c clusters
            × (contains (list_names new_auth_cache ann) c.name ≡ true)
            × (everything c.labels ≡ true)))
list_exact_example = list_exact lister clusters new_auth_cache ann everything lister-IsLister

abbrev rbac_policies : Policies
rbac_policies = record policies { reviewer = review split text evaluator }

bound_list_exact_example :
    (ac : AuthCache) × (synchronize
        (surroundings "managedclusters" lister rbac_policies new_auth_cache)
        new_auth_cache
      ≡ done tt ac)
    × ((user : UserInfo) (selector : StringMap → Bool)
        → (items : List Object) × (list lister ac user selector ≡ ok items)
          × ((c : Object)
              → Memᴰ c items ↔ (
                  Memᴰ c clusters
                  × ((s : Subject) × MayGet evaluator
                        (binding ∷ [])
                        (get_action cluster_group "managedclusters" c.name)
                        s
                      × (names account s user ≡ true))
                  × (selector c.labels ≡ true))))
bound_list_exact_example =
    bound_list_exact split text account split-SplitsSubjects evaluator (binding ∷ []) refl
      "managedclusters" lister clusters rbac_policies lister-IsLister refl
