-- ===== src/ClusterSetCache/Same.antt =====
-- pkg/cache/managedclusterset.go against managedcluster.go: what their functions have in common.
use mathlib.Core.Path.{fun_ext}
use clusterset_server.Base.{
  ◌≡◌, refl, ap, ap₂, ◌∙◌, Bool, List, [], ◌∷◌, ◌++◌, String, StringMap, Result, ok, err,
  Result-cases, inl, inr, arith,
}
use clusterset_server.Platform.{Platform}
use clusterset_server.Objects.{Object, UserInfo}
use clusterset_server.Watcher.{WatchableCache}
use clusterset_server.AuthCache.Records.{ReviewRequest}
use clusterset_server.AuthCache.State.{AuthCache, Surroundings}
use clusterset_server.ClusterCache
use clusterset_server.ClusterCache.{Lister, Policies}
use clusterset_server.ClusterSetCache

requests_from_same :
    (reqs : List ReviewRequest) (objects : List Object)
    → ClusterSetCache.requests_from reqs objects ≡ ClusterCache.requests_from reqs objects
unfolding ClusterSetCache.requests_from ClusterCache.requests_from
requests_from_same reqs [] = refl
requests_from_same reqs (c ∷ objects) =
    requests_from_same (reqs ++ ClusterCache.request_of c ∷ []) objects

list_from_same :
    (lister : Lister) (selector : StringMap → Bool) (items : List Object) (names : List String)
    → ClusterSetCache.list_from lister selector items names
      ≡ ClusterCache.list_from lister selector items names
unfolding ClusterSetCache.list_from ClusterCache.list_from
list_from_same lister selector items [] = refl
list_from_same lister selector items (key ∷ names) = elim (Result-cases (lister.get key)) [
  | inl (c, found) ↦ ground (
    arith,
    list_from_same lister selector items names,
    list_from_same lister selector (items ++ c ∷ []) names,
  )
  | inr (e, missing) ↦ ground (arith, list_from_same lister selector items names)
]

list_resources_same :
    (lister : Lister) → ClusterSetCache.list_resources lister ≡ ClusterCache.list_resources lister
unfolding ClusterSetCache.list_resources ClusterCache.list_resources
list_resources_same lister = elim (Result-cases lister.list_all) [
  | inl (objects, listed) ↦ ground (arith, requests_from_same [] objects)
  | inr (e, failed) ↦ ground arith
]

converted_same :
    (name : String) (o : Result Object)
    → ClusterSetCache.converted name o ≡ ClusterCache.found_or_named name o
unfolding ClusterSetCache.converted
converted_same name (ok c) = refl
converted_same name (err e) = refl

extracted_same :
    (o : Result (List Object)) → ClusterSetCache.extracted o ≡ ClusterCache.extract_list o
unfolding ClusterSetCache.extracted
extracted_same (ok items) = refl
extracted_same (err e) = refl

module _ ⦃P : Platform⦄ where
  open P use {range}

  pub list_same :
      (lister : Lister) (ac : AuthCache) (user : UserInfo) (selector : StringMap → Bool)
      → ClusterSetCache.list lister ac user selector ≡ ClusterCache.list lister ac user selector
  unfolding ClusterSetCache.list ClusterCache.list
  list_same lister ac user selector = list_from_same lister selector [] _

  pub watchable_same :
      (lister : Lister) (ac : AuthCache)
      → ClusterSetCache.watchable lister ac ≡ ClusterCache.watchable lister ac
  unfolding ClusterSetCache.watchable ClusterCache.watchable ClusterSetCache.list_objects
      ClusterCache.list_objects
  watchable_same lister ac =
      ap₂
        (λ (listed : UserInfo → List Object) (convert : String → Object).
          let w : WatchableCache = record {
            list_objects = listed;
            get = lister.get;
            convert_resource = convert;
          } in
          w)
        (fun_ext (λ user.
          extracted_same _
          ∙ ap ClusterCache.extract_list (list_same lister ac user ClusterCache.everything)))
        (fun_ext (λ name. converted_same name (lister.get name)))

  -- The configuration of the cache of cluster sets is that of the cache of clusters for the
  -- resource "managedclustersets", and it lists what that cache lists: to every user, for every
  -- selector, errors included.
  pub cluster_set_cache_same :
      (lister : Lister) (policies : Policies) (ac : AuthCache)
      → (ClusterSetCache.surroundings lister policies ac
          ≡ ClusterCache.surroundings "managedclustersets" lister policies ac)
        × ((user : UserInfo) (selector : StringMap → Bool)
            → ClusterSetCache.list lister ac user selector
              ≡ ClusterCache.list lister ac user selector)
  unfolding ClusterSetCache.surroundings ClusterCache.surroundings
  cluster_set_cache_same lister policies ac = (
    ap₂
        (λ (requests : Result (List ReviewRequest)) (w : WatchableCache).
          let s : Surroundings = record {
            group = "cluster.open-cluster-management.io";
            resource = "managedclustersets";
            sync_requests = requests;
            reviewer = policies.reviewer;
            list_bindings = policies.list_bindings;
            get_role = policies.get_role;
            last_sync_version = policies.last_sync_version;
            role_version = policies.role_version;
            role_binding_version = policies.role_binding_version;
            watchable = w;
          } in
          s)
        (list_resources_same lister) (watchable_same lister ac),
    λ user selector. list_same lister ac user selector,
  )
