-- ===== src/Api.antt =====
-- pkg/apis/cluster/register.go: the types that the server knows; and the resources that
-- `NewFilterServer` of pkg/cmd/server.go serves at their versions.
pub mod Scheme
pub mod V1
pub mod V1alpha1
pub mod Served
use clusterset_server.Base.{List, [], ◌∷◌, String, Result, ◌>>=◌}
use clusterset_server.Server.{CacheName, clusters, cluster_sets}
use clusterset_server.Api.Scheme.{GroupVersion, GoType, SchemeLibrary}

abbrev pub group_name : String
group_name = "view.open-cluster-management.io"

abbrev pub unversioned_version : GroupVersion
unversioned_version = record { group = ""; version = "v1" }

abbrev pub meta_type : String → GoType
meta_type name = record { path = "k8s.io/apimachinery/pkg/apis/meta/v1"; name = name }

abbrev pub unversioned_types : List GoType
unversioned_types =
    meta_type "Status"
    ∷ meta_type "WatchEvent"
    ∷ meta_type "APIVersions"
    ∷ meta_type "APIGroupList"
    ∷ meta_type "APIGroup"
    ∷ meta_type "APIResourceList"
    ∷ meta_type "Table"
    ∷ []

-- `Install`; where it answers with an error, `utilruntime.Must` panics.
unfoldable pub install : (library : SchemeLibrary) → library.Scheme → Result library.Scheme
install library scheme = do
  with_v1 ← V1.add_known_types library scheme
  with_v1alpha1 ← V1alpha1.add_known_types library with_v1
  library.set_version_priority (V1.group_version ∷ V1alpha1.group_version ∷ []) with_v1alpha1

-- `init` on the new `Scheme`
unfoldable pub init : (library : SchemeLibrary) → Result library.Scheme
init library = do
  with_options ← library.add_to_group_version unversioned_version library.new_scheme
  with_internal ← library.add_internal with_options
  with_unversioned ←
      library.add_unversioned_types unversioned_version unversioned_types with_internal
  install library with_unversioned

-- `New` and `NewList` of the storage
abbrev pub new_type : CacheName → GoType
new_type clusters = V1.api_type "ManagedCluster"
new_type cluster_sets = V1alpha1.api_type "ManagedClusterSet"

abbrev pub new_list_type : CacheName → GoType
new_list_type clusters = V1.api_type "ManagedClusterList"
new_list_type cluster_sets = V1alpha1.api_type "ManagedClusterSetList"

-- `VersionedResourcesStorageMap`; `version_of` gives the versions that the API module names.
unfoldable pub versioned_storage : (CacheName → String) → List (String × List (String × CacheName))
versioned_storage version_of =
    (version_of clusters, ("managedclusters", clusters) ∷ [])
    ∷ (version_of cluster_sets, ("managedclustersets", cluster_sets) ∷ [])
    ∷ []
