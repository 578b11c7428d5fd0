-- ===== src/Api/V1.antt =====
-- pkg/apis/cluster/v1/register.go
use clusterset_server.Base.{List, [], ◌∷◌, String, Result, ◌>>=◌}
use clusterset_server.Api.Scheme.{GroupVersion, GoType, SchemeLibrary}

abbrev pub group_version : GroupVersion
group_version = record { group = "view.open-cluster-management.io"; version = "v1" }

-- The types that `addKnownTypes` adds are those of the API module.
abbrev pub api_type : String → GoType
api_type name = record { path = "github.com/open-cluster-management/api/cluster/v1"; name = name }

abbrev pub known_types : List GoType
known_types = api_type "ManagedCluster" ∷ api_type "ManagedClusterList" ∷ []

-- `addKnownTypes`; its error is always nil
unfoldable pub add_known_types : (library : SchemeLibrary) → library.Scheme → Result library.Scheme
add_known_types library scheme = do
  known ← library.add_known_types group_version known_types scheme
  library.add_to_group_version group_version known
