-- ===== src/Objects.antt =====
-- The values that pass between the parts: API objects, users and watch events. Of a managed
-- cluster or cluster set the code reads the name, the resource version and the labels.
use clusterset_server.Base.{String, List, StringMap}

pub record Object : Type 0 where
  pub name : String
  pub resource_version : String
  pub labels : StringMap

-- `user.Info`; `scopes` is the value of `GetExtra()` at "scopes.authorization.openshift.io"
pub record UserInfo : Type 0 where
  pub name : String
  pub groups : List String
  pub scopes : List String

-- `watch.Event` with its types
pub data Event : Type 0 where
  added modified deleted : Object → Event
  error : String → Event
