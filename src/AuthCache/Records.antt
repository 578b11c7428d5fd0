-- ===== src/AuthCache/Records.antt =====
-- The records of pkg/cache/common.go and the key functions of its stores.
use clusterset_server.Base.{String, List, StringMap}
use clusterset_server.Platform.{Platform}

module _ ⦃P : Platform⦄ where
  open P use {StringSet}

  -- the set of resources that a subject can access
  pub record SubjectRecord : Type 0 where
    pub subject : String
    pub names : StringSet

  abbrev pub subject_record_key : SubjectRecord → String
  subject_record_key r = r.subject

-- The resource to review, with the versions that were observed to make the request. An empty
-- `resource_version` stands for none.
pub record ReviewRequest : Type 0 where
  pub name : String
  pub resource_version : String
  pub role_versions : StringMap
  pub role_binding_versions : StringMap

-- The result of a resource access review. The embedded request is a field.
pub record ReviewRecord : Type 0 where
  pub request : ReviewRequest
  pub users : List String
  pub groups : List String

abbrev pub review_record_key : ReviewRecord → String
review_record_key r = r.request.name
