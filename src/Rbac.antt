-- ===== src/Rbac.antt =====
-- The RBAC objects of k8s.io/api/rbac/v1 and the request attributes of k8s.io/apiserver, with the
-- fields that the code reads.
pub mod Allow
pub mod Locator
pub mod Reviewer
use clusterset_server.Base.{String, List, Bool}

pub record PolicyRule : Type 0 where
  pub verbs : List String
  pub api_groups : List String
  pub resources : List String
  pub resource_names : List String
  pub non_resource_urls : List String

pub record Subject : Type 0 where
  pub kind : String
  pub api_group : String
  pub name : String
  pub namespace : String

pub record ClusterRole : Type 0 where
  pub uid : String
  pub resource_version : String
  pub rules : List PolicyRule

pub record ClusterRoleBinding : Type 0 where
  pub uid : String
  pub resource_version : String
  pub role_ref : String
  pub subjects : List Subject

-- `authorizer.Attributes`
pub record Attributes : Type 0 where
  pub verb : String
  pub api_group : String
  pub resource : String
  pub subresource : String
  pub name : String
  pub namespace : String
  pub path : String
  pub resource_request : Bool

-- VerbAll, APIGroupAll, ResourceAll and NonResourceAll
abbrev pub all_marker : String
all_marker = "*"
