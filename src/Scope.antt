-- ===== src/Scope.antt =====
-- pkg/apis/helpers/scope.go: what the scopes of a token let its user see.
pub mod Narrow
pub mod Escalation
pub mod Visibility
use clusterset_server.Base.{
  Bool, true, false, not, ◌&&◌, ◌||◌, List, [], ◌∷◌, ◌++◌, String, ◌==◌, Error, failure, Result, ok,
  err, ◌>>=◌, is_not_found, if◌then◌else◌, contains, keep,
}
use clusterset_server.Platform.{Platform}
use clusterset_server.Rbac.{PolicyRule, ClusterRole, Attributes, all_marker}
use clusterset_server.Rbac.Allow.{rules_allow}

-- What the code takes from scopemetadata of openshift/library-go: which scopes its evaluators
-- handle, and the role name, the namespace and the escalation of a role scope; and
-- `fmt.Errorf("no scope evaluator found for %q", scope)`.
pub record ScopeMetadata : Type 0 where
  pub user_handles : String → Bool
  pub cluster_role_handles : String → Bool
  pub parse_scope : String → Result (String × String × Bool)
  pub no_evaluator : String → Error

pub record GroupResource : Type 0 where
  pub group : String
  pub resource : String

abbrev group_resource : String → String → GroupResource
group_resource group resource = record { group = group; resource = resource }

unfoldable pub escalating_scope_resources : List GroupResource
escalating_scope_resources =
    group_resource "" "secrets"
    ∷ group_resource "image.openshift.io" "imagestreams/secrets"
    ∷ group_resource "oauth.openshift.io" "oauthauthorizetokens"
    ∷ group_resource "oauth.openshift.io" "oauthaccesstokens"
    ∷ group_resource "authorization.openshift.io" "roles"
    ∷ group_resource "authorization.openshift.io" "rolebindings"
    ∷ group_resource "authorization.openshift.io" "clusterroles"
    ∷ group_resource "authorization.openshift.io" "clusterrolebindings"
    ∷ group_resource "network.openshift.io" "service/externalips"
    ∷ group_resource "" "imagestreams/secrets"
    ∷ group_resource "" "oauthauthorizetokens"
    ∷ group_resource "" "oauthaccesstokens"
    ∷ group_resource "" "roles"
    ∷ group_resource "" "rolebindings"
    ∷ group_resource "" "clusterroles"
    ∷ group_resource "" "clusterrolebindings"
    ∷ []

-- `remove`
unfoldable pub remove : List String → String → List String
remove array item = keep (λ element. not (element == item)) array

-- one round of the loop of `removeEscalatingResources`; no copy yet is the rule itself
unfoldable pub remove_resource : PolicyRule → PolicyRule → GroupResource → PolicyRule
remove_resource rule copy g =
    if not (contains rule.api_groups g.group && contains rule.resources g.resource)
    then copy
    else record copy { resources = remove copy.resources g.resource }

unfoldable pub remove_resources : PolicyRule → PolicyRule → List GroupResource → PolicyRule
remove_resources rule copy [] = copy
remove_resources rule copy (g ∷ resources) =
    remove_resources rule (remove_resource rule copy g) resources

unfoldable pub remove_escalating_resources : PolicyRule → PolicyRule
remove_escalating_resources rule = remove_resources rule rule escalating_scope_resources

-- has(rule.Verbs, VerbAll) || has(rule.Resources, ResourceAll) || has(rule.APIGroups, APIGroupAll)
unfoldable pub is_unbounded : PolicyRule → Bool
is_unbounded rule =
    contains rule.verbs all_marker
    || contains rule.resources all_marker
    || contains rule.api_groups all_marker

-- the loop of `resolveRules`
unfoldable pub rules_from : Bool → List PolicyRule → List PolicyRule → List PolicyRule
rules_from escalating rules [] = rules
rules_from escalating rules (rule ∷ role_rules) =
    rules_from escalating
      (if escalating
        then rules ++ rule ∷ []
        else if is_unbounded rule
        then rules
        else rules ++ remove_escalating_resources rule ∷ [])
      role_rules

-- `resolveRules` behind the call of the lister
unfoldable pub rules_of : Bool → Result ClusterRole → Result (List PolicyRule)
rules_of escalating (err e) = if is_not_found e then ok [] else err e
rules_of escalating (ok role) = ok (rules_from escalating [] role.rules)

abbrev pub get_namespaces : Attributes
get_namespaces = record {
  verb = "get";
  api_group = "";
  resource = "namespaces";
  subresource = "";
  name = "";
  namespace = "";
  path = "";
  resource_request = true;
}

-- `ScopeEvaluator`, with the lister of the roles given
pub record ScopeEvaluator : Type 0 where
  pub handles : String → Bool
  pub resolve : String → Result (List String)

-- `ResolveGettableNamespaces` of the user evaluator
unfoldable pub resolve_user : String → Result (List String)
resolve_user scope =
    if scope == "user:full" || scope == "user:list-projects" then ok ("*" ∷ []) else ok []

module _ ⦃P : Platform⦄ where
  open P use {StringSet}

  -- `visibleNamespaces` and `errors`
  pub record Visible : Type 0 where
    pub namespaces : StringSet
    pub errors : List Error

module _ (library : ScopeMetadata) (get_role : String → Result ClusterRole) where
  unfoldable pub resolve_rules : String → Result (List PolicyRule)
  resolve_rules scope = do
    (role_name, namespace, escalating) ← library.parse_scope scope
    rules_of escalating (get_role role_name)

  -- `ResolveGettableNamespaces` of the cluster role evaluator
  unfoldable pub resolve_cluster_role : String → Result (List String)
  resolve_cluster_role scope = do
    (role_name, namespace, escalating) ← library.parse_scope scope
    rules ← resolve_rules scope
    ok (if rules_allow get_namespaces rules then namespace ∷ [] else [])

  unfoldable pub scope_evaluators : List ScopeEvaluator
  scope_evaluators =
      record { handles = library.user_handles; resolve = resolve_user }
      ∷ record { handles = library.cluster_role_handles; resolve = resolve_cluster_role }
      ∷ []

  module _ ⦃P : Platform⦄ where
    open P use {empty, insert_all}

    -- the loop over the evaluators, with `found`
    unfoldable pub evaluate : List ScopeEvaluator → String → Visible → Bool → Visible × Bool
    evaluate [] scope out found = (out, found)
    evaluate (evaluator ∷ evaluators) scope out found = elim (evaluator.handles scope) [
      | false ↦ evaluate evaluators scope out found
      | true ↦ elim (evaluator.resolve scope) [
        | err e ↦ evaluate evaluators scope (record out { errors = out.errors ++ e ∷ [] }) true
        | ok allowed ↦ (record out { namespaces = insert_all out.namespaces allowed }, true)
      ]
    ]

    -- one round of the loop over the scopes
    unfoldable pub add_scope : Bool → Visible → String → Visible
    add_scope ignore_unhandled out scope =
        let (out', found) = evaluate scope_evaluators scope out false in
        if not found && not ignore_unhandled
        then record out' { errors = out'.errors ++ library.no_evaluator scope ∷ [] }
        else out'

    unfoldable pub add_scopes : Bool → Visible → List String → Visible
    add_scopes ignore_unhandled out [] = out
    add_scopes ignore_unhandled out (scope ∷ scopes) =
        add_scopes ignore_unhandled (add_scope ignore_unhandled out scope) scopes

    -- `ScopesToVisibleNamespaces`, with the list that is aggregated for the error
    unfoldable pub scopes_to_visible_namespaces : List String → Bool → Visible
    scopes_to_visible_namespaces [] ignore_unhandled = record {
      namespaces = insert_all empty ("*" ∷ []);
      errors = [];
    }
    scopes_to_visible_namespaces (scope ∷ scopes) ignore_unhandled =
        add_scopes ignore_unhandled (record { namespaces = empty; errors = [] }) (scope ∷ scopes)
