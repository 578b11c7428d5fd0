-- ===== src/Scope/Escalation.antt =====
-- pkg/apis/helpers/scope.go, `resolveRules`: what the rules of a role scope allow.
use mathlib.Core.List.{Memᴰ}
use clusterset_server.Base.{
  ◌≡◌, refl, Bool, true, false, not, ◌&&◌, ◌||◌, List, [], ◌∷◌, ◌++◌, String, ◌==◌, arith, eq_self,
  Result, ok, Bool-cases, inl, inr, any, any-append, contains, ap, any_of_mem,
}
use clusterset_server.Rbac.{PolicyRule, ClusterRole, Attributes, all_marker}
use clusterset_server.Rbac.Allow.{
  rule_allows, rules_allow, verb_matches, api_group_matches, resource_matches,
  non_resource_url_matches, resource_name_matches, combined_resource,
}
use clusterset_server.Scope.{
  ScopeMetadata, GroupResource, escalating_scope_resources, remove_resources,
  remove_escalating_resources, is_unbounded, rules_from, rules_of, resolve_rules,
}
use clusterset_server.Scope.Narrow.{
  any_with, remove_resources-Leaves, removes, resource_matches-contains, api_group_matches-contains,
}

module _ (a : Attributes) where
  resource_matches-remove :
      (rule : PolicyRule) (combined subresource : String)
      → resource_matches (remove_escalating_resources rule) combined subresource ≡ true
      → resource_matches rule combined subresource ≡ true
  unfolding remove_escalating_resources
  resource_matches-remove rule combined subresource h =
      let left = remove_resources-Leaves rule rule escalating_scope_resources in
      ground (
        arith,
        resource_matches-contains rule combined subresource,
        resource_matches-contains (remove_resources rule rule escalating_scope_resources) combined
            subresource,
        left.resources all_marker,
        left.resources combined,
        left.resources (any_with subresource),
      )

  -- A rule allows what it allows without its escalating resources.
  rule_allows-remove :
      (rule : PolicyRule)
      → rule_allows a (remove_escalating_resources rule) ≡ true
      → rule_allows a rule ≡ true
  unfolding rule_allows verb_matches api_group_matches resource_name_matches
      non_resource_url_matches remove_escalating_resources
  rule_allows-remove rule h =
      let left = remove_resources-Leaves rule rule escalating_scope_resources in
      ground (
        arith,
        left.same_verbs,
        left.same_groups,
        left.same_names,
        left.same_urls,
        resource_matches-remove rule (combined_resource a) a.subresource,
      )

  rules_allow-rules_from :
      (escalating : Bool) (rules role_rules : List PolicyRule)
      → rules_allow a (rules_from escalating rules role_rules) ≡ true
      → (rules_allow a rules || rules_allow a role_rules) ≡ true
  unfolding rules_from rules_allow any
  rules_allow-rules_from escalating rules [] h = ground arith
  rules_allow-rules_from escalating rules (rule ∷ role_rules) h = ground (
    arith,
    rules_allow-rules_from escalating rules role_rules,
    rules_allow-rules_from escalating (rules ++ rule ∷ []) role_rules,
    rules_allow-rules_from escalating (rules ++ remove_escalating_resources rule ∷ []) role_rules,
    any-append (rule_allows a) rules (rule ∷ []),
    any-append (rule_allows a) rules (remove_escalating_resources rule ∷ []),
    rule_allows-remove rule,
  )

  module _ (g : GroupResource) (escalates : Memᴰ g escalating_scope_resources)
      (for_resource : a.resource_request ≡ true) (same_group : a.api_group ≡ g.group)
      (same_resource : combined_resource a ≡ g.resource) where
    -- The rule has no "*/subresource" entry for the subresource, if there is one.
    NoBypass : PolicyRule → Type 0
    NoBypass rule =
        (not (a.subresource == "") && contains rule.resources (any_with a.subresource)) ≡ false

    rule_denies :
        (rule : PolicyRule)
        → is_unbounded rule ≡ false
        → NoBypass rule
        → rule_allows a (remove_escalating_resources rule) ≡ false
    unfolding rule_allows is_unbounded remove_escalating_resources NoBypass
    rule_denies rule bounded no_bypass =
        let left = remove_resources-Leaves rule rule escalating_scope_resources in
        let rule' = remove_resources rule rule escalating_scope_resources in
        let removed = any_of_mem (removes rule g.resource) escalating_scope_resources escalates in
        ground (
          arith,
          eq_self g.resource,
          removed,
          same_group,
          same_resource,
          resource_matches-contains rule' (combined_resource a) a.subresource,
          api_group_matches-contains rule' a.api_group,
          ap (λ groups. contains groups all_marker) left.same_groups,
          ap (λ groups. contains groups a.api_group) left.same_groups,
          left.resources all_marker,
          left.resources (combined_resource a),
          left.resources (any_with a.subresource),
        )

    rules_from_denies :
        (rules role_rules : List PolicyRule)
        → rules_allow a rules ≡ false
        → ((rule : PolicyRule) → Memᴰ rule role_rules → NoBypass rule)
        → rules_allow a (rules_from false rules role_rules) ≡ false
    unfolding rules_from rules_allow any
    rules_from_denies rules [] h no_bypass = h
    rules_from_denies rules (rule ∷ role_rules) h no_bypass =
        let later : (r : PolicyRule) → Memᴰ r role_rules → NoBypass r =
          λ r m. no_bypass r (Memᴰ.tail m) in
        elim (Bool-cases (is_unbounded rule)) [
          | inl unbounded ↦ ground (arith, rules_from_denies rules role_rules h later)
          | inr bounded ↦
              let safe = remove_escalating_resources rule in
              let denied = rule_denies rule bounded (no_bypass rule (Memᴰ.head refl)) in
              let more : any (rule_allows a) (rules ++ safe ∷ []) ≡ false =
                ground (arith, any-append (rule_allows a) rules (safe ∷ [])) in
              ground (arith, rules_from_denies (rules ++ safe ∷ []) role_rules more later)
        ]

-- The rules of a role scope whose role is found allow no request that the role does not allow.
pub resolve_rules_narrow :
    (library : ScopeMetadata) (get_role : String → Result ClusterRole) (a : Attributes)
    (scope role_name namespace : String) (escalating : Bool) (role : ClusterRole)
    → library.parse_scope scope ≡ ok (role_name, namespace, escalating)
    → get_role role_name ≡ ok role
    → (rules : List PolicyRule) × (resolve_rules library get_role scope ≡ ok rules)
      × ((not (rules_allow a rules) || rules_allow a role.rules) ≡ true)
unfolding resolve_rules rules_of
resolve_rules_narrow library get_role a scope role_name namespace escalating role parsed found = (
  rules_from escalating [] role.rules,
  ground arith,
  unfold rules_allow any in ground (arith, rules_allow-rules_from a escalating [] role.rules),
)

-- The rules of a role scope that is not escalating, and whose role is found, do not allow any
-- request for an escalating resource, unless the request is for a subresource that a rule of the
-- role names as "*/subresource".
pub resolve_rules_denies :
    (library : ScopeMetadata) (get_role : String → Result ClusterRole) (a : Attributes)
    (g : GroupResource) (scope role_name namespace : String) (role : ClusterRole)
    → library.parse_scope scope ≡ ok (role_name, namespace, false)
    → get_role role_name ≡ ok role
    → Memᴰ g escalating_scope_resources
    → a.resource_request ≡ true
    → a.api_group ≡ g.group
    → combined_resource a ≡ g.resource
    → ((rule : PolicyRule)
        → Memᴰ rule role.rules
        → (not (a.subresource == "") && contains rule.resources (any_with a.subresource)) ≡ false)
    → (rules : List PolicyRule) × (resolve_rules library get_role scope ≡ ok rules)
      × (rules_allow a rules ≡ false)
unfolding resolve_rules rules_of NoBypass
resolve_rules_denies library get_role a g scope role_name namespace role parsed found escalates
      for_resource same_group same_resource no_bypass =
    (
      rules_from false [] role.rules,
      ground arith,
      rules_from_denies a g escalates for_resource same_group same_resource [] role.rules
          (unfold rules_allow any in refl) no_bypass,
    )
