-- ===== src/Scope/Narrow.antt =====
-- pkg/apis/helpers/scope.go, `removeEscalatingResources`: what it leaves of a rule.
use Prim.Native.String
use clusterset_server.Base.{
  ◌≡◌, refl, Bool, not, ◌&&◌, ◌||◌, List, [], ◌∷◌, String, ◌==◌, arith, eq_iff, Bool-cases,
  bool_ext, inl, inr, any, contains, contains-keep,
}
use clusterset_server.Rbac.{PolicyRule, all_marker}
use clusterset_server.Rbac.Allow.{
  is_all_or, api_group_matches, resource_matches, resource_entry_matches,
}
use clusterset_server.Rbac.Allow.Spec.{resource_entry_iff}
use clusterset_server.Scope.{GroupResource, remove, remove_resource, remove_resources}

-- "*/subresource"
abbrev pub any_with : String → String
any_with subresource = String.◌++◌ "*/" subresource

resource_entry_eq :
    (combined subresource entry : String)
    → resource_entry_matches combined subresource entry ≡ (
        entry == all_marker
        || entry == combined
        || not (subresource == "") && entry == any_with subresource)
resource_entry_eq combined subresource entry =
    bool_ext _ _
      (λ h. elim ((resource_entry_iff combined subresource entry).0 h) [
        | inl e ↦ ground (arith, (eq_iff entry all_marker).1 e)
        | inr (inl e) ↦ ground (arith, (eq_iff entry combined).1 e)
        | inr (inr (some_sub, e)) ↦ elim (Bool-cases (subresource == "")) [
          | inl empty ↦ absurd (some_sub ((eq_iff subresource "").0 empty))
          | inr filled ↦ ground (arith, (eq_iff entry (any_with subresource)).1 e)
        ]
      ])
      (λ h.
        (resource_entry_iff combined subresource entry).1 (elim (Bool-cases (entry == all_marker)) [
          | inl e ↦ inl ((eq_iff entry all_marker).0 e)
          | inr other ↦ elim (Bool-cases (entry == combined)) [
            | inl e ↦ inr (inl ((eq_iff entry combined).0 e))
            | inr neither ↦ inr (
                inr (
                  λ e. ground (arith, (eq_iff subresource "").1 e),
                  (eq_iff entry (any_with subresource)).0 (ground arith),
                ))
          ]
        ]))

pub resource_matches-contains :
    (rule : PolicyRule) (combined subresource : String)
    → resource_matches rule combined subresource ≡ (
        contains rule.resources all_marker
        || contains rule.resources combined
        || not (subresource == "") && contains rule.resources (any_with subresource))
unfolding resource_matches any contains
resource_matches-contains rule combined subresource = go rule.resources
  where
    go :
        (entries : List String)
        → any (resource_entry_matches combined subresource) entries ≡ (
            contains entries all_marker
            || contains entries combined
            || not (subresource == "") && contains entries (any_with subresource))
    go [] = ground arith
    go (entry ∷ entries) = ground (arith, resource_entry_eq combined subresource entry, go entries)

pub api_group_matches-contains :
    (rule : PolicyRule) (group : String)
    → api_group_matches rule group
      ≡ (contains rule.api_groups all_marker || contains rule.api_groups group)
unfolding api_group_matches any contains
api_group_matches-contains rule group = go rule.api_groups
  where
    go :
        (entries : List String)
        → any (is_all_or group) entries ≡ (contains entries all_marker || contains entries group)
    go [] = refl
    go (entry ∷ entries) = ground (arith, go entries)

contains-remove :
    (array : List String) (item x : String)
    → contains (remove array item) x ≡ (contains array x && not (x == item))
unfolding remove
contains-remove array item x =
    ground (arith, contains-keep (λ element. not (element == item)) array x)

-- Does the loop remove the entry for this resource?
abbrev pub removes : PolicyRule → String → GroupResource → Bool
removes rule x g =
    x == g.resource && contains rule.api_groups g.group && contains rule.resources g.resource

-- What the loop leaves of a rule.
pub record Leaves (rule copy : PolicyRule) (gs : List GroupResource) : Type 0 where
  pub same_verbs : (remove_resources rule copy gs).verbs ≡ copy.verbs
  pub same_groups : (remove_resources rule copy gs).api_groups ≡ copy.api_groups
  pub same_names : (remove_resources rule copy gs).resource_names ≡ copy.resource_names
  pub same_urls : (remove_resources rule copy gs).non_resource_urls ≡ copy.non_resource_urls
  pub resources :
      (x : String)
      → contains (remove_resources rule copy gs).resources x
        ≡ (contains copy.resources x && not (any (removes rule x) gs))

pub remove_resources-Leaves :
    (rule copy : PolicyRule) (gs : List GroupResource) → Leaves rule copy gs
unfolding remove_resources remove_resource any
remove_resources-Leaves rule copy [] = record {
  same_verbs = refl;
  same_groups = refl;
  same_names = refl;
  same_urls = refl;
  resources = λ x. ground arith;
}
remove_resources-Leaves rule copy (g ∷ gs) =
    let h = remove_resources-Leaves rule (remove_resource rule copy g) gs in
    record {
      same_verbs = ground (arith, h.same_verbs);
      same_groups = ground (arith, h.same_groups);
      same_names = ground (arith, h.same_names);
      same_urls = ground (arith, h.same_urls);
      resources = λ x. ground (arith, h.resources x, contains-remove copy.resources g.resource x);
    }
