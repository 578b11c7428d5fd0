-- ===== src/Rbac/Allow.antt =====
-- pkg/cache/rbac/allow.go: which rules allow a request, and the display names of subjects.
pub mod Spec
pub mod Subjects
use Prim.Native.String
use Prim.Native.String.{len}
use clusterset_server.Base.{
  ◌+◌, Bool, true, false, ◌&&◌, ◌||◌, not, List, [], ◌∷◌, ◌++◌, String, ◌==◌, nat_eq, any, contains,
  if◌then◌else◌,
}
use clusterset_server.Base.Text.{has_prefix, has_suffix, trim_right_stars}
use clusterset_server.Rbac.{PolicyRule, Subject, Attributes, all_marker}

-- one round of a loop that looks for the marker or for an exact match
abbrev pub is_all_or : String → String → Bool
is_all_or requested entry = entry == all_marker || entry == requested

unfoldable pub verb_matches : PolicyRule → String → Bool
verb_matches rule requested = any (is_all_or requested) rule.verbs

unfoldable pub api_group_matches : PolicyRule → String → Bool
api_group_matches rule requested = any (is_all_or requested) rule.api_groups

-- one round of the loop of `ResourceMatches`
unfoldable pub resource_entry_matches : String → String → String → Bool
resource_entry_matches combined subresource entry =
    if entry == all_marker
    then true
    else if entry == combined
    then true
    else if nat_eq (len subresource) 0
    then false
    else nat_eq (len entry) (len subresource + 2)
      && has_prefix entry "*/"
      && has_suffix entry subresource

unfoldable pub resource_matches : PolicyRule → String → String → Bool
resource_matches rule combined subresource =
    any (resource_entry_matches combined subresource) rule.resources

abbrev pub is_nil : List String → Bool
is_nil [] = true
is_nil (x ∷ xs) = false

unfoldable pub resource_name_matches : PolicyRule → String → Bool
resource_name_matches rule requested =
    if is_nil rule.resource_names then true else contains rule.resource_names requested

-- one round of the loop of `NonResourceURLMatches`
unfoldable pub url_entry_matches : String → String → Bool
url_entry_matches requested entry =
    is_all_or requested entry
    || has_suffix entry "*" && has_prefix requested (trim_right_stars entry)

unfoldable pub non_resource_url_matches : PolicyRule → String → Bool
non_resource_url_matches rule requested = any (url_entry_matches requested) rule.non_resource_urls

abbrev pub combined_resource : Attributes → String
combined_resource a =
    if not (a.subresource == "")
    then String.◌++◌ a.resource (String.◌++◌ "/" a.subresource)
    else a.resource

unfoldable pub rule_allows : Attributes → PolicyRule → Bool
rule_allows a rule =
    if a.resource_request
    then verb_matches rule a.verb
      && api_group_matches rule a.api_group
      && resource_matches rule (combined_resource a) a.subresource
      && resource_name_matches rule a.name
    else verb_matches rule a.verb && non_resource_url_matches rule a.path

unfoldable pub rules_allow : Attributes → List PolicyRule → Bool
rules_allow a rules = any (rule_allows a) rules

-- The four lists of `SubjectsStrings`, with the appends made by its loop.
pub record SubjectNames : Type 0 where
  pub users : List String
  pub groups : List String
  pub service_accounts : List String
  pub others : List String

-- fmt.Sprintf("%s/%s", a, b)
abbrev pub slashed : String → String → String
slashed a b = String.◌++◌ a (String.◌++◌ "/" b)

pub add_subject_string : SubjectNames → Subject → SubjectNames
add_subject_string out s =
    if s.kind == "ServiceAccount"
    then record out { service_accounts = out.service_accounts ++ slashed s.namespace s.name ∷ [] }
    else if s.kind == "User"
    then record out { users = out.users ++ s.name ∷ [] }
    else if s.kind == "Group"
    then record out { groups = out.groups ++ s.name ∷ [] }
    else record out { others = out.others ++ slashed s.kind (slashed s.namespace s.name) ∷ [] }

pub subjects_strings_from : SubjectNames → List Subject → SubjectNames
subjects_strings_from out [] = out
subjects_strings_from out (s ∷ subjects) = subjects_strings_from (add_subject_string out s) subjects

pub subjects_strings : List Subject → SubjectNames
unfolding subjects_strings_from add_subject_string
subjects_strings subjects =
    subjects_strings_from (record { users = []; groups = []; service_accounts = []; others = [] })
      subjects
