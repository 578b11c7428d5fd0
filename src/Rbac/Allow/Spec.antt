-- ===== src/Rbac/Allow/Spec.antt =====
-- pkg/cache/rbac/allow.go: a description of what a rule allows, over the members of its lists.
use Prim.Native.String
use Prim.Native.String.{len}
use mathlib.Core.List.{Memᴰ}
use text.Mathlib.TextBridge.{IsPrefix}
use text.Mathlib.TextEquality.{starts_with_iff}
use clusterset_server.Base.{
  ◌≡◌, refl, ◌≢◌, ◌↔◌, ◌⊎◌, inl, inr, Bool, true, false, List, [], ◌∷◌, String, ◌==◌, any,
  any_of_mem, mem_of_any, contains, contains_iff, eq_iff, eq_self, arith, Bool-cases, if◌then◌else◌,
}
use clusterset_server.Base.Text.{has_suffix, len-eq-zero_iff, trim_right_stars, prefix_suffix_iff}
use clusterset_server.Rbac.{PolicyRule, Attributes, all_marker}
use clusterset_server.Rbac.Allow.{
  is_all_or, verb_matches, api_group_matches, resource_entry_matches, resource_matches, is_nil,
  resource_name_matches, url_entry_matches, non_resource_url_matches, combined_resource,
  rule_allows, rules_allow,
}

abbrev pub AllOr : String → List String → Type 0
AllOr requested entries = Memᴰ all_marker entries ⊎ Memᴰ requested entries

-- "*", the resource asked for, or "*/subresource" where there is a subresource
abbrev pub NamesResource : String → String → String → Type 0
NamesResource combined subresource entry =
    (entry ≡ all_marker)
    ⊎ (entry ≡ combined)
    ⊎ (subresource ≢ "") × (entry ≡ String.◌++◌ "*/" subresource)

-- "*", the path asked for, or a pattern that ends in "*" and whose stem begins the path
abbrev pub NamesPath : String → String → Type 0
NamesPath path entry =
    (entry ≡ all_marker)
    ⊎ (entry ≡ path)
    ⊎ (has_suffix entry "*" ≡ true) × IsPrefix (trim_right_stars entry) path

abbrev pub NamesObject : String → List String → Type 0
NamesObject name names = (names ≡ []) ⊎ Memᴰ name names

-- A rule allows a request for a resource, or for a path.
pub data Allows (a : Attributes) (rule : PolicyRule) : Type 0 where
  by_resource :
      a.resource_request ≡ true
      → AllOr a.verb rule.verbs
      → AllOr a.api_group rule.api_groups
      → (entry : String) × Memᴰ entry rule.resources
        × NamesResource (combined_resource a) a.subresource entry
      → NamesObject a.name rule.resource_names
      → Allows a rule
  by_path :
      a.resource_request ≡ false
      → AllOr a.verb rule.verbs
      → (entry : String) × Memᴰ entry rule.non_resource_urls × NamesPath a.path entry
      → Allows a rule

AllOr-of_any : (v : String) (xs : List String) → any (is_all_or v) xs ≡ true → AllOr v xs
AllOr-of_any v xs h =
    let (x, m, e) = mem_of_any (is_all_or v) xs h in
    elim (Bool-cases (x == all_marker)) [
      | inl all ↦ inl (rw (← (eq_iff x all_marker).0 all) m)
      | inr other ↦ inr (rw (← (eq_iff x v).0 (ground arith)) m)
    ]

any_of_AllOr : (v : String) (xs : List String) → AllOr v xs → any (is_all_or v) xs ≡ true
any_of_AllOr v xs (inl m) = any_of_mem (is_all_or v) xs m (ground (arith, eq_self all_marker))
any_of_AllOr v xs (inr m) = any_of_mem (is_all_or v) xs m (ground (arith, eq_self v))

pub resource_entry_iff :
    (combined subresource entry : String)
    → (resource_entry_matches combined subresource entry ≡ true)
      ↔ NamesResource combined subresource entry
unfolding resource_entry_matches
resource_entry_iff combined subresource entry =
    let three = prefix_suffix_iff "*/" entry subresource refl in
    (
      λ h. ground (
        arith,
        eq_iff entry all_marker,
        eq_iff entry combined,
        len-eq-zero_iff subresource,
        three,
      ),
      λ h. ground (
        arith,
        eq_iff entry all_marker,
        eq_iff entry combined,
        len-eq-zero_iff subresource,
        three,
      ),
    )

url_entry_iff : (path entry : String) → (url_entry_matches path entry ≡ true) ↔ NamesPath path entry
unfolding url_entry_matches
url_entry_iff path entry = (
  λ h. ground (
    arith,
    eq_iff entry all_marker,
    eq_iff entry path,
    starts_with_iff path (trim_right_stars entry),
  ),
  λ h. ground (
    arith,
    eq_iff entry all_marker,
    eq_iff entry path,
    starts_with_iff path (trim_right_stars entry),
  ),
)

-- A search in a list decides whether some entry has the property that one round tests.
any_iff :
    (test : String → Bool) (Named : String → Type 0) (entries : List String)
    → ((entry : String) → (test entry ≡ true) ↔ Named entry)
    → (any test entries ≡ true) ↔ ((entry : String) × Memᴰ entry entries × Named entry)
any_iff test Named entries each = (
  λ h. let (x, m, e) = mem_of_any test entries h in (x, m, (each x).0 e),
  λ (x, m, n). any_of_mem test entries m ((each x).1 n),
)

NamesObject-iff :
    (rule : PolicyRule) (name : String)
    → (resource_name_matches rule name ≡ true) ↔ NamesObject name rule.resource_names
unfolding resource_name_matches
NamesObject-iff rule name = go rule.resource_names
  where
    go :
        (names : List String)
        → ((if is_nil names then true else contains names name) ≡ true) ↔ NamesObject name names
    go [] = (λ _. inl refl, λ _. refl)
    go (x ∷ xs) = (
      λ h. inr ((contains_iff (x ∷ xs) name).0 h),
      λ h. elim h [ inl e ↦ ground arith | inr m ↦ (contains_iff (x ∷ xs) name).1 m ],
    )

Allows-of_rule_allows :
    (a : Attributes) (rule : PolicyRule) → rule_allows a rule ≡ true → Allows a rule
unfolding rule_allows verb_matches api_group_matches resource_matches non_resource_url_matches
Allows-of_rule_allows a rule h = elim (Bool-cases a.resource_request) [
  | inl yes_resource ↦
      by_resource yes_resource (AllOr-of_any a.verb rule.verbs (ground arith))
        (AllOr-of_any a.api_group rule.api_groups (ground arith))
        ((any_iff _ _ rule.resources (resource_entry_iff (combined_resource a) a.subresource)).0
          (ground arith))
        ((NamesObject-iff rule a.name).0 (ground arith))
  | inr no_resource ↦
      by_path no_resource (AllOr-of_any a.verb rule.verbs (ground arith))
        ((any_iff _ _ rule.non_resource_urls (url_entry_iff a.path)).0 (ground arith))
]

rule_allows_of_Allows :
    (a : Attributes) (rule : PolicyRule) → Allows a rule → rule_allows a rule ≡ true
unfolding rule_allows verb_matches api_group_matches resource_matches non_resource_url_matches
rule_allows_of_Allows a rule (by_resource r verb group entry object) = ground (
  arith,
  any_of_AllOr a.verb rule.verbs verb,
  any_of_AllOr a.api_group rule.api_groups group,
  (any_iff _ _ rule.resources (resource_entry_iff (combined_resource a) a.subresource)).1 entry,
  (NamesObject-iff rule a.name).1 object,
)
rule_allows_of_Allows a rule (by_path r verb entry) = ground (
  arith,
  any_of_AllOr a.verb rule.verbs verb,
  (any_iff _ _ rule.non_resource_urls (url_entry_iff a.path)).1 entry,
)

-- Rules allow a request exactly when one of them does: its verbs name the verb or "*"; for a
-- request for a resource, its groups name the group or "*", its resources the (sub)resource, and
-- its resource names the object, where it has any; for a path, its URLs the path or its beginning.
pub rules_allow_iff :
    (a : Attributes) (rules : List PolicyRule)
    → (rules_allow a rules ≡ true) ↔ ((rule : PolicyRule) × Memᴰ rule rules × Allows a rule)
unfolding rules_allow
rules_allow_iff a rules = (
  λ h.
      let (rule, m, e) = mem_of_any (rule_allows a) rules h in
      (rule, m, Allows-of_rule_allows a rule e),
  λ (rule, m, h). any_of_mem (rule_allows a) rules m (rule_allows_of_Allows a rule h),
)
