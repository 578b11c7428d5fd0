-- ===== src/Scope/Visibility.antt =====
-- pkg/apis/helpers/scope.go, `ScopesToVisibleNamespaces`: what a scope shows.
use clusterset_server.Base.{
  ◌≡◌, Bool, false, ◌&&◌, ◌||◌, List, [], ◌∷◌, String, ◌==◌, arith, Result, ok, err, Result-cases,
  inl, inr, contains, contains_singleton, if◌then◌else◌, any,
}
use clusterset_server.Platform.{Platform}
use clusterset_server.Rbac.{ClusterRole}
use clusterset_server.Scope.{
  ScopeMetadata, Visible, resolve_user, resolve_cluster_role, scope_evaluators, evaluate, add_scope,
  add_scopes, scopes_to_visible_namespaces,
}

abbrev pub contains_ok : Result (List String) → String → Bool
contains_ok (err e) n = false
contains_ok (ok allowed) n = contains allowed n

module _ (library : ScopeMetadata) (get_role : String → Result ClusterRole) where
  -- A user scope shows all names if it is for the full user or for listing; another scope that is
  -- handled shows what its role evaluator resolves.
  abbrev pub shows : String → String → Bool
  shows scope n =
      if library.user_handles scope
      then (scope == "user:full" || scope == "user:list-projects") && "*" == n
      else library.cluster_role_handles scope
        && contains_ok (resolve_cluster_role library get_role scope) n

  -- A token without scopes shows all names.
  abbrev pub scopes_show : List String → String → Bool
  scopes_show [] n = "*" == n
  scopes_show (scope ∷ scopes) n = any (λ s. shows s n) (scope ∷ scopes)

  module _ ⦃P : Platform⦄ where
    open P use {has, empty, insert_all, has-insert_all, has-empty}

    has-evaluate :
        (scope : String) (out : Visible) (n : String)
        → has
            (evaluate library get_role
              (scope_evaluators library get_role)
              scope
              out
              false).0.namespaces
            n
          ≡ (has out.namespaces n || shows scope n)
    unfolding evaluate scope_evaluators resolve_user contains
    has-evaluate scope out n =
        let user = has-insert_all out.namespaces ("*" ∷ []) n in
        let nothing = has-insert_all out.namespaces [] n in
        elim (Result-cases (resolve_cluster_role library get_role scope)) [
          | inl (allowed, resolved) ↦ ground (
            arith,
            user,
            nothing,
            contains_singleton "*" n,
            has-insert_all out.namespaces allowed n,
          )
          | inr (e, failed) ↦ ground (arith, user, nothing, contains_singleton "*" n)
        ]

    has-add_scope :
        (ignore_unhandled : Bool) (out : Visible) (scope n : String)
        → has (add_scope library get_role ignore_unhandled out scope).namespaces n
          ≡ (has out.namespaces n || shows scope n)
    unfolding add_scope
    has-add_scope ignore_unhandled out scope n = ground (arith, has-evaluate scope out n)

    has-add_scopes :
        (ignore_unhandled : Bool) (out : Visible) (scopes : List String) (n : String)
        → has (add_scopes library get_role ignore_unhandled out scopes).namespaces n
          ≡ (has out.namespaces n || any (λ s. shows s n) scopes)
    unfolding add_scopes any
    has-add_scopes ignore_unhandled out [] n = ground arith
    has-add_scopes ignore_unhandled out (scope ∷ scopes) n = ground (
      arith,
      has-add_scope ignore_unhandled out scope n,
      has-add_scopes ignore_unhandled (add_scope library get_role ignore_unhandled out scope) scopes
          n,
    )

    -- The visible names are those that some scope shows; a token without scopes shows "*".
    pub scopes_to_visible_namespaces_exact :
        (scopes : List String) (ignore_unhandled : Bool) (n : String)
        → has (scopes_to_visible_namespaces library get_role scopes ignore_unhandled).namespaces n
          ≡ scopes_show scopes n
    unfolding scopes_to_visible_namespaces
    scopes_to_visible_namespaces_exact [] ignore_unhandled n =
        ground (arith, has-insert_all empty ("*" ∷ []) n, has-empty n, contains_singleton "*" n)
    scopes_to_visible_namespaces_exact (scope ∷ scopes) ignore_unhandled n = ground (
      arith,
      has-empty n,
      has-add_scopes ignore_unhandled (record { namespaces = empty; errors = [] }) (scope ∷ scopes)
          n,
    )
