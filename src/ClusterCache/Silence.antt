-- ===== src/ClusterCache/Silence.antt =====
-- pkg/cache/common.go and managedcluster.go: what a run tells the watchers, and what a new watcher
-- lists, of a name that the cache hides from a user.
use mathlib.Core.Path.{subst}
use clusterset_server.Base.{
  ◌≡◌, ap, ◌∙◌, false, ◌||◌, Bool-cases, List, String, ◌==◌, eq_iff, arith, inl, inr, any, any_ext,
  any_none, contains, ok, Result-cases, mem_of_any,
}
use clusterset_server.Platform.{Platform}
use clusterset_server.Objects.{Object, UserInfo}
use clusterset_server.Watcher.Spared.{GivesNamed}
use clusterset_server.AuthCache.Exactness.{grants}
use clusterset_server.AuthCache.Granted.{Denies}
use clusterset_server.AuthCache.Keeps.{IsNotice}
use clusterset_server.AuthCache.Names.{list_names}
use clusterset_server.AuthCache.State.{AuthCache, Surroundings}
use clusterset_server.ClusterCache
use clusterset_server.ClusterCache.{Lister, everything, found_or_named}
use clusterset_server.ClusterCache.Listing.{IsLister, list_exact}

module _ ⦃P : Platform⦄ where
  open P use {StringSet, has, has_any, insert_all, empty, has-empty, has-insert_all, has_any-any}

  pub GivesNamed-of_IsLister :
      (lister : Lister) (objects : List Object) (ac : AuthCache)
      → IsLister lister objects
      → GivesNamed (ClusterCache.watchable lister ac)
  unfolding ClusterCache.watchable
  GivesNamed-of_IsLister lister objects ac h = record {
    gets = λ name object found. ((h.gets name object).0 found).1;
    converts = λ name. elim (Result-cases (lister.get name)) [
      | inl (c, found) ↦ ap (λ r. (found_or_named name r).name) found ∙ ((h.gets name c).0 found).1
      | inr (e, failed) ↦ ap (λ r. (found_or_named name r).name) failed
    ];
  }

  has-inserted : (xs : List String) (x : String) → has (insert_all empty xs) x ≡ contains xs x
  has-inserted xs x = ground (arith, has-insert_all empty xs x, has-empty x)

  -- Nobody has access to what is gone.
  pub denied-empty : (user : UserInfo) → (has empty user.name || has_any empty user.groups) ≡ false
  denied-empty user =
      let in_groups : any (has empty) user.groups ≡ false =
        any_ext (has empty) (λ g. false) user.groups has-empty ∙ any_none user.groups in
      ground (arith, in_groups, has-empty user.name, has_any-any empty user.groups)

  -- A notice of a name that the reviewer does not grant the user gives the user no access.
  pub notice_denied :
      (s : Surroundings) (user : UserInfo) (n name : String) (users groups : StringSet)
      → Denies s user n
      → IsNotice s name users groups
      → name ≡ n
      → (has users user.name || has_any groups user.groups) ≡ false
  notice_denied s user n name users groups denies (inl (v, reviewed, us, gs)) same =
      let denied : grants v user ≡ false =
        denies v (subst (λ m. s.reviewer s.group s.resource m ≡ ok v) same reviewed) in
      let in_groups : any (has (insert_all empty v.groups)) user.groups
          ≡ any (contains v.groups) user.groups =
        any_ext _ _ user.groups (has-inserted v.groups) in
      rw us (
        rw gs (
          ground (
            arith,
            denied,
            in_groups,
            has-inserted v.users user.name,
            has_any-any (insert_all empty v.groups) user.groups,
          )))
  notice_denied s user n name users groups denies (inr (us, gs)) same =
      rw us (rw gs (denied-empty user))

  -- Where the user is not listed the name, the user's initial list has no object of it.
  pub listed_without :
      (lister : Lister) (objects : List Object) (ac : AuthCache) (user : UserInfo) (n : String)
      → IsLister lister objects
      → has (list_names ac user) n ≡ false
      → any (λ object. object.name == n) ((ClusterCache.watchable lister ac).list_objects user)
        ≡ false
  unfolding ClusterCache.watchable ClusterCache.list_objects
  listed_without lister objects ac user n h unlisted =
      let (items, found, inside) = list_exact lister objects ac user everything h in
      let absent : any (λ object. object.name == n) items ≡ false =
        elim (Bool-cases (any (λ object. object.name == n) items)) [
          | inr none_named ↦ none_named
          | inl some_named ↦
              let (c, m, e) = mem_of_any (λ object. object.name == n) items some_named in
              let (_, visible, _) = (inside c).0 m in
              absurd (ground (arith, visible, unlisted, eq_iff c.name n))
        ] in
      rw found absent
