-- ===== src/AuthCache/Unlisted.antt =====
-- pkg/cache/common.go, `synchronize`, where the resources cannot be listed.
use mathlib.Core.Path.{subst}
use clusterset_server.Base.{
  ◌≡◌, ap, ◌∙◌, false, ◌||◌, Option, none, some, String, arith, Result, ok, err, Error, any,
  any_none,
}
use clusterset_server.Platform.{Platform}
use clusterset_server.Objects.{UserInfo}
use clusterset_server.AuthCache.Capacity.{most_notifications, synchronize_done}
use clusterset_server.AuthCache.Room.{Room}
use clusterset_server.AuthCache.Names.{list_names}
use clusterset_server.AuthCache.Listing.{list_names_exact}
use clusterset_server.AuthCache.State.{Surroundings, AuthCache, Outcome, done, stuck, after}
use clusterset_server.AuthCache.Sync.{
  sync_listed, sync_resources, synchronize_cluster_role_bindings, sync_all_bindings,
  purge_deleted_resources, synchronize,
}
use clusterset_server.AuthCache.Keeps.{Keeps-of_IgnoresWatchers, Keeps-notify_deleted}
use clusterset_server.AuthCache.Consistency.{
  IsConsistent, find_record, reviews_user, reviews_group, synchronize-IsConsistent,
}
use clusterset_server.AuthCache.Coverage.{Returns, Returns-bind, Returns-of_Ends}
use clusterset_server.AuthCache.Purge.{find_purged}

module _ ⦃P : Platform⦄ where
  open P use {StringSet, has, empty, has-empty}

  Returns-always : {A : Type 0} (o : Outcome A) → Returns (λ _ _. Unit) o
  Returns-always (done a ac) = tt
  Returns-always (stuck ac) = tt

  module _ (s : Surroundings) (n : String) where
    purge_forgets :
        (names old_names : StringSet) (ac : AuthCache)
        → has names n ≡ false
        → Returns (λ _ ac'. find_record ac' n ≡ none) (purge_deleted_resources s old_names names ac)
    unfolding purge_deleted_resources
    purge_forgets names old_names ac missing =
        let I : AuthCache → Type 0 = λ ac'. find_record ac' n ≡ none in
        Returns-of_Ends _ I (
          (Keeps-notify_deleted s I I (Keeps-of_IgnoresWatchers s I (λ ac' watchers h. h)) _).at _
            (ground (arith, missing, find_purged names ac n)))

    sync_listed_none :
        (o : Result _) (e : Error) (ac : AuthCache)
        → o ≡ err e
        → Returns (λ names _. has names n ≡ false) (sync_listed s o ac)
    unfolding sync_listed
    sync_listed_none (err e') e ac failed = has-empty n
    sync_listed_none (ok requests) e ac failed = absurd (ground arith)

    synchronize_forgets :
        (e : Error) (ac : AuthCache)
        → s.sync_requests ≡ err e
        → Returns (λ _ ac'. find_record ac' n ≡ none) (synchronize s ac)
    unfolding synchronize sync_resources synchronize_cluster_role_bindings
    synchronize_forgets e ac failed =
        Returns-bind (sync_listed s s.sync_requests) _ (λ names _. has names n ≡ false) _ ac
          (sync_listed_none s.sync_requests e ac failed)
          (λ names ac₁ missing.
            Returns-bind (sync_all_bindings s s.list_bindings) _ (λ _ _. Unit) _ ac₁
              (Returns-always _)
              (λ _ ac₂ _.
                Returns-bind (purge_deleted_resources s ac.all_known_names names) _ _ _ ac₂
                  (purge_forgets names ac.all_known_names ac₂ missing) (λ _ ac₃ h. h)))

  nothing_reviewed :
      (o : Option _) (user : UserInfo)
      → o ≡ none
      → (reviews_user o user.name || any (λ g. reviews_group o g) user.groups) ≡ false
  nothing_reviewed none user h = any_none user.groups
  nothing_reviewed (some r) user h = absurd (ground arith)

  returned_unlisted :
      (s : Surroundings) (e : Error) (ac ac' : AuthCache) (user : UserInfo) (n : String)
      → s.sync_requests ≡ err e
      → IsConsistent ac
      → synchronize s ac ≡ done tt ac'
      → has (list_names ac' user) n ≡ false
  returned_unlisted s e ac ac' user n failed consistent returned =
      let consistent' : IsConsistent ac' =
        subst IsConsistent (ap after returned) (synchronize-IsConsistent s ac consistent) in
      list_names_exact ac' user n consistent'
      ∙ nothing_reviewed (find_record ac' n) user (
          subst (Returns (λ _ ac''. find_record ac'' n ≡ none)) returned
            (synchronize_forgets s n e ac failed))

  -- A run that cannot list the resources, from a consistent cache whose watchers have room for what
  -- it can send, returns, and then nobody is listed anything any more.
  pub unlisted_synchronize :
      (s : Surroundings) (e : Error) (ac : AuthCache)
      → s.sync_requests ≡ err e
      → IsConsistent ac
      → Room (most_notifications s ac) ac.watchers
      → (ac' : AuthCache) × (synchronize s ac ≡ done tt ac')
        × ((user : UserInfo) (n : String) → has (list_names ac' user) n ≡ false)
  unlisted_synchronize s e ac failed consistent room =
      let (ac', returned) = synchronize_done s ac room in
      (ac', returned, λ user n. returned_unlisted s e ac ac' user n failed consistent returned)
