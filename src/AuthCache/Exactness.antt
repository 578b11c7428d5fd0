-- ===== src/AuthCache/Exactness.antt =====
-- pkg/cache/common.go, `synchronize` and `listNames`: what a user is listed after a run.
use mathlib.Core.Path.{subst}
use clusterset_server.Base.{
  ◌≡◌, refl, ap, ap₂, any_none, ◌∙◌, Bool, true, ◌&&◌, ◌||◌, Option, none, some, List, String,
  eq_iff, arith, Result, ok, err, if◌then◌else◌, any, contains,
}
use clusterset_server.Platform.{Platform}
use clusterset_server.Objects.{UserInfo}
use clusterset_server.Rbac.Reviewer.{Review}
use clusterset_server.AuthCache.Records.{ReviewRequest, ReviewRecord}
use clusterset_server.AuthCache.Review.{merged_record}
use clusterset_server.AuthCache.Consistency.{
  IsConsistent, find_record, find-apply_review, reviews_user, reviews_group,
  synchronize-IsConsistent,
}
use clusterset_server.AuthCache.Listing.{list_names_exact}
use clusterset_server.AuthCache.Names.{list_names}
use clusterset_server.AuthCache.State.{done, after, Surroundings, AuthCache}
use clusterset_server.AuthCache.Keeps.{
  after_of_Ends, Keeps-of_IgnoresWatchers, Keeps-sync_all_bindings, Keeps-notify_deleted,
}
use clusterset_server.AuthCache.Runs.{IsInvariant, Keeps-synchronize}
use clusterset_server.AuthCache.Sync.{
  sync_each, sync_listed, sync_resources, synchronize_cluster_role_bindings, sync_all_bindings,
  purge_deleted_resources, synchronize,
}
use clusterset_server.AuthCache.Coverage.{
  Returns-of_imp, listed, has_record, Returns, Returns-bind, Returns-of_Ends, Records,
  Records-IsSyncInvariant, ReviewsAll, sync_each-Covers, Covers,
}
use clusterset_server.AuthCache.Purge.{find-purge_record, find_purged}

-- What the review grants the user, alone or by a group.
abbrev pub grants : Review → UserInfo → Bool
grants review user = contains review.users user.name || any (contains review.groups) user.groups

module _ ⦃P : Platform⦄ where
  open P use {StringSet, find, has, empty, items, has-empty, difference, range}

  -- What is left after the purge: a record of each listed name that had one, and no other.
  abbrev Purged : List ReviewRequest → String → AuthCache → AuthCache → Type 0
  Purged requests n before ac =
      find_record ac n ≡ (if listed requests n then find_record before n else none)

  module _ (s : Surroundings) (requests : List ReviewRequest) (n : String) where
    purge_covers :
        (names old_names : StringSet) (ac : AuthCache)
        → has names n ≡ listed requests n
        → (listed requests n ≡ true → Records n ac)
        → Returns
            (λ _ ac'. has_record (find_record ac' n) ≡ listed requests n)
            (purge_deleted_resources s old_names names ac)
    unfolding purge_deleted_resources
    purge_covers names old_names ac names_eq covered =
        let I : AuthCache → Type 0 = λ ac'. has_record (find_record ac' n) ≡ listed requests n in
        Returns-of_Ends _ I (
          (Keeps-notify_deleted s I I (Keeps-of_IgnoresWatchers s I (λ ac' watchers h. h)) _).at _
            (ground (arith, names_eq, covered, find_purged names ac n)))

    sync_listed-Covers :
        (review : String → Review) (o : Result (List ReviewRequest)) (ac : AuthCache)
        → ReviewsAll s review
        → o ≡ ok requests
        → Returns (Covers empty requests n) (sync_listed s o ac)
    unfolding sync_listed
    sync_listed-Covers review (ok requests') ac total same =
        let e : requests ≡ requests' = cc same in
        subst (λ q. Returns (Covers empty requests n) (sync_each s empty q ac)) e
          (sync_each-Covers s review total empty requests ac n)
    sync_listed-Covers review (err e) ac total same = ground arith

    -- A run that returns has a record exactly of the listed names.
    pub synchronize_covers :
        (review : String → Review) (ac : AuthCache)
        → s.sync_requests ≡ ok requests
        → ReviewsAll s review
        → Returns (λ _ ac'. has_record (find_record ac' n) ≡ listed requests n) (synchronize s ac)
    unfolding synchronize sync_resources synchronize_cluster_role_bindings
    synchronize_covers review ac listing total =
        Returns-bind (sync_listed s s.sync_requests) _ (Covers empty requests n) _ ac
          (sync_listed-Covers review s.sync_requests ac total listing)
          (λ names ac₁ q.
            let I : AuthCache → Type 0 = λ ac'. listed requests n ≡ true → Records n ac' in
            Returns-bind (sync_all_bindings s s.list_bindings) _ (λ _. I) _ ac₁
              (Returns-of_imp (sync_all_bindings s s.list_bindings ac₁) (listed requests n ≡ true)
                (Records n)
                (λ l.
                  (Keeps-sync_all_bindings s (Records n) (Records n) (Records-IsSyncInvariant s n)
                      s.list_bindings).at
                    ac₁ (q.1 l)))
              (λ _ ac₂ covered.
                Returns-bind (purge_deleted_resources s ac.all_known_names names) _ _ _ ac₂
                  (purge_covers names ac.all_known_names ac₂ (ground (arith, q.0, has-empty n))
                    covered)
                  (λ _ ac₃ h. h)))

  -- The records are what the reviewer says now.
  pub record IsFresh (review : String → Review) (ac : AuthCache) : Type 0 where
    pub at :
        (n : String) (r : ReviewRecord)
        → find_record ac n ≡ some r
        → (r.users ≡ (review n).users) × (r.groups ≡ (review n).groups)

  pub IsFresh-IsInvariant :
      (s : Surroundings) (review : String → Review)
      → ReviewsAll s review
      → IsInvariant s (IsFresh review) (IsFresh review)
  unfolding merged_record
  IsFresh-IsInvariant s review total = record {
    sync = record {
      at_notify =
          Keeps-of_IgnoresWatchers s (IsFresh review) (λ ac watchers h. record { at = h.at });
      at_review = λ ac request v reviewed h. record {
        at = λ n r e. ground (
          arith,
          eq_iff request.name n,
          total request.name,
          h.at n r,
          find-apply_review request (find_record ac request.name) v ac n,
        );
      };
    };
    at_purge = λ ac names r waiting h. record {
      at = λ n q e. ground (arith, h.at n q, find-purge_record names ac r n);
    };
    at_finish = λ ac names state h. record { at = h.at };
  }

  -- A run keeps the records what the reviewer says, also when it is stuck.
  pub synchronize-IsFresh :
      (s : Surroundings) (review : String → Review) (ac : AuthCache)
      → ReviewsAll s review
      → IsFresh review ac
      → IsFresh review (after (synchronize s ac))
  synchronize-IsFresh s review ac total fresh =
      let I = IsFresh review in
      after_of_Ends I (synchronize s ac)
        ((Keeps-synchronize s I I (IsFresh-IsInvariant s review total)).at ac fresh)

  grants_of_record :
      (o : Option ReviewRecord) (v : Review) (user : UserInfo)
      → ((r : ReviewRecord) → o ≡ some r → (r.users ≡ v.users) × (r.groups ≡ v.groups))
      → (reviews_user o user.name || any (λ g. reviews_group o g) user.groups)
        ≡ (has_record o && grants v user)
  grants_of_record none v user h = any_none user.groups
  grants_of_record (some r) v user h =
      let same = h r refl in
      ap₂ (λ us gs. contains us user.name || any (λ g. contains gs g) user.groups) same.0 same.1

  granted_of_fresh :
      (review : String → Review) (ac : AuthCache) (user : UserInfo) (n : String) (there : Bool)
      → IsConsistent ac
      → IsFresh review ac
      → has_record (find_record ac n) ≡ there
      → has (list_names ac user) n ≡ (there && grants (review n) user)
  granted_of_fresh review ac user n there consistent fresh known =
      list_names_exact ac user n consistent
      ∙ grants_of_record (find_record ac n) (review n) user (fresh.at n)
      ∙ ap (λ b. b && grants (review n) user) known

  -- When a run returns that could list the resources, in a cache whose records are what the
  -- reviewer says, a user is listed a name exactly when it is the name of a resource and its review
  -- names the user or one of the user's groups; and the cache is so again.
  pub synchronize_exact :
      (s : Surroundings) (requests : List ReviewRequest) (review : String → Review)
      (ac ac' : AuthCache)
      → s.sync_requests ≡ ok requests
      → ReviewsAll s review
      → IsConsistent ac
      → IsFresh review ac
      → synchronize s ac ≡ done tt ac'
      → IsConsistent ac'
        × IsFresh review ac'
        × ((user : UserInfo) (n : String)
            → has (list_names ac' user) n ≡ (listed requests n && grants (review n) user))
  synchronize_exact s requests review ac ac' listing total consistent fresh returned =
      let after_is : after (synchronize s ac) ≡ ac' = rw returned in
      let consistent' : IsConsistent ac' =
        subst IsConsistent after_is (synchronize-IsConsistent s ac consistent) in
      let fresh' : IsFresh review ac' =
        subst (IsFresh review) after_is (synchronize-IsFresh s review ac total fresh) in
      (
        consistent',
        fresh',
        λ user n. granted_of_fresh review ac' user n (listed requests n) consistent' fresh' (
            subst (Returns (λ _ ac''. has_record (find_record ac'' n) ≡ listed requests n)) returned
              (synchronize_covers s requests n review ac listing total)),
      )
