-- ===== src/AuthCache/Stale.antt =====
-- pkg/cache/common.go, `synchronize`, where every request is skipped.
use mathlib.Core.List.{Memᴰ}
use mathlib.Core.Path.{subst}
use clusterset_server.Base.{
  ◌≡◌, refl, sym, ap, ◌∙◌, true, false, not, ◌&&◌, ◌||◌, none, some, List, [], ◌∷◌, String, arith,
  ok, any, contains_singleton,
}
use clusterset_server.Platform.{Platform}
use clusterset_server.Objects.{UserInfo}
use clusterset_server.AuthCache.Records.{ReviewRequest, ReviewRecord, review_record_key}
use clusterset_server.AuthCache.Review.{skip_review, last_known}
use clusterset_server.AuthCache.Request.{sync_request, sync_known}
use clusterset_server.AuthCache.Names.{list_names}
use clusterset_server.AuthCache.State.{
  Surroundings, AuthCache, Outcome, done, stuck, after, M, ◌>>◌,
}
use clusterset_server.AuthCache.Sync.{
  union_version, sync_each, sync_listed, sync_resources, synchronize_cluster_role_bindings,
  sync_all_bindings, sync_bindings, purge_record, purge_records, purge_deleted_resources,
  notify_deleted, finish, skip_synchronize, synchronize,
}
use clusterset_server.AuthCache.Keeps.{Ends, Keeps-of_IgnoresWatchers, Keeps-notify_deleted}
use clusterset_server.AuthCache.Consistency.{find_record}
use clusterset_server.AuthCache.Coverage.{listed, has_record}

module _ ⦃P : Platform⦄ where
  open P use {
    StringSet, has, insert_all, empty, items, find, has-insert_all, has-empty, find_error-none,
    find_of_mem-items, range, difference,
  }

  -- Every request is satisfied by the last record of its name.
  abbrev pub AllSkipped : List ReviewRequest → AuthCache → Type 0
  AllSkipped [] ac = Unit
  AllSkipped (request ∷ requests) ac =
      (skip_review (some request) (find_record ac request.name) ≡ true) × AllSkipped requests ac

  sync_request-skipped :
      (s : Surroundings) (request : ReviewRequest) (ac : AuthCache)
      → skip_review (some request) (find_record ac request.name) ≡ true
      → sync_request s request ac ≡ done none ac
  unfolding sync_request sync_known last_known
  sync_request-skipped s request ac skipped =
      ground (arith, find_error-none review_record_key ac.review_records request.name)

  sync_each-skipped :
      (s : Surroundings) (names : StringSet) (requests : List ReviewRequest) (ac : AuthCache)
      → AllSkipped requests ac
      → (names' : StringSet) × (sync_each s names requests ac ≡ done names' ac)
        × ((n : String) → has names' n ≡ (has names n || listed requests n))
  unfolding sync_each any
  sync_each-skipped s names [] ac skipped = (names, refl, λ n. ground arith)
  sync_each-skipped s names (request ∷ requests) ac (skipped, rest) =
      let (names', same, inside) =
        sync_each-skipped s (insert_all names (request.name ∷ [])) requests ac rest in
      (
        names',
        ground (arith, sync_request-skipped s request ac skipped),
        λ n. ground (
          arith,
          inside n,
          has-insert_all names (request.name ∷ []) n,
          contains_singleton request.name n,
        ),
      )

  purge_records-kept :
      (names : StringSet) (ac : AuthCache) (records : List ReviewRecord)
      → ((r : ReviewRecord) → Memᴰ r records → has names r.request.name ≡ true)
      → purge_records names ac records ≡ ac
  unfolding purge_records purge_record
  purge_records-kept names ac [] kept = refl
  purge_records-kept names ac (r ∷ records) kept = ground (
    arith,
    kept r (Memᴰ.head refl),
    purge_records-kept names ac records (λ q m. kept q (Memᴰ.tail m)),
  )

  sync_resources-skipped :
      (s : Surroundings) (requests : List ReviewRequest) (ac : AuthCache)
      → s.sync_requests ≡ ok requests
      → AllSkipped requests ac
      → (names : StringSet) × (sync_resources s ac ≡ done names ac)
        × ((n : String) → has names n ≡ listed requests n)
  unfolding sync_resources sync_listed
  sync_resources-skipped s requests ac listing skipped =
      let (names, same, inside) = sync_each-skipped s empty requests ac skipped in
      (
        names,
        ap (λ o. sync_listed s o ac) listing ∙ same,
        λ n. ground (arith, inside n, has-empty n),
      )

  -- A run that lists the resources, but no binding, and in which every request is satisfied by the
  -- last record of its name, while there are only records of listed names: nobody's access changes,
  -- whatever the reviewer would say now.
  pub stale_access :
      (s : Surroundings) (requests : List ReviewRequest) (ac : AuthCache) (user : UserInfo)
      → s.sync_requests ≡ ok requests
      → s.list_bindings ≡ ok []
      → AllSkipped requests ac
      → ((n : String) → (has_record (find_record ac n) && not (listed requests n)) ≡ false)
      → list_names (after (synchronize s ac)) user ≡ list_names ac user
  unfolding list_names synchronize synchronize_cluster_role_bindings sync_all_bindings sync_bindings
      purge_deleted_resources
  stale_access s requests ac user listing unbound skipped covered =
      let (names, synced, inside) = sync_resources-skipped s requests ac listing skipped in
      let I : AuthCache → Type 0 = λ ac'. list_names ac' user ≡ list_names ac user in
      let kept : purge_records names ac (items review_record_key ac.review_records) ≡ ac =
        purge_records-kept names ac (items review_record_key ac.review_records) (λ r m. ground (
          arith,
          inside r.request.name,
          covered r.request.name,
          find_of_mem-items review_record_key ac.review_records r m,
        )) in
      let told : Ends I I (
          notify_deleted s (range (difference ac.all_known_names names))
            (purge_records names ac (items review_record_key ac.review_records))) =
        (Keeps-notify_deleted s I I (Keeps-of_IgnoresWatchers s I (λ c watchers h. h)) _).at _
          (ap (λ c. list_names c user) kept) in
      let policy_version = union_version (s.role_version ∷ s.role_binding_version ∷ []) in
      let current =
        (skip_synchronize ac.last_state (s.last_sync_version ∷ policy_version ∷ [])).1 in
      let purge : StringSet → M (Unit {0}) =
        λ known. purge_deleted_resources s ac.all_known_names known >> finish known current in
      subst
        (λ o. I (
          after (elim o [
            | done known c ↦ (synchronize_cluster_role_bindings s >> purge known) c
            | stuck c ↦ stuck c
          ])))
        (sym synced)
        (subst (λ b. I (after ((sync_all_bindings s b >> purge names) ac))) (sym unbound)
          (go I names (λ c state h. h) _ current told))
    where
      go :
          (I : AuthCache → Type 0) (names : StringSet)
          → ((c : AuthCache) (state : String)
              → I c
              → I (record c { all_known_names = names; last_state = state }))
          → (o : Outcome (Unit {0})) (state : String) → Ends I I o
          → I (
              after (elim o [
                | done a c ↦ done tt (record c { all_known_names = names; last_state = state })
                | stuck c ↦ stuck c
              ]))
      go I names finishes (done a c) state h = finishes c state h
      go I names finishes (stuck c) state h = h
