-- ===== src/AuthCache/Purge.antt =====
-- pkg/cache/common.go, `purgeDeletedResources`: the records that it leaves.
use mathlib.Core.Path.{subst}
use clusterset_server.Base.{
  ◌≡◌, refl, sym, inl, inr, not, ◌&&◌, none, some, Option-cases, List, [], ◌∷◌, String, ◌==◌,
  eq_iff, arith, if◌then◌else◌, any, any_of_mem,
}
use clusterset_server.Platform.{Platform}
use clusterset_server.AuthCache.Records.{ReviewRecord, review_record_key}
use clusterset_server.AuthCache.Consistency.{find_record}
use clusterset_server.AuthCache.State.{AuthCache}
use clusterset_server.AuthCache.Sync.{purge_record, purge_records}

module _ ⦃P : Platform⦄ where
  open P use {
    StringSet, find, has, empty, insert_all, items, delete, find-delete, find-add,
    mem-items_of_find, key_of_find, has-insert_all, has-empty, find_error-none,
  }

  pub find-purge_record :
      (names : StringSet) (ac : AuthCache) (r : ReviewRecord) (n : String)
      → find_record (purge_record names ac r) n
        ≡ (if r.request.name == n && not (has names n) then none else find_record ac n)
  unfolding purge_record
  find-purge_record names ac r n =
      ground (arith, eq_iff r.request.name n, find-delete review_record_key ac.review_records r n)

  find-purge_records :
      (names : StringSet) (ac : AuthCache) (records : List ReviewRecord) (n : String)
      → find_record (purge_records names ac records) n ≡ (
          if any (λ r. r.request.name == n) records && not (has names n)
          then none
          else find_record ac n)
  unfolding purge_records any
  find-purge_records names ac [] n = refl
  find-purge_records names ac (r ∷ records) n = ground (
    arith,
    find-purge_record names ac r n,
    find-purge_records names (purge_record names ac r) records n,
  )

  -- All records are gone through: those of the names that are still there remain.
  pub find_purged :
      (names : StringSet) (ac : AuthCache) (n : String)
      → find_record (purge_records names ac (items review_record_key ac.review_records)) n
        ≡ (if has names n then find_record ac n else none)
  find_purged names ac n = elim (Option-cases (find_record ac n)) [
    | inl missing ↦
        ground (arith, find-purge_records names ac (items review_record_key ac.review_records) n)
    | inr (r, found) ↦
        let same = key_of_find review_record_key ac.review_records n r found in
        let there : find_record ac r.request.name ≡ some r =
          subst (λ m. find_record ac m ≡ some r) (sym same) found in
        ground (
          arith,
          find-purge_records names ac (items review_record_key ac.review_records) n,
          any_of_mem (λ (q : ReviewRecord). q.request.name == n)
              (items review_record_key ac.review_records)
              (mem-items_of_find review_record_key ac.review_records r there)
              ((eq_iff r.request.name n).1 same),
        )
  ]
