-- ===== src/Server/Interleaved/Consistent.antt =====
-- pkg/cmd/server.go: the stores of a cache whenever no review is half written.
use clusterset_server.Base.{◌≡◌, ◌||◌, String, any}
use clusterset_server.Platform.{Platform}
use clusterset_server.Objects.{UserInfo}
use clusterset_server.AuthCache.Consistency.{
  IsConsistent, IsConsistent-IgnoresWatchers, apply_review-IsConsistent, purge_record-IsConsistent,
  finished-IsConsistent, find_record, reviews_user, reviews_group, new_auth_cache-IsConsistent,
}
use clusterset_server.AuthCache.Listing.{list_names_exact}
use clusterset_server.AuthCache.Names.{list_names}
use clusterset_server.AuthCache.State.{Surroundings}
use clusterset_server.AuthCache.Program.{stores}
use clusterset_server.AuthCache.Program.Restores.{IsRestored}
use clusterset_server.Server.{CacheName, Library}
use clusterset_server.Server.Interleaved.Sights.{EverySight-always}
use clusterset_server.Server.Steps.{Any}
use clusterset_server.Server.Interleaved.Settles.{runs-IsSettling, IsBetween, settled_between}
use clusterset_server.Server.Interleaved.{Live, new_live, Runs}

module _ ⦃P : Platform⦄ where
  open P use {has}

  -- what is so of all that is read
  abbrev Anything : Surroundings → Type 0
  Anything s = Unit

  IsConsistent-IsRestored : IsRestored Anything IsConsistent
  IsConsistent-IsRestored = record {
    at_review = λ s ac request v _ _ h. apply_review-IsConsistent ac request v h;
    at_purge = purge_record-IsConsistent;
    at_end = finished-IsConsistent;
  }

  -- Whatever the informers became between the accesses of the runs: when the run is at rest, while
  -- it notifies, and when it waits, the cache is consistent, and a user is listed exactly the names
  -- whose review record names the user or one of the user's groups.
  pub live_list_names_exact :
      (library : Library) (c : CacheName) {x : Live}
      → Runs library c new_live x
      → IsBetween x.phase
      → IsConsistent x.cache
        × ((user : UserInfo) (n : String)
            → has (list_names x.cache user) n ≡ (
                reviews_user (find_record x.cache n) user.name
                || any (λ g. reviews_group (find_record x.cache n) g) user.groups))
  live_list_names_exact library c {x} runs b =
      let settling =
        runs-IsSettling library c Anything IsConsistent IsConsistent-IsRestored Any Any
          (λ informers ac _. tt) runs new_auth_cache-IsConsistent (EverySight-always runs) in
      let consistent : IsConsistent x.cache =
        IsConsistent-IgnoresWatchers (stores x.cache) x.cache.watchers
          (settled_between library c Anything IsConsistent x.phase (stores x.cache) b settling) in
      (consistent, λ user n. list_names_exact x.cache user n consistent)
