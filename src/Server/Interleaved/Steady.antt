-- ===== src/Server/Interleaved/Steady.antt =====
-- pkg/cmd/server.go: what is listed after a run that other goroutines interfere with.
use mathlib.Core.List.{Memᴰ}
use mathlib.Core.Path.{subst}
use clusterset_server.Base.{
  ◌≡◌, ◌↔◌, refl, sym, ◌∙◌, Bool, true, Option, some, List, [], String, ok,
}
use clusterset_server.Platform.{Platform}
use clusterset_server.Objects.{Object, UserInfo}
use clusterset_server.Rbac.{Subject, ClusterRoleBinding}
use clusterset_server.Rbac.Reviewer.{Review, get_action, SplitsSubjects, MayGet}
use clusterset_server.AuthCache.Consistency.{
  IsConsistent, apply_review-IsConsistent, purge_record-IsConsistent, finished-IsConsistent,
  new_auth_cache-IsConsistent,
}
use clusterset_server.AuthCache.Coverage.{ReviewsAll}
use clusterset_server.AuthCache.Exactness.{IsFresh, IsFresh-IsInvariant}
use clusterset_server.AuthCache.Program.{stores}
use clusterset_server.AuthCache.Program.Restores.{IsRestored}
use clusterset_server.AuthCache.Program.Synchronize.{synchronize_program}
use clusterset_server.AuthCache.Returns.{IsFresh-new_auth_cache}
use clusterset_server.AuthCache.Runs.{IsInvariant}
use clusterset_server.AuthCache.State.{Surroundings, AuthCache, new_auth_cache}
use clusterset_server.ClusterCache.Access.{cluster_group, names}
use clusterset_server.ClusterCache.Listing.{IsLister}
use clusterset_server.Registry.{ListOptions, label_selector_of}
use clusterset_server.Server.{clusters, Library, Informers, evaluator_of, surroundings_of, list_of}
use clusterset_server.Server.Deadlock.{list_of-watchers}
use clusterset_server.Server.Steady.{IsSteady, verdict, reviews_all, returned_list_exact}
use clusterset_server.Server.Steps.{Any}
use clusterset_server.Server.Interleaved.{Live, new_live, idle, running, going_on, Runs}
use clusterset_server.Server.Interleaved.Sights.{EverySight}
use clusterset_server.Server.Interleaved.Serial.{IsOneRun, run_serializes}
use clusterset_server.Server.Interleaved.Settles.{runs-IsSettling, IsBetween, settled_between}

module _ (library : Library) (account : String → Subject → String → Bool)
    (splits : SplitsSubjects library.split account) (informers : Informers)
    (bindings : List ClusterRoleBinding) (listed : informers.list_bindings ≡ ok bindings) where
  module _ ⦃P : Platform⦄ where
    abbrev verdicts : String → Review
    verdicts = verdict library account splits informers bindings listed

    -- The stores are consistent and say what the reviewer says.
    record IsCurrent (ac : AuthCache) : Type 0 where
      consistent : IsConsistent ac
      fresh : IsFresh verdicts ac

    abbrev Steadily : Surroundings → Type 0
    Steadily s = ReviewsAll s verdicts

    IsFresh-invariant :
        (s : Surroundings) → Steadily s → IsInvariant s (IsFresh verdicts) (IsFresh verdicts)
    IsFresh-invariant s total = IsFresh-IsInvariant s verdicts total

    -- what is read of the informers themselves
    abbrev here_and_now : Surroundings
    here_and_now = surroundings_of library clusters informers new_auth_cache

    reviewed_now : Steadily here_and_now
    reviewed_now =
        reviews_all library account splits informers bindings listed informers new_auth_cache refl

    IsCurrent-IsRestored : IsRestored Steadily IsCurrent
    IsCurrent-IsRestored = record {
      at_review = λ s ac request v total reviewed h. record {
        consistent = apply_review-IsConsistent ac request v h.consistent;
        fresh = (IsFresh-invariant s total).sync.at_review ac request v reviewed h.fresh;
      };
      at_purge = λ ac names r waiting h. record {
        consistent = purge_record-IsConsistent ac names r waiting h.consistent;
        fresh = (IsFresh-invariant here_and_now reviewed_now).at_purge ac names r waiting h.fresh;
      };
      at_end = λ ac names state h. record {
        consistent = finished-IsConsistent ac names state h.consistent;
        fresh = (IsFresh-invariant here_and_now reviewed_now).at_finish ac names state h.fresh;
      };
    }

    new-IsCurrent : IsCurrent new_auth_cache
    new-IsCurrent = record {
      consistent = new_auth_cache-IsConsistent;
      fresh = IsFresh-new_auth_cache verdicts;
    }

    -- Where subjects are split as documented, and the bindings and the roles were the same whenever
    -- a run read them so far, with the bindings listed: after a run from rest to rest that reads
    -- these informers at all its accesses, with a lister that is an index by name, a list of
    -- clusters by any user gives exactly the listed clusters that a subject may get which names the
    -- user, the user's account or one of the user's groups, of those that the selector matches,
    -- whatever watchers are made, added, told, removed, or take events before and meanwhile.
    pub live_steady_list_exact :
        (x : Live) {y : Live} (before : Runs library clusters new_live x)
        (run : Runs library clusters (going_on x (running synchronize_program)) y)
        (objects : List Object) (user : UserInfo) (options : Option ListOptions)
        → EverySight (IsSteady library account splits informers bindings listed) Any before
        → x.phase ≡ idle
        → IsOneRun library clusters informers run
        → y.phase ≡ idle
        → IsLister informers.cluster_lister objects
        → (items : List Object) × (list_of library clusters informers y.cache (some user) options
            ≡ ok items)
          × ((c : Object)
              → Memᴰ c items ↔ (
                  Memᴰ c objects
                  × ((s : Subject) × MayGet
                        (evaluator_of informers)
                        bindings
                        (get_action cluster_group "managedclusters" c.name)
                        s
                      × (names account s user ≡ true))
                  × (label_selector_of options c.labels ≡ true)))
    live_steady_list_exact x {y} before run objects user options seen rest one over h =
        let settling =
          runs-IsSettling library clusters Steadily IsCurrent IsCurrent-IsRestored
            (IsSteady library account splits informers bindings listed) Any
            (λ now ac same.
              reviews_all library account splits informers bindings listed now ac same)
            before new-IsCurrent seen in
        let current : IsCurrent (stores x.cache) =
          settled_between library clusters Steadily IsCurrent x.phase (stores x.cache)
            (subst IsBetween (sym rest) tt) settling in
        let (items, found, inside) =
          returned_list_exact library account splits informers bindings listed objects
            (stores x.cache) (stores y.cache) user options current.consistent current.fresh h
            (run_serializes library clusters informers x run one over) in
        (
          items,
          sym (list_of-watchers library clusters informers y.cache [] (some user) options) ∙ found,
          inside,
        )
