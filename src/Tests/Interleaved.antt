-- ===== src/Tests/Interleaved.antt =====
-- The theorems on the server at every access, for two managed clusters and a binding: in the middle
-- of a run, and with a watcher whose channel is full.
use mathlib.Core.List.{Memᴰ}
use clusterset_server.Base.{
  ◌≡◌, ◌≢◌, refl, true, false, ◌||◌, ◌≤◌, ◌==◌, none, some, List, [], ◌∷◌, String, ok, any,
  contains, length,
}
use clusterset_server.Objects.{Object, UserInfo, added}
use clusterset_server.Watcher.{CacheWatcher, new_cache_watcher}
use clusterset_server.Watcher.Spared.{is_about}
use clusterset_server.AuthCache.Consistency.{IsConsistent, find_record, reviews_user, reviews_group}
use clusterset_server.AuthCache.Names.{list_names}
use clusterset_server.AuthCache.Notify.{add_watcher}
use clusterset_server.AuthCache.Program.{◌then◌}
use clusterset_server.AuthCache.Program.Synchronize.{synchronize_program}
use clusterset_server.AuthCache.State.{Outcome, done, stuck, new_auth_cache}
use clusterset_server.ClusterCache
use clusterset_server.ClusterSetCache
use clusterset_server.Registry
use clusterset_server.Registry.ClusterSets
use clusterset_server.Scope.{scopes_to_visible_namespaces}
use clusterset_server.Server.{clusters, cluster_sets, list_of, watch_of, cache_of}
use clusterset_server.Server.Interleaved.{Live, new_live, waiting, at_rest, at_work, Access, Runs}
use clusterset_server.Server.Interleaved.Alone.{ended}
use clusterset_server.Server.Interleaved.Bounds.{live_channels_fit}
use clusterset_server.Server.Interleaved.Consistent.{live_list_names_exact}
use clusterset_server.Server.Interleaved.Settles.{IsBetween}
use clusterset_server.Server.Interleaved.Covers.{reached_by_accesses}
use clusterset_server.Server.Interleaved.Listed.{never_bound_never_live_listed}
use clusterset_server.Server.Interleaved.Told.{never_bound_never_live_told}
use clusterset_server.Server.Interleaved.Untouched.{cluster_sets_never_shown}
use clusterset_server.Server.Interleaved.Waiting.{addresses, waits_for_ever}
use clusterset_server.Tests.Access.{account, split-SplitsSubjects}
use clusterset_server.Tests.Cluster.{cluster, ann, watcher}
use clusterset_server.Tests.Clusters
use clusterset_server.Tests.Clusters.{lister, lister-IsLister}
use clusterset_server.Tests.Lists.{list_platform}
use clusterset_server.Tests.Servers.{
  library, informers, clusters_hooked, ann_unbound, after_run, has_run,
}

-- A run that has read the versions and the resources.
mid_run : (x : Live) × Runs library clusters new_live x
unfolding synchronize_program ◌then◌
mid_run = (
  _,
  Runs.later
      (Runs.later
        (Runs.later (Runs.later Runs.here (Access.starts 1 clusters_hooked refl refl))
          (Access.read _ informers refl refl))
        (Access.looked _ refl refl))
      (Access.read _ informers refl refl),
)

never_bound_never_live_listed_example :
    (items : List Object) × (list_of library clusters informers mid_run.0.cache (some ann) none
      ≡ ok items)
    × ((c : Object) → Memᴰ c items → Memᴰ c Clusters.clusters × (c.name ≢ "c1"))
unfolding mid_run
never_bound_never_live_listed_example =
    never_bound_never_live_listed library account split-SplitsSubjects ann "c1" mid_run.1 informers
      Clusters.clusters none (((((tt, tt), ann_unbound), tt), ann_unbound)) lister-IsLister

-- ann's watcher, made and added in the middle of the run
abbrev ann_watcher : CacheWatcher
ann_watcher =
    new_cache_watcher 3 ann
      (Registry.allowed_from []
        (scopes_to_visible_namespaces library.scopes informers.get_role [] true).namespaces
        Clusters.clusters)
      (ClusterCache.watchable lister new_auth_cache) false

watch_made :
    watch_of library clusters informers 3 (some (some ann)) none new_auth_cache
    ≡ ok (ann_watcher, add_watcher new_auth_cache ann_watcher)
unfolding watch_of Registry.watch Registry.watch_user scopes_to_visible_namespaces
watch_made = refl

watched_run : (x : Live) × Runs library clusters new_live x
unfolding mid_run any
watched_run = (
  _,
  Runs.later
      (Runs.later mid_run.1 (
        Access.made informers 3 (some (some ann)) none ann_watcher
          (add_watcher new_auth_cache ann_watcher) refl watch_made refl))
      (Access.watched [] [] ann_watcher at_work refl refl),
)

ann_watches : Memᴰ ann_watcher watched_run.0.cache.watchers
unfolding watched_run add_watcher mid_run
ann_watches = Memᴰ.head refl

ann_watcher_is_hers : ann_watcher.user ≡ ann
unfolding new_cache_watcher
ann_watcher_is_hers = refl

never_bound_never_live_told_example :
    (any (is_about "c1") ann_watcher.incoming ≡ false)
    × (any (λ object. object.name == "c1") ann_watcher.initial_resources ≡ false)
unfolding watched_run mid_run
never_bound_never_live_told_example =
    never_bound_never_live_told library account split-SplitsSubjects ann "c1" watched_run.1
      ann_watcher
      (
        (
          (
            (((tt, tt), (ann_unbound, (Clusters.clusters, lister-IsLister))), tt),
            (ann_unbound, (Clusters.clusters, lister-IsLister)),
          ),
          (Clusters.clusters, lister-IsLister),
        ),
        tt,
      )
      ann_watches ann_watcher_is_hers

live_channels_fit_example : length ann_watcher.incoming ≤ 1000
live_channels_fit_example = live_channels_fit library clusters ann_watcher watched_run.1 ann_watches

ended-IsBetween : (o : Outcome (Unit {0})) → IsBetween (ended [] o).phase
ended-IsBetween (done tt ac) = tt
ended-IsBetween (stuck ac) = tt

live_list_names_exact_example :
    IsConsistent (ended [] (cache_of after_run clusters)).cache
    × ((user : UserInfo) (n : String)
        → contains (list_names (ended [] (cache_of after_run clusters)).cache user) n ≡ (
            reviews_user (find_record (ended [] (cache_of after_run clusters)).cache n) user.name
            || any
                (λ g.
                  reviews_group (find_record (ended [] (cache_of after_run clusters)).cache n) g)
                user.groups))
live_list_names_exact_example =
    live_list_names_exact library clusters (reached_by_accesses library clusters has_run)
      (ended-IsBetween (cache_of after_run clusters))

-- a run that waits, with an event for ann, which she takes
abbrev waiting_live : Live
waiting_live = record {
  cache = record new_auth_cache {
    watchers = record watcher { incoming = added (cluster "c1") ∷ [] } ∷ [];
  };
  phase = waiting;
  pending = [];
}

abbrev waiting_later : Live
waiting_later = record waiting_live { cache = record new_auth_cache { watchers = watcher ∷ [] } }

event_taken : Access library clusters waiting_live waiting_later
unfolding new_cache_watcher
event_taken =
    Access.received [] [] (record watcher { incoming = added (cluster "c1") ∷ [] })
      (added (cluster "c1")) [] refl refl refl

waits_for_ever_example :
    (waiting_later.phase ≡ waiting)
    × (addresses waiting_later.cache.watchers ≡ addresses waiting_live.cache.watchers)
    × (list_of library clusters informers waiting_later.cache (some ann) none
        ≡ list_of library clusters informers waiting_live.cache (some ann) none)
waits_for_ever_example =
    waits_for_ever library clusters informers (some ann) none refl
      (Runs.later Runs.here event_taken)

-- ann's watcher of cluster sets
abbrev set_watcher : CacheWatcher
set_watcher =
    new_cache_watcher 4 ann
      (Registry.allowed_from []
        (scopes_to_visible_namespaces library.scopes informers.get_role [] true).namespaces [])
      (ClusterSetCache.watchable lister new_auth_cache) false

set_watch_made :
    watch_of library cluster_sets informers 4 (some (some ann)) none new_auth_cache
    ≡ ok (set_watcher, add_watcher new_auth_cache set_watcher)
unfolding watch_of Registry.watch Registry.watch_user scopes_to_visible_namespaces
    Registry.ClusterSets.watch Registry.allowed_from Registry.ClusterSets.allowed_from contains
set_watch_made = refl

set_watched_run : (x : Live) × Runs library cluster_sets new_live x
unfolding any
set_watched_run = (
  _,
  Runs.later
      (Runs.later Runs.here (
        Access.made informers 4 (some (some ann)) none set_watcher
          (add_watcher new_auth_cache set_watcher) refl set_watch_made refl))
      (Access.watched [] [] set_watcher at_rest refl refl),
)

cluster_sets_never_shown_example :
    (list_of library cluster_sets informers set_watched_run.0.cache (some ann) none ≡ ok [])
    × ((w : CacheWatcher) → Memᴰ w set_watched_run.0.cache.watchers → w.incoming ≡ [])
cluster_sets_never_shown_example =
    cluster_sets_never_shown library informers ann none set_watched_run.1
