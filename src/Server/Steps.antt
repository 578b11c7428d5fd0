-- ===== src/Server/Steps.antt =====
-- Rules for what the steps of the server of pkg/cmd/server.go keep of its caches.
use mathlib.Core.List.{Memᴰ}
use mathlib.Core.Path.{subst}
use clusterset_server.Base.{◌≡◌, refl, sym, ap, ℕ, Bool, List, ◌∷◌, ◌++◌}
use clusterset_server.Platform.{Platform}
use clusterset_server.Objects.{UserInfo, Event}
use clusterset_server.Watcher.{CacheWatcher, new_cache_watcher}
use clusterset_server.AuthCache.State.{AuthCache, Outcome, done, stuck, after, new_auth_cache}
use clusterset_server.AuthCache.Notify.{add_watcher, remove_watcher}
use clusterset_server.AuthCache.Removal.{remove_watcher_removes}
use clusterset_server.AuthCache.Keeps.{IgnoresWatchers}
use clusterset_server.AuthCache.Sync.{synchronize}
use clusterset_server.ClusterCache
use clusterset_server.ClusterCache.{Lister}
use clusterset_server.Server.{
  CacheName, clusters, cluster_sets, Library, Informers, run_cache, actions_of, post_start_hooks,
  surroundings_of, lister_of, Server, new_filter_server, cache_of, put, with_watchers, Step,
  Reaches,
}
use clusterset_server.Server.Watching.{watch_of-IsAdded}

module _ ⦃P : Platform⦄ where
  open P use {StringSet, empty}

  -- `Q` holds of what the informers hold at each run, and `W` at each watch.
  abbrev pub EveryRead :
      {library : Library} {s t : Server}
      → (Informers → Type 0)
      → (Informers → Type 0)
      → Reaches library s t
      → Type 0
  EveryRead Q W Reaches.here = Unit
  EveryRead Q W (Reaches.later reached (Step.ran c period informers ac hooked e same)) =
      EveryRead Q W reached × Q informers
  EveryRead Q W
        (Reaches.later reached (Step.watched c informers id context options ac ac' w e f g h)) =
      EveryRead Q W reached × W informers
  EveryRead Q W (Reaches.later reached (Step.ended c id ac e same)) = EveryRead Q W reached
  EveryRead Q W (Reaches.later reached (Step.received c front back w e rest split full same)) =
      EveryRead Q W reached

  -- what is so of any informers
  abbrev pub Any : Informers → Type 0
  Any informers = Unit

  abbrev pub EveryRun :
      {library : Library} {s t : Server} → (Informers → Type 0) → Reaches library s t → Type 0
  EveryRun Q reached = EveryRead Q Any reached

  -- What the steps of the server may do to a cache, where `Q` holds of the informers at each
  -- run and `W` at each watch.
  pub record IsServerInvariant (library : Library) (Q W : Informers → Type 0)
      (I : CacheName → AuthCache → Type 0) : Type 0 where
    pub at_new : (c : CacheName) → I c new_auth_cache
    pub at_run :
        (c : CacheName) (period : ℕ) (informers : Informers) (ac : AuthCache)
        → Memᴰ (run_cache c period) (actions_of post_start_hooks)
        → Q informers
        → I c ac
        → I c (after (synchronize (surroundings_of library c informers ac) ac))
    pub at_watch :
        (c : CacheName) (informers : Informers) (ac : AuthCache) (id : ℕ) (user : UserInfo)
        (allowed : StringSet) (include_all : Bool)
        → W informers
        → I c ac
        → I c (
            add_watcher ac (
              new_cache_watcher id user allowed
                (ClusterCache.watchable (lister_of c informers) ac)
                include_all))
    pub at_end : (c : CacheName) (ac : AuthCache) (id : ℕ) → I c ac → I c (remove_watcher ac id)
    pub at_receive :
        (c : CacheName) (ac : AuthCache) (front back : List CacheWatcher) (w : CacheWatcher)
        (e : Event) (rest : List Event)
        → ac.watchers ≡ front ++ w ∷ back
        → w.incoming ≡ e ∷ rest
        → I c ac
        → I c (record ac { watchers = front ++ record w { incoming = rest } ∷ back })

  module _ (library : Library) (Q W : Informers → Type 0) (I : CacheName → AuthCache → Type 0) where
    abbrev pub Holds : Server → Type 0
    Holds s = (c : CacheName) → I c (after (cache_of s c))

    put-Holds :
        (s : Server) (c : CacheName) (o : Outcome (Unit {0}))
        → I c (after o)
        → Holds s
        → Holds (put s c o)
    put-Holds s clusters o h holds clusters = h
    put-Holds s clusters o h holds cluster_sets = holds cluster_sets
    put-Holds s cluster_sets o h holds clusters = holds clusters
    put-Holds s cluster_sets o h holds cluster_sets = h

    at_cache :
        (s : Server) (c : CacheName) (ac : AuthCache) → cache_of s c ≡ done tt ac → Holds s → I c ac
    at_cache s c ac e holds = subst (I c) (ap after e) (holds c)

    after-with_watchers :
        (o : Outcome (Unit {0})) (watchers : List CacheWatcher)
        → record (after o) { watchers = watchers } ≡ after (with_watchers o watchers)
    after-with_watchers (done tt ac) watchers = refl
    after-with_watchers (stuck ac) watchers = refl

    new-Holds : IsServerInvariant library Q W I → Holds new_filter_server
    unfolding new_filter_server
    new-Holds inv clusters = inv.at_new clusters
    new-Holds inv cluster_sets = inv.at_new cluster_sets

    -- What is invariant holds of both caches in every state that the server reaches.
    pub reached-Holds :
        {s : Server}
        → IsServerInvariant library Q W I
        → (reached : Reaches library new_filter_server s) → EveryRead Q W reached
        → Holds s
    reached-Holds inv Reaches.here runs = new-Holds inv
    reached-Holds inv (Reaches.later {t} reached (Step.ran c period informers ac hooked e same))
          (runs, now) =
        let holds = reached-Holds inv reached runs in
        subst Holds (sym same) (
          put-Holds t c _ (inv.at_run c period informers ac hooked now (at_cache t c ac e holds))
            holds)
    reached-Holds inv
          (Reaches.later {t} reached
            (Step.watched c informers id context options ac ac' w e fresh watched same))
          (runs, now) =
        let holds = reached-Holds inv reached runs in
        let (user, allowed, include_all, made, added) =
          watch_of-IsAdded library c informers id context options ac ac' w watched in
        let watching : I c (add_watcher ac w) =
          subst (λ v. I c (add_watcher ac v)) (sym made)
            (inv.at_watch c informers ac id user allowed include_all now
              (at_cache t c ac e holds)) in
        subst Holds (sym same) (put-Holds t c _ (subst (I c) (sym added) watching) holds)
    reached-Holds inv (Reaches.later {t} reached (Step.ended c id ac e same)) runs =
        let holds = reached-Holds inv reached runs in
        subst Holds (sym same)
          (put-Holds t c _ (inv.at_end c ac id (at_cache t c ac e holds)) holds)
    reached-Holds inv
          (Reaches.later {t} reached (Step.received c front back w e rest split full same)) runs =
        let holds = reached-Holds inv reached runs in
        subst Holds (sym same) (
          put-Holds t c _
            (subst (I c) (after-with_watchers (cache_of t c) _)
              (inv.at_receive c (after (cache_of t c)) front back w e rest split full (holds c)))
            holds)

  pub IsServerInvariant-of_IgnoresWatchers :
      (library : Library) (Q : Informers → Type 0) (I : CacheName → AuthCache → Type 0)
      → ((c : CacheName) → IgnoresWatchers (I c))
      → ((c : CacheName) → I c new_auth_cache)
      → ((c : CacheName) (period : ℕ) (informers : Informers) (ac : AuthCache)
          → Memᴰ (run_cache c period) (actions_of post_start_hooks)
          → Q informers
          → I c ac
          → I c (after (synchronize (surroundings_of library c informers ac) ac)))
      → IsServerInvariant library Q Any I
  unfolding add_watcher
  IsServerInvariant-of_IgnoresWatchers library Q I ignores new run = record {
    at_new = new;
    at_run = run;
    at_watch = λ c informers ac id user allowed include_all _ h. ignores c ac _ h;
    at_end = λ c ac id h. subst (I c) (sym (remove_watcher_removes ac id).1) (ignores c ac _ h);
    at_receive = λ c ac front back w e rest _ _ h. ignores c ac _ h;
  }

  -- What is so of any informers is so at every run.
  EveryRun-always :
      {library : Library} {s t : Server} (reached : Reaches library s t) → EveryRun Any reached
  EveryRun-always Reaches.here = tt
  EveryRun-always (Reaches.later reached (Step.ran c period informers ac hooked e same)) =
      (EveryRun-always reached, tt)
  EveryRun-always
        (Reaches.later reached (Step.watched c informers id context options ac ac' w e f g h)) =
      (EveryRun-always reached, tt)
  EveryRun-always (Reaches.later reached (Step.ended c id ac e same)) = EveryRun-always reached
  EveryRun-always (Reaches.later reached (Step.received c front back w e rest split full same)) =
      EveryRun-always reached

  -- What is invariant whatever the informers hold.
  abbrev pub IsAlwaysInvariant : Library → (CacheName → AuthCache → Type 0) → Type 0
  IsAlwaysInvariant library I = IsServerInvariant library Any Any I

  pub reached-always :
      (library : Library) (I : CacheName → AuthCache → Type 0) {s : Server}
      → IsAlwaysInvariant library I
      → Reaches library new_filter_server s
      → (c : CacheName) → I c (after (cache_of s c))
  reached-always library I inv reached =
      reached-Holds library Any Any I inv reached (EveryRun-always reached)
