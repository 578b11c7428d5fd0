-- ===== src/Server/Interleaved/Covers.antt =====
-- pkg/cmd/server.go: the server of whole runs is covered by the one of accesses.
use mathlib.Core.List.{append-nil}
use mathlib.Core.Path.{subst}
use clusterset_server.Base.{◌≡◌, refl, sym, ℕ, List, [], ◌∷◌, ◌++◌, any, nat_eq, false}
use clusterset_server.Platform.{Platform}
use clusterset_server.Objects.{Event}
use clusterset_server.Watcher.{CacheWatcher}
use clusterset_server.AuthCache.Program.Alone.Synchronize.{alone-synchronize_program}
use clusterset_server.AuthCache.Program.Synchronize.{synchronize_program}
use clusterset_server.AuthCache.State.{AuthCache, Outcome, done, stuck, after}
use clusterset_server.Server.{
  CacheName, clusters, cluster_sets, Library, surroundings_of, Server, new_filter_server, cache_of,
  put, with_watchers, Step, Reaches,
}
use clusterset_server.Server.Watching.{watch_of-IsAdded}
use clusterset_server.Server.Interleaved.{new_live, running, at_rest, Access, Runs}
use clusterset_server.Server.Interleaved.Alone.{ended, runs_alone}
use clusterset_server.Server.Interleaved.Telling.{Runs-trans}

module _ ⦃P : Platform⦄ where
  module _ (library : Library) where
    abbrev Covered : CacheName → Outcome (Unit {0}) → Type 0
    Covered c o = Runs library c new_live (ended [] o)

    put-Covered :
        (s : Server) (c : CacheName) (o : Outcome (Unit {0}))
        → Covered c o
        → ((c : CacheName) → Covered c (cache_of s c))
        → (c' : CacheName) → Covered c' (cache_of (put s c o) c')
    put-Covered s clusters o h covered clusters = h
    put-Covered s clusters o h covered cluster_sets = covered cluster_sets
    put-Covered s cluster_sets o h covered clusters = covered clusters
    put-Covered s cluster_sets o h covered cluster_sets = h

    -- the cache between two runs
    at_idle :
        (s : Server) (c : CacheName) (ac : AuthCache)
        → cache_of s c ≡ done tt ac
        → Covered c (cache_of s c)
        → Covered c (done tt ac)
    at_idle s c ac e covered = subst (Covered c) e covered

    received-Covered :
        (c : CacheName) (o : Outcome (Unit {0})) (front back : List CacheWatcher) (w : CacheWatcher)
        (e : Event) (rest : List Event)
        → (after o).watchers ≡ front ++ w ∷ back
        → w.incoming ≡ e ∷ rest
        → Covered c o
        → Covered c (with_watchers o (front ++ record w { incoming = rest } ∷ back))
    received-Covered c (done tt ac) front back w e rest split full covered =
        Runs.later covered (Access.received front back w e rest split full refl)
    received-Covered c (stuck ac) front back w e rest split full covered =
        Runs.later covered (Access.received front back w e rest split full refl)

    fresh_among :
        (watchers : List CacheWatcher) (id : ℕ)
        → any (λ v. nat_eq v.id id) watchers ≡ false
        → any (λ v. nat_eq v.id id) (watchers ++ []) ≡ false
    fresh_among watchers id h =
        subst (λ ws. any (λ v. nat_eq v.id id) ws ≡ false) (sym (append-nil watchers)) h

    step-Covered :
        {t s : Server}
        → Step library t s
        → ((c : CacheName) → Covered c (cache_of t c))
        → (c : CacheName) → Covered c (cache_of s c)
    step-Covered {t} (Step.ran c period informers ac hooked e same) covered =
        let alone_run = runs_alone library c informers ac [] synchronize_program ac in
        subst (λ s. (c : CacheName) → Covered c (cache_of s c)) (sym same)
          (put-Covered t c _
            (Runs-trans
              (Runs.later (at_idle t c ac e (covered c)) (Access.starts period hooked refl refl))
              (subst
                (λ o.
                  Runs library c
                    (record { cache = ac; phase = running synchronize_program; pending = [] })
                    (ended [] o))
                (alone-synchronize_program (surroundings_of library c informers ac) ac) alone_run))
            covered)
    step-Covered {t} (Step.watched c informers id context options ac ac' w e fresh watched same)
          covered =
        let (user, allowed, include_all, made, added) =
          watch_of-IsAdded library c informers id context options ac ac' w watched in
        subst (λ s. (c : CacheName) → Covered c (cache_of s c)) (sym same)
          (put-Covered t c _
            (subst (λ k. Covered c (done tt k)) (sym added)
              (Runs.later
                (Runs.later (at_idle t c ac e (covered c)) (
                  Access.made informers id context options w ac' (fresh_among ac.watchers id fresh)
                    watched refl))
                (Access.watched [] [] w at_rest refl refl)))
            covered)
    step-Covered {t} (Step.ended c id ac e same) covered =
        subst (λ s. (c : CacheName) → Covered c (cache_of s c)) (sym same)
          (put-Covered t c _
            (Runs.later (at_idle t c ac e (covered c)) (Access.removed id at_rest refl)) covered)
    step-Covered {t} (Step.received c front back w e rest split full same) covered =
        subst (λ s. (c : CacheName) → Covered c (cache_of s c)) (sym same)
          (put-Covered t c _
            (received-Covered c (cache_of t c) front back w e rest split full (covered c)) covered)

    new-Covered : (c : CacheName) → Covered c (cache_of new_filter_server c)
    unfolding new_filter_server
    new-Covered clusters = Runs.here
    new-Covered cluster_sets = Runs.here

    -- Every state of a cache that the server of whole runs reaches is one that some order of accesses
    -- leads to.
    pub reached_by_accesses :
        {s : Server} (c : CacheName)
        → Reaches library new_filter_server s
        → Runs library c new_live (ended [] (cache_of s c))
    reached_by_accesses c Reaches.here = new-Covered c
    reached_by_accesses c (Reaches.later {t} reached step) =
        step-Covered step (λ c'. reached_by_accesses c' reached) c
