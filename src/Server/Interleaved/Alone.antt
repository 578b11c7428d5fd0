-- ===== src/Server/Interleaved/Alone.antt =====
-- pkg/cmd/server.go: a run that nothing interferes with, as accesses.
use clusterset_server.Base.{refl, ap, Bool, true, false, List, [], String}
use clusterset_server.Platform.{Platform}
use clusterset_server.Watcher.{CacheWatcher}
use clusterset_server.AuthCache.Notify.{notify_each, notify_watchers, notified}
use clusterset_server.AuthCache.Program.{
  stores, written, readings, Program, returns, reads, looks, writes, notifies,
}
use clusterset_server.AuthCache.Program.Alone.{alone}
use clusterset_server.AuthCache.State.{AuthCache, Outcome, done, stuck}
use clusterset_server.Server.{CacheName, Library, Informers, surroundings_of}
use clusterset_server.Server.Interleaved.Telling.{
  Runs-trans, live_at, phase_of, told_each, readings_same,
}
use clusterset_server.Server.Interleaved.{idle, running, waiting, Live, Access, Runs}

module _ ⦃P : Platform⦄ where
  open P use {StringSet}

  -- what has become of the run
  abbrev pub ended : List CacheWatcher → Outcome (Unit {0}) → Live
  ended pending (done tt ac) = record { cache = ac; phase = idle; pending = pending }
  ended pending (stuck ac) = record { cache = ac; phase = waiting; pending = pending }

  module _ (library : Library) (c : CacheName) (informers : Informers) where
    -- what follows a notification
    after_notice :
        (ac₀ : AuthCache) (pending : List CacheWatcher) (name : String) (users groups : StringSet)
        (p : Program (Unit {0})) (ac : AuthCache) (r : List CacheWatcher × Bool)
        → ((ac' : AuthCache)
            → Runs library c
                (record { cache = ac'; phase = running p; pending = pending })
                (ended pending (alone (surroundings_of library c informers ac₀) p ac')))
        → Runs library c
            (live_at library c informers pending ac r.0
              (phase_of library c informers pending ac₀ ac name users groups p r.1))
            (ended pending (elim (notified ac r) as (λ _. Outcome (Unit {0})) [
              | done _ ac' ↦ alone (surroundings_of library c informers ac₀) p ac'
              | stuck ac' ↦ stuck ac'
            ]))
    after_notice ac₀ pending name users groups p ac (watchers, true) rest = rest _
    after_notice ac₀ pending name users groups p ac (watchers, false) rest = Runs.here

    -- A program that nothing interferes with.
    pub runs_alone :
        (ac₀ : AuthCache) (pending : List CacheWatcher) (p : Program (Unit {0})) (ac : AuthCache)
        → Runs library c
            (record { cache = ac; phase = running p; pending = pending })
            (ended pending (alone (surroundings_of library c informers ac₀) p ac))
    unfolding alone notify_watchers
    runs_alone ac₀ pending (returns _) ac = Runs.later Runs.here (Access.ends refl refl)
    runs_alone ac₀ pending (reads k) ac =
        let s = readings (surroundings_of library c informers ac₀) in
        Runs-trans
          (Runs.later Runs.here (
            Access.read k informers refl (
              ap (λ s'. record { cache = ac; phase = running (k s'); pending = pending })
                (readings_same library c informers ac₀ ac))))
          (runs_alone ac₀ pending (k s) ac)
    runs_alone ac₀ pending (looks k) ac =
        Runs-trans (Runs.later Runs.here (Access.looked k refl refl))
          (runs_alone ac₀ pending (k (stores ac)) ac)
    runs_alone ac₀ pending (writes w p) ac =
        Runs-trans (Runs.later Runs.here (Access.wrote w p refl refl))
          (runs_alone ac₀ pending p (written w ac))
    runs_alone ac₀ pending (notifies name users groups p) ac =
        Runs-trans
          (Runs-trans (Runs.later Runs.here (Access.locked name users groups p refl refl)) (
            told_each library c informers pending ac₀ ac name users groups p ac.watchers []
              ac.watchers _ 0 refl refl refl))
          (after_notice ac₀ pending name users groups p ac
            (notify_each (surroundings_of library c informers ac₀).watchable name users groups
              ac.watchers)
            (runs_alone ac₀ pending p))
