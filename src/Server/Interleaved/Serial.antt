-- ===== src/Server/Interleaved/Serial.antt =====
-- pkg/cmd/server.go: a run, with whatever else happens to its cache meanwhile.
use mathlib.Core.Path.{subst}
use clusterset_server.Base.{◌≡◌, sym, ap, ◌∙◌}
use clusterset_server.Platform.{Platform}
use clusterset_server.AuthCache.Notify.{add_watcher, notify_watchers, notify_each}
use clusterset_server.AuthCache.Program.{readings, stores}
use clusterset_server.AuthCache.Program.Alone.{alone}
use clusterset_server.AuthCache.Program.Alone.Synchronize.{alone-synchronize_program}
use clusterset_server.AuthCache.Program.Synchronize.{synchronize_program}
use clusterset_server.AuthCache.Returns.{synchronize_returns}
use clusterset_server.AuthCache.State.{Surroundings, AuthCache, done, after, new_auth_cache}
use clusterset_server.AuthCache.Sync.{synchronize}
use clusterset_server.Server.{CacheName, Library, Informers, surroundings_of}
use clusterset_server.Server.Interleaved.{
  Phase, idle, running, notifying, waiting, Live, going_on, Access, Runs,
}
use clusterset_server.Server.Interleaved.Telling.{readings_same}
use clusterset_server.Server.Interleaved.Settles.{stores-written, stores-remove_watcher}

module _ ⦃P : Platform⦄ where
  module _ (library : Library) (c : CacheName) (informers : Informers) where
    -- A run reads of these informers what it reads of `informers`.
    abbrev pub IsRead : Informers → Type 0
    IsRead now =
        readings (surroundings_of library c now new_auth_cache)
        ≡ readings (surroundings_of library c informers new_auth_cache)

    -- An access that starts no other run, and that reads the same.
    abbrev pub IsOfRun : {x y : Live} → Access library c x y → Type 0
    IsOfRun (Access.starts period hooked e same) = ⊥
    IsOfRun (Access.read k now e same) = IsRead now
    IsOfRun access = Unit

    abbrev pub IsOneRun : {x y : Live} → Runs library c x y → Type 0
    IsOneRun Runs.here = Unit
    IsOneRun (Runs.later runs access) = IsOneRun runs × IsOfRun access

    module _ (ac₀ target : AuthCache) where
      abbrev reading : Surroundings
      reading = surroundings_of library c informers ac₀

      -- What is left of the run makes the target of the stores.
      abbrev IsBound : Phase → AuthCache → Type 0
      IsBound idle ac = ac ≡ target
      IsBound (running p) ac = alone reading p ac ≡ done tt target
      IsBound (notifying name users groups i p) ac = alone reading p ac ≡ done tt target
      IsBound waiting ac = Unit

      abbrev IsOnTheWay : Live → Type 0
      IsOnTheWay x = IsBound x.phase (stores x.cache)

      IsBound-at :
          (x : Live) (phase : Phase)
          → x.phase ≡ phase
          → IsOnTheWay x
          → IsBound phase (stores x.cache)
      IsBound-at x phase e h = subst (λ f. IsBound f (stores x.cache)) e h

      read_same :
          (now : Informers) (ac : AuthCache)
          → IsRead now
          → readings (surroundings_of library c now ac) ≡ readings reading
      read_same now ac same =
          readings_same library c now ac new_auth_cache
          ∙ same
          ∙ readings_same library c informers new_auth_cache ac₀

      access-IsOnTheWay :
          {x y : Live} (access : Access library c x y)
          → IsOfRun access
          → IsOnTheWay x
          → IsOnTheWay y
      unfolding add_watcher alone notify_watchers notify_each
      access-IsOnTheWay {x} (Access.starts period hooked e same) q h = absurd q
      access-IsOnTheWay {x} (Access.ends e same) q h =
          subst IsOnTheWay (sym same) (ap after (IsBound-at x _ e h))
      access-IsOnTheWay {x} (Access.read k now e same) q h = subst IsOnTheWay (sym same) (
          subst (λ s. alone reading (k s) (stores x.cache) ≡ done tt target)
            (sym (read_same now x.cache q)) (IsBound-at x _ e h))
      access-IsOnTheWay {x} (Access.looked k e same) q h =
          subst IsOnTheWay (sym same) (IsBound-at x _ e h)
      access-IsOnTheWay {x} (Access.wrote w p e same) q h = subst IsOnTheWay (sym same) (
          subst (λ ac. alone reading p ac ≡ done tt target) (sym (stores-written w x.cache))
            (IsBound-at x _ e h))
      access-IsOnTheWay {x} (Access.locked name users groups p e same) q h =
          subst IsOnTheWay (sym same) (IsBound-at x _ e h)
      access-IsOnTheWay {x}
            (Access.told name users groups p now front back w w' e split reacts same) q h =
          subst IsOnTheWay (sym same) (IsBound-at x _ e h)
      access-IsOnTheWay {x}
            (Access.overflows name users groups p now front back w w' m e split reacts same) q h =
          subst IsOnTheWay (sym same) tt
      access-IsOnTheWay {x} (Access.unlocked name users groups p e same) q h =
          subst IsOnTheWay (sym same) (IsBound-at x _ e h)
      access-IsOnTheWay {x} (Access.made now id context options w ac fresh watched same) q h =
          subst IsOnTheWay (sym same) h
      access-IsOnTheWay {x} (Access.watched front back w free split same) q h =
          subst IsOnTheWay (sym same) h
      access-IsOnTheWay {x} (Access.removed id free same) q h =
          subst IsOnTheWay (sym same)
            (subst (IsBound x.phase) (sym (stores-remove_watcher x.cache id)) h)
      access-IsOnTheWay {x} (Access.received front back w e rest split full same) q h =
          subst IsOnTheWay (sym same) h

      runs-IsOnTheWay :
          {x y : Live} (runs : Runs library c x y) → IsOneRun runs → IsOnTheWay x → IsOnTheWay y
      runs-IsOnTheWay Runs.here one h = h
      runs-IsOnTheWay (Runs.later runs access) (one, now) h =
          access-IsOnTheWay access now (runs-IsOnTheWay runs one h)

    -- Where a run reads the same of the informers at all its accesses, it makes of the stores what
    -- `synchronize` makes of them alone, whatever watchers are made, added, told, removed, or take
    -- events meanwhile: when it is over, the stores are those.
    pub run_serializes :
        (x : Live) {y : Live} (runs : Runs library c (going_on x (running synchronize_program)) y)
        → IsOneRun runs
        → y.phase ≡ idle
        → synchronize (surroundings_of library c informers (stores x.cache)) (stores x.cache)
          ≡ done tt (stores y.cache)
    run_serializes x {y} runs one over =
        let s = surroundings_of library c informers (stores x.cache) in
        let (target, returned, _) = synchronize_returns s (stores x.cache) tt in
        let bound : alone s synchronize_program (stores x.cache) ≡ done tt target =
          alone-synchronize_program s (stores x.cache) ∙ returned in
        let arrived : stores y.cache ≡ target =
          IsBound-at (stores x.cache) target y idle over
            (runs-IsOnTheWay (stores x.cache) target runs one bound) in
        returned ∙ ap (λ ac. done tt ac) (sym arrived)
