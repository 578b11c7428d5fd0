-- ===== src/Server/Interleaved/Settles.antt =====
-- pkg/cmd/server.go: what the stores of a cache are whenever no review is half written.
use mathlib.Core.Path.{subst}
use clusterset_server.Base.{◌≡◌, refl, sym, ap, ℕ}
use clusterset_server.Platform.{Platform}
use clusterset_server.AuthCache.Notify.{add_watcher, remove_watcher}
use clusterset_server.AuthCache.Removal.{remove_watcher_removes}
use clusterset_server.AuthCache.State.{Surroundings, AuthCache, new_auth_cache}
use clusterset_server.AuthCache.Program.{
  stores, Write, delete_user, delete_group, add_user, add_group, put_record, drop_record, end_run,
  written, readings,
}
use clusterset_server.AuthCache.Program.Restores.{IsRestored, Restores}
use clusterset_server.AuthCache.Program.Restores.Synchronize.{synchronize_program-IsRestoring}
use clusterset_server.Server.{CacheName, Library, Informers, surroundings_of}
use clusterset_server.Server.Interleaved.Sights.{Sees, EverySight}
use clusterset_server.Server.Interleaved.{
  Phase, idle, running, notifying, waiting, Live, new_live, Access, Runs,
}

module _ ⦃P : Platform⦄ where
  open P use {has}

  pub stores-written : (w : Write) (ac : AuthCache) → stores (written w ac) ≡ written w (stores ac)
  unfolding written
  stores-written (delete_user subject name) ac = refl
  stores-written (delete_group subject name) ac = refl
  stores-written (add_user subject name) ac = refl
  stores-written (add_group subject name) ac = refl
  stores-written (put_record r) ac = refl
  stores-written (drop_record r) ac = refl
  stores-written (end_run names state) ac = refl

  pub stores-remove_watcher : (ac : AuthCache) (id : ℕ) → stores (remove_watcher ac id) ≡ stores ac
  stores-remove_watcher ac id = ap stores (remove_watcher_removes ac id).1

  module _ (library : Library) (c : CacheName) (Q : Surroundings → Type 0)
      (I : AuthCache → Type 0) where
    -- What the phase of the run says of the stores.
    abbrev pub Settles : Phase → AuthCache → Type 0
    Settles idle ac = I ac
    Settles (running p) ac = Restores Q I p ac
    Settles (notifying name users groups i p) ac = I ac × Restores Q I p ac
    Settles waiting ac = I ac

    abbrev pub IsSettling : Live → Type 0
    IsSettling x = Settles x.phase (stores x.cache)

    Settles-at :
        (x : Live) (phase : Phase) → x.phase ≡ phase → IsSettling x → Settles phase (stores x.cache)
    Settles-at x phase e h = subst (λ f. Settles f (stores x.cache)) e h

    module _ (restored : IsRestored Q I) (S W : Informers → Type 0)
        (at_read : (informers : Informers) (ac : AuthCache)
          → S informers
          → Q (readings (surroundings_of library c informers ac))) where
      access-IsSettling :
          {x y : Live} (access : Access library c x y)
          → Sees S W access
          → IsSettling x
          → IsSettling y
      unfolding add_watcher
      access-IsSettling {x} (Access.starts period hooked e same) q h =
          subst IsSettling (sym same)
            (synchronize_program-IsRestoring Q I restored _ (Settles-at x idle e h))
      access-IsSettling {x} (Access.ends e same) q h =
          subst IsSettling (sym same) (Settles-at x _ e h)
      access-IsSettling {x} (Access.read k informers e same) q h = subst IsSettling (sym same) (
          Settles-at x _ e h (readings (surroundings_of library c informers x.cache))
            (at_read informers x.cache q))
      access-IsSettling {x} (Access.looked k e same) q h =
          subst IsSettling (sym same) (Settles-at x _ e h)
      access-IsSettling {x} (Access.wrote w p e same) q h =
          subst IsSettling (sym same)
            (subst (Restores Q I p) (sym (stores-written w x.cache)) (Settles-at x _ e h))
      access-IsSettling {x} (Access.locked name users groups p e same) q h =
          subst IsSettling (sym same) (Settles-at x _ e h)
      access-IsSettling {x}
            (Access.told name users groups p informers front back w w' e split reacts same) q h =
          subst IsSettling (sym same) (Settles-at x _ e h)
      access-IsSettling {x}
            (Access.overflows name users groups p informers front back w w' m e split reacts same) q
            h =
          subst IsSettling (sym same) (Settles-at x _ e h).0
      access-IsSettling {x} (Access.unlocked name users groups p e same) q h =
          subst IsSettling (sym same) (Settles-at x _ e h).1
      access-IsSettling {x} (Access.made informers id context options w ac fresh watched same) q h =
          subst IsSettling (sym same) h
      access-IsSettling {x} (Access.watched front back w free split same) q h =
          subst IsSettling (sym same) h
      access-IsSettling {x} (Access.removed id free same) q h =
          subst IsSettling (sym same)
            (subst (Settles x.phase) (sym (stores-remove_watcher x.cache id)) h)
      access-IsSettling {x} (Access.received front back w e rest split full same) q h =
          subst IsSettling (sym same) h

      -- What is restored holds whenever no review is half written.
      pub runs-IsSettling :
          {x : Live} (runs : Runs library c new_live x)
          → I new_auth_cache
          → EverySight S W runs
          → IsSettling x
      runs-IsSettling Runs.here new seen = new
      runs-IsSettling (Runs.later runs access) new (seen, now) =
          access-IsSettling access now (runs-IsSettling runs new seen)

  -- The run is at rest, notifies, or waits.
  abbrev pub IsBetween : Phase → Type 0
  IsBetween (running p) = ⊥
  IsBetween phase = Unit

  pub settled_between :
      (library : Library) (c : CacheName) (Q : Surroundings → Type 0) (I : AuthCache → Type 0)
      (phase : Phase) (ac : AuthCache)
      → IsBetween phase
      → Settles library c Q I phase ac
      → I ac
  settled_between library c Q I idle ac b h = h
  settled_between library c Q I (running p) ac b h = absurd b
  settled_between library c Q I (notifying name users groups i p) ac b h = h.0
  settled_between library c Q I waiting ac b h = h
