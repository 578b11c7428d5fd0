-- ===== src/Server/Interleaved.antt =====
-- pkg/cmd/server.go: a cache while the server runs, access by access. The goroutine of the run, the
-- handlers of watches and the goroutines of watchers take turns in any order, and the informers may
-- change between any two accesses.
pub mod Sights
pub mod Keeps
pub mod Laws
pub mod Telling
pub mod Hidden
pub mod Told
pub mod Listed
pub mod Alone
pub mod Covers
pub mod Settles
pub mod Consistent
pub mod Serial
pub mod Steady
pub mod Waiting
pub mod Untouched
pub mod Bounds
use mathlib.Core.List.{Memᴰ}
use clusterset_server.Base.{
  ◌≡◌, ℕ, suc, false, Option, List, [], ◌∷◌, ◌++◌, String, ok, any, length, nat_eq,
}
use clusterset_server.Platform.{Platform}
use clusterset_server.Objects.{UserInfo, Event}
use clusterset_server.Watcher.{CacheWatcher, settled, overflowed, group_membership_changed}
use clusterset_server.AuthCache.State.{AuthCache, new_auth_cache}
use clusterset_server.AuthCache.Notify.{add_watcher, remove_watcher}
use clusterset_server.AuthCache.Program.{
  Write, written, readings, stores, Program, returns, reads, looks, writes, notifies,
}
use clusterset_server.AuthCache.Program.Synchronize.{synchronize_program}
use clusterset_server.Registry.{ListOptions}
use clusterset_server.Server.{
  CacheName, Library, Informers, run_cache, actions_of, post_start_hooks, surroundings_of, watch_of,
}

module _ ⦃P : Platform⦄ where
  open P use {StringSet}

  -- What the goroutine of the run is about to do. While it notifies it holds the lock of the
  -- watchers, and has told so many of them; it may wait for that lock for ever.
  pub data Phase : Type 0 where
    idle : Phase
    running : Program (Unit {0}) → Phase
    notifying : (name : String) (users groups : StringSet) → ℕ → Program (Unit {0}) → Phase
    waiting : Phase

  -- Is the lock of the watchers free?
  pub data IsUnlocked : Phase → Type 0 where
    at_rest : IsUnlocked idle
    at_work : {p : Program (Unit {0})} → IsUnlocked (running p)

  -- a cache, its run, and the watchers that `NewCacheWatcher` has made and that are not yet added
  pub record Live : Type 0 where
    pub cache : AuthCache
    pub phase : Phase
    pub pending : List CacheWatcher

  abbrev pub new_live : Live
  new_live = record { cache = new_auth_cache; phase = idle; pending = [] }

  abbrev pub going_on : Live → Phase → Live
  going_on x phase = record x { phase = phase }

  abbrev pub with_cache_watchers : AuthCache → List CacheWatcher → AuthCache
  with_cache_watchers ac watchers = record ac { watchers = watchers }

  -- One access of some goroutine.
  pub data Access (library : Library) (c : CacheName) (x : Live) : Live → Type 0 where
    -- a hook has started the runs of the cache, and a period is over
    starts :
        {y : Live} (period : ℕ)
        → Memᴰ (run_cache c period) (actions_of post_start_hooks)
        → x.phase ≡ idle
        → y ≡ going_on x (running synchronize_program)
        → Access library c x y
    ends : {y : Live} → x.phase ≡ running (returns tt) → y ≡ going_on x idle → Access library c x y
    read :
        {y : Live} (k : _ → Program (Unit {0})) (informers : Informers)
        → x.phase ≡ running (reads k)
        → y ≡ going_on x (running (k (readings (surroundings_of library c informers x.cache))))
        → Access library c x y
    looked :
        {y : Live} (k : AuthCache → Program (Unit {0}))
        → x.phase ≡ running (looks k)
        → y ≡ going_on x (running (k (stores x.cache)))
        → Access library c x y
    wrote :
        {y : Live} (w : Write) (p : Program (Unit {0}))
        → x.phase ≡ running (writes w p)
        → y ≡ record x { cache = written w x.cache; phase = running p }
        → Access library c x y
    -- `notifyWatchers` takes the lock
    locked :
        {y : Live} (name : String) (users groups : StringSet) (p : Program (Unit {0}))
        → x.phase ≡ running (notifies name users groups p)
        → y ≡ going_on x (notifying name users groups 0 p)
        → Access library c x y
    -- the next watcher is told
    told :
        {y : Live} (name : String) (users groups : StringSet) (p : Program (Unit {0}))
        (informers : Informers) (front back : List CacheWatcher) (w w' : CacheWatcher)
        → x.phase ≡ notifying name users groups (length front) p
        → x.cache.watchers ≡ front ++ w ∷ back
        → group_membership_changed
            (surroundings_of library c informers x.cache).watchable
            w
            name
            users
            groups
          ≡ settled w'
        → y ≡ record x {
          cache = with_cache_watchers x.cache (front ++ w' ∷ back);
          phase = notifying name users groups (suc (length front)) p;
        }
        → Access library c x y
    -- its channel is full, and it asks for the lock that the run holds
    overflows :
        {y : Live} (name : String) (users groups : StringSet) (p : Program (Unit {0}))
        (informers : Informers) (front back : List CacheWatcher) (w w' : CacheWatcher)
        (message : String)
        → x.phase ≡ notifying name users groups (length front) p
        → x.cache.watchers ≡ front ++ w ∷ back
        → group_membership_changed
            (surroundings_of library c informers x.cache).watchable
            w
            name
            users
            groups
          ≡ overflowed w' message
        → y ≡ record x { cache = with_cache_watchers x.cache (front ++ w' ∷ back); phase = waiting }
        → Access library c x y
    -- all are told, and the lock is free again
    unlocked :
        {y : Live} (name : String) (users groups : StringSet) (p : Program (Unit {0}))
        → x.phase ≡ notifying name users groups (length x.cache.watchers) p
        → y ≡ going_on x (running p)
        → Access library c x y
    -- a request for a watch has made its watcher, which it is going to add
    made :
        {y : Live} (informers : Informers) (id : ℕ) (context : Option (Option UserInfo))
        (options : Option ListOptions) (w : CacheWatcher) (ac : AuthCache)
        → any (λ v. nat_eq v.id id) (x.cache.watchers ++ x.pending) ≡ false
        → watch_of library c informers id context options x.cache ≡ ok (w, ac)
        → y ≡ record x { pending = x.pending ++ w ∷ [] }
        → Access library c x y
    watched :
        {y : Live} (front back : List CacheWatcher) (w : CacheWatcher)
        → IsUnlocked x.phase
        → x.pending ≡ front ++ w ∷ back
        → y ≡ record x { cache = add_watcher x.cache w; pending = front ++ back }
        → Access library c x y
    -- the goroutine of a watcher ends, and removes it
    removed :
        {y : Live} (id : ℕ)
        → IsUnlocked x.phase
        → y ≡ record x { cache = remove_watcher x.cache id }
        → Access library c x y
    -- the goroutine of a watcher takes an event from its channel
    received :
        {y : Live} (front back : List CacheWatcher) (w : CacheWatcher) (e : Event)
        (rest : List Event)
        → x.cache.watchers ≡ front ++ w ∷ back
        → w.incoming ≡ e ∷ rest
        → y ≡ record x {
          cache = with_cache_watchers x.cache (front ++ record w { incoming = rest } ∷ back);
        }
        → Access library c x y

  pub data Runs (library : Library) (c : CacheName) (x : Live) : Live → Type 0 where
    here : Runs library c x x
    later : {y z : Live} → Runs library c x y → Access library c y z → Runs library c x z
