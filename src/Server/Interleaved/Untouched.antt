-- ===== src/Server/Interleaved/Untouched.antt =====
-- pkg/cmd/server.go: the cache of cluster sets, which no hook runs, at every access.
use mathlib.Core.List.{Memᴰ}
use mathlib.Core.Path.{subst}
use clusterset_server.Base.{
  ◌≡◌, refl, sym, ap, ◌∙◌, Bool, true, false, Option, some, [], ◌∷◌, ok, arith,
}
use clusterset_server.Platform.{Platform}
use clusterset_server.Objects.{UserInfo}
use clusterset_server.Watcher.{CacheWatcher, new_cache_watcher}
use clusterset_server.AuthCache.Each.{Each, Each-Mem, Each-append, Each-split, Each-Removed}
use clusterset_server.AuthCache.Notify.{add_watcher}
use clusterset_server.AuthCache.Program.{stores}
use clusterset_server.AuthCache.Removal.{remove_watcher_removes}
use clusterset_server.AuthCache.State.{new_auth_cache}
use clusterset_server.Registry.{ListOptions}
use clusterset_server.Server.{cluster_sets, Library, Informers, list_of, Reaches, new_filter_server}
use clusterset_server.Server.Caches.{unhooked, cluster_sets_listed_none}
use clusterset_server.Server.Deadlock.{list_of-watchers}
use clusterset_server.Server.Watching.{watch_of-IsAdded}
use clusterset_server.Server.Interleaved.{
  Phase, idle, running, notifying, waiting, Live, new_live, Access, Runs,
}
use clusterset_server.Server.Interleaved.Settles.{stores-remove_watcher}

module _ ⦃P : Platform⦄ where
  module _ (library : Library) where
    -- Nothing is sent to the watcher.
    abbrev IsUnheard : CacheWatcher → Type 0
    IsUnheard w = w.incoming ≡ []

    -- No run has started, the stores are new, and nothing is sent.
    record IsUntouched (x : Live) : Type 0 where
      rests : x.phase ≡ idle
      new_stores : stores x.cache ≡ new_auth_cache
      watchers : Each IsUnheard x.cache.watchers
      pending : Each IsUnheard x.pending

    abbrev is_idle : Phase → Bool
    is_idle idle = true
    is_idle (running p) = false
    is_idle (notifying name users groups i p) = false
    is_idle waiting = false

    busy : {x : Live} (phase : Phase) → IsUntouched x → x.phase ≡ phase → is_idle phase ≡ false → ⊥
    busy phase h e off =
        let on : is_idle phase ≡ true = ap is_idle (sym e ∙ h.rests) in ground (arith, on)

    access-IsUntouched :
        {x y : Live} → Access library cluster_sets x y → IsUntouched x → IsUntouched y
    unfolding add_watcher new_cache_watcher
    access-IsUntouched (Access.starts period hooked e same) h = absurd (unhooked period hooked)
    access-IsUntouched (Access.ends e same) h = absurd (busy _ h e refl)
    access-IsUntouched (Access.read k informers e same) h = absurd (busy _ h e refl)
    access-IsUntouched (Access.looked k e same) h = absurd (busy _ h e refl)
    access-IsUntouched (Access.wrote w p e same) h = absurd (busy _ h e refl)
    access-IsUntouched (Access.locked name users groups p e same) h = absurd (busy _ h e refl)
    access-IsUntouched (Access.told name users groups p informers front back w w' e split told same)
          h =
        absurd (busy _ h e refl)
    access-IsUntouched
          (Access.overflows name users groups p informers front back w w' m e split told same) h =
        absurd (busy _ h e refl)
    access-IsUntouched (Access.unlocked name users groups p e same) h = absurd (busy _ h e refl)
    access-IsUntouched {x} (Access.made informers id context options w ac fresh watched same) h =
        let (user, allowed, include_all, is, _) =
          watch_of-IsAdded library cluster_sets informers id context options x.cache ac w watched in
        subst IsUntouched (sym same) (record {
          rests = h.rests;
          new_stores = h.new_stores;
          watchers = h.watchers;
          pending = Each-append IsUnheard x.pending _ h.pending (ap (λ v. v.incoming) is, tt);
        })
    access-IsUntouched {x} (Access.watched front back w free split same) h =
        let (h₁, (v, h₂)) =
          Each-split IsUnheard front (w ∷ back) (subst (Each IsUnheard) split h.pending) in
        subst IsUntouched (sym same) (record {
          rests = h.rests;
          new_stores = h.new_stores;
          watchers = Each-append IsUnheard x.cache.watchers _ h.watchers (v, tt);
          pending = Each-append IsUnheard front back h₁ h₂;
        })
    access-IsUntouched {x} (Access.removed id free same) h = subst IsUntouched (sym same) (record {
      rests = h.rests;
      new_stores = stores-remove_watcher x.cache id ∙ h.new_stores;
      watchers =
          Each-Removed IsUnheard id x.cache.watchers _ (remove_watcher_removes x.cache id).0
            h.watchers;
      pending = h.pending;
    })
    access-IsUntouched {x} (Access.received front back w e rest split full same) h =
        let (_, (unheard, _)) =
          Each-split IsUnheard front (w ∷ back) (subst (Each IsUnheard) split h.watchers) in
        absurd (ground (arith, sym full ∙ unheard))

    runs-IsUntouched : {x : Live} → Runs library cluster_sets new_live x → IsUntouched x
    runs-IsUntouched Runs.here = record {
      rests = refl;
      new_stores = refl;
      watchers = tt;
      pending = tt;
    }
    runs-IsUntouched (Runs.later runs access) = access-IsUntouched access (runs-IsUntouched runs)

    none_from_new :
        (informers : Informers) (user : UserInfo) (options : Option ListOptions)
        → list_of library cluster_sets informers new_auth_cache (some user) options ≡ ok []
    unfolding new_filter_server
    none_from_new informers user options =
        cluster_sets_listed_none library informers user options Reaches.here

    -- No hook runs the cache of cluster sets, so after any accesses a list of cluster sets by any
    -- user succeeds and is empty, whatever the roles, the bindings and the cluster sets are, and
    -- nothing was sent to any watcher of cluster sets.
    pub cluster_sets_never_shown :
        {x : Live} (informers : Informers) (user : UserInfo) (options : Option ListOptions)
        → Runs library cluster_sets new_live x
        → (list_of library cluster_sets informers x.cache (some user) options ≡ ok [])
          × ((w : CacheWatcher) → Memᴰ w x.cache.watchers → w.incoming ≡ [])
    cluster_sets_never_shown {x} informers user options runs =
        let h = runs-IsUntouched runs in
        (
          sym (list_of-watchers library cluster_sets informers x.cache [] (some user) options)
              ∙ ap (λ ac. list_of library cluster_sets informers ac (some user) options)
                  h.new_stores
              ∙ none_from_new informers user options,
          Each-Mem IsUnheard x.cache.watchers h.watchers,
        )
