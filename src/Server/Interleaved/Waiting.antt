-- ===== src/Server/Interleaved/Waiting.antt =====
-- pkg/cmd/server.go: a run that waits for the lock of the watchers, while everything else goes on.
use mathlib.Core.Path.{subst}
use clusterset_server.Base.{
  ◌≡◌, refl, sym, ap, ◌∙◌, ℕ, Bool, true, false, Option, List, [], ◌∷◌, ◌++◌, arith,
}
use clusterset_server.Platform.{Platform}
use clusterset_server.Objects.{UserInfo}
use clusterset_server.Watcher.{CacheWatcher}
use clusterset_server.Registry.{ListOptions}
use clusterset_server.Server.{CacheName, Library, Informers, list_of}
use clusterset_server.Server.Deadlock.{list_of-watchers}
use clusterset_server.Server.Interleaved.{
  Phase, idle, running, notifying, waiting, IsUnlocked, Live, with_cache_watchers, Access, Runs,
}

module _ ⦃P : Platform⦄ where
  abbrev is_waiting : Phase → Bool
  is_waiting idle = false
  is_waiting (running p) = false
  is_waiting (notifying name users groups i p) = false
  is_waiting waiting = true

  not_waiting : (p q : Phase) → p ≡ waiting → p ≡ q → is_waiting q ≡ false → ⊥
  not_waiting p q w e h =
      let both : is_waiting q ≡ true = ap is_waiting (sym e ∙ w) in ground (arith, both)

  not_unlocked : (p : Phase) → p ≡ waiting → IsUnlocked p → ⊥
  not_unlocked idle w free = not_waiting idle idle w refl refl
  not_unlocked (running p) w free = not_waiting (running p) (running p) w refl refl
  not_unlocked (notifying name users groups i p) w free = not_waiting _ _ w refl refl
  not_unlocked waiting w free = elim free [ ]

  -- the addresses of the watchers
  abbrev pub addresses : List CacheWatcher → List ℕ
  addresses [] = []
  addresses (w ∷ watchers) = w.id ∷ addresses watchers

  addresses-replace :
      (front back : List CacheWatcher) (w w' : CacheWatcher)
      → w'.id ≡ w.id
      → addresses (front ++ w' ∷ back) ≡ addresses (front ++ w ∷ back)
  addresses-replace [] back w w' same = ap (λ i. i ∷ addresses back) same
  addresses-replace (v ∷ front) back w w' same =
      ap (λ is. v.id ∷ is) (addresses-replace front back w w' same)

  module _ (library : Library) (c : CacheName) (x : Live) where
    -- The run waits, over the stores and the watchers of `x`.
    pub record IsFrozen (y : Live) : Type 0 where
      pub waits : y.phase ≡ waiting
      pub stores : y.cache ≡ with_cache_watchers x.cache y.cache.watchers
      pub same_watchers : addresses y.cache.watchers ≡ addresses x.cache.watchers

    access-IsFrozen : {y z : Live} → Access library c y z → IsFrozen y → IsFrozen z
    access-IsFrozen (Access.starts period hooked e same) h = absurd (not_waiting _ _ h.waits e refl)
    access-IsFrozen (Access.ends e same) h = absurd (not_waiting _ _ h.waits e refl)
    access-IsFrozen (Access.read k informers e same) h = absurd (not_waiting _ _ h.waits e refl)
    access-IsFrozen (Access.looked k e same) h = absurd (not_waiting _ _ h.waits e refl)
    access-IsFrozen (Access.wrote w p e same) h = absurd (not_waiting _ _ h.waits e refl)
    access-IsFrozen (Access.locked name users groups p e same) h =
        absurd (not_waiting _ _ h.waits e refl)
    access-IsFrozen (Access.told name users groups p informers front back w w' e split told same)
          h =
        absurd (not_waiting _ _ h.waits e refl)
    access-IsFrozen
          (Access.overflows name users groups p informers front back w w' m e split told same) h =
        absurd (not_waiting _ _ h.waits e refl)
    access-IsFrozen (Access.unlocked name users groups p e same) h =
        absurd (not_waiting _ _ h.waits e refl)
    access-IsFrozen (Access.made informers id context options w ac fresh watched same) h =
        subst IsFrozen (sym same)
          (record { waits = h.waits; stores = h.stores; same_watchers = h.same_watchers })
    access-IsFrozen (Access.watched front back w free split same) h =
        absurd (not_unlocked _ h.waits free)
    access-IsFrozen (Access.removed id free same) h = absurd (not_unlocked _ h.waits free)
    access-IsFrozen {y} (Access.received front back w e rest split full same) h =
        subst IsFrozen (sym same) (record {
          waits = h.waits;
          stores =
              ap (λ ac. with_cache_watchers ac (front ++ record w { incoming = rest } ∷ back))
                h.stores;
          same_watchers =
              addresses-replace front back w (record w { incoming = rest }) refl
              ∙ ap addresses (sym split)
              ∙ h.same_watchers;
        })

    runs-IsFrozen : {y : Live} → x.phase ≡ waiting → Runs library c x y → IsFrozen y
    runs-IsFrozen here Runs.here = record { waits = here; stores = refl; same_watchers = refl }
    runs-IsFrozen here (Runs.later runs access) = access-IsFrozen access (runs-IsFrozen here runs)

  -- Once a run waits for the lock of the watchers it waits for ever: whatever the other goroutines
  -- do, no watcher is added or removed any more, and every list answers as if the records were those
  -- of that moment, whatever the roles and the bindings have become.
  pub waits_for_ever :
      (library : Library) (c : CacheName) {x y : Live} (informers : Informers)
      (user : Option UserInfo) (options : Option ListOptions)
      → x.phase ≡ waiting
      → Runs library c x y
      → (y.phase ≡ waiting)
        × (addresses y.cache.watchers ≡ addresses x.cache.watchers)
        × (list_of library c informers y.cache user options
            ≡ list_of library c informers x.cache user options)
  waits_for_ever library c {x} {y} informers user options here runs =
      let frozen = runs-IsFrozen library c x here runs in
      (
        frozen.waits,
        frozen.same_watchers,
        ap (λ ac. list_of library c informers ac user options) frozen.stores
            ∙ list_of-watchers library c informers x.cache y.cache.watchers user options,
      )
