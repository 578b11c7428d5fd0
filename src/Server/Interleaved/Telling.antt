-- ===== src/Server/Interleaved/Telling.antt =====
-- pkg/cmd/server.go: a notification, as accesses.
use mathlib.Core.Path.{subst}
use mathlib.Core.List.{append-nil, append_assoc}
use clusterset_server.Base.{
  ◌≡◌, refl, sym, ap, ◌∙◌, ◌⊎◌, inl, inr, ℕ, suc, Bool, true, false, List, [], ◌∷◌, ◌++◌, String,
  length,
}
use clusterset_server.Platform.{Platform}
use clusterset_server.Watcher.{
  CacheWatcher, Reaction, settled, overflowed, group_membership_changed, notify_removed,
  notify_changed,
}
use clusterset_server.AuthCache.Each.{gone_on}
use clusterset_server.AuthCache.Notify.{notify_each}
use clusterset_server.AuthCache.Program.{readings, Program}
use clusterset_server.AuthCache.State.{Surroundings, AuthCache}
use clusterset_server.ClusterCache
use clusterset_server.ClusterSetCache
use clusterset_server.Server.{
  CacheName, clusters, cluster_sets, Library, Informers, surroundings_of,
}
use clusterset_server.Server.Interleaved.{
  Phase, running, notifying, waiting, Live, with_cache_watchers, Access, Runs,
}

Reaction-cases :
    ⦃P : Platform⦄ (r : Reaction)
    → ((w : CacheWatcher) × (r ≡ settled w))
      ⊎ ((w : CacheWatcher) × (message : String) × (r ≡ overflowed w message))
Reaction-cases (settled w) = inl (w, refl)
Reaction-cases (overflowed w message) = inr (w, message, refl)

module _ ⦃P : Platform⦄ where
  open P use {StringSet}

  length-snoc :
      (ws : List CacheWatcher) (w : CacheWatcher) → length (ws ++ w ∷ []) ≡ suc (length ws)
  length-snoc [] w = refl
  length-snoc (v ∷ ws) w = rw (length-snoc ws w)

  unfoldable pub Runs-trans :
      {library : Library} {c : CacheName} {x y z : Live}
      → Runs library c x y
      → Runs library c y z
      → Runs library c x z
  Runs-trans first Runs.here = first
  Runs-trans first (Runs.later rest access) = Runs.later (Runs-trans first rest) access

  module _ (library : Library) (c : CacheName) (informers : Informers) where
    abbrev at_cache : AuthCache → Surroundings
    at_cache ac = surroundings_of library c informers ac

    -- What a run reads does not depend on the cache,
    pub readings_same : (ac ac' : AuthCache) → readings (at_cache ac) ≡ readings (at_cache ac')
    unfolding surroundings_of ClusterCache.surroundings ClusterSetCache.surroundings
    readings_same ac ac' = go c
      where
        go :
            (c : CacheName)
            → readings (surroundings_of library c informers ac)
              ≡ readings (surroundings_of library c informers ac')
        go clusters = refl
        go cluster_sets = refl

    -- nor does what a watcher makes of a notification.
    reacts_same :
        (ac ac' : AuthCache) (w : CacheWatcher) (name : String) (users groups : StringSet)
        → group_membership_changed (at_cache ac).watchable w name users groups
          ≡ group_membership_changed (at_cache ac').watchable w name users groups
    unfolding surroundings_of ClusterCache.surroundings ClusterSetCache.surroundings
        ClusterCache.watchable ClusterSetCache.watchable group_membership_changed notify_removed
        notify_changed
    reacts_same ac ac' w name users groups = go c
      where
        go :
            (c : CacheName)
            → group_membership_changed
                (surroundings_of library c informers ac).watchable
                w
                name
                users
                groups
              ≡ group_membership_changed
                  (surroundings_of library c informers ac').watchable
                  w
                  name
                  users
                  groups
        go clusters = refl
        go cluster_sets = refl

    module _ (pending : List CacheWatcher) where
      abbrev pub live_at : AuthCache → List CacheWatcher → Phase → Live
      live_at ac watchers phase = record {
        cache = with_cache_watchers ac watchers;
        phase = phase;
        pending = pending;
      }

      module _ (ac₀ ac : AuthCache) (name : String) (users groups : StringSet)
          (p : Program (Unit {0})) where
        abbrev pub phase_of : Bool → Phase
        phase_of true = running p
        phase_of false = waiting

        abbrev told_all : List CacheWatcher → List CacheWatcher × Bool
        told_all back = notify_each (at_cache ac₀).watchable name users groups back

        at_count :
            {i k : ℕ} → i ≡ k → notifying name users groups i p ≡ notifying name users groups k p
        at_count e = ap (λ k. notifying name users groups k p) e

        -- the next watcher is told
        told_next :
            (w w' : CacheWatcher) (back front watchers out : List CacheWatcher) (i : ℕ)
            → group_membership_changed (at_cache ac₀).watchable w name users groups ≡ settled w'
            → watchers ≡ front ++ w ∷ back
            → i ≡ length front
            → out ≡ front ++ (told_all (w ∷ back)).0
            → ((watchers out : List CacheWatcher) (i : ℕ)
                → watchers ≡ (front ++ w' ∷ []) ++ back
                → i ≡ length (front ++ w' ∷ [])
                → out ≡ (front ++ w' ∷ []) ++ (told_all back).0
                → Runs library c
                    (live_at ac watchers (notifying name users groups i p))
                    (live_at ac out (phase_of (told_all back).1)))
            → Runs library c
                (live_at ac watchers (notifying name users groups i p))
                (live_at ac out (phase_of (told_all (w ∷ back)).1))
        unfolding notify_each
        told_next w w' back front watchers out i reacts split count left rest =
            let told : told_all (w ∷ back) ≡ (w' ∷ (told_all back).0, (told_all back).1) =
              ap (gone_on back (told_all back)) reacts in
            subst
              (λ r.
                Runs library c (live_at ac watchers (notifying name users groups i p))
                  (live_at ac out (phase_of r)))
              (sym (ap (λ r. r.1) told))
              (Runs-trans
                (Runs.later Runs.here (
                  Access.told name users groups p informers front back w w' (at_count count) split
                    (reacts_same _ ac₀ w name users groups ∙ reacts) refl))
                (rest (front ++ w' ∷ back) out (suc (length front))
                  (sym (append_assoc front (w' ∷ []) back)) (sym (length-snoc front w'))
                  (left
                    ∙ ap (λ r. front ++ r.0) told
                    ∙ sym (append_assoc front (w' ∷ []) (told_all back).0))))

        -- a watcher whose channel is full is the last
        told_last :
            (w w' : CacheWatcher) (message : String) (back front watchers out : List CacheWatcher)
            (i : ℕ)
            → group_membership_changed (at_cache ac₀).watchable w name users groups
              ≡ overflowed w' message
            → watchers ≡ front ++ w ∷ back
            → i ≡ length front
            → out ≡ front ++ (told_all (w ∷ back)).0
            → Runs library c
                (live_at ac watchers (notifying name users groups i p))
                (live_at ac out (phase_of (told_all (w ∷ back)).1))
        unfolding notify_each
        told_last w w' message back front watchers out i reacts split count left =
            let told : told_all (w ∷ back) ≡ (w' ∷ back, false) =
              ap (gone_on back (told_all back)) reacts in
            subst
              (λ r.
                Runs library c (live_at ac watchers (notifying name users groups i p))
                  (live_at ac out (phase_of r)))
              (sym (ap (λ r. r.1) told))
              (Runs.later Runs.here (
                Access.overflows name users groups p informers front back w w' message
                  (at_count count) split (reacts_same _ ac₀ w name users groups ∙ reacts)
                  (ap (λ ws. live_at ac ws waiting) (left ∙ ap (λ r. front ++ r.0) told))))

        -- The lock is taken, the others are told in order, and the lock is given back, or is waited
        -- for.
        pub told_each :
            (back front watchers out : List CacheWatcher) (i : ℕ)
            → watchers ≡ front ++ back
            → i ≡ length front
            → out ≡ front ++ (told_all back).0
            → Runs library c
                (live_at ac watchers (notifying name users groups i p))
                (live_at ac out (phase_of (told_all back).1))
        unfolding notify_each
        told_each [] front watchers out i split count left = Runs.later Runs.here (
            Access.unlocked name users groups p
              (ap (λ k. notifying name users groups k p)
                (count ∙ ap length (sym (split ∙ append-nil front))))
              (ap (λ ws. live_at ac ws (running p)) (left ∙ sym split)))
        told_each (w ∷ back) front watchers out i split count left =
            let rest = told_each back in
            elim (Reaction-cases
              (group_membership_changed (at_cache ac₀).watchable w name users groups)) [
                | inl (w', reacts) ↦
                    told_next w w' back front watchers out i reacts split count left
                      (rest (front ++ w' ∷ []))
                | inr (w', message, reacts) ↦
                    told_last w w' message back front watchers out i reacts split count left
              ]
