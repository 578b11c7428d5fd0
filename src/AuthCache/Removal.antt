-- ===== src/AuthCache/Removal.antt =====
-- pkg/cache/common.go, `RemoveWatcher`: its loop and its moves over the slice.
use mathlib.Core.List.{append-nil}
use native.Mathlib.Nat.{zero-add, suc-add}
use clusterset_server.Base.{
  ℕ, suc, ◌+◌, ◌-◌, ◌≡◌, refl, sym, ap, ap₂, ◌∙◌, inl, inr, true, false, Bool-cases, Option, none,
  some, List, [], ◌∷◌, ◌++◌, arith, any, length, ltb, nat_eq, take, drop, copy, take-copy,
}
use clusterset_server.Platform.{Platform}
use clusterset_server.Watcher.{CacheWatcher}
use clusterset_server.AuthCache.State.{AuthCache}
use clusterset_server.AuthCache.Notify.{remove_watcher, remove_at, index_from}

module _ ⦃P : Platform⦄ where
  -- What removing does to a list of watchers: the first at the address is taken out.
  pub data Removed (id : ℕ) (watchers result : List CacheWatcher) : Type 0 where
    absent :
        any (λ w. nat_eq w.id id) watchers ≡ false → result ≡ watchers → Removed id watchers result
    taken :
        (front : List CacheWatcher) (w : CacheWatcher) (back : List CacheWatcher)
        → any (λ w. nat_eq w.id id) front ≡ false
        → w.id ≡ id
        → watchers ≡ front ++ w ∷ back
        → result ≡ front ++ back
        → Removed id watchers result

  -- Where the loop stops: at the first watcher at the address.
  abbrev Found : ℕ → ℕ → List CacheWatcher → Option ℕ → Type 0
  Found i id watchers none = any (λ w. nat_eq w.id id) watchers ≡ false
  Found i id watchers (some j) =
      (front : List CacheWatcher) × (w : CacheWatcher) × (back : List CacheWatcher) × (any
          (λ w. nat_eq w.id id) front
        ≡ false)
      × (w.id ≡ id)
      × (watchers ≡ front ++ w ∷ back)
      × (j ≡ i + length front)

  Found-later :
      (i id : ℕ) (w : CacheWatcher) (watchers : List CacheWatcher)
      → nat_eq w.id id ≡ false
      → (o : Option ℕ) → Found (suc i) id watchers o
      → Found i id (w ∷ watchers) o
  unfolding any
  Found-later i id w watchers other none missing = rw other missing
  Found-later i id w watchers other (some j) (front, v, back, fresh, here, split, at) =
      (w ∷ front, v, back, rw other fresh, here, ap (◌∷◌ w) split, omega arith)

  Found-index_from :
      (i id : ℕ) (watchers : List CacheWatcher) → Found i id watchers (index_from i id watchers)
  unfolding index_from any
  Found-index_from i id [] = refl
  Found-index_from i id (w ∷ watchers) = elim (Bool-cases (nat_eq w.id id)) [
    | inl same ↦ rw (same, index_from) ([], w, watchers, refl, ground arith, refl, omega arith)
    | inr other ↦
        rw (other, index_from)
          (Found-later i id w watchers other (index_from (suc i) id watchers)
            (Found-index_from (suc i) id watchers))
  ]

  module _ (front back : List CacheWatcher) where
    length-front : length (front ++ back) ≡ length front + length back
    length-front = go front
      where
        go : (xs : List CacheWatcher) → length (xs ++ back) ≡ length xs + length back
        go [] = omega arith
        go (x ∷ xs) = omega (arith, go xs)

  take-append-add :
      (front back : List CacheWatcher) (k : ℕ)
      → take (length front + k) (front ++ back) ≡ front ++ take k back
  unfolding take
  take-append-add [] back k = rw zero-add
  take-append-add (x ∷ front) back k = rw suc-add (ap (◌∷◌ x) (take-append-add front back k))

  drop-append-length : (front back : List CacheWatcher) → drop (length front) (front ++ back) ≡ back
  unfolding drop
  drop-append-length [] back = refl
  drop-append-length (x ∷ front) back = drop-append-length front back

  drop-suc :
      (front : List CacheWatcher) (w : CacheWatcher) (back : List CacheWatcher)
      → drop (suc (length front)) (front ++ w ∷ back) ≡ back
  unfolding drop
  drop-suc [] w back = refl
  drop-suc (x ∷ front) w back = drop-suc front w back

  take_front : (front back : List CacheWatcher) → take (length front) (front ++ back) ≡ front
  unfolding take
  take_front [] back = refl
  take_front (x ∷ front) back = ap (◌∷◌ x) (take_front front back)

  remove_at-front :
      (front : List CacheWatcher) (w : CacheWatcher) (back : List CacheWatcher)
      → remove_at (length front) (front ++ w ∷ back) ≡ front ++ back
  unfolding remove_at
  remove_at-front front w [] =
      let last : length (front ++ w ∷ []) - 1 ≡ length front =
        omega (arith, length-front front (w ∷ [])) in
      let stop : ltb (length front) (length front) ≡ false = ground arith in
      rw last (rw stop (take_front front (w ∷ []) ∙ sym (append-nil front)))
  remove_at-front front w (v ∷ back) =
      let ws = front ++ w ∷ v ∷ back in
      let last : length ws - 1 ≡ length front + suc (length back) =
        omega (arith, length-front front (w ∷ v ∷ back)) in
      let go_on : ltb (length front) (length front + suc (length back)) ≡ true = ground arith in
      rw last (
        rw go_on (
          rw (take_front front (w ∷ v ∷ back)) (
            rw (drop-append-length front (w ∷ v ∷ back)) (
              rw (drop-suc front w (v ∷ back)) (
                take-append-add front (copy (w ∷ v ∷ back) (v ∷ back)) (suc (length back))
                ∙ ap (◌++◌ front) (take-copy w (v ∷ back)))))))

  -- Removing takes out the first watcher at the address, keeps the order of the others, and changes
  -- nothing else of the cache.
  pub remove_watcher_removes :
      (ac : AuthCache) (id : ℕ)
      → Removed id ac.watchers (remove_watcher ac id).watchers
        × (remove_watcher ac id ≡ record ac { watchers = (remove_watcher ac id).watchers })
  unfolding remove_watcher
  remove_watcher_removes ac id =
      go (index_from 0 id ac.watchers) refl (Found-index_from 0 id ac.watchers)
    where
      go :
          (o : Option ℕ)
          → index_from 0 id ac.watchers ≡ o
          → Found 0 id ac.watchers o
          → Removed id ac.watchers (remove_watcher ac id).watchers
            × (remove_watcher ac id ≡ record ac { watchers = (remove_watcher ac id).watchers })
      go none e missing =
          let same : remove_watcher ac id ≡ ac = rw (e, remove_watcher) in
          (
            absent missing (ap (λ (c : AuthCache). c.watchers) same),
            same ∙ ap (λ (c : AuthCache). record ac { watchers = c.watchers }) (sym same),
          )
      go (some j) e (front, w, back, fresh, here, split, at) =
          let ac' : AuthCache = record ac { watchers = remove_at j ac.watchers } in
          let same : remove_watcher ac id ≡ ac' = rw (e, remove_watcher) in
          let index : j ≡ length front = omega (arith, at) in
          let left : remove_at j ac.watchers ≡ front ++ back =
            ap₂ remove_at index split ∙ remove_at-front front w back in
          (
            taken front w back fresh here split (ap (λ (c : AuthCache). c.watchers) same ∙ left),
            same ∙ ap (λ (c : AuthCache). record ac { watchers = c.watchers }) (sym same),
          )
