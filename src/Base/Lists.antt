-- ===== src/Base/Lists.antt =====
-- Searches in lists, as the `for` loops of the source make them.
use Prim.Native.Nat.{zero, ℕ, suc}
use Prim.Native.String.{String}
use mathlib.Core.List.Memᴰ
use mathlib.Core.Bool.{Bool, true, false, ◌||◌, ◌&&◌}
use mathlib.Core.List.{List, [], ◌∷◌, ◌++◌, Memᴰ}
use mathlib.Core.Logic.{◌↔◌, inl, inr}
use mathlib.Core.Path.{◌≡◌, refl, sym, ap}
use native.Mathlib.Omega.{arith}
use text.Mathlib.Text.{◌==◌}
use text.Mathlib.TextEquality.{eq_iff}
use clusterset_server.Base.Tests.{if◌then◌else◌, Bool-cases, eq_self, eq-cases}

module _ {ℓ} {A : Type ℓ} where
  abbrev pub length : List A → ℕ
  length [] = 0
  length (x ∷ xs) = suc (length xs)

  -- xs[:n], xs[n:]
  unfoldable pub take : ℕ → List A → List A
  take zero xs = []
  take (suc n) [] = []
  take (suc n) (x ∷ xs) = x ∷ take n xs

  unfoldable pub drop : ℕ → List A → List A
  drop zero xs = xs
  drop (suc n) [] = []
  drop (suc n) (x ∷ xs) = drop n xs

  -- copy(dst, src), and what is in dst after it
  unfoldable pub copy : List A → List A → List A
  copy [] src = []
  copy (y ∷ dst) [] = y ∷ dst
  copy (y ∷ dst) (x ∷ src) = x ∷ copy dst src

  pub take-length : (xs : List A) → take (length xs) xs ≡ xs
  unfolding take
  take-length [] = refl
  take-length (x ∷ xs) = ap (◌∷◌ x) (take-length xs)

  -- A list moved one place to the left over itself is its tail and its last element once more.
  pub take-copy : (x : A) (xs : List A) → take (length xs) (copy (x ∷ xs) xs) ≡ xs
  unfolding take copy
  take-copy x [] = refl
  take-copy x (y ∷ xs) = ap (◌∷◌ y) (take-copy y xs)

  -- `for … { if p(x) { return true } } return false`
  unfoldable pub any : (A → Bool) → List A → Bool
  any p [] = false
  any p (x ∷ xs) = p x || any p xs

  pub any-append : (p : A → Bool) (xs ys : List A) → any p (xs ++ ys) ≡ (any p xs || any p ys)
  unfolding any
  any-append p [] ys = refl
  any-append p (x ∷ xs) ys = ground (arith, any-append p xs ys)

  pub any_none : (xs : List A) → any (λ _. false) xs ≡ false
  unfolding any
  any_none [] = refl
  any_none (x ∷ xs) = any_none xs

  pub any_of_mem : (p : A → Bool) {x : A} (xs : List A) → Memᴰ x xs → p x ≡ true → any p xs ≡ true
  unfolding any
  any_of_mem p [] m h = elim m [ ]
  any_of_mem p (y ∷ xs) (Memᴰ.head e) h = ground arith
  any_of_mem p (y ∷ xs) (Memᴰ.tail m) h = ground (arith, any_of_mem p xs m h)

  pub mem_of_any :
      (p : A → Bool) (xs : List A) → any p xs ≡ true → (x : A) × Memᴰ x xs × (p x ≡ true)
  unfolding any
  mem_of_any p [] h = ground arith
  mem_of_any p (x ∷ xs) h = elim (Bool-cases (p x)) [
    | inl here ↦ (x, Memᴰ.head refl, here)
    | inr miss ↦ let (y, m, found) = mem_of_any p xs (ground arith) in (y, Memᴰ.tail m, found)
  ]

  -- `for … { if !p(x) { continue }; out = append(out, x) }`
  unfoldable pub keep : (A → Bool) → List A → List A
  keep p [] = []
  keep p (x ∷ xs) = if p x then x ∷ keep p xs else keep p xs

  pub any-keep : (p q : A → Bool) (xs : List A) → any q (keep p xs) ≡ any (λ x. p x && q x) xs
  unfolding any keep
  any-keep p q [] = refl
  any-keep p q (x ∷ xs) = ground (arith, any-keep p q xs)

  pub mem_of_keep :
      (p : A → Bool) {x : A} (xs : List A) → Memᴰ x (keep p xs) → Memᴰ x xs × (p x ≡ true)
  unfolding keep
  mem_of_keep p [] m = elim m [ ]
  mem_of_keep p {x} (y ∷ xs) m = elim (Bool-cases (p y)) [
    | inl kept ↦ elim (Memᴰ.cases_cons (rw kept at m)) [
      | inl here ↦ (Memᴰ.head here, ground arith)
      | inr later ↦ let (n, e) = mem_of_keep p xs later in (Memᴰ.tail n, e)
    ]
    | inr dropped ↦ let (n, e) = mem_of_keep p xs (rw dropped at m) in (Memᴰ.tail n, e)
  ]

  pub mem-keep : (p : A → Bool) {x : A} (xs : List A) → Memᴰ x xs → p x ≡ true → Memᴰ x (keep p xs)
  unfolding keep
  mem-keep p [] m h = elim m [ ]
  mem-keep p (y ∷ xs) (Memᴰ.head e) h =
      let kept : p y ≡ true = ground arith in rw kept (Memᴰ.head e)
  mem-keep p (y ∷ xs) (Memᴰ.tail m) h = elim (Bool-cases (p y)) [
    | inl kept ↦ rw kept (Memᴰ.tail (mem-keep p xs m h))
    | inr dropped ↦ rw dropped (mem-keep p xs m h)
  ]

  pub any_ext : (p q : A → Bool) (xs : List A) → ((x : A) → p x ≡ q x) → any p xs ≡ any q xs
  unfolding any
  any_ext p q [] h = refl
  any_ext p q (x ∷ xs) h = ground (arith, h x, any_ext p q xs h)

-- `for _, element := range set { if value == element { return true } } return false`
unfoldable pub contains : List String → String → Bool
contains [] value = false
contains (x ∷ xs) value = x == value || contains xs value

pub contains_singleton : (x v : String) → contains (x ∷ []) v ≡ (x == v)
unfolding contains
contains_singleton x v = ground arith

pub contains-append :
    (xs ys : List String) (v : String) → contains (xs ++ ys) v ≡ (contains xs v || contains ys v)
unfolding contains
contains-append [] ys v = refl
contains-append (x ∷ xs) ys v = ground (arith, contains-append xs ys v)

pub contains-keep :
    (p : String → Bool) (xs : List String) (v : String)
    → contains (keep p xs) v ≡ (p v && contains xs v)
unfolding contains keep
contains-keep p [] v = ground arith
contains-keep p (x ∷ xs) v = elim (eq-cases x v) [
  | inl (e, same) ↦ rw same (ground (arith, eq_self v, contains-keep p xs v))
  | inr (e, other) ↦ ground (arith, e, contains-keep p xs v)
]

mem_of_contains : (xs : List String) (v : String) → contains xs v ≡ true → Memᴰ v xs
unfolding contains
mem_of_contains [] v h = ground arith
mem_of_contains (x ∷ xs) v h = elim (eq-cases x v) [
  | inl (e, same) ↦ Memᴰ.head (sym same)
  | inr (e, other) ↦ Memᴰ.tail (mem_of_contains xs v (ground arith))
]

contains_of_mem : (xs : List String) (v : String) → Memᴰ v xs → contains xs v ≡ true
unfolding contains
contains_of_mem [] v m = elim m [ ]
contains_of_mem (x ∷ xs) v (Memᴰ.head e) = ground (arith, eq_iff x v)
contains_of_mem (x ∷ xs) v (Memᴰ.tail m) = ground (arith, contains_of_mem xs v m)

pub contains_iff : (xs : List String) (v : String) → (contains xs v ≡ true) ↔ Memᴰ v xs
contains_iff xs v = (mem_of_contains xs v, contains_of_mem xs v)
