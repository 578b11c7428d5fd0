-- ===== src/Tests/Lists.antt =====
-- A platform made of lists: sets are lists of their members, stores are lists of their writes, the
-- latest first.
use mathlib.Core.List.{Memᴰ}
use clusterset_server.Base.{
  ◌≡◌, refl, ◌∙◌, Bool, true, false, not, ◌&&◌, ◌||◌, Option, none, some, List, [], ◌∷◌, ◌++◌,
  String, ◌==◌, arith, eq_iff, inl, inr, Bool-cases, contains, mem_of_keep, mem-keep,
  contains-append, contains-keep, keep, any, if◌then◌else◌,
}
use clusterset_server.Platform.{Platform}
use clusterset_server.Rbac.Allow.{is_nil}

pub contains_of_is_nil : (s : List String) (x : String) → is_nil s ≡ true → contains s x ≡ false
unfolding contains
contains_of_is_nil [] x h = refl
contains_of_is_nil (y ∷ s) x h = ground arith

pub contains_nil : (x : String) → contains [] x ≡ false
unfolding contains
contains_nil x = refl

pub or_comm : (a b : Bool) → (a || b) ≡ (b || a)
or_comm a b = ground arith

pub and_comm : (a b : Bool) → (a && b) ≡ (b && a)
and_comm a b = ground arith

module _ {V : Type 0} (key : V → String) where
  unfoldable pub find_in : List V → String → Option V
  find_in [] k = none
  find_in (v ∷ s) k = if key v == k then some v else find_in s k

  unfoldable pub without : List V → V → List V
  without s v = keep (λ w. not (key v == key w)) s

  -- the latest value of each key
  unfoldable pub latest : List V → List V
  latest [] = []
  latest (v ∷ s) = v ∷ without (latest s) v

  pub find_in_nil : (k : String) → find_in [] k ≡ none
  unfolding find_in
  find_in_nil k = refl

  pub find_in-add :
      (s : List V) (v : V) (k : String)
      → find_in (v ∷ s) k ≡ (if key v == k then some v else find_in s k)
  unfolding find_in
  find_in-add s v k = refl

  pub find_in-without :
      (s : List V) (v : V) (k : String)
      → find_in (without s v) k ≡ (if key v == k then none else find_in s k)
  unfolding find_in without keep
  find_in-without [] v k = ground arith
  find_in-without (w ∷ s) v k =
      ground
        (arith, eq_iff (key v) k, eq_iff (key w) k, eq_iff (key v) (key w), find_in-without s v k)

  pub key_of_find_in : (s : List V) (k : String) (v : V) → find_in s k ≡ some v → key v ≡ k
  unfolding find_in
  key_of_find_in [] k v h = ground arith
  key_of_find_in (w ∷ s) k v h = ground (arith, eq_iff (key w) k, key_of_find_in s k v)

  mem_of_mem-without :
      (s : List V) (v w : V) → Memᴰ w (without s v) → Memᴰ w s × ((key v == key w) ≡ false)
  unfolding without
  mem_of_mem-without s v w m =
      let (n, e) = mem_of_keep (λ w. not (key v == key w)) s m in (n, ground arith)

  mem-without : (s : List V) (v w : V) → Memᴰ w s → (key v == key w) ≡ false → Memᴰ w (without s v)
  unfolding without
  mem-without s v w m h = mem-keep (λ w. not (key v == key w)) s m (ground arith)

  pub find_of_mem-latest : (s : List V) (v : V) → Memᴰ v (latest s) → find_in s (key v) ≡ some v
  unfolding latest find_in
  find_of_mem-latest [] v m = elim m [ ]
  find_of_mem-latest (w ∷ s) v (Memᴰ.head e) = ground (arith, eq_iff (key w) (key v))
  find_of_mem-latest (w ∷ s) v (Memᴰ.tail m) =
      let (n, other) = mem_of_mem-without (latest s) w v m in
      ground (arith, find_of_mem-latest s v n)

  pub mem-latest_of_find : (s : List V) (v : V) → find_in s (key v) ≡ some v → Memᴰ v (latest s)
  unfolding latest find_in
  mem-latest_of_find [] v h = absurd (ground arith)
  mem-latest_of_find (w ∷ s) v h = elim (Bool-cases (key w == key v)) [
    | inl same ↦ Memᴰ.head (ground arith)
    | inr other ↦
        Memᴰ.tail (mem-without (latest s) w v (mem-latest_of_find s v (ground arith)) other)
  ]

instance abbrev pub list_platform : Platform
list_platform = record {
  StringSet = List String;
  empty = [];
  insert_all = λ s xs. xs ++ s;
  delete_all = λ s xs. keep (λ x. not (contains xs x)) s;
  has = contains;
  has_any = λ s xs. any (contains s) xs;
  list = λ s. s;
  range = λ s. s;
  difference = λ s t. keep (λ x. not (contains t x)) s;
  is_empty = is_nil;
  has-empty = contains_nil;
  has-insert_all = λ s xs x. contains-append xs s x ∙ or_comm (contains xs x) (contains s x);
  has-delete_all = λ s xs x.
      contains-keep (λ y. not (contains xs y)) s x ∙ and_comm (not (contains xs x)) (contains s x);
  has_any-any = λ s xs. refl;
  contains-list = λ s x. refl;
  contains-range = λ s x. refl;
  has-difference = λ s t x.
      contains-keep (λ y. not (contains t y)) s x ∙ and_comm (not (contains t x)) (contains s x);
  has_of_is_empty = contains_of_is_nil;
  Store = λ V. List V;
  new_store = λ key. [];
  find = find_in;
  find_error = λ key s k. none;
  add = λ key s v. v ∷ s;
  delete = without;
  items = latest;
  find-new_store = find_in_nil;
  find_error-none = λ key s k. refl;
  find-add = find_in-add;
  find-delete = find_in-without;
  key_of_find = key_of_find_in;
  find_of_mem-items = find_of_mem-latest;
  mem-items_of_find = mem-latest_of_find;
}
