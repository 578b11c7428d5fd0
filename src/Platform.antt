-- ===== src/Platform.antt =====
-- What the program takes from the libraries that it calls, as an interface: `sets.String` of
-- k8s.io/apimachinery (a Go map whose keys are the members) and `cache.Store` of client-go (objects
-- under the key that a key function gives). The laws are their documented behaviour.
use mathlib.Core.List.{Memᴰ}
use clusterset_server.Base.{
  ◌≡◌, Bool, true, false, not, ◌&&◌, ◌||◌, Option, none, some, List, String, ◌==◌, if◌then◌else◌,
  contains, any, Error,
}

pub record Platform : Type 1 where
  pub StringSet : Type 0
  -- sets.NewString(), sets.String{}; a nil set reads like it
  pub empty : StringSet
  -- s.Insert(items...), s.Delete(items...), s.Has(item), s.HasAny(items...)
  pub insert_all : StringSet → List String → StringSet
  pub delete_all : StringSet → List String → StringSet
  pub has : StringSet → String → Bool
  pub has_any : StringSet → List String → Bool
  -- s.List(), `range s`
  pub list : StringSet → List String
  pub range : StringSet → List String
  -- s.Difference(t), len(s) == 0
  pub difference : StringSet → StringSet → StringSet
  pub is_empty : StringSet → Bool
  pub has-empty : (x : String) → has empty x ≡ false
  pub has-insert_all :
      (s : StringSet) (xs : List String) (x : String)
      → has (insert_all s xs) x ≡ (has s x || contains xs x)
  pub has-delete_all :
      (s : StringSet) (xs : List String) (x : String)
      → has (delete_all s xs) x ≡ (has s x && not (contains xs x))
  pub has_any-any : (s : StringSet) (xs : List String) → has_any s xs ≡ any (has s) xs
  pub contains-list : (s : StringSet) (x : String) → contains (list s) x ≡ has s x
  pub contains-range : (s : StringSet) (x : String) → contains (range s) x ≡ has s x
  pub has-difference :
      (s t : StringSet) (x : String) → has (difference s t) x ≡ (has s x && not (has t x))
  pub has_of_is_empty : (s : StringSet) (x : String) → is_empty s ≡ true → has s x ≡ false
  -- cache.NewStore(key); the operations are passed its key function
  pub Store : Type 0 → Type 0
  pub new_store : {V : Type 0} → (V → String) → Store V
  -- obj, exists, err := store.GetByKey(k)
  pub find : {V : Type 0} → (V → String) → Store V → String → Option V
  pub find_error : {V : Type 0} → (V → String) → Store V → String → Option Error
  -- store.Add(obj), store.Delete(obj), store.List()
  pub add : {V : Type 0} → (V → String) → Store V → V → Store V
  pub delete : {V : Type 0} → (V → String) → Store V → V → Store V
  pub items : {V : Type 0} → (V → String) → Store V → List V
  pub find-new_store :
      {V : Type 0} (key : V → String) (k : String) → find key (new_store key) k ≡ none
  pub find_error-none :
      {V : Type 0} (key : V → String) (s : Store V) (k : String) → find_error key s k ≡ none
  pub find-add :
      {V : Type 0} (key : V → String) (s : Store V) (v : V) (k : String)
      → find key (add key s v) k ≡ (if key v == k then some v else find key s k)
  pub find-delete :
      {V : Type 0} (key : V → String) (s : Store V) (v : V) (k : String)
      → find key (delete key s v) k ≡ (if key v == k then none else find key s k)
  pub key_of_find :
      {V : Type 0} (key : V → String) (s : Store V) (k : String) (v : V)
      → find key s k ≡ some v
      → key v ≡ k
  pub find_of_mem-items :
      {V : Type 0} (key : V → String) (s : Store V) (v : V)
      → Memᴰ v (items key s)
      → find key s (key v) ≡ some v
  pub mem-items_of_find :
      {V : Type 0} (key : V → String) (s : Store V) (v : V)
      → find key s (key v) ≡ some v
      → Memᴰ v (items key s)
