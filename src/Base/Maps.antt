-- ===== src/Base/Maps.antt =====
-- Go's `map[string]string`: an association list with one entry for a key that was written.
use Prim.Native.String.{String}
use mathlib.Core.List.{List, [], ◌∷◌}
use mathlib.Core.Option.{Option, none, some}
use mathlib.Core.Path.{◌≡◌, refl}
use native.Mathlib.Omega.{arith}
use text.Mathlib.Text.{◌==◌}
use text.Mathlib.TextEquality.{eq_iff}
use clusterset_server.Base.Tests.{if◌then◌else◌}

abbrev pub StringMap : Type 0
StringMap = List (String × String)

-- v, exists := m[k]
unfoldable pub lookup : String → StringMap → Option String
lookup k [] = none
lookup k ((j, v) ∷ m) = if j == k then some v else lookup k m

-- delete(m, k)
unfoldable pub delete : String → StringMap → StringMap
delete gone [] = []
delete gone ((key, value) ∷ entries) =
    let rest = delete gone entries in if key == gone then rest else (key, value) ∷ rest

-- m[k] = v
unfoldable pub insert : String → String → StringMap → StringMap
insert k v m = (k, v) ∷ delete k m

pub lookup-delete :
    (gone key : String) (m : StringMap)
    → lookup key (delete gone m) ≡ (if gone == key then none else lookup key m)
unfolding lookup delete
lookup-delete gone key [] = ground arith
lookup-delete gone key ((first, value) ∷ entries) =
    ground
      (arith, lookup-delete gone key entries, eq_iff gone key, eq_iff first gone, eq_iff first key)

pub lookup-insert :
    (written key value : String) (m : StringMap)
    → lookup key (insert written value m) ≡ (if written == key then some value else lookup key m)
unfolding lookup insert
lookup-insert written key value m = ground (arith, lookup-delete written key m)

-- for k, v := range from { m[k] = v }
unfoldable pub copy_into : StringMap → StringMap → StringMap
copy_into [] m = m
copy_into ((k, v) ∷ from) m = copy_into from (insert k v m)

-- The keys of a map are distinct: an entry is not written again further on.
abbrev pub IsMap : StringMap → Type 0
IsMap [] = Unit
IsMap ((k, v) ∷ m) = (lookup k m ≡ none) × IsMap m

pub lookup-copy_into :
    (from m : StringMap) (j : String)
    → IsMap from
    → lookup j (copy_into from m) ≡ elim (lookup j from) [ some v ↦ some v | none ↦ lookup j m ]
unfolding lookup copy_into
lookup-copy_into [] m j h = refl
lookup-copy_into ((k, v) ∷ from) m j (fresh, h) =
    ground (arith, eq_iff k j, lookup-insert k j v m, lookup-copy_into from (insert k v m) j h)
