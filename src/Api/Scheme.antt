-- ===== src/Api/Scheme.antt =====
-- `runtime.Scheme` of k8s.io/apimachinery, as the register.go files of pkg/apis/cluster use it: an
-- interface, with the documented behaviour of its methods as laws.
use mathlib.Core.List.{Memᴰ}
use clusterset_server.Base.{
  Bool, true, false, not, ◌||◌, ◌≡◌, Option, some, List, ◌∷◌, ◌++◌, String, ◌==◌, Result, ok, any,
}

-- schema.GroupVersion
pub record GroupVersion : Type 0 where
  pub group : String
  pub version : String

-- A type of Go: the path of its package, and its name, which is the kind that it is registered as.
pub record GoType : Type 0 where
  pub path : String
  pub name : String

-- a type that is registered as a kind of a version
pub record Entry : Type 0 where
  pub version : GroupVersion
  pub kind : String
  pub go_type : GoType

-- A method that panics, or whose error `utilruntime.Must` makes a panic of, ends in `err`.
pub record SchemeLibrary : Type 1 where
  pub Scheme : Type 0
  pub new_scheme : Scheme
  -- metav1.AddToGroupVersion
  pub add_to_group_version : GroupVersion → Scheme → Result Scheme
  -- metainternalversion.AddToScheme, whose error is dropped
  pub add_internal : Scheme → Result Scheme
  pub add_unversioned_types : GroupVersion → List GoType → Scheme → Result Scheme
  pub add_known_types : GroupVersion → List GoType → Scheme → Result Scheme
  pub set_version_priority : List GroupVersion → Scheme → Result Scheme
  -- the type that is registered as a kind of a version, and as an unversioned kind
  pub type_of : Scheme → GroupVersion → String → Option GoType
  pub unversioned_type_of : Scheme → String → Option GoType
  pub prioritized_versions : Scheme → String → List GroupVersion
  -- what AddToGroupVersion of a version and metainternalversion.AddToScheme register, and what they
  -- register as unversioned
  pub meta_entries : GroupVersion → List Entry
  pub internal_entries : List Entry
  pub meta_unversioned : List GoType

-- Versions of this group, of which none is empty or internal.
abbrev pub is_external : String → List GroupVersion → Bool
is_external group versions =
    not (any (λ v. not (v.group == group) || v.version == "" || v.version == "__internal") versions)

-- One type for each kind of a version, and one for each unversioned kind.
pub record Names : Type 0 where
  pub named : GroupVersion → String → GoType
  pub unversioned : String → GoType

module _ (library : SchemeLibrary) where
  -- The kinds of the scheme have these types.
  pub record Follows (names : Names) (scheme : library.Scheme) : Type 0 where
    pub types :
        (v : GroupVersion) (kind : String) (t : GoType)
        → library.type_of scheme v kind ≡ some t
        → names.named v kind ≡ t
    pub unversioned_types :
        (kind : String) (t : GoType)
        → library.unversioned_type_of scheme kind ≡ some t
        → names.unversioned kind ≡ t

  -- The method does not panic, and keeps what is registered.
  pub record Extends (names : Names) (scheme : library.Scheme) (r : Result library.Scheme)
      : Type 0 where
    pub after : library.Scheme
    pub returns : r ≡ ok after
    pub follows : Follows names after
    pub keeps :
        (v : GroupVersion) (kind : String) (t : GoType)
        → library.type_of scheme v kind ≡ some t
        → library.type_of after v kind ≡ some t

  abbrev pub EntriesFollow : Names → List Entry → Type 0
  EntriesFollow names entries =
      (e : Entry) → Memᴰ e entries → names.named e.version e.kind ≡ e.go_type

  abbrev pub KnownFollow : Names → GroupVersion → List GoType → Type 0
  KnownFollow names version ts = (t : GoType) → Memᴰ t ts → names.named version t.name ≡ t

  abbrev pub UnversionedFollow : Names → List GoType → Type 0
  UnversionedFollow names ts = (t : GoType) → Memᴰ t ts → names.unversioned t.name ≡ t

  -- The methods panic only for an empty version, or where a kind has two types.
  pub record IsScheme : Type 0 where
    pub new-Follows : (names : Names) → Follows names library.new_scheme
    pub extends-add_known_types :
        (names : Names) (version : GroupVersion) (ts : List GoType) (scheme : library.Scheme)
        → (version.version == "") ≡ false
        → KnownFollow names version ts
        → Follows names scheme
        → (e : Extends names scheme (library.add_known_types version ts scheme)) × ((t : GoType)
            → Memᴰ t ts
            → library.type_of e.after version t.name ≡ some t)
    pub extends-add_unversioned_types :
        (names : Names) (version : GroupVersion) (ts : List GoType) (scheme : library.Scheme)
        → (version.version == "") ≡ false
        → KnownFollow names version ts
        → UnversionedFollow names ts
        → Follows names scheme
        → Extends names scheme (library.add_unversioned_types version ts scheme)
    pub extends-add_to_group_version :
        (names : Names) (version : GroupVersion) (scheme : library.Scheme)
        → (version.version == "") ≡ false
        → EntriesFollow names (library.meta_entries version)
        → UnversionedFollow names library.meta_unversioned
        → Follows names scheme
        → Extends names scheme (library.add_to_group_version version scheme)
    pub extends-add_internal :
        (names : Names) (scheme : library.Scheme)
        → EntriesFollow names library.internal_entries
        → UnversionedFollow names library.meta_unversioned
        → Follows names scheme
        → Extends names scheme (library.add_internal scheme)
    -- The versions of one group get this priority, and stand before the others of the group.
    pub prioritizes :
        (first : GroupVersion) (others : List GroupVersion) (scheme : library.Scheme)
        → is_external first.group (first ∷ others) ≡ true
        → (scheme' : library.Scheme) × (library.set_version_priority (first ∷ others) scheme
            ≡ ok scheme')
          × ((v : GroupVersion) (kind : String)
              → library.type_of scheme' v kind ≡ library.type_of scheme v kind)
          × (rest : List GroupVersion) × (library.prioritized_versions scheme' first.group
              ≡ (first ∷ others) ++ rest)
