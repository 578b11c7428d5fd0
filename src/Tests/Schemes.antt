-- ===== src/Tests/Schemes.antt =====
-- The theorem on the registration of the types, for a scheme that is a list of what was registered.
mod Types
mod Library
use mathlib.Core.List.{Memᴰ, append-nil}
use mathlib.Core.List.Memᴰ
use mathlib.Core.Option.{some-injective}
use mathlib.Core.Path.{subst}
use clusterset_server.Base.{
  not, ap₂, ◌≡◌, refl, sym, ap, ◌∙◌, Bool, Bool-cases, true, false, ◌&&◌, Option, none, some,
  Option-cases, List, [], ◌∷◌, ◌++◌, String, ◌==◌, failure, Result, ok, err, ◌>>=◌, any, arith,
  eq_self, eq_iff, inl, inr, if◌then◌else◌,
}
use clusterset_server.Server.{CacheName, clusters, cluster_sets}
use clusterset_server.Api.{
  unversioned_version, init, group_name, new_type, new_list_type, versioned_storage, meta_type,
  unversioned_types,
}
use clusterset_server.Api.Scheme.{
  GroupVersion, GoType, Entry, SchemeLibrary, Names, Follows, Extends, IsScheme, is_external,
}
use clusterset_server.Api.V1
use clusterset_server.Api.V1alpha1
use clusterset_server.Api.Served.{NoClash, served_types_registered}
use clusterset_server.Tests.Starts.{api_versions}
use clusterset_server.Tests.Schemes.Types.{find, insert_types, IsNamed, insert_types-Grows}
use clusterset_server.Tests.Schemes.Library.{
  ListScheme, scheme_library, scheme_library-IsScheme, internal_event, of_group,
}

-- the package of a kind, by its group
abbrev names : Names
names = record {
  named = λ v kind.
      if v.version == "__internal"
      then internal_event
      else if v.group == group_name && not (kind == "WatchEvent")
      then record {
        path =
            if v.version == "v1"
            then "github.com/open-cluster-management/api/cluster/v1"
            else "github.com/open-cluster-management/api/cluster/v1alpha1";
        name = kind;
      }
      else meta_type kind;
  unversioned = meta_type;
}

names-of_two :
    {a b : Entry} (e : Entry)
    → Memᴰ e (a ∷ b ∷ [])
    → names.named a.version a.kind ≡ a.go_type
    → names.named b.version b.kind ≡ b.go_type
    → names.named e.version e.kind ≡ e.go_type
names-of_two e (Memᴰ.head same) h k =
    subst (λ d. names.named d.version d.kind ≡ d.go_type) (sym same) h
names-of_two e (Memᴰ.tail (Memᴰ.head same)) h k =
    subst (λ d. names.named d.version d.kind ≡ d.go_type) (sym same) k
names-of_two e (Memᴰ.tail (Memᴰ.tail m)) h k = elim m [ ]

abbrev Each : (GoType → GoType) → List GoType → Type 0
Each named [] = Unit
Each named (t ∷ ts) = (named t ≡ t) × Each named ts

named_Mem :
    (named : GoType → GoType) (ts : List GoType)
    → Each named ts
    → (t : GoType) → Memᴰ t ts
    → named t ≡ t
named_Mem named [] h t m = elim m [ ]
named_Mem named (u ∷ ts) (first, rest) t (Memᴰ.head same) =
    subst (λ v. named v ≡ v) (sym same) first
named_Mem named (u ∷ ts) (first, rest) t (Memᴰ.tail m) = named_Mem named ts rest t m

no_clash : NoClash scheme_library names
no_clash = record {
  unversioned_entries = λ e m. names-of_two e m refl refl;
  v1_entries = λ e m. names-of_two e m refl refl;
  v1alpha1_entries = λ e m. names-of_two e m refl refl;
  internal = λ e m. elim m [ ];
  meta = λ t m. elim m [ ];
  unversioned_known =
      named_Mem (λ t. names.named unversioned_version t.name) unversioned_types
        (refl, (refl, (refl, (refl, (refl, (refl, (refl, tt)))))));
  unversioned =
      named_Mem (λ t. names.unversioned t.name) unversioned_types
        (refl, (refl, (refl, (refl, (refl, (refl, (refl, tt)))))));
  v1_known = named_Mem (λ t. names.named V1.group_version t.name) V1.known_types (refl, (refl, tt));
  v1alpha1_known =
      named_Mem (λ t. names.named V1alpha1.group_version t.name) V1alpha1.known_types
        (refl, (refl, tt));
}

served_types_registered_example :
    (scheme : ListScheme) × (init scheme_library ≡ ok scheme)
    × ((version : String) (resources : List (String × CacheName)) (name : String) (c : CacheName)
        → Memᴰ (version, resources) (versioned_storage api_versions)
        → Memᴰ (name, c) resources
        → (find scheme.entries (record { group = group_name; version = version }) (new_type c).name
            ≡ some (new_type c))
          × (find scheme.entries
                (record { group = group_name; version = version })
                (new_list_type c).name
              ≡ some (new_list_type c)))
    × (rest : List GroupVersion) × (of_group group_name scheme.versions
        ≡ V1.group_version ∷ V1alpha1.group_version ∷ rest)
served_types_registered_example =
    served_types_registered scheme_library scheme_library-IsScheme names api_versions no_clash refl
      refl
