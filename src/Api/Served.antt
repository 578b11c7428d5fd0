-- ===== src/Api/Served.antt =====
-- pkg/apis/cluster/register.go and pkg/cmd/server.go: the versions at which the resources are served.
use mathlib.Core.List.{Memᴰ}
use mathlib.Core.List.Memᴰ
use mathlib.Core.Path.{subst}
use clusterset_server.Base.{
  ◌≡◌, refl, ◌∙◌, false, some, List, [], ◌∷◌, ◌==◌, String, Result, ok, ◌>>=◌, ap, sym, any,
}
use clusterset_server.Server.{CacheName, clusters, cluster_sets}
use clusterset_server.Api.{
  init, install, group_name, unversioned_version, unversioned_types, new_type, new_list_type,
  versioned_storage,
}
use clusterset_server.Api.Scheme.{
  GroupVersion, GoType, SchemeLibrary, Names, Follows, Extends, EntriesFollow, KnownFollow,
  UnversionedFollow, IsScheme,
}
use clusterset_server.Api.V1
use clusterset_server.Api.V1alpha1

bind_ok :
    {A B : Type 0} {r : Result A} {a : A} {q : Result B} (f : A → Result B)
    → r ≡ ok a
    → f a ≡ q
    → (r >>= f) ≡ q
bind_ok f e h = ap (λ r. r >>= f) e ∙ h

-- What the libraries and this code register has these names: no kind of a version, and no
-- unversioned kind, has two types.
pub record NoClash (library : SchemeLibrary) (names : Names) : Type 0 where
  pub unversioned_entries : EntriesFollow library names (library.meta_entries unversioned_version)
  pub v1_entries : EntriesFollow library names (library.meta_entries V1.group_version)
  pub v1alpha1_entries : EntriesFollow library names (library.meta_entries V1alpha1.group_version)
  pub internal : EntriesFollow library names library.internal_entries
  pub meta : UnversionedFollow library names library.meta_unversioned
  pub unversioned_known : KnownFollow library names unversioned_version unversioned_types
  pub unversioned : UnversionedFollow library names unversioned_types
  pub v1_known : KnownFollow library names V1.group_version V1.known_types
  pub v1alpha1_known : KnownFollow library names V1alpha1.group_version V1alpha1.known_types

module _ (library : SchemeLibrary) (laws : IsScheme library) where
  -- Both types of the storage are registered at the version, under their names.
  abbrev Registers : library.Scheme → String → CacheName → Type 0
  Registers scheme version c =
      (library.type_of scheme (record { group = group_name; version = version }) (new_type c).name
        ≡ some (new_type c))
      × (library.type_of scheme (record { group = group_name; version = version })
            (new_list_type c).name
          ≡ some (new_list_type c))

  -- The types of a version are there after they are added, with the options of the version.
  added :
      (names : Names) (version : GroupVersion) (ts : List GoType) (scheme : library.Scheme)
      → (version.version == "") ≡ false
      → KnownFollow library names version ts
      → EntriesFollow library names (library.meta_entries version)
      → UnversionedFollow library names library.meta_unversioned
      → Follows library names scheme
      → (e : Extends library names scheme
          (library.add_known_types version ts scheme >>= library.add_to_group_version version))
        × ((t : GoType) → Memᴰ t ts → library.type_of e.after version t.name ≡ some t)
  added names version ts scheme filled known entries meta follows =
      let (k, there) = laws.extends-add_known_types names version ts scheme filled known follows in
      let m =
        laws.extends-add_to_group_version names version k.after filled entries meta k.follows in
      (
        record {
          after = m.after;
          returns = bind_ok (library.add_to_group_version version) k.returns m.returns;
          follows = m.follows;
          keeps = λ v kind t h. m.keeps v kind t (k.keeps v kind t h);
        },
        λ t m'. m.keeps version t.name t (there t m'),
      )

  install-Registers :
      (names : Names) (scheme : library.Scheme)
      → NoClash library names
      → Follows library names scheme
      → (scheme' : library.Scheme) × (install library scheme ≡ ok scheme')
        × Registers scheme' "v1" clusters
        × Registers scheme' "v1alpha1" cluster_sets
        × (rest : List GroupVersion) × (library.prioritized_versions scheme' group_name
            ≡ V1.group_version ∷ V1alpha1.group_version ∷ rest)
  unfolding install V1.add_known_types V1alpha1.add_known_types any
  install-Registers names scheme h follows =
      let (e, at_v1) =
        added names V1.group_version V1.known_types scheme refl h.v1_known h.v1_entries h.meta
          follows in
      let (e', at_v1alpha1) =
        added names V1alpha1.group_version V1alpha1.known_types e.after refl h.v1alpha1_known
          h.v1alpha1_entries h.meta e.follows in
      let (scheme', installed, same, rest, versions) =
        laws.prioritizes V1.group_version (V1alpha1.group_version ∷ []) e'.after refl in
      let kept : (t : GoType)
          → Memᴰ t V1.known_types
          → library.type_of scheme' V1.group_version t.name ≡ some t =
        λ t there. same _ _ ∙ e'.keeps V1.group_version t.name t (at_v1 t there) in
      (
        scheme',
        bind_ok _ e.returns (bind_ok _ e'.returns installed),
        (kept _ (Memᴰ.head refl), kept _ (Memᴰ.tail (Memᴰ.head refl))),
        (
          same _ _ ∙ at_v1alpha1 _ (Memᴰ.head refl),
          same _ _ ∙ at_v1alpha1 _ (Memᴰ.tail (Memᴰ.head refl)),
        ),
        rest,
        versions,
      )

  -- what an entry of one resource serves
  Registers-of_entry :
      (scheme : library.Scheme) {version v name name' : String}
      {resources : List (String × CacheName)} {c c' : CacheName}
      → ◌≡◌ {A = String × List (String × CacheName)} (version, resources) (v, (name', c') ∷ [])
      → Memᴰ (name, c) resources
      → Registers scheme v c'
      → Registers scheme version c
  Registers-of_entry scheme {version} {v} {name} {c} {c'} e m h =
      let entry = Memᴰ.eq_of_singleton (subst (Memᴰ (name, c)) (ap (λ x. x.1) e) m) in
      subst (λ d. Registers scheme version d) (sym (ap (λ x. x.1) entry))
        (subst (λ u. Registers scheme u c') (sym (ap (λ x. x.0) e)) h)

  Registers-of_Mem :
      (scheme : library.Scheme) (version_of : CacheName → String) (version : String)
      (resources : List (String × CacheName)) (name : String) (c : CacheName)
      → version_of clusters ≡ "v1"
      → version_of cluster_sets ≡ "v1alpha1"
      → Registers scheme "v1" clusters
      → Registers scheme "v1alpha1" cluster_sets
      → Memᴰ (version, resources) (versioned_storage version_of)
      → Memᴰ (name, c) resources
      → Registers scheme version c
  unfolding versioned_storage
  Registers-of_Mem scheme version_of version resources name c v1 v1alpha1 h h' (Memᴰ.head e) k =
      Registers-of_entry scheme e k (subst (λ v. Registers scheme v clusters) (sym v1) h)
  Registers-of_Mem scheme version_of version resources name c v1 v1alpha1 h h'
        (Memᴰ.tail (Memᴰ.head e)) k =
      Registers-of_entry scheme e k (subst (λ v. Registers scheme v cluster_sets) (sym v1alpha1) h')
  Registers-of_Mem scheme version_of version resources name c v1 v1alpha1 h h'
        (Memᴰ.tail (Memᴰ.tail m)) k =
      elim m [ ]

  -- With a scheme library of the documented behaviour, where no kind has two types among what it and
  -- this code register, and where the API module names the versions v1 and v1alpha1: the
  -- registration does not panic, and the types of every resource, that of its objects and that of
  -- its lists, are registered under their names at the version at which it is served; v1 is the
  -- first version of the group and v1alpha1 the second.
  pub served_types_registered :
      (names : Names) (version_of : CacheName → String)
      → NoClash library names
      → version_of clusters ≡ "v1"
      → version_of cluster_sets ≡ "v1alpha1"
      → (scheme : library.Scheme) × (init library ≡ ok scheme)
        × ((version : String) (resources : List (String × CacheName)) (name : String)
              (c : CacheName)
            → Memᴰ (version, resources) (versioned_storage version_of)
            → Memᴰ (name, c) resources
            → (library.type_of scheme
                  (record { group = group_name; version = version })
                  (new_type c).name
                ≡ some (new_type c))
              × (library.type_of scheme
                    (record { group = group_name; version = version })
                    (new_list_type c).name
                  ≡ some (new_list_type c)))
        × (rest : List GroupVersion) × (library.prioritized_versions scheme group_name
            ≡ V1.group_version ∷ V1alpha1.group_version ∷ rest)
  unfolding init
  served_types_registered names version_of h v1 v1alpha1 =
      let o =
        laws.extends-add_to_group_version names unversioned_version library.new_scheme refl
          h.unversioned_entries h.meta (laws.new-Follows names) in
      let i = laws.extends-add_internal names o.after h.internal h.meta o.follows in
      let u =
        laws.extends-add_unversioned_types names unversioned_version unversioned_types i.after refl
          h.unversioned_known h.unversioned i.follows in
      let (scheme, installed, at_v1, at_v1alpha1, rest, versions) =
        install-Registers names u.after h u.follows in
      (
        scheme,
        bind_ok _ o.returns (bind_ok _ i.returns (bind_ok _ u.returns installed)),
        λ version resources name c m k.
            Registers-of_Mem scheme version_of version resources name c v1 v1alpha1 at_v1
              at_v1alpha1 m k,
        rest,
        versions,
      )
