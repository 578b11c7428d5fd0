-- ===== src/Tests/Schemes/Library.antt =====
-- A scheme that is a list of what was registered, and that panics for an empty version or a second
-- type. Unversioned kinds are not kept apart.
use mathlib.Core.List.{Memᴰ, append-nil}
use mathlib.Core.Path.{subst}
use clusterset_server.Base.{
  ◌≡◌, refl, sym, ap, false, none, some, List, [], ◌∷◌, String, ◌==◌, failure, Result, ok, err,
  ◌>>=◌, arith, eq_self, if◌then◌else◌,
}
use clusterset_server.Api.{meta_type}
use clusterset_server.Api.Scheme.{
  GroupVersion, GoType, Entry, SchemeLibrary, Names, Follows, Extends, IsScheme, is_external,
}
use clusterset_server.Tests.Schemes.Types.{find, insert_types, IsNamed, insert_types-Grows}

-- what was registered, and the versions in their order
pub record ListScheme : Type 0 where
  pub entries : List Entry
  pub versions : List GroupVersion

-- the same type for all versions
abbrev entries_at : GroupVersion → List GoType → List Entry
entries_at version [] = []
entries_at version (t ∷ ts) =
    record { version = version; kind = t.name; go_type = t } ∷ entries_at version ts

abbrev pub internal_event : GoType
internal_event = meta_type "InternalEvent"

abbrev internal_of : GroupVersion → GroupVersion
internal_of v = record { group = v.group; version = "__internal" }

abbrev events_of : GroupVersion → List Entry
events_of v =
    record { version = v; kind = "WatchEvent"; go_type = meta_type "WatchEvent" }
    ∷ record { version = internal_of v; kind = "WatchEvent"; go_type = internal_event }
    ∷ []

abbrev prioritize : List GroupVersion → ListScheme → Result ListScheme
prioritize [] scheme = err (failure "must register versions for exactly one group")
prioritize (v ∷ versions) scheme =
    if is_external v.group (v ∷ versions)
    then ok (record scheme { versions = v ∷ versions })
    else err (failure "must register versions for exactly one group")

-- the versions where they are of this group
abbrev pub of_group : String → List GroupVersion → List GroupVersion
of_group group [] = []
of_group group (v ∷ versions) = if v.group == group then v ∷ versions else []

abbrev with_entries : ListScheme → List Entry → Result ListScheme
with_entries scheme entries = ok (record scheme { entries = entries })

abbrev add_entries : List Entry → ListScheme → Result ListScheme
add_entries es scheme = insert_types es scheme.entries >>= with_entries scheme

abbrev pub scheme_library : SchemeLibrary
scheme_library = record {
  Scheme = ListScheme;
  new_scheme = record { entries = []; versions = [] };
  add_to_group_version = λ v scheme. add_entries (events_of v) scheme;
  add_internal = λ scheme. ok scheme;
  add_unversioned_types = λ v ts scheme. add_entries (entries_at v ts) scheme;
  add_known_types = λ v ts scheme. add_entries (entries_at v ts) scheme;
  set_version_priority = prioritize;
  type_of = λ scheme v kind. find scheme.entries v kind;
  unversioned_type_of = λ scheme kind. none;
  prioritized_versions = λ scheme group. of_group group scheme.versions;
  meta_entries = events_of;
  internal_entries = [];
  meta_unversioned = [];
}

entries_at-IsNamed :
    (names : Names) (version : GroupVersion) (ts : List GoType)
    → (version.version == "") ≡ false
    → ((t : GoType) → Memᴰ t ts → names.named version t.name ≡ t)
    → (e : Entry) → Memᴰ e (entries_at version ts)
    → IsNamed names.named e
entries_at-IsNamed names version [] filled h e m = elim m [ ]
entries_at-IsNamed names version (t ∷ ts) filled h e (Memᴰ.head same) =
    subst (IsNamed names.named) (sym same) (record { filled = filled; same = h t (Memᴰ.head refl) })
entries_at-IsNamed names version (t ∷ ts) filled h e (Memᴰ.tail m) =
    entries_at-IsNamed names version ts filled (λ u k. h u (Memᴰ.tail k)) e m

mem-entries_at :
    (version : GroupVersion) (ts : List GoType) (t : GoType)
    → Memᴰ t ts
    → Memᴰ (record { version = version; kind = t.name; go_type = t }) (entries_at version ts)
mem-entries_at version [] t m = elim m [ ]
mem-entries_at version (u ∷ ts) t (Memᴰ.head same) =
    Memᴰ.head (ap (λ v. record { version = version; kind = v.name; go_type = v }) same)
mem-entries_at version (u ∷ ts) t (Memᴰ.tail m) = Memᴰ.tail (mem-entries_at version ts t m)

add_entries-Extends :
    (names : Names) (es : List Entry) (scheme : ListScheme)
    → ((e : Entry) → Memᴰ e es → IsNamed names.named e)
    → Follows scheme_library names scheme
    → (x : Extends scheme_library names scheme (add_entries es scheme)) × ((e : Entry)
        → Memᴰ e es
        → find x.after.entries e.version e.kind ≡ some e.go_type)
add_entries-Extends names es scheme h follows =
    let g = insert_types-Grows names.named es scheme.entries h follows.types in
    (
      record {
        after = record scheme { entries = g.after };
        returns = ap (λ r. r >>= with_entries scheme) g.returns;
        follows = record {
          types = g.fits;
          unversioned_types = λ kind t known. absurd (ground arith);
        };
        keeps = g.keeps;
      },
      g.there,
    )

events_of-IsNamed :
    (names : Names) (v : GroupVersion)
    → (v.version == "") ≡ false
    → ((e : Entry) → Memᴰ e (events_of v) → names.named e.version e.kind ≡ e.go_type)
    → (e : Entry) → Memᴰ e (events_of v)
    → IsNamed names.named e
events_of-IsNamed names v filled h e (Memᴰ.head same) = record {
  filled = subst (λ d. (d.version.version == "") ≡ false) (sym same) filled;
  same = h e (Memᴰ.head same);
}
events_of-IsNamed names v filled h e (Memᴰ.tail (Memᴰ.head same)) = record {
  filled = subst (λ d. (d.version.version == "") ≡ false) (sym same) refl;
  same = h e (Memᴰ.tail (Memᴰ.head same));
}
events_of-IsNamed names v filled h e (Memᴰ.tail (Memᴰ.tail m)) = elim m [ ]

pub scheme_library-IsScheme : IsScheme scheme_library
scheme_library-IsScheme = record {
  new-Follows = λ names. record {
    types = λ v kind t known. absurd (ground arith);
    unversioned_types = λ kind t known. absurd (ground arith);
  };
  extends-add_known_types = λ names version ts scheme filled known follows.
      let (x, there) =
        add_entries-Extends names (entries_at version ts) scheme
          (entries_at-IsNamed names version ts filled known) follows in
      (x, λ t m. there _ (mem-entries_at version ts t m));
  extends-add_unversioned_types = λ names version ts scheme filled known unversioned follows.
      (add_entries-Extends names (entries_at version ts) scheme
        (entries_at-IsNamed names version ts filled known) follows).0;
  extends-add_to_group_version = λ names version scheme filled entries unversioned follows.
      (add_entries-Extends names (events_of version) scheme
        (events_of-IsNamed names version filled entries) follows).0;
  extends-add_internal = λ names scheme entries unversioned follows. record {
    after = scheme;
    returns = refl;
    follows = follows;
    keeps = λ v kind t known. known;
  };
  prioritizes = λ first others scheme external. (
    record scheme { versions = first ∷ others },
    ground (arith, external),
    λ v kind. refl,
    [],
    rw (eq_self first.group) (sym (append-nil (first ∷ others))),
  );
}
