-- ===== src/Tests/Schemes/Types.antt =====
-- A list of the types that were registered, which grows as the documentation of a scheme says.
use mathlib.Core.List.{Memᴰ}
use mathlib.Core.List.Memᴰ
use mathlib.Core.Option.{some-injective}
use mathlib.Core.Path.{subst}
use clusterset_server.Base.{
  ap₂, ◌≡◌, refl, sym, ap, ◌∙◌, Bool, Bool-cases, true, false, ◌&&◌, Option, none, some,
  Option-cases, List, [], ◌∷◌, String, ◌==◌, failure, Result, ok, err, ◌>>=◌, arith, eq_self,
  eq_iff, inl, inr, if◌then◌else◌,
}
use clusterset_server.Api.Scheme.{GroupVersion, GoType, Entry}

abbrev pub is_at : Entry → GroupVersion → String → Bool
is_at e v kind = (e.version.group == v.group && e.version.version == v.version) && e.kind == kind

abbrev pub find : List Entry → GroupVersion → String → Option GoType
find [] v kind = none
find (e ∷ entries) v kind = if is_at e v kind then some e.go_type else find entries v kind

abbrev pub same_type : GoType → GoType → Bool
same_type t u = t.path == u.path && t.name == u.name

abbrev pub checked_with : Option GoType → Entry → List Entry → Result (List Entry)
checked_with none e entries = ok (e ∷ entries)
checked_with (some t) e entries =
    if same_type t e.go_type then ok entries else err (failure "double registration")

abbrev pub insert_type : Entry → List Entry → Result (List Entry)
insert_type e entries =
    if e.version.version == ""
    then err (failure "version is required on all types")
    else checked_with (find entries e.version e.kind) e entries

abbrev pub insert_types : List Entry → List Entry → Result (List Entry)
insert_types [] entries = ok entries
insert_types (e ∷ es) entries = insert_type e entries >>= insert_types es

-- an entry of a type that follows the names
pub record IsNamed (named : GroupVersion → String → GoType) (e : Entry) : Type 0 where
  pub filled : (e.version.version == "") ≡ false
  pub same : named e.version e.kind ≡ e.go_type

module _ (named : GroupVersion → String → GoType) where
  abbrev pub Fits : List Entry → Type 0
  Fits entries =
      (v : GroupVersion) (kind : String) (t : GoType)
      → find entries v kind ≡ some t
      → named v kind ≡ t

  pub record Grows (es entries : List Entry) (r : Result (List Entry)) : Type 0 where
    pub after : List Entry
    pub returns : r ≡ ok after
    pub fits : Fits after
    pub keeps :
        (v : GroupVersion) (kind : String) (t : GoType)
        → find entries v kind ≡ some t
        → find after v kind ≡ some t
    pub there : (e : Entry) → Memᴰ e es → find after e.version e.kind ≡ some e.go_type

  is_at-same :
      (e : Entry) (v : GroupVersion) (kind : String)
      → is_at e v kind ≡ true
      → (e.version ≡ v) × (e.kind ≡ kind)
  is_at-same e v kind h = (
    ap₂ (λ g w. record { group = g; version = w })
        ((eq_iff e.version.group v.group).0 (ground arith))
        ((eq_iff e.version.version v.version).0 (ground arith)),
    (eq_iff e.kind kind).0 (ground arith),
  )

  is_at_self : (e : Entry) → is_at e e.version e.kind ≡ true
  is_at_self e = ground (arith, eq_self e.version.group, eq_self e.version.version, eq_self e.kind)

  same_type_self : (t : GoType) → same_type t t ≡ true
  same_type_self t = ground (arith, eq_self t.path, eq_self t.name)

  -- a kind that has no type yet gets one
  pushed :
      (e : Entry) (entries : List Entry)
      → IsNamed named e
      → find entries e.version e.kind ≡ none
      → Fits entries
      → Grows (e ∷ []) entries (insert_type e entries)
  pushed e entries h new fits = record {
    after = e ∷ entries;
    returns = rw (h.filled, new) refl;
    fits = λ v kind t found. elim (Bool-cases (is_at e v kind)) [
      | inl at ↦
          let (v_same, kind_same) = is_at-same e v kind at in
          let known : some e.go_type ≡ some t =
            sym (ap (λ b. if b then some e.go_type else find entries v kind) at) ∙ found in
          ap₂ named (sym v_same) (sym kind_same) ∙ h.same ∙ some-injective _ _ known
      | inr off ↦
          fits v kind t
            (sym (ap (λ b. if b then some e.go_type else find entries v kind) off) ∙ found)
    ];
    keeps = λ v kind t found. elim (Bool-cases (is_at e v kind)) [
      | inl at ↦
          let (v_same, kind_same) = is_at-same e v kind at in
          let unknown : find entries v kind ≡ none =
            ap₂ (find entries) (sym v_same) (sym kind_same) ∙ new in
          absurd (ground (arith, unknown, found))
      | inr off ↦ ap (λ b. if b then some e.go_type else find entries v kind) off ∙ found
    ];
    there = λ e' m.
        let same = Memᴰ.eq_of_singleton m in
        subst (λ d. find (e ∷ entries) d.version d.kind ≡ some d.go_type) (sym same)
          (ap (λ b. if b then some e.go_type else find entries e.version e.kind) (is_at_self e));
  }

  -- a kind that has the type already keeps it
  kept :
      (e : Entry) (entries : List Entry) (t : GoType)
      → IsNamed named e
      → find entries e.version e.kind ≡ some t
      → Fits entries
      → Grows (e ∷ []) entries (insert_type e entries)
  kept e entries t h found fits =
      let same : t ≡ e.go_type = sym (fits e.version e.kind t found) ∙ h.same in
      let again : same_type t e.go_type ≡ true =
        subst (λ u. same_type t u ≡ true) same (same_type_self t) in
      record {
        after = entries;
        returns = rw (h.filled, found, again) refl;
        fits = fits;
        keeps = λ v kind u known. known;
        there = λ e' m.
            subst (λ d. find entries d.version d.kind ≡ some d.go_type)
              (sym (Memᴰ.eq_of_singleton m)) (found ∙ ap some same);
      }

  insert_type-Grows :
      (e : Entry) (entries : List Entry)
      → IsNamed named e
      → Fits entries
      → Grows (e ∷ []) entries (insert_type e entries)
  insert_type-Grows e entries h fits = elim (Option-cases (find entries e.version e.kind)) [
    | inl new ↦ pushed e entries h new fits
    | inr (t, found) ↦ kept e entries t h found fits
  ]

  pub insert_types-Grows :
      (es entries : List Entry)
      → ((e : Entry) → Memᴰ e es → IsNamed named e)
      → Fits entries
      → Grows es entries (insert_types es entries)
  insert_types-Grows [] entries h fits = record {
    after = entries;
    returns = refl;
    fits = fits;
    keeps = λ v kind t known. known;
    there = λ e m. elim m [ ];
  }
  insert_types-Grows (e ∷ es) entries h fits =
      let first = insert_type-Grows e entries (h e (Memᴰ.head refl)) fits in
      let others = insert_types-Grows es first.after (λ d m. h d (Memᴰ.tail m)) first.fits in
      record {
        after = others.after;
        returns = ap (λ r. r >>= insert_types es) first.returns ∙ others.returns;
        fits = others.fits;
        keeps = λ v kind t known. others.keeps v kind t (first.keeps v kind t known);
        there = λ d m. elim m [
          | Memᴰ.head same ↦
              others.keeps d.version d.kind d.go_type (first.there d (Memᴰ.head same))
          | Memᴰ.tail m' ↦ others.there d m'
        ];
      }
