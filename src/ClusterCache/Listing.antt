-- ===== src/ClusterCache/Listing.antt =====
-- pkg/cache/managedcluster.go, `List` and `ListResources`, over a lister that is an index by name.
use mathlib.Core.List.{Memᴰ, append-nil, append_assoc}
use mathlib.Core.List.Memᴰ
use clusterset_server.Base.{
  ◌≡◌, refl, sym, ◌∙◌, ◌↔◌, Bool, true, ◌||◌, List, [], ◌∷◌, ◌++◌, String, ◌==◌, StringMap, arith,
  Error, ok, err, is_not_found, Result-cases, Bool-cases, inl, inr, if◌then◌else◌, any, any-append,
  ap, contains_iff,
}
use clusterset_server.Platform.{Platform}
use clusterset_server.Objects.{Object, UserInfo}
use clusterset_server.AuthCache.Records.{ReviewRequest}
use clusterset_server.AuthCache.Names.{list_names}
use clusterset_server.AuthCache.State.{AuthCache}
use clusterset_server.AuthCache.Coverage.{listed}
use clusterset_server.ClusterCache.{Lister, request_of, requests_from, list_from, list}

-- The documented behaviour of a lister over an index by name: it gets what it lists, and misses
-- are reported as not found.
pub record IsLister (lister : Lister) (objects : List Object) : Type 0 where
  pub listed_all : lister.list_all ≡ ok objects
  pub gets : (n : String) (c : Object) → (lister.get n ≡ ok c) ↔ (Memᴰ c objects × (c.name ≡ n))
  pub misses : (n : String) (e : Error) → lister.get n ≡ err e → is_not_found e ≡ true

-- the names of objects
abbrev pub named : List Object → String → Bool
named objects n = any (λ c. c.name == n) objects

module _ (lister : Lister) (selector : StringMap → Bool) where
  -- the objects that the loop appends
  kept : List String → List Object
  kept [] = []
  kept (key ∷ names) =
      let rest = kept names in
      elim (lister.get key) [ err e ↦ rest | ok c ↦ if selector c.labels then c ∷ rest else rest ]

  module _ (objects : List Object) (h : IsLister lister objects) where
    list_from-kept :
        (items : List Object) (names : List String)
        → list_from lister selector items names ≡ ok (items ++ kept names)
    unfolding list_from kept
    list_from-kept items [] = ap ok (sym (append-nil items))
    list_from-kept items (key ∷ names) = elim (Result-cases (lister.get key)) [
      | inl (c, found) ↦ ground (
        arith,
        list_from-kept items names,
        list_from-kept (items ++ c ∷ []) names,
        append_assoc items (c ∷ []) (kept names),
      )
      | inr (e, missing) ↦ ground (arith, h.misses key e missing, list_from-kept items names)
    ]

  mem_of_mem-kept :
      (names : List String) (c : Object)
      → Memᴰ c (kept names)
      → (n : String) × Memᴰ n names × (lister.get n ≡ ok c) × (selector c.labels ≡ true)
  unfolding kept
  mem_of_mem-kept [] c m = elim m [ ]
  mem_of_mem-kept (key ∷ names) c m = elim (Result-cases (lister.get key)) [
    | inr (e, missing) ↦
        let (n, k, found_n, selected_n) = mem_of_mem-kept names c (rw (missing, kept) at m) in
        (n, Memᴰ.tail k, found_n, selected_n)
    | inl (d, found) ↦ elim (Bool-cases (selector d.labels)) [
      | inr denied ↦
          let (n, k, found_n, selected_n) =
            mem_of_mem-kept names c (rw (found, denied, kept) at m) in
          (n, Memᴰ.tail k, found_n, selected_n)
      | inl selected ↦ elim (Memᴰ.cases_cons (rw (found, selected, kept) at m)) [
        | inl e ↦
            (key, Memᴰ.head refl, found ∙ ap ok (sym e), ap (λ x. selector x.labels) e ∙ selected)
        | inr later ↦
            let (n, k, found_n, selected_n) = mem_of_mem-kept names c later in
            (n, Memᴰ.tail k, found_n, selected_n)
      ]
    ]
  ]

  mem-kept :
      (names : List String) (n : String) (c : Object)
      → Memᴰ n names
      → lister.get n ≡ ok c
      → selector c.labels ≡ true
      → Memᴰ c (kept names)
  unfolding kept
  mem-kept [] n c m found selected = elim m [ ]
  mem-kept (key ∷ names) n c (Memᴰ.head e) found selected =
      let found' : lister.get key ≡ ok c = ap lister.get (sym e) ∙ found in
      rw (found', selected, kept) (Memᴰ.head refl)
  mem-kept (key ∷ names) n c (Memᴰ.tail m) found selected =
      let later = mem-kept names n c m found selected in
      elim (Result-cases (lister.get key)) [
        | inr (e, missing) ↦ rw (missing, kept) later
        | inl (d, other) ↦ elim (Bool-cases (selector d.labels)) [
          | inl s ↦ rw (other, s, kept) (Memᴰ.tail later)
          | inr s ↦ rw (other, s, kept) later
        ]
      ]

module _ ⦃P : Platform⦄ where
  open P use {has, range, contains-range}

  -- Listing succeeds, and lists exactly the objects that the lister lists, whose names the cache
  -- lets the user see and whose labels the selector matches.
  pub list_exact :
      (lister : Lister) (objects : List Object) (ac : AuthCache) (user : UserInfo)
      (selector : StringMap → Bool)
      → IsLister lister objects
      → (items : List Object) × (list lister ac user selector ≡ ok items)
        × ((c : Object)
            → Memᴰ c items ↔ (
                Memᴰ c objects
                × (has (list_names ac user) c.name ≡ true)
                × (selector c.labels ≡ true)))
  unfolding list
  list_exact lister objects ac user selector h =
      let names = range (list_names ac user) in
      (
        kept lister selector names,
        list_from-kept lister selector objects h [] names,
        λ c. (
          λ m.
              let (n, k, found, selected) = mem_of_mem-kept lister selector names c m in
              let (there, same) = (h.gets n c).0 found in
              (
                there,
                ground (
                  arith,
                  contains-range (list_names ac user) c.name,
                  same,
                  (contains_iff names n).1 k,
                ),
                selected,
              ),
          λ (there, visible, selected).
              mem-kept lister selector names c.name c
                ((contains_iff names c.name).0
                  (contains-range (list_names ac user) c.name ∙ visible))
                ((h.gets c.name c).1 (there, refl)) selected,
        ),
      )

-- The requests for a review are those of the objects.
requests_from-listed :
    (reqs : List ReviewRequest) (objects : List Object) (n : String)
    → listed (requests_from reqs objects) n ≡ (listed reqs n || named objects n)
unfolding requests_from any
requests_from-listed reqs [] n = ground arith
requests_from-listed reqs (c ∷ objects) n = ground (
  arith,
  requests_from-listed (reqs ++ request_of c ∷ []) objects n,
  any-append (λ r. r.name == n) reqs (request_of c ∷ []),
)

pub listed-requests_from :
    (objects : List Object) (n : String) → listed (requests_from [] objects) n ≡ named objects n
unfolding any
listed-requests_from objects n = requests_from-listed [] objects n
