-- ===== src/AuthCache/Coverage.antt =====
-- pkg/cache/common.go, `syncResources` and `syncRequest`: which names have a record after a run.
use mathlib.Core.Path.{subst}
use clusterset_server.Base.{
  ◌≡◌, refl, sym, ◌∙◌, inl, inr, Bool, true, false, ◌||◌, Bool-cases, Option, none, some, List, [],
  ◌∷◌, String, ◌==◌, eq_self, eq-cases, arith, Result, ok, err, any, contains_singleton,
}
use clusterset_server.Platform.{Platform}
use clusterset_server.Rbac.Reviewer.{Review}
use clusterset_server.AuthCache.Records.{ReviewRequest, ReviewRecord, review_record_key}
use clusterset_server.AuthCache.Review.{skip_review, last_known}
use clusterset_server.AuthCache.Consistency.{find_record, find-apply_review}
use clusterset_server.AuthCache.State.{Outcome, done, stuck, M, ◌>>=◌, Surroundings, AuthCache}
use clusterset_server.AuthCache.Keeps.{
  Ends, Keeps-of_IgnoresWatchers, IsSyncInvariant, Keeps-bind, Keeps-pure, Keeps-sync_each,
}
use clusterset_server.AuthCache.Request.{sync_request, sync_known, sync_review, apply_review}
use clusterset_server.AuthCache.Sync.{sync_each}

-- Is the name among those of the requests?
abbrev pub listed : List ReviewRequest → String → Bool
listed requests n = any (λ r. r.name == n) requests

abbrev pub has_record : Option ReviewRecord → Bool
has_record none = false
has_record (some r) = true

has_record_of_skip :
    (request : ReviewRequest) (last : Option ReviewRecord)
    → skip_review (some request) last ≡ true
    → has_record last ≡ true
unfolding skip_review
has_record_of_skip request none h = ground arith
has_record_of_skip request (some r) h = refl

module _ ⦃P : Platform⦄ where
  open P use {
    StringSet, find, has, empty, insert_all, items, delete, find-delete, find-add,
    mem-items_of_find, key_of_find, has-insert_all, has-empty, find_error-none,
  }

  -- `Q` holds of a step that returns.
  abbrev pub Returns : {A : Type 0} → (A → AuthCache → Type 0) → Outcome A → Type 0
  Returns Q (done a ac) = Q a ac
  Returns Q (stuck ac) = Unit

  pub Returns-bind :
      {A B : Type 0} (m : M A) (f : A → M B) (Q : A → AuthCache → Type 0)
      (R : B → AuthCache → Type 0) (ac : AuthCache)
      → Returns Q (m ac)
      → ((a : A) (ac' : AuthCache) → Q a ac' → Returns R (f a ac'))
      → Returns R ((m >>= f) ac)
  Returns-bind m f Q R ac h k = go (m ac) h
    where
      go :
          (o : Outcome _)
          → Returns Q o
          → Returns R (elim o [ done a ac ↦ f a ac | stuck ac ↦ stuck ac ])
      go (done a ac') q = k a ac' q
      go (stuck ac') q = tt

  pub Returns-of_Ends :
      {A : Type 0} (o : Outcome A) (I : AuthCache → Type 0) → Ends I I o → Returns (λ _. I) o
  Returns-of_Ends (done a ac) I h = h
  Returns-of_Ends (stuck ac) I h = tt

  pub Returns-of_imp :
      {A : Type 0} (o : Outcome A) (X : Type 0) (I : AuthCache → Type 0)
      → (X → Ends I I o)
      → Returns (λ _ ac. X → I ac) o
  Returns-of_imp (done a ac) X I h = h
  Returns-of_imp (stuck ac) X I h = tt

  pub Returns-both :
      {A : Type 0} (o : Outcome A) (Q Q' R : A → AuthCache → Type 0)
      → Returns Q o
      → Returns Q' o
      → ((a : A) (ac : AuthCache) → Q a ac → Q' a ac → R a ac)
      → Returns R o
  Returns-both (done a ac) Q Q' R q q' f = f a ac q q'
  Returns-both (stuck ac) Q Q' R q q' f = tt

  -- The cache has a record of the name.
  abbrev pub Records : String → AuthCache → Type 0
  Records n ac = has_record (find_record ac n) ≡ true

  pub Records-IsSyncInvariant :
      (s : Surroundings) (n : String) → IsSyncInvariant s (Records n) (Records n)
  Records-IsSyncInvariant s n = record {
    at_notify = Keeps-of_IgnoresWatchers s (Records n) (λ ac watchers h. h);
    at_review = λ ac request review _ h.
        ground (arith, find-apply_review request (find_record ac request.name) review ac n);
  }

  -- The reviewer reviews every name.
  abbrev pub ReviewsAll : Surroundings → (String → Review) → Type 0
  ReviewsAll s review = (n : String) → s.reviewer s.group s.resource n ≡ ok (review n)

  -- The names are those so far and those of the requests, and each of these has a record.
  abbrev pub Covers : StringSet → List ReviewRequest → String → StringSet → AuthCache → Type 0
  Covers names requests n names' ac' =
      (has names' n ≡ (has names n || listed requests n))
      × (listed requests n ≡ true → Records n ac')

  module _ (s : Surroundings) (review : String → Review) (total : ReviewsAll s review) where
    -- Whatever comes of it, a request leaves a record of its name.
    sync_review-Records :
        (request : ReviewRequest) (last : Option ReviewRecord) (o : Result Review) (ac : AuthCache)
        → o ≡ ok (review request.name)
        → Ends (Records request.name) (Records request.name) (sync_review s request last o ac)
    unfolding sync_review
    sync_review-Records request last (err e) ac h = ground arith
    sync_review-Records request last (ok v) ac h =
        let I = Records request.name in
        (Keeps-bind {I = I} {J = I} _ _
            (Keeps-of_IgnoresWatchers s I (λ ac' watchers h'. h') request.name _ _
              (inl (v, total request.name ∙ sym h, refl, refl)))
            (λ _. Keeps-pure none)).at
          (apply_review request last v ac)
          (ground (arith, eq_self request.name, find-apply_review request last v ac request.name))

    sync_known-Records :
        (request : ReviewRequest) (last : Option ReviewRecord) (ac : AuthCache)
        → find_record ac request.name ≡ last
        → Ends (Records request.name) (Records request.name) (sync_known s request last ac)
    unfolding sync_known
    sync_known-Records request last ac found = elim (Bool-cases (skip_review (some request) last)) [
      | inl skipped ↦ rw (skipped, sync_known) (rw found (has_record_of_skip request last skipped))
      | inr wanted ↦
          rw (wanted, sync_known) (sync_review-Records request last _ ac (total request.name))
    ]

    sync_request-Records :
        (request : ReviewRequest) (ac : AuthCache)
        → Ends (Records request.name) (Records request.name) (sync_request s request ac)
    unfolding sync_request last_known
    sync_request-Records request ac =
        rw
          (
            find_error-none review_record_key ac.review_records request.name,
            sync_request,
            last_known,
          )
          (sync_known-Records request _ ac refl)

    -- The loop over the requests returns their names, and leaves a record of each.
    pub sync_each-Covers :
        (names : StringSet) (requests : List ReviewRequest) (ac : AuthCache) (n : String)
        → Returns (Covers names requests n) (sync_each s names requests ac)
    unfolding sync_each any
    sync_each-Covers names [] ac n = (ground arith, λ h. ground arith)
    sync_each-Covers names (request ∷ requests) ac n =
        let names₁ = insert_all names (request.name ∷ []) in
        let inserted = has-insert_all names (request.name ∷ []) n in
        Returns-bind (sync_request s request) (λ _. sync_each s names₁ requests)
          (λ _ ac₁. Records request.name ac₁) _ ac
          (Returns-of_Ends (sync_request s request ac) (Records request.name)
            (sync_request-Records request ac))
          (λ _ ac₁ here.
            Returns-both (sync_each s names₁ requests ac₁) (Covers names₁ requests n)
              (λ _ ac'. Records request.name ac') _ (sync_each-Covers names₁ requests ac₁ n)
              (Returns-of_Ends (sync_each s names₁ requests ac₁) (Records request.name) (
                (Keeps-sync_each s (Records request.name) (Records request.name)
                    (Records-IsSyncInvariant s request.name) names₁ requests).at
                  ac₁ here))
              (λ names' ac' q kept. (
                ground (arith, inserted, contains_singleton request.name n),
                λ h. elim (eq-cases request.name n) [
                  | inl (e, same) ↦ subst (λ m. Records m ac') same kept
                  | inr (e, other) ↦ q.1 (ground arith)
                ],
              )))
