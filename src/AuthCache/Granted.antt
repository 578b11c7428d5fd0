-- ===== src/AuthCache/Granted.antt =====
-- pkg/cache/common.go: what a run keeps of a name that its reviewer does not grant a user.
use mathlib.Core.Path.{subst}
use clusterset_server.Base.{
  ◌≡◌, ◌∙◌, Bool, false, not, ◌&&◌, ◌||◌, Bool-cases, inl, inr, Option, none, some, String, ◌==◌,
  eq-cases, arith, any, any_none, ok,
}
use clusterset_server.Platform.{Platform}
use clusterset_server.Objects.{UserInfo}
use clusterset_server.Rbac.Reviewer.{Review}
use clusterset_server.AuthCache.Records.{ReviewRequest, ReviewRecord}
use clusterset_server.AuthCache.Review.{merged_record}
use clusterset_server.AuthCache.Consistency.{
  find_record, find-apply_review, reviews_user, reviews_group,
}
use clusterset_server.AuthCache.Keeps.{Keeps-of_IgnoresWatchers, after_of_Ends}
use clusterset_server.AuthCache.Runs.{IsInvariant, Keeps-synchronize}
use clusterset_server.AuthCache.Request.{apply_review}
use clusterset_server.AuthCache.State.{Surroundings, AuthCache, after}
use clusterset_server.AuthCache.Sync.{synchronize, purge_record}
use clusterset_server.AuthCache.Purge.{find-purge_record}
use clusterset_server.AuthCache.Exactness.{grants}

-- Does the record name the user or one of the user's groups?
abbrev pub shows : Option ReviewRecord → UserInfo → Bool
shows o user = reviews_user o user.name || any (λ g. reviews_group o g) user.groups

pub shows-none : (user : UserInfo) → shows none user ≡ false
shows-none user = any_none user.groups

module _ ⦃P : Platform⦄ where
  open P use {StringSet, has}

  module _ (s : Surroundings) (user : UserInfo) (n : String) where
    abbrev pub Denies : Type 0
    Denies = (v : Review) → s.reviewer s.group s.resource n ≡ ok v → grants v user ≡ false

    abbrev pub Hides : AuthCache → Type 0
    Hides ac = shows (find_record ac n) user ≡ false

    apply_review-Hides :
        (ac : AuthCache) (request : ReviewRequest) (v : Review)
        → Denies
        → s.reviewer s.group s.resource request.name ≡ ok v
        → Hides ac
        → Hides (apply_review request (find_record ac request.name) v ac)
    unfolding merged_record
    apply_review-Hides ac request v denies reviewed h =
        let last = find_record ac request.name in
        let found = find-apply_review request last v ac n in
        elim (eq-cases request.name n) [
          | inl (e, same) ↦
              let there : find_record (apply_review request last v ac) n
                  ≡ some (merged_record request last v) =
                found ∙ ground (arith, e) in
              let denied : grants v user ≡ false =
                denies v (subst (λ m. s.reviewer s.group s.resource m ≡ ok v) same reviewed) in
              rw there denied
          | inr (e, other) ↦
              let there : find_record (apply_review request last v ac) n ≡ find_record ac n =
                found ∙ ground (arith, e) in
              rw there h
        ]

    purge_record-Hides :
        (names : StringSet) (ac : AuthCache) (r : ReviewRecord)
        → Hides ac
        → Hides (purge_record names ac r)
    purge_record-Hides names ac r h = elim (Bool-cases (r.request.name == n && not (has names n))) [
      | inl gone ↦
          let missing : find_record (purge_record names ac r) n ≡ none =
            find-purge_record names ac r n ∙ ground (arith, gone) in
          rw missing (shows-none user)
      | inr kept ↦
          let there : find_record (purge_record names ac r) n ≡ find_record ac n =
            find-purge_record names ac r n ∙ ground (arith, kept) in
          rw there h
    ]

    -- A run whose reviewer does not grant the user the name leaves it hidden from the user.
    pub synchronize-Hides : (ac : AuthCache) → Denies → Hides ac → Hides (after (synchronize s ac))
    synchronize-Hides ac denies h =
        after_of_Ends Hides (synchronize s ac) ((Keeps-synchronize s Hides Hides invariant).at ac h)
      where
        invariant : IsInvariant s Hides Hides
        invariant = record {
          sync = record {
            at_notify = Keeps-of_IgnoresWatchers s Hides (λ ac' watchers h'. h');
            at_review =
                λ ac' request v reviewed h'. apply_review-Hides ac' request v denies reviewed h';
          };
          at_purge = λ ac' names r _ h'. purge_record-Hides names ac' r h';
          at_finish = λ ac' names state h'. h';
        }
