-- ===== src/Server/Interleaved/Hidden.antt =====
-- pkg/cmd/server.go: a name that the reviewer does not grant a user, at every access of a run.
use mathlib.Core.List.{Memᴰ}
use mathlib.Core.Path.{subst}
use clusterset_server.Base.{
  ◌≡◌, refl, sym, ◌∙◌, true, false, ◌&&◌, ◌||◌, ◌==◌, eq_iff, eq-cases, Bool-cases, inl, inr, List,
  [], ◌∷◌, String, any, any_of_mem, contains, contains_iff, ok, arith,
}
use clusterset_server.Platform.{Platform}
use clusterset_server.Objects.{UserInfo}
use clusterset_server.Rbac.Reviewer.{Review}
use clusterset_server.AuthCache.Consistency.{new_auth_cache-IsConsistent}
use clusterset_server.AuthCache.Exactness.{grants}
use clusterset_server.AuthCache.Granted.{Denies, shows-none}
use clusterset_server.AuthCache.Listing.{has-list_names, list_names_exact}
use clusterset_server.AuthCache.Names.{list_names}
use clusterset_server.AuthCache.Records.{SubjectRecord, review_record_key}
use clusterset_server.AuthCache.State.{Surroundings, AuthCache, new_auth_cache}
use clusterset_server.AuthCache.Subjects.{
  holds, add_subject, delete_resource, holds-add_subject, holds-delete_resource,
}
use clusterset_server.AuthCache.Program.{
  Write, delete_user, delete_group, add_user, add_group, put_record, drop_record, end_run, written,
}
use clusterset_server.AuthCache.Program.Rights.{Rights, IsForRun}
use clusterset_server.ClusterCache.Silence.{notice_denied, denied-empty}

module _ ⦃P : Platform⦄ (user : UserInfo) (n : String) where
  open P use {StringSet, Store, has, has_any, find-new_store}

  -- The write does not give the name to the user or to a group of the user.
  abbrev pub Withholds : Write → Type 0
  Withholds (add_user subject name) = (subject == user.name && name == n) ≡ false
  Withholds (add_group subject name) = (contains user.groups subject && name == n) ≡ false
  Withholds w = Unit

  -- What a run may do that reads only what does not grant the user the name.
  abbrev pub withholding : Rights
  withholding = record {
    read = λ s. Denies s user n;
    write = Withholds;
    notice =
        λ name users groups. name ≡ n → (has users user.name || has_any groups user.groups) ≡ false;
  }

  denied_at :
      (s : Surroundings) (name : String) (v : Review)
      → Denies s user n
      → s.reviewer s.group s.resource name ≡ ok v
      → name ≡ n
      → grants v user ≡ false
  denied_at s name v denies reviewed same =
      denies v (subst (λ m. s.reviewer s.group s.resource m ≡ ok v) same reviewed)

  adds_user-Withholds :
      (s : Surroundings) (name subject : String) (v : Review)
      → Denies s user n
      → s.reviewer s.group s.resource name ≡ ok v
      → Memᴰ subject v.users
      → Withholds (add_user subject name)
  adds_user-Withholds s name subject v denies reviewed m = elim (eq-cases name n) [
    | inr (e, other) ↦ ground (arith, e)
    | inl (e, same) ↦ ground (
      arith,
      denied_at s name v denies reviewed same,
      (contains_iff v.users subject).1 m,
      eq_iff subject user.name,
    )
  ]

  adds_group-Withholds :
      (s : Surroundings) (name subject : String) (v : Review)
      → Denies s user n
      → s.reviewer s.group s.resource name ≡ ok v
      → Memᴰ subject v.groups
      → Withholds (add_group subject name)
  adds_group-Withholds s name subject v denies reviewed m = elim (eq-cases name n) [
    | inr (e, other) ↦ ground (arith, e)
    | inl (e, same) ↦ elim (Bool-cases (contains user.groups subject)) [
      | inr outside ↦ ground (arith, outside)
      | inl inside ↦
          let named : any (contains v.groups) user.groups ≡ true =
            any_of_mem (contains v.groups) user.groups ((contains_iff user.groups subject).0 inside)
              ((contains_iff v.groups subject).1 m) in
          absurd (ground (arith, named, denied_at s name v denies reviewed same))
    ]
  ]

  pub withholding-IsForRun : IsForRun withholding
  withholding-IsForRun = record {
    deletes_user = λ subject name. tt;
    deletes_group = λ subject name. tt;
    drops = λ r. tt;
    ends = λ names state. tt;
    silences = λ name same. denied-empty user;
    adds_user = adds_user-Withholds;
    adds_group = adds_group-Withholds;
    puts = λ s request last v _ _. tt;
    tells = λ s name v denies reviewed same.
        notice_denied s user n name _ _ denies (inl (v, reviewed, refl, refl)) same;
  }

  any-add_subject :
      (store : Store SubjectRecord) (subject name : String) (groups : List String)
      → (contains groups subject && name == n) ≡ false
      → any (λ g. holds store g n) groups ≡ false
      → any (λ g. holds (add_subject store subject name) g n) groups ≡ false
  unfolding any contains
  any-add_subject store subject name [] h k = k
  any-add_subject store subject name (g ∷ groups) h k = ground (
    arith,
    holds-add_subject store subject name g n,
    eq_iff subject g,
    any-add_subject store subject name groups,
  )

  any-delete_resource :
      (store : Store SubjectRecord) (subject name : String) (groups : List String)
      → any (λ g. holds store g n) groups ≡ false
      → any (λ g. holds (delete_resource store subject name) g n) groups ≡ false
  unfolding any
  any-delete_resource store subject name [] k = k
  any-delete_resource store subject name (g ∷ groups) k = ground (
    arith,
    holds-delete_resource store subject name g n,
    any-delete_resource store subject name groups,
  )

  abbrev pub IsUnlisted : AuthCache → Type 0
  IsUnlisted ac = has (list_names ac user) n ≡ false

  -- A write that withholds the name leaves it unlisted.
  pub written-IsUnlisted :
      (w : Write) (ac : AuthCache) → Withholds w → IsUnlisted ac → IsUnlisted (written w ac)
  unfolding written
  written-IsUnlisted w ac h k = go w h
    where
      held :
          (holds ac.user_subject_records user.name n
            || any (λ g. holds ac.group_subject_records g n) user.groups)
          ≡ false
      held = sym (has-list_names ac user n) ∙ k

      go : (w : Write) → Withholds w → IsUnlisted (written w ac)
      go (delete_user subject name) h =
          has-list_names _ user n
          ∙ ground
              (arith, held, holds-delete_resource ac.user_subject_records subject name user.name n)
      go (delete_group subject name) h =
          has-list_names _ user n
          ∙ ground
              (arith, held, any-delete_resource ac.group_subject_records subject name user.groups)
      go (add_user subject name) h =
          has-list_names _ user n
          ∙ ground (arith, held, holds-add_subject ac.user_subject_records subject name user.name n)
      go (add_group subject name) h =
          has-list_names _ user n
          ∙ ground
              (arith, held, any-add_subject ac.group_subject_records subject name user.groups h)
      go (put_record r) h = has-list_names _ user n ∙ held
      go (drop_record r) h = has-list_names _ user n ∙ held
      go (end_run names state) h = has-list_names _ user n ∙ held

  pub new-IsUnlisted : IsUnlisted new_auth_cache
  new-IsUnlisted =
      list_names_exact new_auth_cache user n new_auth_cache-IsConsistent
      ∙ rw (find-new_store review_record_key n) (shows-none user)
